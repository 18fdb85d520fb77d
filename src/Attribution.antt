-- ===== src/Attribution.antt =====
-- Who owns a flow: src/backend/BirthCache.h and BpfBirthResolver.h, the deep-attribution queue and
-- its worker.
pub mod BirthCache
pub mod BirthResolver
pub mod Request
pub mod DeepQueue
pub mod Pass
pub mod Tuning
pub mod Worker
