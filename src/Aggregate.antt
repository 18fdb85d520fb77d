-- ===== src/Aggregate.antt =====
-- What the front ends show: src/aggregate/ConnectionAggregator.h and ConnectionAggregator.cpp.
pub mod Runs
pub mod Udp
pub mod Real
pub mod Rows
pub mod Update
pub mod Endpoints
pub mod Smoothing
pub mod Interfaces
