-- ===== src/Agent.antt =====
-- The agent: its managers of client hints, src/agent/AttributionHintManager.cpp and
-- src/agent/IdleManager.cpp, and its service of flows, src/agent/ConnectionsService.cpp.
pub mod Table
pub mod Hints
pub mod Idle
pub mod Snapshot
pub mod Details
pub mod Connections
