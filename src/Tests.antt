-- ===== src/Tests.antt =====
-- Runs of the models on small inputs.
mod Data
mod Agent
mod Aggregate
mod Birth
mod Connections
mod Container
mod Deep
mod Filter
mod Flow
mod Grouping
mod Idle
mod Interfaces
