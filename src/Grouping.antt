-- ===== src/Grouping.antt =====
-- The tree of groups of flows: src/ui/ConnectionGroupProxy.h and ConnectionGroupProxy.cpp.
pub mod Arg
pub mod Keys
pub mod Groups
pub mod Order
pub mod Source
pub mod Tree
pub mod Proxy
pub mod View
