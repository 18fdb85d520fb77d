-- ===== src/Containers.antt =====
-- QHash as the program uses it.
pub mod Map
