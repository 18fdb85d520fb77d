-- ===== src/Capture.antt =====
-- What the monitors make of the entries of the kernel's connection table.
pub mod Orient
pub mod TopK
