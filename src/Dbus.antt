-- ===== src/Dbus.antt =====
-- What is sent over the bus: src/dbus/Types.h and Types.cpp.
pub mod Dto
