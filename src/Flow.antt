-- ===== src/Flow.antt =====
-- src/backend/Connection.h, and the attribution records of src/backend/ProcessResolver.h.
-- A QHostAddress is an opaque identity here: addresses are numbered, and equality of the numbers
-- is QHostAddress::operator==. Text is the list of its UTF-16 units. Process ids are numbers: the
-- source's negative ids are all treated like 0, "not attributed".
pub mod Types
pub mod Wire
pub mod Key
pub mod Heuristics
