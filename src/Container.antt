-- ===== src/Container.antt =====
-- Containers by the path of a control group: src/backend/linux/CgroupParse.h. The regular expressions are
-- written out as functions on texts that hold no newline.
pub mod Text
pub mod Classify
