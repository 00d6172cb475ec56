-- ===== src/Utf8/Case.antt =====
-- src/blocxx/UTF8Utils.cpp: upper and lower case, by tables and in place.
pub mod Defs
pub mod Lower
pub mod Upper
pub mod Lookup
pub mod Transform
