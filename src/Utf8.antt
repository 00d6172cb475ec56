-- ===== src/Utf8.antt =====
-- src/blocxx/UTF8Utils.cpp: conversions between UTF-8 and code points, and case mapping.
pub mod Table
pub mod Codec
pub mod Text
pub mod Ucs2
pub mod Case
mod Tests
