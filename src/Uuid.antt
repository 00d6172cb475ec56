-- ===== src/Uuid.antt =====
-- src/blocxx/UUID.cpp: the text of an identifier, and how identifiers are made.
pub mod Text
pub mod Generator
mod Tests
