-- ===== src/LogPattern.antt =====
-- src/blocxx/LogMessagePatternFormatter.cpp: messages of a log written by a pattern.
pub mod Converters
pub mod Laws
pub mod Options
pub mod Parser
mod Tests
