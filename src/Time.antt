-- ===== src/Time.antt =====
-- Durations and broken-down times: src/blocxx/TimeDuration.cpp, DivRem.hpp and TmUtils.cpp.
pub mod Calendar
pub mod DateTime
pub mod DivRem
pub mod Duration
pub mod Period
pub mod Tm
mod Tests
