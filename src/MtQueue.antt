-- ===== src/MtQueue.antt =====
-- src/blocxx/MTQueue.hpp and MTQueue.cpp: a bounded queue that threads push to and pop from.
pub mod Defs
pub mod History
pub mod Wakeups
mod Tests
