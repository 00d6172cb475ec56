-- ===== src/ThreadPool.antt =====
-- src/blocxx/ThreadPool.cpp: the queue of work, the threads that take from it, and shutting down.
pub mod Defs
pub mod Steps
pub mod History
pub mod Closing
pub mod Wakeups
pub mod Stranded
mod Tests
