-- ===== src/RwLock.antt =====
-- src/blocxx/GenericRWLockImpl.hpp: the read and write lock that the same thread may take again.
pub mod Defs
pub mod Events
pub mod Tally
pub mod Counts
pub mod Kept
pub mod Exclusion
pub mod Guarded
pub mod Reopening
mod Tests
