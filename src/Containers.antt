-- ===== src/Containers.antt =====
-- Containers of the library: src/blocxx/SortedVectorMap.hpp, and the orders that it is used with.
pub mod Ordering
pub mod SortedVectorMap
