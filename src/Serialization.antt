-- ===== src/Serialization.antt =====
-- src/blocxx/BinarySerialization.hpp and .cpp: values as bytes on a stream, and back.
pub mod Stream
pub mod Values
