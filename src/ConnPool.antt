-- ===== src/ConnPool.antt =====
-- utils/memory.h: the pool of connection objects, on the memory that it shares with them.
pub mod Blocks
pub mod Limits
pub mod End
