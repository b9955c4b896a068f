-- ===== src/Hash.antt =====
-- kv_core/hash.cpp: the chained hash table, its operations, its file, and what they guarantee.
pub mod Chain
pub mod Table
pub mod Ops
pub mod Index
pub mod View
pub mod Write
pub mod Put
pub mod Delete
pub mod Modify
pub mod Destroy
pub mod Same
pub mod Disk
