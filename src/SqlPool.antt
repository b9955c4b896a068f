-- ===== src/SqlPool.antt =====
-- CGImysql/sql_connection_pool.cpp: the pool of connections to a database.
pub mod Pool
pub mod Use
pub mod Counts
pub mod Waits
