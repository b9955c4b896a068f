-- ===== src/ThreadPool.antt =====
-- utils/threads_pool.cpp: the queue of tasks and its workers.
pub mod Steps
pub mod Order
pub mod Workers
pub mod Wakeups
pub mod Simulates
pub mod Futures
