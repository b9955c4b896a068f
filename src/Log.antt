-- ===== src/Log.antt =====
-- log/log.cpp and log/Log.h, class kv_log: the log files of the server.
pub mod Format
pub mod Write
pub mod Stamp
pub mod Files
