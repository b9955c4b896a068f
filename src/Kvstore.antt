-- ===== src/Kvstore.antt =====
-- kv_core/kvstore.cpp: the text protocol of the store, and its start and end.
pub mod Split
pub mod Decimal
pub mod Protocol
pub mod Words
pub mod Tokens
pub mod Commands
pub mod Switch
pub mod Refine
pub mod Messages
pub mod Errors
pub mod Requests
pub mod Restart
pub mod Session
pub mod Durable
pub mod Abstract
