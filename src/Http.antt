-- ===== src/Http.antt =====
-- network/protocol_parser and network/connect_info/Request.h: requests, the HTTP parser, and the
-- factory that picks a parser by the first bytes.
pub mod View
pub mod Parser
pub mod Factory
pub mod Find
pub mod Select
pub mod Complete
pub mod Post
