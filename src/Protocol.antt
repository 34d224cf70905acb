-- ===== src/Protocol.antt =====
-- src/protocol/response.rs: the incremental decoder of HTTP responses.
pub mod Chunked
pub mod Head
pub mod Response
