-- ===== src/Protocol/Chunked.antt =====
-- The chunked body decoder of src/protocol/response.rs.
pub mod Defs
pub mod Run
pub mod Stream
pub mod Reads
pub mod Grammar
pub mod Body
