-- ===== src/Protocol.antt =====
-- protocol/: the wire contract that router, shard and clients share.
pub mod Limits
pub mod Errors
pub mod Messages
pub mod Validate
pub mod Wire
pub mod Codec
pub mod ShardList
pub mod Control
pub mod Responses
pub mod Auth
