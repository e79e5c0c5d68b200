-- ===== src/Store.antt =====
-- server/storage: the in-memory store of a shard.
pub mod Types
pub mod Mailboxes
pub mod Messages
pub mod Transfers
pub mod Resume
pub mod Downloads
pub mod Replay
pub mod Sweep
pub mod Guards
pub mod Valid
pub mod Uploads
pub mod Contract
