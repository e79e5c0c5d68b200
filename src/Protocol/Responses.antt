-- ===== src/Protocol/Responses.antt =====
-- The answers of the shard on the wire, and the requests that carry no data
-- (protocol/messages.go and protocol/transfers.go).
pub mod Mail
pub mod Batch
pub mod Requests
pub mod Files
pub mod Resumption
