-- ===== src/Bridge.antt =====
-- transports/filerelay/bridge/: the process that speaks for a NexTalk client to router and shards.
pub mod Url
pub mod Rpc
pub mod RpcFile
pub mod State
pub mod Transfers
pub mod Creation
pub mod Bindings
