-- ===== src/Client.antt =====
-- client/: the adapter through which NexTalk hands opaque bytes to the relay.
pub mod Adapter
pub mod Chunks
pub mod Sending
