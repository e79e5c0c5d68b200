-- ===== src/Shard.antt =====
-- server/shard/: the HTTP edge over the store.
pub mod Limiter
pub mod Http
pub mod Handler
pub mod Server
