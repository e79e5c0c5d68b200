-- ===== src/Router.antt =====
-- server/router/: registration, resolution and the routing table.
pub mod State
pub mod Handler
pub mod Owner
pub mod Registration
