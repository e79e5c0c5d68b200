-- ===== src/Tests.antt =====
-- The theorems applied to concrete mailboxes, transfers and requests.
mod Data
mod Nanopack
mod Protocol
mod Store
mod Shard
mod Control
mod Contract
mod Router
mod Client
mod Bridge
