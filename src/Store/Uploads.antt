-- ===== src/Store/Uploads.antt =====
-- What the transfer operations of server/storage/memstore.go promise to uploader and downloader.
pub mod Chunks
pub mod Sealing
pub mod Tickets
pub mod Quota
pub mod Delivery
