-- ===== src/Protocol/Limits.antt =====
-- protocol/limits.go, and `MaxManifestBytes` of protocol/transfers.go. Sizes are in bytes.
use nex_talk_file_relay.Base.{ℕ}

abbrev pub max_message_bytes : ℕ
max_message_bytes = 32768

abbrev pub max_chunk_bytes : ℕ
max_chunk_bytes = 65536

abbrev pub max_file_bytes : ℕ
max_file_bytes = 1073741824

abbrev pub max_chunks_per_transfer : ℕ
max_chunks_per_transfer = 16384

abbrev pub max_active_transfers_per_mailbox : ℕ
max_active_transfers_per_mailbox = 16

abbrev pub max_queued_messages : ℕ
max_queued_messages = 100

abbrev pub max_stored_bytes_per_mailbox : ℕ
max_stored_bytes_per_mailbox = 16777216

abbrev pub max_request_bytes : ℕ
max_request_bytes = 131072

abbrev pub max_batch_messages : ℕ
max_batch_messages = 32

abbrev pub max_missing_ranges : ℕ
max_missing_ranges = 1024

abbrev pub max_manifest_bytes : ℕ
max_manifest_bytes = 4096

-- The times to live, in seconds as in the source.
abbrev pub msg_ttl_seconds : ℕ
msg_ttl_seconds = 1209600

abbrev pub mailbox_ttl_seconds : ℕ
mailbox_ttl_seconds = 31536000

abbrev pub upload_ttl_seconds : ℕ
upload_ttl_seconds = 86400

abbrev pub upload_ttl_max_seconds : ℕ
upload_ttl_max_seconds = 604800

abbrev pub complete_ttl_seconds : ℕ
complete_ttl_seconds = 1209600

abbrev pub replay_window_seconds : ℕ
replay_window_seconds = 90

abbrev pub max_clock_skew_millis : ℕ
max_clock_skew_millis = 30000

abbrev pub capability_ttl_seconds : ℕ
capability_ttl_seconds = 31536000

abbrev pub routing_table_ttl_seconds : ℕ
routing_table_ttl_seconds = 3600
