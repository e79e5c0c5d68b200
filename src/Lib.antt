-- ===== src/Lib.antt =====
-- NexTalk-FileRelay: a relay for encrypted messages and files. Clients address mailboxes, a shard
-- keeps queued envelopes and chunked transfers until they are fetched or run out, and a router tells
-- which shard a mailbox lives on.
--
-- The parts and their files:
-- * Base is what all share: Boolean tests on numbers, lists, byte strings, Go maps as association
--   lists (Base/Map).
-- * Protocol is protocol/. Limits and Errors are limits.go and errors.go; a fallible Go function
--   returns a `Result`. Messages are the request structs of schemas.go, messages.go, transfers.go and
--   control.go; Validate is their Validate functions; Wire is the big-endian numbers and the ranges.
--   Codec is the decoders of the requests with the encoders of those that carry data, and
--   Responses (Mail, Batch, Requests, Files, Resumption) the other messages of messages.go and
--   transfers.go. Control is control.go, and ShardList its list of shard addresses. Auth is the
--   canonical bytes, the signature checks and CheckSkew of auth.go, Auth/Derived the mailbox IDs and
--   the signed bytes of the routing table. Codec/Fields and Control/Fields hold what is shared about
--   decoded fields; the children named Bounds, Roundtrip, Tables, Skew and Canonical hold proofs.
-- * Store is server/storage/. Types is the data of store.go and memstore.go; Mailboxes, Messages,
--   Transfers, Resume, Downloads, Replay and Sweep are the methods of MemStore (`send_message` is
--   SendMessage, `put_chunk` is PutChunk, and so on). A method takes the clock reading, what the random
--   source gives and the store, and returns an `Outcome`: a result with the store that is left, also
--   after a failure. Transfers/Creation holds CreateTransfer and the quotas. Guards and Valid are
--   about the whole store, Uploads about files from upload to download. Contract is what a client may
--   rely on without knowing the store: a box of messages per mailbox, read off a store by Contents;
--   Simulation is about one operation and Refinement about sequences of them.
-- * Shard is server/shard/. Limiter is the fixed-window limiter, Http the request and the answer,
--   Handler one function per route (`handle_send` is handleSend) with its state and shared guards in
--   Handler/Parts, Server the wrapper of shard.go.
-- * Router is server/router/. State is the router, its shards with their stores, its answers and its
--   limiter; Handler one function per route; Owner and Registration are about which shard has a
--   mailbox.
-- * Client is client/. Adapter is adapter.go and time.go; Chunks and Sending set what it sends
--   against what the relay accepts.
-- * Bridge is transports/filerelay/bridge/. Url is joinURL; Rpc and RpcFile are the requests of rpc.go and
--   rpc_file.go; State is the bridge with the operations of main.go; Transfers and Creation are those of
--   xfer.go (`on_xfer_put` is onXferPut, and so on), Bindings is about the transfers that it knows.
-- * Tests applies the theorems to concrete data.
--
-- A handler decodes and checks a request (Protocol), asks the replay cache and the limiter, and calls
-- the store; each call of the store holds its mutex from start to end and is one step here. The router
-- calls the stores of its shards directly, as the source does.
--
-- Numbers are natural. A uint32, uint64 or int64 whose wrap-around can matter has it written out: the
-- chunk count and offset of an upload, the quotient of the geometry, the counts of an acknowledgement,
-- the difference of two clock readings. Sums of a clock reading and a time to live are not wrapped: the
-- clock is far below 2^63. A byte string is a list of numbers, and a [16]byte or [32]byte is one whose
-- length the code fixes.
--
-- The loops are structural recursion over the list they go through. The loops over chunk indices
-- (highest contiguous, bitmap, missing ranges) take the number of rounds left, which starts at the
-- chunk count; the cut of acknowledged IDs takes as many rounds as there are bytes, and each round
-- takes away sixteen. The decoder of the shard list and the split of a file into chunks take as many
-- rounds as there are bytes, and each round takes away at least one; the former answers with an error
-- of the model's own when the rounds run out.
--
-- Parameters: SHA-256, HMAC, Ed25519 signing and verification, the random source, the HTTP exchange of
-- the client and of the bridge, nanopack's encoder and decoder of fields, and for the bindings of the
-- bridge encoding/json and the writing of a file, which may fail. Where a theorem needs that nanopack
-- decodes what it encodes, that JSON keeps the bindings or that a file can be written, this is a named
-- hypothesis.
--
-- Not modelled: the encoding of an answer of the shard beyond the checks of its encoder (the handlers
-- answer with the response itself) and of an answer of the bridge, the address of the client in the HTTP
-- headers, the bridge's loop on standard input, its initialisation, its keys and the two registrations,
-- the command (cmd/), the unused disk store (internal/store/), the codec of errors, and the JavaScript
-- and WebAssembly packages.
pub mod Base
pub mod Protocol
pub mod Store
pub mod Shard
pub mod Router
pub mod Client
pub mod Bridge
pub mod Tests
