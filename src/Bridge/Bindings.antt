-- ===== src/Bridge/Bindings.antt =====
-- What the bridge (transports/filerelay/bridge/xfer.go) knows of a transfer after it was restarted.
use nex_talk_file_relay.Base.{
  ℕ, ◌≡◌, ◌≢◌, refl, arith, ◌==◌, if◌then◌else◌, List, [], Option, none, some, Bytes, length,
  bytes_eq_iff, bytes_eq_refl, inl, inr, bytes_key,
}
use nex_talk_file_relay.Base.Map.{Map, AllValues, AllValues-insert, lookup, insert, lookup-insert}
use nex_talk_file_relay.Protocol.Errors.{Result, ok, Result-cases}
use nex_talk_file_relay.Protocol.Codec.{Field}
use nex_talk_file_relay.Bridge.State.{Bridge, TransferBind, created}
use nex_talk_file_relay.Bridge.RpcFile.{XferCreate, unmarshal_xfer_create}
use nex_talk_file_relay.Bridge.Transfers.{
  bind_for, bind_saved, save_binding, save_bindings, restarted,
}
use nex_talk_file_relay.Bridge.Creation.{destination, create_at, finish_create, on_xfer_create}

-- What is relied on of encoding/json for the bindings: a map whose URLs are text is encoded, and what
-- the encoding is decoded to has the same bindings.
abbrev pub KeepsText :
    (Map Bytes TransferBind → Option Bytes)
    → (Bytes → Option (Map Bytes TransferBind))
    → (Bytes → Type 0)
    → Type 0
KeepsText to_json of_json IsText =
    (m : Map Bytes TransferBind)
    → AllValues (λ bind. IsText bind.shard_url) m
    → (raw : Bytes) × (all : Map Bytes TransferBind) × (to_json m ≡ some raw)
      × (of_json raw ≡ some all)
      × ((id : Bytes) → lookup id all ≡ lookup id m)

-- Writing the file succeeds.
abbrev pub Writes : (Option Bytes → Bytes → Option Bytes) → Option Bytes → Type 0
Writes write_file held = (raw : Bytes) → write_file held raw ≡ some raw

module _ (to_json : Map Bytes TransferBind → Option Bytes)
    (write_file : Option Bytes → Bytes → Option Bytes)
    (of_json : Bytes → Option (Map Bytes TransferBind)) (IsText : Bytes → Type 0)
    (keeps : KeepsText to_json of_json IsText) where
  -- After a restart a transfer is bound as it was in memory when the file was written, if the binding
  -- has a mailbox ID.
  bind_for-save_binding :
      (id other : Bytes) (bind : TransferBind) (b : Bridge)
      → Writes write_file b.saved
      → IsText bind.shard_url
      → AllValues (λ held. IsText held.shard_url) b.transfers
      → (bind_for of_json other (restarted (save_binding to_json write_file id bind b))).0
        ≡ elim (lookup other (insert id bind b.transfers)) [
          | none ↦ none
          | some held ↦ if length held.mailbox_id == 16 then some held else none
        ]
  unfolding bind_for bind_saved save_binding save_bindings restarted lookup
  bind_for-save_binding id other bind b writes text texts =
      let m = insert id bind b.transfers in
      let (raw, all, encoded, decoded, same) =
        keeps m (AllValues-insert (λ held. IsText held.shard_url) id bind b.transfers text texts) in
      ground (arith, encoded, decoded, same other, writes raw)

module _ (encode_id : List Field → Result Bytes) (decode_id : Bytes → Result (List Field))
    (exchange : Bytes → Bytes → Option (ℕ × Bytes)) (sha256 : Bytes → Bytes) (sign : Bytes → Bytes)
    (courier_pub : Bytes) where
  destination-wide :
      (req : XferCreate) (b : Bridge) (mailbox_id shard_url : Bytes)
      → destination encode_id decode_id exchange sha256 sign courier_pub req b
        ≡ ok (mailbox_id, shard_url)
      → length mailbox_id ≡ 16
  unfolding destination
  destination-wide req b mailbox_id shard_url h = ground arith

  -- A creation that is answered has bound the transfer.
  create_binds :
      (to_json : Map Bytes TransferBind → Option Bytes)
      (write_file : Option Bytes → Bytes → Option Bytes) (drawn : Option Bytes) (ts : ℕ)
      (payload : Bytes) (b : Bridge) (id secret url : Bytes) (expires : ℕ)
      → (on_xfer_create encode_id decode_id exchange sha256 sign courier_pub to_json write_file
          drawn ts payload b).0
        ≡ created id secret url expires
      → (bind : TransferBind) × (bind.shard_url ≡ url)
        × (length bind.mailbox_id ≡ 16)
        × ((on_xfer_create encode_id decode_id exchange sha256 sign courier_pub to_json write_file
              drawn ts payload b).1
            ≡ save_binding to_json write_file id bind b)
  unfolding on_xfer_create finish_create
  create_binds to_json write_file drawn ts payload b id secret url expires h =
      elim (Result-cases (unmarshal_xfer_create decode_id payload)) [
        | inl (e, bad) ↦ absurd (ground (arith, h, bad))
        | inr (req, read) ↦
            let place = destination encode_id decode_id exchange sha256 sign courier_pub req b in
            elim (Result-cases place) [
              | inl (e, bad) ↦ absurd (ground (arith, h, read, bad))
              | inr ((mailbox_id, shard_url), found) ↦
                  let asked =
                    create_at encode_id decode_id exchange sha256 sign courier_pub req drawn ts
                      (mailbox_id, shard_url) in
                  elim (Result-cases asked) [
                    | inl (e, bad) ↦ absurd (ground (arith, h, read, found, bad))
                    | inr (res, given) ↦ (
                      record {
                        mailbox_id = mailbox_id;
                        shard_url = shard_url;
                        chunk_count = req.chunk_count;
                      },
                      ground (arith, h, read, found, given),
                      destination-wide req b mailbox_id shard_url found,
                      ground (arith, h, read, found, given),
                    )
                  ]
            ]
      ]

  module _ (to_json : Map Bytes TransferBind → Option Bytes)
      (write_file : Option Bytes → Bytes → Option Bytes)
      (of_json : Bytes → Option (Map Bytes TransferBind)) (IsText : Bytes → Type 0)
      (keeps : KeepsText to_json of_json IsText) where
    -- If transfers.json can be written, and the URLs of the bindings are texts that JSON keeps, then
    -- a creation that the bridge answers is found again after a restart, at the shard of the answer.
    pub on_xfer_create-bind_for :
        (drawn : Option Bytes) (ts : ℕ) (payload : Bytes) (b : Bridge) (id secret url : Bytes)
        (expires : ℕ)
        → Writes write_file b.saved
        → IsText url
        → AllValues (λ held. IsText held.shard_url) b.transfers
        → (on_xfer_create encode_id decode_id exchange sha256 sign courier_pub to_json write_file
            drawn ts payload b).0
          ≡ created id secret url expires
        → let after =
            (on_xfer_create encode_id decode_id exchange sha256 sign courier_pub to_json write_file
              drawn ts payload b).1 in
          (bind : TransferBind) × (bind.shard_url ≡ url)
          × ((bind_for of_json id (restarted after)).0 ≡ some bind)
    on_xfer_create-bind_for drawn ts payload b id secret url expires writes text texts h =
        let (bind, there, wide, bound) =
          create_binds to_json write_file drawn ts payload b id secret url expires h in
        let at_shard : IsText bind.shard_url = rw there text in
        let saved =
          bind_for-save_binding to_json write_file of_json IsText keeps id id bind b writes at_shard
            texts in
        let new = lookup-insert id id bind b.transfers in
        (bind, there, rw bound (ground (arith, saved, new, wide, bytes_eq_refl id)))

    -- A bridge that has no transfer in memory, as after its start, can write transfers.json and
    -- answers a creation, with a URL that JSON keeps, forgets every other transfer that the file
    -- named: after a restart no other ID is bound.
    pub on_xfer_create-forgets :
        (drawn : Option Bytes) (ts : ℕ) (payload : Bytes) (b : Bridge) (id secret url : Bytes)
        (expires : ℕ) (other : Bytes)
        → Writes write_file b.saved
        → IsText url
        → b.transfers ≡ []
        → (on_xfer_create encode_id decode_id exchange sha256 sign courier_pub to_json write_file
            drawn ts payload b).0
          ≡ created id secret url expires
        → id ≢ other
        → let after =
            (on_xfer_create encode_id decode_id exchange sha256 sign courier_pub to_json write_file
              drawn ts payload b).1 in
          (bind_for of_json other (restarted after)).0 ≡ none
    unfolding lookup
    on_xfer_create-forgets drawn ts payload b id secret url expires other writes text fresh h
          differ =
        let (bind, there, wide, bound) =
          create_binds to_json write_file drawn ts payload b id secret url expires h in
        let at_shard : IsText bind.shard_url = rw there text in
        let saved =
          bind_for-save_binding to_json write_file of_json IsText keeps id other bind b writes
            at_shard (rw fresh tt) in
        let new = lookup-insert id other bind b.transfers in
        let none_there : lookup other b.transfers ≡ none = rw fresh refl in
        rw bound (ground (arith, saved, new, none_there, bytes_eq_iff id other))
