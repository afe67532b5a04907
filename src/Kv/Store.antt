-- ===== src/Kv/Store.antt =====
-- The key-value store over a connection (crates/rdows-kv/src/kv.rs).
use rdows.Prelude.{
  ℕ, zero, suc, ◌+◌, ◌*◌, ◌%◌, List, [], ◌∷◌, ◌++◌, Bool, true, false, Option, none, some, Result,
  add_uint, length, ltb, ◌==◌, if◌then◌else◌,
}
use rdows.Prelude.Actions.{Action, pure, fail, lift, this, modify, zoom, with_error, ◌>>=◌, ◌>>◌}
use rdows.Core.Error.{RdowsError}
use rdows.Bytes.Texts.{text, same}
use rdows.Client.Wire.{Env}
use rdows.Client.Connection.{Client, poll_completions}
use rdows.Client.Verbs.{rdma_read, rdma_write, read_local_mr, write_local_mr}
use rdows.Kv.Slot.{
  KvError, rdma, table_full, key_too_long, value_too_long, slot_count, slot_size, max_key_len,
  max_value_len, hash_key, encode_slot, decode_slot, empty_slot,
}
use rdows.Kv.Dump.{slot_hex_lines}
use rdows.Kv.Results.{
  PutResult, GetResult, DeleteResult, SlotInfo, offset_text, Probe, vacant, found, exhausted,
}

pub record KvStore (N : Type 0) : Type 0 where
  pub conn : Client N
  pub remote_rkey : ℕ
  pub local_lkey : ℕ
  pub session_id : ℕ
  pub remote_rkey_value : ℕ
  pub next_wrid : ℕ

-- `KvStore::new`
unfoldable pub new_kv_store : {N : Type 0} → Client N → ℕ → ℕ → ℕ → KvStore N
new_kv_store conn session_id remote_rkey local_lkey = record {
  conn = conn;
  remote_rkey = remote_rkey;
  local_lkey = local_lkey;
  session_id = session_id;
  remote_rkey_value = remote_rkey;
  next_wrid = 1;
}

module _ {N : Type 0} (env : Env N) where
  abbrev pub KvAction : Type 0 → Type 0
  KvAction A = Action KvError (KvStore N) A

  unfoldable pub on_conn : {A : Type 0} → Action RdowsError (Client N) A → KvAction A
  on_conn m = with_error rdma (zoom (λ s. s.conn) (λ c s. record s { conn = c }) m)

  unfoldable pub take_wrid : KvAction ℕ
  take_wrid = do
    s ← this
    next ← lift (add_uint env.prof 64 s.next_wrid 1)
    modify (λ s. record s { next_wrid = next })
    pure s.next_wrid

  -- `buf.copy_from_slice(&data)` into 1024 bytes.
  unfoldable pub as_slot : List ℕ → KvAction (List ℕ)
  as_slot bytes = if length bytes == slot_size then pure bytes else lift Result.panic

  unfoldable pub read_slot : ℕ → KvAction (List ℕ)
  read_slot slot_index = do
    wrid ← take_wrid
    s ← this
    on_conn (rdma_read env wrid s.remote_rkey (slot_index * slot_size) slot_size s.local_lkey 0)
    on_conn (poll_completions 1)
    bytes ← on_conn (read_local_mr env s.local_lkey 0 slot_size)
    as_slot bytes

  unfoldable pub write_slot : ℕ → List ℕ → KvAction (Unit {0})
  write_slot slot_index slot = do
    s ← this
    on_conn (write_local_mr env s.local_lkey 0 slot)
    wrid ← take_wrid
    on_conn (
        rdma_write env wrid s.remote_rkey (slot_index * slot_size)
          (record { lkey = s.local_lkey; offset = 0; length = slot_size } ∷ []))
    on_conn (poll_completions 1)
    pure tt

  -- The loop of `put`, `get` and `delete` up to the round in which it ends: `rounds` are left, and
  -- `i` are over.
  unfoldable pub probe : List ℕ → ℕ → ℕ → KvAction Probe
  probe key zero i = pure exhausted
  probe key (suc rounds) i = do
    let idx : ℕ = (hash_key key + i) % slot_count
    slot ← read_slot idx
    content ← lift (decode_slot slot)
    elim content [
      | none ↦ pure (vacant idx (i + 1))
      | some (k, v) ↦ elim (same k key) [
        | true ↦ pure (found idx (i + 1) v slot)
        | false ↦ probe key rounds (i + 1)
      ]
    ]

  unfoldable pub store_at : List ℕ → List ℕ → ℕ → ℕ → Bool → KvAction PutResult
  store_at key value idx probes update = do
    slot ← lift (encode_slot key value)
    write_slot idx slot
    pure (record {
      operation = text "RDMA_WRITE";
      slot = idx;
      offset = offset_text idx;
      bytes = slot_size;
      key = key;
      value = value;
      probes = probes;
      update = update;
    })

  unfoldable pub after_put_probe : List ℕ → List ℕ → Probe → KvAction PutResult
  after_put_probe key value (vacant idx probes) = store_at key value idx probes false
  after_put_probe key value (found idx probes v slot) = store_at key value idx probes true
  after_put_probe key value exhausted = fail table_full

  unfoldable pub put : List ℕ → List ℕ → KvAction PutResult
  put key value =
      if ltb max_key_len (length key)
      then fail key_too_long
      else if ltb max_value_len (length value)
      then fail value_too_long
      else (probe key slot_count 0 >>= after_put_probe key value)

  unfoldable pub after_get_probe : List ℕ → Probe → KvAction (Option GetResult)
  after_get_probe key (found idx probes v slot) = do
    lines ← lift (slot_hex_lines slot)
    pure (
        some (record {
          operation = text "RDMA_READ";
          slot = idx;
          offset = offset_text idx;
          bytes = slot_size;
          key = key;
          value = v;
          probes = probes;
          raw_hex = lines;
        }))
  after_get_probe key _ = pure none

  unfoldable pub get : List ℕ → KvAction (Option GetResult)
  get key = probe key slot_count 0 >>= after_get_probe key

  unfoldable pub deleted : List ℕ → List ℕ → ℕ → ℕ → Bool → DeleteResult
  deleted operation key idx probes is_found = record {
    operation = operation;
    slot = idx;
    offset = offset_text idx;
    bytes = slot_size;
    key = key;
    probes = probes;
    found = is_found;
  }

  unfoldable pub after_delete_probe : List ℕ → Probe → KvAction DeleteResult
  after_delete_probe key (vacant idx probes) =
      pure (deleted (text "RDMA_WRITE") key idx probes false)
  after_delete_probe key (found idx probes v slot) = do
    write_slot idx empty_slot
    pure (deleted (text "RDMA_WRITE") key idx probes true)
  after_delete_probe key exhausted =
      pure (deleted (text "RDMA_READ") key (hash_key key) slot_count false)

  unfoldable pub delete : List ℕ → KvAction DeleteResult
  delete key = probe key slot_count 0 >>= after_delete_probe key

  unfoldable pub slot_info : ℕ → Option (List ℕ × List ℕ) → SlotInfo
  slot_info idx none = record {
    index = idx;
    offset = offset_text idx;
    occupied = false;
    key = none;
    value = none;
  }
  slot_info idx (some (k, v)) = record {
    index = idx;
    offset = offset_text idx;
    occupied = true;
    key = some k;
    value = some v;
  }

  -- The loop of `dump_slots`, with the slots so far.
  unfoldable pub dump_from : ℕ → ℕ → List SlotInfo → KvAction (List SlotInfo)
  dump_from zero idx slots = pure slots
  dump_from (suc rounds) idx slots = do
    slot ← read_slot idx
    content ← lift (decode_slot slot)
    dump_from rounds (idx + 1) (slots ++ (slot_info idx content ∷ []))

  unfoldable pub dump_slots : KvAction (List SlotInfo)
  dump_slots = dump_from slot_count 0 []
