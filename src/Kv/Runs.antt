-- ===== src/Kv/Runs.antt =====
-- A put and a get of a store over a connection to a session that has an empty table.
use rdows.Prelude.{
  ◌-◌, ◌++◌, none, length-append, ℕ, ◌*◌, ◌+◌, ◌≡◌, refl, List, [], ◌∷◌, some, true, wrapping,
  arith, replicate, length, length-replicate,
}
use rdows.Prelude
use rdows.Prelude.Actions.{ok}
use rdows.Prelude.Dict.{lookup, insert}
use rdows.Bytes.{from_be}
use rdows.Bytes.ListApi.{list_api-IsBufApi}
use rdows.Bytes.Ranges.{slice}
use rdows.Bytes.Utf8.{is_utf8}
use rdows.Core.Memory.{contains}
use rdows.Client.LocalMemory.{MemoryRegionHandle}
use rdows.Client.Connection.{Client}
use rdows.Server.Store.{MemoryRegionEntry, MemoryStore, new_store}
use rdows.Server.Store.Invariant.{IsValid, added, added-IsValid, new_store-IsValid}
use rdows.Server.Store.View.{view}
use rdows.Server.Session.{World}
use rdows.Server.Session.Examples.{env, established}
use rdows.Link.Defs.{Served, online, joined}
use rdows.Kv.Slot.{
  slot_count, slot_size, mr_size, hash_key, hash_loop, decode_slot, text_at, length_at,
}
use rdows.Kv.Results.{PutResult, GetResult, DeleteResult, vacant, found}
use rdows.Kv.Store.{KvStore, put, get, delete}
use rdows.Kv.Table.{InTable}
use rdows.Kv.Lookup.{find_in}
use rdows.Kv.ReadSlot.{slot_of}
use rdows.Kv.GetPut.{get-put}
use rdows.Kv.GetDelete.{get-delete, get-delete_other}
use rdows.Bytes.Texts.{text}
use rdows.Bytes.Utf8.{from_utf8_lossy}
use rdows.Client.LocalMemory.{range}

abbrev zeros : List ℕ
zeros = replicate mr_size 0

-- A slot with a key and a value of one and of two bytes, or of two and of one.
abbrev slot_with : ℕ → ℕ → List ℕ → List ℕ → List ℕ
slot_with k v key value =
    1 ∷ 0 ∷ k ∷ 0 ∷ v ∷ (key ++ (replicate (255 - k) 0 ++ (value ++ replicate (764 - v) 0)))

-- A table with the keys "E" and "al" in its first two slots. Both are looked up in slot 0 first.
abbrev two_keys : List ℕ
two_keys =
    slot_with 1 2 (text "E") (text "vw")
    ++ (slot_with 2 1 (text "al") (text "x") ++ replicate (62 * slot_size) 0)

abbrev start : MemoryStore
start = new_store 4 1048576

-- A session with that table under the R_Key 77, and a store that is connected to it.
abbrev entry : List ℕ → MemoryRegionEntry
entry content = record { pd = 5; lkey = 1; rkey = 77; access_flags = 14; content = content }

abbrev region : List ℕ → MemoryStore
region content = added (entry content) 2 mr_size start

region-IsValid : (content : List ℕ) → length content ≡ mr_size → IsValid (region content)
region-IsValid content sized =
    added-IsValid (new_store-IsValid 4 1048576 (omega arith)) (entry content) 2 mr_size refl refl
      refl (omega arith) (omega (arith, sized)) (omega arith) (omega arith)

region_at_77 : (content : List ℕ) → view (region content) 77 ≡ some (14, content)
unfolding view lookup insert
region_at_77 content = refl

abbrev session : List ℕ → World
session content = record established {
  session = record established.session { memory_store = region content };
}

abbrev buffer : MemoryRegionHandle
buffer = record { lkey = 1; rkey = 77; len = mr_size; local_buf = zeros }

abbrev client : List ℕ → Client Served
client content = record {
  conn = record {
    session_id = 7;
    pd = 5;
    max_msg_size = 65536;
    next_seq = 4;
    expected_remote_seq = some 1;
    send_credits = 65535;
    cq = record { entries = []; capacity = 8 };
    local_mrs = (1, buffer) ∷ [];
  };
  wire = record { net = online (session content); inbox = [] };
}

abbrev store : List ℕ → KvStore Served
store content = record {
  conn = client content;
  remote_rkey = 77;
  local_lkey = 1;
  session_id = 7;
  remote_rkey_value = 77;
  next_wrid = 1;
}

buffer_at_1 : lookup 1 ((1, buffer) ∷ []) ≡ some buffer
unfolding lookup
buffer_at_1 = refl

store-InTable :
    (content : List ℕ)
    → length content ≡ mr_size
    → InTable (2 * slot_count + 1) (store content) (session content) content
unfolding contains
store-InTable content whole =
    let sized : length zeros ≡ mr_size = length-replicate {A = ℕ} mr_size 0 in
    record {
      step = record {
        other_side = refl;
        quiet = refl;
        established = refl;
        request_due = refl;
        reply_due = refl;
        client_id_fits = omega arith;
        client_seq_fits = omega arith;
        server_id_fits = omega arith;
        server_seq_fits = omega arith;
      };
      valid = region-IsValid content whole;
      flags = 14;
      sees = region_at_77 content;
      readable = refl;
      writable = refl;
      whole = whole;
      mr = buffer;
      held = buffer_at_1;
      wide = omega (arith, sized);
      bounded = omega (arith, sized);
      polled = refl;
      capacity = omega arith;
      wrids = omega arith;
      rkey_fits = omega arith;
      lkey_fits = omega arith;
      sized = omega arith;
      reads = omega arith;
      few_reads = omega arith;
    }

-- The key "E" is looked up in slot 0 first, which is vacant.
vacant_0 : find_in zeros (b'E' ∷ []) slot_count 0 ≡ Prelude.ok (vacant 0 1)
unfolding find_in hash_key hash_loop decode_slot slice from_be
vacant_0 = refl

valid_texts : (is_utf8 (b'E' ∷ []) ≡ true) × (is_utf8 (b'v' ∷ []) ≡ true)
unfolding is_utf8
valid_texts = (refl, refl)

get-put_example :
    (t : KvStore Served) × (u : KvStore Served) × (r : PutResult) × (g : GetResult) × (put
        (joined wrapping env)
        (b'E' ∷ [])
        (b'v' ∷ [])
        (store zeros)
      ≡ (ok r, t))
    × (get (joined wrapping env) (b'E' ∷ []) t ≡ (ok (some g), u))
    × (r.slot ≡ 0)
    × (g.slot ≡ 0)
    × (g.value ≡ b'v' ∷ [])
get-put_example =
    get-put env list_api-IsBufApi (λ n frame. refl) wrapping (store zeros) (session zeros) zeros
      (b'E' ∷ []) (b'v' ∷ []) (vacant 0 1) 0
      (store-InTable zeros (length-replicate {A = ℕ} mr_size 0)) (omega arith) (omega arith)
      valid_texts.0 valid_texts.1 vacant_0 refl

two_keys-sized : length two_keys ≡ mr_size
two_keys-sized = omega (
  arith,
  length-append (slot_with 1 2 (text "E") (text "vw"))
      (slot_with 2 1 (text "al") (text "x") ++ replicate (62 * slot_size) 0),
  length-append (slot_with 2 1 (text "al") (text "x")) (replicate (62 * slot_size) 0),
  length-replicate {A = ℕ} (62 * slot_size) 0,
)

found_0 :
    find_in two_keys (text "E") slot_count 0
    ≡ Prelude.ok (found 0 1 (text "vw") (slot_of 0 two_keys))
unfolding find_in hash_key hash_loop decode_slot text_at length_at range slice from_be
    from_utf8_lossy
found_0 = refl

-- The second key is in the table.
found_1 :
    find_in two_keys (text "al") slot_count 0
    ≡ Prelude.ok (found 1 2 (text "x") (slot_of 1 two_keys))
unfolding find_in hash_key hash_loop decode_slot text_at length_at range slice from_be
    from_utf8_lossy
found_1 = refl

get-delete_example :
    (t : KvStore Served) × (r : DeleteResult) × (delete
        (joined wrapping env)
        (text "E")
        (store two_keys)
      ≡ (ok r, t))
    × (r.found ≡ true)
    × ((get (joined wrapping env) (text "E") t).0 ≡ ok none)
get-delete_example =
    get-delete env list_api-IsBufApi (λ n frame. refl) wrapping (store two_keys) (session two_keys)
      two_keys (text "E") (text "vw") (slot_of 0 two_keys) 0 1
      (store-InTable two_keys two_keys-sized) found_0

first_slot : hash_key (text "al") ≡ 0
unfolding hash_key hash_loop
first_slot = refl

get-delete_other_example :
    (t : KvStore Served) × (r : DeleteResult) × (delete
        (joined wrapping env)
        (text "E")
        (store two_keys)
      ≡ (ok r, t))
    × ((get (joined wrapping env) (text "al") t).0 ≡ ok none)
get-delete_other_example =
    get-delete_other env list_api-IsBufApi (λ n frame. refl) wrapping (store two_keys)
      (session two_keys) two_keys (text "E") (text "vw") (slot_of 0 two_keys) (text "al") 0 1
      (store-InTable two_keys two_keys-sized) found_0 first_slot
