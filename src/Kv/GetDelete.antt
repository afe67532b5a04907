-- ===== src/Kv/GetDelete.antt =====
-- A delete followed by a get (crates/rdows-kv/src/kv.rs).
use rdows.Prelude.{
  ℕ, zero, suc, ◌+◌, ◌*◌, ◌≤◌, ◌<◌, ◌≡◌, refl, ap, sym, ◌∙◌, List, Bool, true, false, Option, none,
  some, Profile, length, length-replicate, arith,
}
use rdows.Prelude
use rdows.Prelude.Actions.{ok, bind-ok, pure, ◌>>◌}
use rdows.Bytes.{IsBufApi, from_be}
use rdows.Bytes.Ranges.{slice, splice}
use rdows.Bytes.Texts.{text}
use rdows.Server.Session
use rdows.Server.Session.{World}
use rdows.Server.Session.Steps.{IsUp}
use rdows.Link.Defs.{Served, joined}
use rdows.Kv.Slot.{slot_count, slot_size, hash_key, empty_slot, decode_slot}
use rdows.Kv.Results.{DeleteResult, vacant, found}
use rdows.Kv.Store.{
  KvStore, write_slot, probe, after_get_probe, get, deleted, after_delete_probe, delete,
}
use rdows.Kv.Table.{InTable}
use rdows.Kv.WriteSlot.{write_slot-splice}
use rdows.Kv.Lookup.{find_in, probe-find_in}
use rdows.Kv.Rewritten.{find_in-lt, find_in-emptied, find_in-emptied_first}

length-empty_slot : length empty_slot ≡ slot_size
unfolding empty_slot
length-empty_slot = length-replicate {A = ℕ} slot_size 0

decode_slot-empty_slot : decode_slot empty_slot ≡ Prelude.ok none
unfolding decode_slot empty_slot slice from_be
decode_slot-empty_slot = refl

module _ (env : Session.Env) (laws : IsBufApi env.api) (up : IsUp env) (prof : Profile) where
  -- A key whose probing in the bytes of the table ends at a vacant slot is not got.
  get-vacant :
      (key : List ℕ) (n : ℕ) (content : List ℕ) (s : KvStore Served) (w : World) (idx m : ℕ)
      → InTable (slot_count + n) s w content
      → find_in content key slot_count 0 ≡ Prelude.ok (vacant idx m)
      → (get (joined prof env) key s).0 ≡ ok none
  unfolding get after_get_probe pure
  get-vacant key n content s w idx m a e =
      let (t, v, ends, b) =
        probe-find_in env laws up prof key slot_count 0 n content s w (vacant idx m) a e in
      ap (λ p. p.0)
        (bind-ok (probe (joined prof env) key slot_count 0) (after_get_probe (joined prof env) key)
          ends)

  module _ (s : KvStore Served) (w : World) (content key value slot : List ℕ) (idx m : ℕ)
      (a : InTable (2 * slot_count + 1) s w content)
      (e : find_in content key slot_count 0 ≡ Prelude.ok (found idx m value slot)) where
    inside : idx < slot_count
    inside = find_in-lt content key slot_count 0 idx (found idx m value slot) e refl

    abbrev emptied : List ℕ
    emptied = splice (idx * slot_size) empty_slot content

    delete-emptied :
        (t : KvStore Served) × (v : World) × (r : DeleteResult) × (delete (joined prof env) key s
          ≡ (ok r, t))
        × (r.found ≡ true)
        × InTable slot_count t v emptied
    unfolding delete after_delete_probe deleted ◌>>◌ pure
    delete-emptied =
        let (t, v, ends, b) =
          probe-find_in env laws up prof key slot_count 0 (suc slot_count) content s w
            (found idx m value slot) a e in
        let (u, x, wrote, c) =
          write_slot-splice env laws up prof slot_count t v content idx empty_slot b inside
            length-empty_slot in
        (
          u,
          x,
          deleted (joined prof env) (text "RDMA_WRITE") key idx m true,
          bind-ok (probe (joined prof env) key slot_count 0)
                (after_delete_probe (joined prof env) key) ends
              ∙ bind-ok (write_slot (joined prof env) idx empty_slot)
                  (λ _. pure (deleted (joined prof env) (text "RDMA_WRITE") key idx m true)) wrote,
          refl,
          c,
        )

-- With buffer functions that behave as documented, a store and a session hold a table and are ready
-- for 129 requests, over a connection that loses nothing, and the bytes of the table have a key. A
-- delete of that key succeeds, and a get of it afterwards finds nothing.
pub get-delete :
    (env : Session.Env) (laws : IsBufApi env.api) (up : IsUp env) (prof : Profile)
    (s : KvStore Served) (w : World) (content key value slot : List ℕ) (idx m : ℕ)
    → InTable (2 * slot_count + 1) s w content
    → find_in content key slot_count 0 ≡ Prelude.ok (found idx m value slot)
    → (t : KvStore Served) × (r : DeleteResult) × (delete (joined prof env) key s ≡ (ok r, t))
      × (r.found ≡ true)
      × ((get (joined prof env) key t).0 ≡ ok none)
get-delete env laws up prof s w content key value slot idx m a e =
    let (t, v, r, did, has, b) =
      delete-emptied env laws up prof s w content key value slot idx m a e in
    let (k, ends) =
      find_in-emptied key empty_slot content idx
        (find_in-lt content key slot_count 0 idx (found idx m value slot) e refl) a.whole
        length-empty_slot decode_slot-empty_slot (found idx m value slot) e refl in
    (
      t,
      r,
      did,
      has,
      get-vacant env laws up prof key 0 (splice (idx * slot_size) empty_slot content) t v idx k b
          ends,
    )

-- With buffer functions that behave as documented, a store and a session hold a table and are ready
-- for 129 requests, over a connection that loses nothing, and the bytes of the table have a key.
-- After a delete of that key, every key that is looked up first in the slot that it had is lost:
-- whatever the table holds for it, a get of it finds nothing.
pub get-delete_other :
    (env : Session.Env) (laws : IsBufApi env.api) (up : IsUp env) (prof : Profile)
    (s : KvStore Served) (w : World) (content key value slot other : List ℕ) (idx m : ℕ)
    → InTable (2 * slot_count + 1) s w content
    → find_in content key slot_count 0 ≡ Prelude.ok (found idx m value slot)
    → hash_key other ≡ idx
    → (t : KvStore Served) × (r : DeleteResult) × (delete (joined prof env) key s ≡ (ok r, t))
      × ((get (joined prof env) other t).0 ≡ ok none)
get-delete_other env laws up prof s w content key value slot other idx m a e first =
    let (t, v, r, did, has, b) =
      delete-emptied env laws up prof s w content key value slot idx m a e in
    (
      t,
      r,
      did,
      get-vacant env laws up prof other 0 (splice (idx * slot_size) empty_slot content) t v idx 1 b
          (find_in-emptied_first other empty_slot content idx
            (find_in-lt content key slot_count 0 idx (found idx m value slot) e refl) a.whole
            length-empty_slot decode_slot-empty_slot first),
    )
