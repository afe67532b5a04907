-- ===== src/Kv/GetPut.antt =====
-- A put followed by a get (crates/rdows-kv/src/kv.rs).
use rdows.Prelude.{
  ℕ, ◌==◌, zero, suc, ◌+◌, ◌*◌, ◌≤◌, ◌<◌, ◌≡◌, refl, ap, sym, ◌∙◌, List, Bool, true, false, Option,
  none, some, Result, Profile, length, if◌then◌else◌, ltb, arith,
}
use rdows.Prelude
use mathlib.Core.Path.{subst}
use rdows.Prelude.Actions.{ok, bind-ok, if-false, lift, pure, fail, ◌>>=◌, ◌>>◌}
use rdows.Bytes.{IsBufApi}
use rdows.Bytes.Ranges.{splice}
use rdows.Bytes.Texts.{text}
use rdows.Bytes.Utf8.{is_utf8}
use rdows.Server.Session
use rdows.Server.Session.{World}
use rdows.Server.Session.Steps.{IsUp}
use rdows.Link.Defs.{Served, joined}
use rdows.Kv.Slot.{KvError, slot_count, slot_size, max_key_len, max_value_len, encode_slot}
use rdows.Kv.Results.{PutResult, GetResult, Probe, vacant, found, exhausted, offset_text}
use rdows.Kv.Store.{
  KvStore, KvAction, write_slot, probe, store_at, after_put_probe, put, after_get_probe, get,
}
use rdows.Kv.Codec.{decode_slot-encode_slot}
use rdows.Kv.Totality.{slot_hex_lines-Shows}
use rdows.Kv.Table.{InTable}
use rdows.Kv.WriteSlot.{write_slot-splice}
use rdows.Kv.Lookup.{find_in, index_of, probe-find_in}
use rdows.Kv.Rewritten.{find_in-lt, find_in-splice, none-ne-some, some-injective}

module _ (env : Session.Env) (laws : IsBufApi env.api) (up : IsUp env) (prof : Profile) where
  -- A key that the bytes of the table have is got, with its value.
  get-found :
      (key : List ℕ) (n : ℕ) (content : List ℕ) (s : KvStore Served) (w : World) (idx m : ℕ)
      (value slot : List ℕ)
      → InTable (slot_count + n) s w content
      → find_in content key slot_count 0 ≡ Prelude.ok (found idx m value slot)
      → length slot ≡ slot_size
      → (t : KvStore Served) × (v : World) × (g : GetResult) × (get (joined prof env) key s
          ≡ (ok (some g), t))
        × (g.value ≡ value)
        × (g.slot ≡ idx)
        × InTable n t v content
  unfolding get after_get_probe ◌>>=◌ lift pure
  get-found key n content s w idx m value slot a e sized =
      let (t, v, ends, b) =
        probe-find_in env laws up prof key slot_count 0 n content s w (found idx m value slot) a
          e in
      let (lines, shown, few) = slot_hex_lines-Shows slot sized in
      let g : GetResult = record {
        operation = text "RDMA_READ";
        slot = idx;
        offset = offset_text idx;
        bytes = slot_size;
        key = key;
        value = value;
        probes = m;
        raw_hex = lines;
      } in
      (
        t,
        v,
        g,
        bind-ok (probe (joined prof env) key slot_count 0) (after_get_probe (joined prof env) key)
              ends
            ∙ ap (λ r. (lift r >>= λ lines. pure (some (record g { raw_hex = lines }))) t) shown,
        refl,
        refl,
        b,
      )

  module _ (key value new : List ℕ) (n : ℕ) (encoded : encode_slot key value ≡ Prelude.ok new)
      (sized : length new ≡ slot_size) where
    -- The table after a put at a slot.
    abbrev Stored : KvAction (joined prof env) PutResult → ℕ → List ℕ → KvStore Served → Type 0
    Stored m idx content s =
        (t : KvStore Served) × (v : World) × (r : PutResult) × (m s ≡ (ok r, t))
        × (r.slot ≡ idx)
        × InTable n t v (splice (idx * slot_size) new content)

    store_at-Stored :
        (idx m : ℕ) (update : Bool) (content : List ℕ) (s : KvStore Served) (w : World)
        → InTable (suc n) s w content
        → idx < slot_count
        → Stored (store_at (joined prof env) key value idx m update) idx content s
    unfolding store_at ◌>>=◌ ◌>>◌ lift pure
    store_at-Stored idx m update content s w a h =
        let (t, v, wrote, b) = write_slot-splice env laws up prof n s w content idx new a h sized in
        let r : PutResult = record {
          operation = text "RDMA_WRITE";
          slot = idx;
          offset = offset_text idx;
          bytes = slot_size;
          key = key;
          value = value;
          probes = m;
          update = update;
        } in
        (
          t,
          v,
          r,
          ap (λ e. (lift e >>= λ slot. (write_slot (joined prof env) idx slot >> pure r)) s) encoded
              ∙ bind-ok (write_slot (joined prof env) idx new) (λ _. pure r) wrote,
          refl,
          b,
        )

    after_put_probe-Stored :
        (p : Probe) (idx : ℕ) (content : List ℕ) (s : KvStore Served) (w : World)
        → InTable (suc n) s w content
        → index_of p ≡ some idx
        → idx < slot_count
        → Stored (after_put_probe (joined prof env) key value p) idx content s
    unfolding after_put_probe
    after_put_probe-Stored (vacant j m) idx content s w a e h =
        let (t, v, r, ends, at, b) =
          store_at-Stored j m false content s w a (omega (arith, some-injective e)) in
        (
          t,
          v,
          r,
          ends,
          at ∙ some-injective e,
          subst (λ k. InTable n t v (splice (k * slot_size) new content)) (some-injective e) b,
        )
    after_put_probe-Stored (found j m old slot) idx content s w a e h =
        let (t, v, r, ends, at, b) =
          store_at-Stored j m true content s w a (omega (arith, some-injective e)) in
        (
          t,
          v,
          r,
          ends,
          at ∙ some-injective e,
          subst (λ k. InTable n t v (splice (k * slot_size) new content)) (some-injective e) b,
        )
    after_put_probe-Stored exhausted idx content s w a e h = absurd (none-ne-some e)

    put-Stored :
        (p : Probe) (idx : ℕ) (content : List ℕ) (s : KvStore Served) (w : World)
        → length key ≤ max_key_len
        → length value ≤ max_value_len
        → InTable (slot_count + suc n) s w content
        → find_in content key slot_count 0 ≡ Prelude.ok p
        → index_of p ≡ some idx
        → Stored (put (joined prof env) key value) idx content s
    unfolding put
    put-Stored p idx content s w hk hv a e at =
        let (t, v, ends, b) =
          probe-find_in env laws up prof key slot_count 0 (suc n) content s w p a e in
        let (d, u, r, done, there, c) =
          after_put_probe-Stored p idx content t v b at
            (find_in-lt content key slot_count 0 idx p e at) in
        let short : ltb max_key_len (length key) ≡ false = ground arith in
        let short' : ltb max_value_len (length value) ≡ false = ground arith in
        (
          d,
          u,
          r,
          if-false (fail KvError.key_too_long) _ s short
              ∙ if-false (fail KvError.value_too_long) _ s short'
              ∙ bind-ok (probe (joined prof env) key slot_count 0)
                  (after_put_probe (joined prof env) key value) ends
              ∙ done,
          there,
          c,
        )

-- With buffer functions that behave as documented, a store and a session hold a table and are ready
-- for 129 requests, over a connection that loses nothing, and the probing of a key in the bytes of
-- the table ends at a slot that is vacant or has that key. A put of that key, with at most 255
-- bytes, and of a value of at most 764, both UTF-8, succeeds at that slot, and a get of the key
-- afterwards gives that value from there.
pub get-put :
    (env : Session.Env) (laws : IsBufApi env.api) (up : IsUp env) (prof : Profile)
    (s : KvStore Served) (w : World) (content key value : List ℕ) (p : Probe) (idx : ℕ)
    → InTable (2 * slot_count + 1) s w content
    → length key ≤ max_key_len
    → length value ≤ max_value_len
    → is_utf8 key ≡ true
    → is_utf8 value ≡ true
    → find_in content key slot_count 0 ≡ Prelude.ok p
    → index_of p ≡ some idx
    → (t : KvStore Served) × (u : KvStore Served) × (r : PutResult) × (g : GetResult) × (put
          (joined prof env)
          key
          value
          s
        ≡ (ok r, t))
      × (get (joined prof env) key t ≡ (ok (some g), u))
      × (r.slot ≡ idx)
      × (g.slot ≡ idx)
      × (g.value ≡ value)
get-put env laws up prof s w content key value p idx a hk hv ku vu e at =
    let (new, encoded, sized, decoded) = decode_slot-encode_slot key value hk hv ku vu in
    let (t, v, r, did_put, r_at, b) =
      put-Stored env laws up prof key value new slot_count encoded sized p idx content s w hk hv a e
        at in
    let (m, ends) =
      find_in-splice key new content idx (find_in-lt content key slot_count 0 idx p e at) a.whole
        sized value decoded p e at in
    let (u, x, g, did_get, has, g_at, c) =
      get-found env laws up prof key 0 (splice (idx * slot_size) new content) t v idx m value new b
        ends sized in
    (t, u, r, g, did_put, did_get, r_at, g_at, has)
