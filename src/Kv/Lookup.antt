-- ===== src/Kv/Lookup.antt =====
-- Probing in the bytes of a table, and that of the store
-- (crates/rdows-kv/src/kv.rs).
use rdows.Prelude.{
  ℕ, ◌==◌, zero, suc, ◌+◌, ◌*◌, ◌%◌, ◌≤◌, ◌<◌, ◌≡◌, ◌≢◌, refl, ap, sym, ◌∙◌, List, [], ◌∷◌, ◌++◌,
  Bool, true, false, ◌&&◌, Option, none, some, Result, Profile, length, if◌then◌else◌, arith,
  Bool-cases, inl, inr, ◌⊎◌,
}
use rdows.Prelude
use rdows.Prelude.Actions.{ok, bind-ok, lift, pure, ◌>>=◌}
use rdows.Bytes.{IsBufApi}
use rdows.Bytes.Ranges.{splice, split, slice-append, slice-overwritten}
use rdows.Bytes.Texts.{same}
use rdows.Server.Session
use rdows.Server.Session.{World}
use rdows.Server.Session.Steps.{IsUp}
use rdows.Link.Defs.{Served, joined}
use rdows.Kv.Slot.{KvError, slot_count, slot_size, mr_size, hash_key, decode_slot}
use rdows.Kv.Results.{Probe, vacant, found, exhausted}
use rdows.Kv.Store.{KvStore, KvAction, read_slot, probe}
use rdows.Kv.Remote.{splice-overwritten}
use rdows.Kv.Table.{InTable}
use rdows.Kv.ReadSlot.{slot_of, read_slot-read}

-- The end of a round at a slot: `later` is what follows when the slot has another key.
abbrev pub round_at :
    List ℕ
    → ℕ
    → ℕ
    → List ℕ
    → Result KvError (Option (List ℕ × List ℕ))
    → Result KvError Probe
    → Result KvError Probe
round_at key idx probes slot (Prelude.ok none) later = Prelude.ok (vacant idx probes)
round_at key idx probes slot (Prelude.ok (some (k, v))) later =
    if same k key then Prelude.ok (found idx probes v slot) else later
round_at key idx probes slot (Prelude.err e) later = Prelude.err e
round_at key idx probes slot Prelude.panic later = Prelude.panic

-- Linear probing in the bytes of a table.
unfoldable pub find_in : List ℕ → List ℕ → ℕ → ℕ → Result KvError Probe
find_in content key zero i = Prelude.ok exhausted
find_in content key (suc rounds) i =
    let idx : ℕ = (hash_key key + i) % slot_count in
    let slot : List ℕ = slot_of idx content in
    let later = find_in content key rounds (i + 1) in
    round_at key idx (i + 1) slot (decode_slot slot) later

-- The slot where a probing ends.
abbrev pub index_of : Probe → Option ℕ
index_of (vacant idx probes) = some idx
index_of (found idx probes v slot) = some idx
index_of exhausted = none

pub ok-injective :
    {a b : Probe} → ◌≡◌ {A = Result KvError Probe} (Prelude.ok a) (Prelude.ok b) → a ≡ b
ok-injective e = cc e

pub err-ne-ok :
    {x : KvError} {a : Probe} → ◌≢◌ {A = Result KvError Probe} (Prelude.err x) (Prelude.ok a)
err-ne-ok e = cc e

pub panic-ne-ok : {a : Probe} → ◌≢◌ {A = Result KvError Probe} Prelude.panic (Prelude.ok a)
panic-ne-ok e = cc e

pub InTable-fewer :
    {m n : ℕ} {s : KvStore Served} {w : World} {content : List ℕ}
    → InTable m s w content
    → n ≤ m
    → InTable n s w content
InTable-fewer a h = record {
  step = a.step;
  valid = a.valid;
  flags = a.flags;
  sees = a.sees;
  readable = a.readable;
  writable = a.writable;
  whole = a.whole;
  mr = a.mr;
  held = a.held;
  wide = a.wide;
  bounded = a.bounded;
  polled = a.polled;
  capacity = a.capacity;
  wrids = omega (arith, a.wrids);
  rkey_fits = a.rkey_fits;
  lkey_fits = a.lkey_fits;
  sized = a.sized;
  reads = a.reads;
  few_reads = a.few_reads;
}

module _ (env : Session.Env) (laws : IsBufApi env.api) (up : IsUp env) (prof : Profile) where
  -- What follows the reading of a slot.
  abbrev judged :
      List ℕ → ℕ → ℕ → ℕ → List ℕ → Option (List ℕ × List ℕ) → KvAction (joined prof env) Probe
  judged key rounds i idx slot none = pure (vacant idx (i + 1))
  judged key rounds i idx slot (some (k, v)) = elim (same k key) [
    | true ↦ pure (found idx (i + 1) v slot)
    | false ↦ probe (joined prof env) key rounds (i + 1)
  ]

  -- How the probing of the store ends, with `n` requests left.
  abbrev Probes : ℕ → List ℕ → KvAction (joined prof env) Probe → Probe → KvStore Served → Type 0
  Probes n content m p s =
      (t : KvStore Served) × (v : World) × (m s ≡ (ok p, t)) × InTable n t v content

  keyed-Probes :
      (key : List ℕ) (rounds i idx n : ℕ) (slot value content : List ℕ) (s : KvStore Served)
      (w : World) (p : Probe) (b : Bool) (later : Result KvError Probe)
      → InTable (rounds + n) s w content
      → (later ≡ Prelude.ok p → Probes n content (probe (joined prof env) key rounds (i + 1)) p s)
      → (if b then Prelude.ok (found idx (i + 1) value slot) else later) ≡ Prelude.ok p
      → Probes n content
          (elim b [
            | true ↦ pure (found idx (i + 1) value slot)
            | false ↦ probe (joined prof env) key rounds (i + 1)
          ])
          p
          s
  unfolding pure
  keyed-Probes key rounds i idx n slot value content s w p true later a h e =
      (s, w, ap (λ q. (ok q, s)) (ok-injective e), InTable-fewer a (omega arith))
  keyed-Probes key rounds i idx n slot value content s w p false later a h e = h e

  judged-Probes :
      (key : List ℕ) (rounds i idx n : ℕ) (slot content : List ℕ) (s : KvStore Served) (w : World)
      (p : Probe) (r : Result KvError (Option (List ℕ × List ℕ))) (later : Result KvError Probe)
      → InTable (rounds + n) s w content
      → (later ≡ Prelude.ok p → Probes n content (probe (joined prof env) key rounds (i + 1)) p s)
      → round_at key idx (i + 1) slot r later ≡ Prelude.ok p
      → Probes n content (lift r >>= judged key rounds i idx slot) p s
  unfolding ◌>>=◌ lift pure
  judged-Probes key rounds i idx n slot content s w p (Prelude.ok none) later a h e =
      (s, w, ap (λ q. (ok q, s)) (ok-injective e), InTable-fewer a (omega arith))
  judged-Probes key rounds i idx n slot content s w p (Prelude.ok (some (k, v))) later a h e =
      keyed-Probes key rounds i idx n slot v content s w p (same k key) later a h e
  judged-Probes key rounds i idx n slot content s w p (Prelude.err x) later a h e =
      absurd (err-ne-ok e)
  judged-Probes key rounds i idx n slot content s w p Prelude.panic later a h e =
      absurd (panic-ne-ok e)

  -- The store finds a key where the bytes of the table have it.
  pub probe-find_in :
      (key : List ℕ) (rounds i n : ℕ) (content : List ℕ) (s : KvStore Served) (w : World)
      (p : Probe)
      → InTable (rounds + n) s w content
      → find_in content key rounds i ≡ Prelude.ok p
      → Probes n content (probe (joined prof env) key rounds i) p s
  unfolding find_in probe pure
  probe-find_in key zero i n content s w p a e =
      (s, w, ap (λ q. (ok q, s)) (ok-injective e), InTable-fewer a (omega arith))
  probe-find_in key (suc rounds) i n content s w p a e =
      let idx : ℕ = (hash_key key + i) % slot_count in
      let (t, u, at, b) =
        read_slot-read env laws up prof (rounds + n) s w content idx (InTable-fewer a (omega arith))
          (omega arith) in
      let (d, v, ends, left) =
        judged-Probes key rounds i idx n (slot_of idx content) content t u p
          (decode_slot (slot_of idx content)) (find_in content key rounds (i + 1)) b
          (probe-find_in key rounds (i + 1) n content t u p b) e in
      (
        d,
        v,
        bind-ok (read_slot (joined prof env) idx)
              (λ slot. lift (decode_slot slot) >>= judged key rounds i idx slot) at
            ∙ ends,
        left,
      )

-- A slot of a table after a slot has been written.
pub slot_of-same :
    (idx : ℕ) (new content : List ℕ)
    → idx < slot_count
    → length content ≡ mr_size
    → length new ≡ slot_size
    → slot_of idx (splice (idx * slot_size) new content) ≡ new
slot_of-same idx new content h whole sized =
    let cut = split (idx * slot_size) (length new) content (omega (arith, whole, sized)) in
    ap (slot_of idx) (splice-overwritten new cut)
    ∙ slice-append (idx * slot_size) cut.before new cut.after slot_size cut.length_before sized

pub slot_of-other :
    (idx j : ℕ) (new content : List ℕ)
    → idx < slot_count
    → length content ≡ mr_size
    → length new ≡ slot_size
    → (j == idx) ≡ false
    → slot_of j (splice (idx * slot_size) new content) ≡ slot_of j content
slot_of-other idx j new content h whole sized differs =
    let cut = split (idx * slot_size) (length new) content (omega (arith, whole, sized)) in
    let apart : (j * slot_size + slot_size ≤ idx * slot_size)
        ⊎ (idx * slot_size + length new ≤ j * slot_size) =
      ground (arith, differs, sized) in
    ap (slot_of j) (splice-overwritten new cut)
    ∙ slice-overwritten cut new (j * slot_size) slot_size refl apart
