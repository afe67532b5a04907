-- ===== src/Kv/Rewritten.antt =====
-- Probing in a table after a slot has been written.
use rdows.Prelude.{
  ℕ, ◌==◌, zero, suc, ◌+◌, ◌*◌, ◌%◌, ◌<◌, ◌≡◌, ◌≢◌, refl, ap, sym, ◌∙◌, List, [], ◌∷◌, Bool, true,
  false, Option, none, some, Result, ok, err, panic, length, if◌then◌else◌, arith, Bool-cases, inl,
  inr,
}
use rdows.Bytes.Texts.{same}
use rdows.Bytes.Ranges.{splice}
use rdows.Kv.Slot.{KvError, slot_count, slot_size, mr_size, hash_key, decode_slot}
use rdows.Kv.Results.{Probe, vacant, found}
use rdows.Kv.ReadSlot.{slot_of}
use rdows.Kv.Lookup.{
  round_at, find_in, index_of, ok-injective, err-ne-ok, panic-ne-ok, slot_of-same, slot_of-other,
}

same_refl : (xs : List ℕ) → same xs xs ≡ true
same_refl [] = refl
same_refl (x ∷ xs) = ground (arith, same_refl xs)

pub none-ne-some : {j : ℕ} → ◌≢◌ {A = Option ℕ} none (some j)
none-ne-some e = cc e

pub some-injective : {i j : ℕ} → some i ≡ some j → i ≡ j
some-injective e = cc e

differ : (i j : ℕ) → i ≡ j → (i == j) ≢ false
differ i j e h = ground (arith, e, h)

-- Where a round ends the probing, it ends it at its own slot.
data Round (idx : ℕ) (p : Probe) (later : Result KvError Probe) : Type 0 where
  here : index_of p ≡ some idx → Round idx p later
  behind : later ≡ ok p → Round idx p later

keyed-Round :
    (idx m : ℕ) (v slot : List ℕ) (b : Bool) (later : Result KvError Probe) (p : Probe)
    → (if b then ok (found idx m v slot) else later) ≡ ok p
    → Round idx p later
keyed-Round idx m v slot true later p e = here (ap index_of (sym (ok-injective e)))
keyed-Round idx m v slot false later p e = behind e

round_at-Round :
    (key : List ℕ) (idx m : ℕ) (slot : List ℕ) (r : Result KvError (Option (List ℕ × List ℕ)))
    (later : Result KvError Probe) (p : Probe)
    → round_at key idx m slot r later ≡ ok p
    → Round idx p later
round_at-Round key idx m slot (ok none) later p e = here (ap index_of (sym (ok-injective e)))
round_at-Round key idx m slot (ok (some (k, v))) later p e =
    keyed-Round idx m v slot (same k key) later p e
round_at-Round key idx m slot (err x) later p e = absurd (err-ne-ok e)
round_at-Round key idx m slot panic later p e = absurd (panic-ne-ok e)

pub find_in-lt :
    (content key : List ℕ) (rounds i idx : ℕ) (p : Probe)
    → find_in content key rounds i ≡ ok p
    → index_of p ≡ some idx
    → idx < slot_count
unfolding find_in
find_in-lt content key zero i idx p e at = absurd (none-ne-some (ap index_of (ok-injective e) ∙ at))
find_in-lt content key (suc rounds) i idx p e at =
    elim (round_at-Round key _ (i + 1) _ _ (find_in content key rounds (i + 1)) p e) [
      | here h ↦ omega (arith, some-injective (sym h ∙ at))
      | behind h ↦ find_in-lt content key rounds (i + 1) idx p h at
    ]

-- A round that goes on does so whatever follows, and for another table with the same slot.
keyed-on :
    (idx m j : ℕ) (v slot : List ℕ) (b : Bool) (later other : Result KvError Probe) (p q : Probe)
    → (if b then ok (found idx m v slot) else later) ≡ ok p
    → index_of p ≡ some j
    → (idx == j) ≡ false
    → (later ≡ ok p → other ≡ ok q)
    → (if b then ok (found idx m v slot) else other) ≡ ok q
keyed-on idx m j v slot true later other p q e at differs h =
    absurd (differ idx j (some-injective (ap index_of (ok-injective e) ∙ at)) differs)
keyed-on idx m j v slot false later other p q e at differs h = h e

round_at-on :
    (key : List ℕ) (idx m j : ℕ) (slot : List ℕ) (r : Result KvError (Option (List ℕ × List ℕ)))
    (later other : Result KvError Probe) (p q : Probe)
    → round_at key idx m slot r later ≡ ok p
    → index_of p ≡ some j
    → (idx == j) ≡ false
    → (later ≡ ok p → other ≡ ok q)
    → round_at key idx m slot r other ≡ ok q
round_at-on key idx m j slot (ok none) later other p q e at differs h =
    absurd (differ idx j (some-injective (ap index_of (ok-injective e) ∙ at)) differs)
round_at-on key idx m j slot (ok (some (k, v))) later other p q e at differs h =
    keyed-on idx m j v slot (same k key) later other p q e at differs h
round_at-on key idx m j slot (err x) later other p q e at differs h = absurd (err-ne-ok e)
round_at-on key idx m j slot panic later other p q e at differs h = absurd (panic-ne-ok e)

-- A slot is written where the probing of a key ended. `ends` is what a round at the new slot gives, by
-- the number of probes.
module _ (key new content : List ℕ) (j : ℕ) (ends : ℕ → Probe) where
  module _
      (round : (m : ℕ) (later : Result KvError Probe)
        → round_at key j m new (decode_slot new) later ≡ ok (ends m))
      (inside : j < slot_count) (whole : length content ≡ mr_size)
      (sized : length new ≡ slot_size) where
    abbrev after : List ℕ
    after = splice (j * slot_size) new content

    -- The probing of the key ends there afterwards, too.
    find_in-written :
        (rounds i : ℕ) (p : Probe)
        → find_in content key rounds i ≡ ok p
        → index_of p ≡ some j
        → (m : ℕ) × (find_in after key rounds i ≡ ok (ends m))
    unfolding find_in
    find_in-written zero i p e at = absurd (none-ne-some (ap index_of (ok-injective e) ∙ at))
    find_in-written (suc rounds) i p e at =
        let idx : ℕ = (hash_key key + i) % slot_count in
        let later = find_in after key rounds (i + 1) in
        elim (Bool-cases (idx == j)) [
          | inl this ↦
              let is_j : idx ≡ j = ground (arith, this) in
              (
                i + 1,
                ap
                      (λ k.
                        round_at key k (i + 1) (slot_of k after) (decode_slot (slot_of k after))
                          later)
                      is_j
                    ∙ ap (λ slot. round_at key j (i + 1) slot (decode_slot slot) later)
                        (slot_of-same j new content inside whole sized)
                    ∙ round (i + 1) later,
              )
          | inr other ↦
              let kept : slot_of idx after ≡ slot_of idx content =
                slot_of-other j idx new content inside whole sized other in
              elim (round_at-Round key idx (i + 1) _ _ (find_in content key rounds (i + 1)) p e) [
                | here h ↦ absurd (differ idx j (some-injective (sym h ∙ at)) other)
                | behind h ↦
                    let (m, same_end) = find_in-written rounds (i + 1) p h at in
                    (
                      m,
                      ap (λ slot. round_at key idx (i + 1) slot (decode_slot slot) later) kept
                          ∙ round_at-on key idx (i + 1) j (slot_of idx content)
                              (decode_slot (slot_of idx content))
                              (find_in content key rounds (i + 1)) later p (ends m) e at other
                              (λ _. same_end),
                    )
              ]
        ]

    -- A probing that begins there ends there.
    find_in-first : (rounds : ℕ) → hash_key key ≡ j → find_in after key (suc rounds) 0 ≡ ok (ends 1)
    unfolding find_in
    find_in-first rounds h =
        let is_j : (hash_key key + 0) % slot_count ≡ j = omega (arith, h) in
        let later = find_in after key rounds (0 + 1) in
        ap (λ k. round_at key k 1 (slot_of k after) (decode_slot (slot_of k after)) later) is_j
        ∙ ap (λ slot. round_at key j 1 slot (decode_slot slot) later)
            (slot_of-same j new content inside whole sized)
        ∙ round 1 later

round_at-key :
    (key value new : List ℕ) (j m : ℕ) (later : Result KvError Probe)
    → decode_slot new ≡ ok (some (key, value))
    → round_at key j m new (decode_slot new) later ≡ ok (found j m value new)
round_at-key key value new j m later decodes =
    ap (λ r. round_at key j m new r later) decodes
    ∙ ap (λ b. if b then ok (found j m value new) else later) (same_refl key)

round_at-vacant :
    (key new : List ℕ) (j m : ℕ) (later : Result KvError Probe)
    → decode_slot new ≡ ok none
    → round_at key j m new (decode_slot new) later ≡ ok (vacant j m)
round_at-vacant key new j m later decodes = ap (λ r. round_at key j m new r later) decodes

module _ (key new content : List ℕ) (j : ℕ) (inside : j < slot_count)
    (whole : length content ≡ mr_size) (sized : length new ≡ slot_size) where
  -- Where the probing of a key ended at a slot, and a slot with that key is written there, it is found
  -- there.
  pub find_in-splice :
      (value : List ℕ)
      → decode_slot new ≡ ok (some (key, value))
      → (p : Probe) → find_in content key slot_count 0 ≡ ok p
      → index_of p ≡ some j
      → (m : ℕ) × (find_in (splice (j * slot_size) new content) key slot_count 0
          ≡ ok (found j m value new))
  find_in-splice value decodes =
      find_in-written key new content j (λ m. found j m value new)
        (λ m later. round_at-key key value new j m later decodes) inside whole sized slot_count 0

  -- Where the slot is emptied instead, the probing ends at it.
  pub find_in-emptied :
      decode_slot new ≡ ok none
      → (p : Probe) → find_in content key slot_count 0 ≡ ok p
      → index_of p ≡ some j
      → (m : ℕ) × (find_in (splice (j * slot_size) new content) key slot_count 0 ≡ ok (vacant j m))
  find_in-emptied decodes =
      find_in-written key new content j (vacant j)
        (λ m later. round_at-vacant key new j m later decodes) inside whole sized slot_count 0

  -- So does that of every key that is looked up there first.
  pub find_in-emptied_first :
      decode_slot new ≡ ok none
      → hash_key key ≡ j
      → find_in (splice (j * slot_size) new content) key slot_count 0 ≡ ok (vacant j 1)
  find_in-emptied_first decodes =
      find_in-first key new content j (vacant j)
        (λ m later. round_at-vacant key new j m later decodes) inside whole sized 63
