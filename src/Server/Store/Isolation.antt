-- ===== src/Server/Store/Isolation.antt =====
-- Reads after writes.
use rdows.Prelude.{
  ℕ, ◌+◌, ◌≤◌, ◌≡◌, ◌≢◌, ◌⊎◌, refl, ap, sym, ◌∙◌, List, ◌++◌, length, length-append, true, Option,
  none, some, Result, ok, err, arith, ◌==◌, if◌then◌else◌, inl, inr, Option-cases, Bool-cases,
}
use rdows.Prelude.Dict.{lookup}
use rdows.Core.Error.{ErrorCode, err_bounds, err_invalid_mkey, err_access_denied}
use rdows.Core.Memory.{contains, remote_write, remote_read}
use rdows.Server.Store.Defs.{
  MemoryStore, find_region, find_granted, in_bounds, write_region, read_region,
}
use rdows.Server.Store.Invariant.{IsValid}
use rdows.Server.Store.View.{view, view_short}
use rdows.Bytes.Ranges.{slice, slice-append, slice-overwritten, length-overwritten}
use rdows.Server.Store.Access.{
  Refusal, unknown, denied, outside, refused, done, write_region-Written,
}

-- What a read makes of the view.
read_seen : Option (ℕ × List ℕ) → ℕ → ℕ → Result ErrorCode (List ℕ)
read_seen none offset len = err err_invalid_mkey
read_seen (some (flags, content)) offset len =
    if contains flags remote_read
    then if in_bounds offset len content then ok (slice offset len content) else err err_bounds
    else err err_access_denied

-- A read depends on nothing but the view.
read_region-view :
    (rkey offset len : ℕ) (s : MemoryStore)
    → read_region rkey offset len s ≡ read_seen (view s rkey) offset len
unfolding read_region find_granted find_region view read_seen
read_region-view rkey offset len s = elim (Option-cases (lookup rkey s.rkey_to_lkey)) [
  | inl nowhere ↦ rw (nowhere, read_region, view, find_granted, find_region)
  | inr (lkey, leads) ↦ elim (Option-cases (lookup lkey s.regions)) [
    | inl absent ↦ rw (leads, read_region, view, find_granted, find_region, absent)
    | inr (entry, found) ↦ elim (Bool-cases (contains entry.access_flags remote_read)) [
      | inl held ↦ rw (leads, read_region, view, find_granted, find_region, found, held)
      | inr lacking ↦ rw (leads, read_region, view, find_granted, find_region, found, lacking)
    ]
  ]
]

module _ (flags start len : ℕ) (content : List ℕ) where
  read_seen_granted :
      contains flags remote_read ≡ true
      → in_bounds start len content ≡ true
      → read_seen (some (flags, content)) start len ≡ ok (slice start len content)
  unfolding read_seen
  read_seen_granted held inside = rw (held, inside)

  read_seen_same :
      (new : List ℕ)
      → length new ≡ length content
      → slice start len new ≡ slice start len content
      → read_seen (some (flags, new)) start len ≡ read_seen (some (flags, content)) start len
  unfolding read_seen
  read_seen_same new lengths slices = rw (lengths, slices)

module _ (rkey offset : ℕ) (bytes : List ℕ) (s : MemoryStore) (v : IsValid s) where
  -- On a valid store, a read of a range that lies in a region with the rights to write and to read gives
  -- the bytes that were just written there.
  pub read_region-write_region :
      (flags : ℕ) (content : List ℕ)
      → view s rkey ≡ some (flags, content)
      → contains flags remote_write ≡ true
      → contains flags remote_read ≡ true
      → offset + length bytes ≤ length content
      → read_region rkey offset (length bytes) (write_region rkey offset bytes s).1 ≡ ok bytes
  read_region-write_region flags content sees writes reads fits =
      elim (write_region-Written rkey offset bytes s v) [
        | refused e why out ↦ absurd (impossible why)
        | done t out after valid kept ↦
            let new : List ℕ = t.range.before ++ (bytes ++ t.range.after) in
            let now : view (write_region rkey offset bytes s).1 rkey ≡ some (t.flags, new) =
              ground (arith, after rkey) in
            let readable : contains t.flags remote_read ≡ true =
              ground (arith, t.sees, sees, reads) in
            let end_inside : offset + length bytes ≤ length new = omega (
              arith,
              t.range.length_before,
              length-append t.range.before (bytes ++ t.range.after),
              length-append bytes t.range.after,
            ) in
            let inside : in_bounds offset (length bytes) new ≡ true =
              ground (arith, view_short valid rkey now) in
            read_region-view rkey offset (length bytes) (write_region rkey offset bytes s).1
            ∙ ap (λ o. read_seen o offset (length bytes)) now
            ∙ read_seen_granted t.flags offset (length bytes) new readable inside
            ∙ ap ok (
                slice-append offset t.range.before bytes t.range.after (length bytes)
                  t.range.length_before refl)
      ]
    where
      impossible : {e : ErrorCode} → Refusal rkey remote_write offset (length bytes) s e → ⊥
      impossible (unknown nothing) = ground (arith, sees)
      impossible (denied flags' content' sees' lacking) = ground (arith, sees, writes)
      impossible (outside flags' content' sees' held beyond) = ground (arith, sees, fits)

  -- On a valid store a write, whether or not it is refused, changes nothing that a read under another
  -- R_Key, or of a range apart from the written one, gives.
  pub read_region-write_region_apart :
      (r start len : ℕ)
      → (rkey ≢ r) ⊎ ((start + len ≤ offset) ⊎ (offset + length bytes ≤ start))
      → read_region r start len (write_region rkey offset bytes s).1 ≡ read_region r start len s
  read_region-write_region_apart r start len apart =
      elim (write_region-Written rkey offset bytes s v) [
        | refused e why out ↦ rw out
        | done t out after valid kept ↦ elim (Bool-cases (rkey == r)) [
          | inr other ↦
              read_region-view r start len (write_region rkey offset bytes s).1
              ∙ ap (λ o. read_seen o start len) (ground (arith, after r))
              ∙ sym (read_region-view r start len s)
          | inl here ↦
              let new : List ℕ = t.range.before ++ (bytes ++ t.range.after) in
              let now : view (write_region rkey offset bytes s).1 r ≡ some (t.flags, new) =
                ground (arith, after r) in
              let before : view s r ≡ some (t.flags, t.content) = ground (arith, t.sees) in
              let ranges : (start + len ≤ offset) ⊎ (offset + length bytes ≤ start) = elim apart [
                | inl differs ↦ absurd (ground arith)
                | inr disjoint ↦ disjoint
              ] in
              read_region-view r start len (write_region rkey offset bytes s).1
              ∙ ap (λ o. read_seen o start len) now
              ∙ read_seen_same t.flags start len t.content new
                  (length-overwritten t.range bytes refl)
                  (slice-overwritten t.range bytes start len refl ranges)
              ∙ sym (read_region-view r start len s ∙ ap (λ o. read_seen o start len) before)
        ]
      ]
