-- ===== src/Server/Store/Register.antt =====
-- `register` on every path.
use rdows.Prelude.{
  ℕ, suc, ◌+◌, ◌-◌, ◌^◌, ◌≤◌, ◌<◌, ◌≡◌, ◌≢◌, refl, ap, sym, length, replicate, true, false, Result,
  ok, none, some, not, ◌&&◌, ◌==◌, ◌⊎◌, List, zero, err, panic, Profile, arith, ltb, leb,
  length-replicate, inl, inr, add_uint-ok, with_capacity, add_uint-cases, Option-cases, Bool-cases,
}
use native.Mathlib.Nat.{eq-or-lt_of_le}
use rdows.Bytes.{from_be}
use rdows.Core.Error.{ErrorCode, err_internal, err_bounds}
use rdows.Server.Store.Defs.{
  MemoryRegionEntry, MemoryStore, is_used, Rng, draw, add_region, register_with_key, register,
}
use rdows.Server.Store.Invariant.{IsValid, draw_fresh, added, added-IsValid}

-- The entry of a region that has just been registered: all its bytes are 0.
abbrev pub fresh_entry : ℕ → ℕ → ℕ → ℕ → ℕ → MemoryRegionEntry
fresh_entry pd access_flags region_len lkey rkey = record {
  pd = pd;
  lkey = lkey;
  rkey = rkey;
  access_flags = access_flags;
  content = replicate region_len 0;
}

-- The k-th draw is 0, or it has been an R_Key before.
abbrev IsUnusable : Rng → List ℕ → ℕ → Type 0
IsUnusable rng used k = (from_be (rng k) ≡ 0) ⊎ (is_used (from_be (rng k)) used ≡ true)

-- The first usable number of the thousand draws.
pub record IsDrawn (rng : Rng) (used : List ℕ) (rkey : ℕ) : Type 0 where
  pub draws : ℕ
  pub within : draws < 1000
  pub value : rkey ≡ from_be (rng draws)
  pub skipped : (j : ℕ) → j < draws → IsUnusable rng used j
  pub fresh : is_used rkey used ≡ false
  pub nonzero : rkey ≢ 0

module _ (rng : Rng) (used : List ℕ) where
  rejected_draw :
      (i : ℕ)
      → not (from_be (rng i) == 0) && not (is_used (from_be (rng i)) used) ≡ false
      → IsUnusable rng used i
  rejected_draw i h = elim (Bool-cases (is_used (from_be (rng i)) used)) [
    | inl again ↦ inr again
    | inr new ↦ inl (ground (arith, h, new))
  ]

  draw-none :
      (rounds i : ℕ)
      → draw rng used rounds i ≡ none
      → (j : ℕ) → i ≤ j
      → j < i + rounds
      → IsUnusable rng used j
  unfolding draw
  draw-none zero i h j low high = absurd (omega arith)
  draw-none (suc rounds) i h j low high =
      elim (Bool-cases (not (from_be (rng i) == 0) && not (is_used (from_be (rng i)) used))) [
        | inl usable ↦ ground (arith, h, usable)
        | inr bad ↦ elim (eq-or-lt_of_le low) [
          | inl same ↦ rw (← same) (rejected_draw i bad)
          | inr later ↦ draw-none rounds (suc i) (ground (arith, h, bad)) j later (omega arith)
        ]
      ]

  draw-some :
      (rounds i : ℕ) {v : ℕ}
      → draw rng used rounds i ≡ some v
      → (k : ℕ) × (k < i + rounds)
        × (v ≡ from_be (rng k))
        × ((j : ℕ) → i ≤ j → j < k → IsUnusable rng used j)
  unfolding draw
  draw-some zero i h = ground arith
  draw-some (suc rounds) i {v} h =
      elim (Bool-cases (not (from_be (rng i) == 0) && not (is_used (from_be (rng i)) used))) [
        | inl usable ↦
            (i, omega arith, ground (arith, h, usable), λ j low high. absurd (omega arith))
        | inr bad ↦
            let (k, within, value, before) =
              draw-some rounds (suc i) {v = v} (ground (arith, h, bad)) in
            (
              k,
              omega arith,
              value,
              λ j low high. elim (eq-or-lt_of_le low) [
                | inl same ↦ rw (← same) (rejected_draw i bad)
                | inr later ↦ before j later high
              ],
            )
      ]

  draw-IsDrawn : {rkey : ℕ} → draw rng used 1000 0 ≡ some rkey → IsDrawn rng used rkey
  draw-IsDrawn {rkey} found =
      let (k, within, value, before) = draw-some 1000 0 {v = rkey} found in
      let (new, nonzero) = draw_fresh rng used 1000 0 {v = rkey} found in
      record {
        draws = k;
        within = within;
        value = value;
        skipped = λ j h. before j (omega arith) h;
        fresh = new;
        nonzero = nonzero;
      }

module _ (pd access_flags region_len : ℕ) (s : MemoryStore) (rng : Rng) where
  -- How a registration may end.
  pub data Registered (out : Result ErrorCode (ℕ × ℕ) × MemoryStore) : Type 0 where
    full : s.max_regions ≤ length s.regions → out ≡ (err err_internal, s) → Registered out
    exceeds :
        length s.regions < s.max_regions
        → s.max_total_bytes < s.total_registered_bytes + region_len
        → out ≡ (err err_bounds, s)
        → Registered out
    unlucky :
        length s.regions < s.max_regions
        → ((j : ℕ) → j < 1000 → IsUnusable rng s.used_rkeys j)
        → out ≡ (err err_internal, record s { next_lkey = s.next_lkey + 1 })
        → Registered out
    done :
        (rkey : ℕ)
        → IsDrawn rng s.used_rkeys rkey
        → length s.regions < s.max_regions
        → s.total_registered_bytes + region_len ≤ s.max_total_bytes
        → out ≡ (
          ok (s.next_lkey, rkey),
          added
              (fresh_entry pd access_flags region_len s.next_lkey rkey)
              (s.next_lkey + 1)
              (s.total_registered_bytes + region_len)
              s,
        )
        → Registered out
    panics : length s.regions < s.max_regions → 2 ^ 63 ≤ region_len → out.0 ≡ panic → Registered out

  module _ (prof : Profile) where
    -- The part of a registration after the limits have been tested.
    register_with_key-Registered :
        IsValid s
        → suc s.next_lkey < 2 ^ 32
        → length s.regions < s.max_regions
        → (region_len < 2 ^ 63 → s.total_registered_bytes + region_len ≤ s.max_total_bytes)
        → Registered (register_with_key prof rng pd access_flags region_len s)
    unfolding register_with_key add_region
    register_with_key-Registered v h room fits =
        let next = add_uint-ok {E = ErrorCode} prof 32 s.next_lkey 1 (omega arith) in
        elim (Option-cases (draw rng s.used_rkeys 1000 0)) [
          | inl nothing ↦
              unlucky room
                (λ j h. draw-none rng s.used_rkeys 1000 0 nothing j (omega arith) (omega arith))
                (rw (next, register_with_key, add_region, nothing))
          | inr (rkey, found) ↦
              let drawn = draw-IsDrawn rng s.used_rkeys {rkey = rkey} found in
              elim (Bool-cases (ltb (2 ^ 63 - 1) region_len)) [
                | inl huge ↦
                    let refused : with_capacity {E = ErrorCode} region_len 1 ≡ panic =
                      ground arith in
                    panics room (ground arith)
                      (rw (next, register_with_key, add_region, found, refused))
                | inr small ↦
                    let total : s.total_registered_bytes + region_len ≤ s.max_total_bytes =
                      fits (ground arith) in
                    let granted : with_capacity {E = ErrorCode} region_len 1 ≡ ok tt =
                      ground arith in
                    done rkey drawn room total (
                      rw (
                        next,
                        register_with_key,
                        add_region,
                        found,
                        granted,
                        add_uint-ok {E = ErrorCode} prof 64 s.total_registered_bytes region_len
                            (omega (arith, v.addressable)),
                      ))
              ]
        ]

    -- On a valid store whose 32-bit counter of L_Keys has room, a registration ends in one of five
    -- ways: the store is full; or it is not, and the byte limit is exceeded; or each of the
    -- thousand draws of the random source is 0 or was an R_Key before (only the counter has moved);
    -- or a zeroed region stands under the next L_Key and under the first draw that is neither; or
    -- it panics, the region being of 2 ^ 63 bytes or more.
    pub register-Registered :
        IsValid s
        → suc s.next_lkey < 2 ^ 32
        → Registered (register prof rng pd access_flags region_len s)
    unfolding register
    register-Registered v h = elim (Bool-cases (leb s.max_regions (length s.regions))) [
      | inl is_full ↦ full (ground arith) (ground arith)
      | inr room ↦
          elim (add_uint-cases {E = ErrorCode} prof 64 s.total_registered_bytes region_len) [
            | inl (sum, low, same, e) ↦ elim (Bool-cases (ltb s.max_total_bytes sum)) [
              | inl above ↦ exceeds (ground arith) (ground arith) (rw (room, e, above))
              | inr below ↦
                  let tested =
                    register_with_key-Registered v h (ground arith)
                      (ground (arith, v.addressable)) in
                  let out : register prof rng pd access_flags region_len s
                      ≡ register_with_key prof rng pd access_flags region_len s =
                    rw (room, e, below) in
                  rw (← out) at tested
            ]
            | inr (above, e) ↦
                panics (ground arith) (omega (arith, v.within_bytes, v.addressable)) (rw (room, e))
          ]
    ]

    -- A registration that does not panic keeps the invariant.
    pub register-IsValid :
        IsValid s
        → suc s.next_lkey < 2 ^ 32
        → (register prof rng pd access_flags region_len s).0 ≢ panic
        → IsValid (register prof rng pd access_flags region_len s).1
    register-IsValid v h calm = elim (register-Registered v h) [
      | full _ e ↦ rw e v
      | exceeds _ _ e ↦ rw e v
      | unlucky _ _ e ↦ rw e (skipped v)
      | done rkey drawn room fits e ↦ rw e (
          added-IsValid v (fresh_entry pd access_flags region_len s.next_lkey rkey)
            (s.next_lkey + 1) (s.total_registered_bytes + region_len) refl (omega arith) drawn.fresh
            drawn.nonzero (ap (◌+◌ s.total_registered_bytes) (sym (length-replicate region_len 0)))
            fits room)
      | panics _ _ e ↦ absurd (calm e)
    ]
      where
        skipped : IsValid s → IsValid (record s { next_lkey = s.next_lkey + 1 })
        skipped v = record {
          keyed = λ k e p. let (a, b, c) = v.keyed k e p in (a, b, omega arith);
          known = v.known;
          drawn = v.drawn;
          nonzero = v.nonzero;
          distinct = v.distinct;
          counted = v.counted;
          within_bytes = v.within_bytes;
          within_count = v.within_count;
          addressable = v.addressable;
        }
