-- ===== src/Server/Store/Invariant.antt =====
-- The invariant of the store, and the changes that the methods make to it.
use rdows.Prelude.{
  ℕ, zero, suc, ◌+◌, ◌^◌, ◌≤◌, ◌<◌, ◌≡◌, ◌≢◌, refl, List, ◌∷◌, length, true, false, none, some,
  arith, ◌==◌, inl, inr, Option-cases, Bool-cases,
}
use rdows.Prelude.Dict.{lookup, insert, remove, lookup-insert, lookup-remove}
use rdows.Prelude.Sums.{
  IsDistinct, sum_by, insert-IsDistinct, remove-IsDistinct, length-insert_new, length-insert_old,
  length-remove, sum_by-insert_new, sum_by-insert_old, sum_by-remove,
}
use rdows.Server.Store.Defs.{
  MemoryRegionEntry, MemoryStore, new_store, is_used, Rng, draw, put_content,
}

abbrev pub size_of : MemoryRegionEntry → ℕ
size_of e = length e.content

pub record IsValid (s : MemoryStore) : Type 0 where
  -- A region stands under its own L_Key, its R_Key leads to it, and the next L_Key is above.
  pub keyed :
      (k : ℕ) (e : MemoryRegionEntry)
      → lookup k s.regions ≡ some e
      → (e.lkey ≡ k) × (lookup e.rkey s.rkey_to_lkey ≡ some k) × (k < s.next_lkey)
  -- An R_Key that leads anywhere leads to a region with that R_Key.
  pub known :
      (r k : ℕ)
      → lookup r s.rkey_to_lkey ≡ some k
      → (e : MemoryRegionEntry) × (lookup k s.regions ≡ some e) × (e.rkey ≡ r)
  pub drawn : (r k : ℕ) → lookup r s.rkey_to_lkey ≡ some k → is_used r s.used_rkeys ≡ true
  pub nonzero : is_used 0 s.used_rkeys ≡ false
  pub distinct : IsDistinct s.regions
  pub counted : s.total_registered_bytes ≡ sum_by size_of s.regions
  pub within_bytes : s.total_registered_bytes ≤ s.max_total_bytes
  pub within_count : length s.regions ≤ s.max_regions
  -- The configured limit is no more than a machine can address.
  pub addressable : s.max_total_bytes < 2 ^ 63

pub new_store-IsValid : (n m : ℕ) → m < 2 ^ 63 → IsValid (new_store n m)
unfolding lookup
new_store-IsValid n m h = record {
  keyed = λ k e p. cc;
  known = λ r k p. absurd (nothing p);
  drawn = λ r k p. cc;
  nonzero = refl;
  distinct = tt;
  counted = refl;
  within_bytes = omega arith;
  within_count = omega arith;
  addressable = h;
}
  where
    nothing : {k : ℕ} → none ≡ some k → ⊥
    nothing p = ground arith

-- A key that is drawn is new, and not 0.
pub draw_fresh :
    (rng : Rng) (used : List ℕ) (rounds i : ℕ) {v : ℕ}
    → draw rng used rounds i ≡ some v
    → (is_used v used ≡ false) × (v ≢ 0)
unfolding draw
draw_fresh rng used zero i h = ground arith
draw_fresh rng used (suc rounds) i {v} h =
    ground (arith, draw_fresh rng used rounds (suc i) {v = v})

-- The store after a region has been added under a new L_Key and a new R_Key.
abbrev pub added : MemoryRegionEntry → ℕ → ℕ → MemoryStore → MemoryStore
added e next total s = record s {
  rkey_to_lkey = insert e.rkey e.lkey s.rkey_to_lkey;
  regions = insert e.lkey e s.regions;
  used_rkeys = e.rkey ∷ s.used_rkeys;
  next_lkey = next;
  total_registered_bytes = total;
}

module _ {s : MemoryStore} (v : IsValid s) (e : MemoryRegionEntry) (next total : ℕ) where
  pub lkey_new : e.lkey ≡ s.next_lkey → lookup e.lkey s.regions ≡ none
  lkey_new h = elim (Option-cases (lookup e.lkey s.regions)) [
    | inl free ↦ free
    | inr (old, taken) ↦ absurd (omega (arith, v.keyed e.lkey old taken))
  ]

  pub rkey_new : is_used e.rkey s.used_rkeys ≡ false → lookup e.rkey s.rkey_to_lkey ≡ none
  rkey_new h = elim (Option-cases (lookup e.rkey s.rkey_to_lkey)) [
    | inl free ↦ free
    | inr (k, taken) ↦ let both = v.drawn e.rkey k taken in ground arith
  ]

  pub added-IsValid :
      e.lkey ≡ s.next_lkey
      → next ≡ suc s.next_lkey
      → is_used e.rkey s.used_rkeys ≡ false
      → e.rkey ≢ 0
      → total ≡ s.total_registered_bytes + length e.content
      → total ≤ s.max_total_bytes
      → length s.regions < s.max_regions
      → IsValid (added e next total s)
  added-IsValid hl hn hu hz ht hm hc =
      let free : lookup e.lkey s.regions ≡ none = lkey_new hl in
      let unused : lookup e.rkey s.rkey_to_lkey ≡ none = rkey_new hu in
      record {
        keyed = λ k old p. ground (
          arith,
          rw (lookup-insert e.lkey k e s.regions) at p,
          lookup-insert e.rkey old.rkey e.lkey s.rkey_to_lkey,
          v.keyed k old,
        );
        known = λ r k p.
            let p' = rw (lookup-insert e.rkey r e.lkey s.rkey_to_lkey) at p in
            elim (Bool-cases (e.rkey == r)) [
              | inl same ↦ (e, ground (arith, p', lookup-insert e.lkey k e s.regions), ground arith)
              | inr other ↦
                  let (old, at_k, has) = v.known r k (ground (arith, p')) in
                  (old, ground (arith, lookup-insert e.lkey k e s.regions, at_k, free), has)
            ];
        drawn = λ r k p.
            ground (arith, rw (lookup-insert e.rkey r e.lkey s.rkey_to_lkey) at p, v.drawn r k);
        nonzero = ground (arith, v.nonzero);
        distinct = insert-IsDistinct e.lkey e s.regions v.distinct;
        counted = omega (arith, v.counted, sum_by-insert_new size_of e.lkey e s.regions free);
        within_bytes = hm;
        within_count = omega (arith, length-insert_new e.lkey e s.regions free);
        addressable = v.addressable;
      }

-- The store after a region has been taken out.
abbrev pub removed : MemoryRegionEntry → ℕ → ℕ → MemoryStore → MemoryStore
removed e lkey total s = record s {
  rkey_to_lkey = remove e.rkey s.rkey_to_lkey;
  regions = remove lkey s.regions;
  total_registered_bytes = total;
}

pub removed-IsValid :
    {s : MemoryStore} (e : MemoryRegionEntry) (lkey total : ℕ)
    → IsValid s
    → lookup lkey s.regions ≡ some e
    → total + length e.content ≡ s.total_registered_bytes
    → IsValid (removed e lkey total s)
removed-IsValid {s} e lkey total v found ht = record {
  keyed = λ k old p. ground (
    arith,
    rw (lookup-remove lkey k s.regions) at p,
    lookup-remove e.rkey old.rkey s.rkey_to_lkey,
    v.keyed k old,
    v.keyed lkey e found,
  );
  known = λ r k p.
      let p' = rw (lookup-remove e.rkey r s.rkey_to_lkey) at p in
      let (old, at_k, has) = v.known r k (ground (arith, p')) in
      (old, ground (arith, p', lookup-remove lkey k s.regions, at_k, v.keyed lkey e found), has);
  drawn = λ r k p. ground (arith, rw (lookup-remove e.rkey r s.rkey_to_lkey) at p, v.drawn r k);
  nonzero = v.nonzero;
  distinct = remove-IsDistinct lkey s.regions v.distinct;
  counted = omega (arith, v.counted, sum_by-remove size_of lkey e s.regions v.distinct found);
  within_bytes = omega (arith, v.within_bytes);
  within_count = omega (arith, v.within_count, length-remove lkey s.regions);
  addressable = v.addressable;
}

-- A region whose bytes are overwritten keeps its length.
pub put_content-IsValid :
    {s : MemoryStore} (e : MemoryRegionEntry) (lkey : ℕ) (content : List ℕ)
    → IsValid s
    → lookup lkey s.regions ≡ some e
    → length content ≡ length e.content
    → IsValid (put_content lkey e content s)
put_content-IsValid {s} e lkey content v found same =
    let new : MemoryRegionEntry = record e { content = content } in
    record {
      keyed = λ k old p. ground (
        arith,
        rw (lookup-insert lkey k new s.regions) at p,
        v.keyed k old,
        v.keyed lkey e found,
      );
      known = λ r k p.
          let (old, at_k, has) = v.known r k p in
          elim (Bool-cases (lkey == k)) [
            | inl here ↦
                (new, ground (arith, lookup-insert lkey k new s.regions), ground (arith, at_k, has))
            | inr other ↦ (old, ground (arith, lookup-insert lkey k new s.regions, at_k), has)
          ];
      drawn = v.drawn;
      nonzero = v.nonzero;
      distinct = insert-IsDistinct lkey new s.regions v.distinct;
      counted = omega (arith, v.counted, sum_by-insert_old size_of lkey new e s.regions found);
      within_bytes = v.within_bytes;
      within_count = omega (arith, v.within_count, length-insert_old lkey new e s.regions found);
      addressable = v.addressable;
    }
