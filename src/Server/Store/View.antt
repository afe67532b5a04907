-- ===== src/Server/Store/View.antt =====
-- What a client sees of a store: a region under each R_Key, with its rights and its bytes.
use rdows.Prelude.{
  ℕ, ◌^◌, ◌<◌, ◌≡◌, List, length, false, Option, none, some, arith, ◌==◌, if◌then◌else◌, inl, inr,
  Option-cases,
}
use rdows.Prelude.Dict.{lookup, lookup-insert, lookup-remove}
use rdows.Prelude.Sums.{sum_by-remove}
use rdows.Server.Store.Defs.{MemoryRegionEntry, MemoryStore, is_used, put_content}
use rdows.Server.Store.Invariant.{IsValid, size_of, added, removed, lkey_new, rkey_new}

-- The rights and the bytes of a region.
abbrev pub seen : MemoryRegionEntry → ℕ × List ℕ
seen e = (e.access_flags, e.content)

-- The region that an R_Key leads to.
unfoldable pub view : MemoryStore → ℕ → Option (ℕ × List ℕ)
view s rkey = elim (lookup rkey s.rkey_to_lkey) [
  | none ↦ none
  | some lkey ↦ elim (lookup lkey s.regions) [ none ↦ none | some e ↦ some (seen e) ]
]

module _ {s : MemoryStore} (v : IsValid s) where
  pub content_short :
      (lkey : ℕ) (e : MemoryRegionEntry)
      → lookup lkey s.regions ≡ some e
      → length e.content < 2 ^ 63
  content_short lkey e found = omega (
    arith,
    v.counted,
    sum_by-remove size_of lkey e s.regions v.distinct found,
    v.within_bytes,
    v.addressable,
  )

  pub view-put_content :
      (rkey lkey : ℕ) (e : MemoryRegionEntry) (content : List ℕ) (r : ℕ)
      → lookup rkey s.rkey_to_lkey ≡ some lkey
      → lookup lkey s.regions ≡ some e
      → view (put_content lkey e content s) r
        ≡ (if rkey == r then some (e.access_flags, content) else view s r)
  unfolding view
  view-put_content rkey lkey e content r leads found =
      elim (Option-cases (lookup r s.rkey_to_lkey)) [
        | inl nowhere ↦ ground (arith, leads, nowhere)
        | inr (k, there) ↦
            let (old, at_k, has) = v.known r k there in
            let new : MemoryRegionEntry = record e { content = content } in
            ground (arith, lookup-insert lkey k new s.regions, v.known rkey lkey leads)
      ]

  pub view-added :
      (e : MemoryRegionEntry) (next total r : ℕ)
      → e.lkey ≡ s.next_lkey
      → is_used e.rkey s.used_rkeys ≡ false
      → view (added e next total s) r ≡ (if e.rkey == r then some (seen e) else view s r)
  unfolding view
  view-added e next total r hl hu =
      let free : lookup e.lkey s.regions ≡ none = lkey_new v e next total hl in
      elim (Option-cases (lookup r s.rkey_to_lkey)) [
        | inl nowhere ↦ ground (
          arith,
          lookup-insert e.rkey r e.lkey s.rkey_to_lkey,
          nowhere,
          lookup-insert e.lkey e.lkey e s.regions,
        )
        | inr (k, there) ↦
            let (old, at_k, has) = v.known r k there in
            let unused : lookup e.rkey s.rkey_to_lkey ≡ none = rkey_new v e next total hu in
            ground (
              arith,
              lookup-insert e.rkey r e.lkey s.rkey_to_lkey,
              there,
              at_k,
              lookup-insert e.lkey k e s.regions,
              free,
            )
      ]

  pub view-removed :
      (lkey : ℕ) (e : MemoryRegionEntry) (total r : ℕ)
      → lookup lkey s.regions ≡ some e
      → view (removed e lkey total s) r ≡ (if e.rkey == r then none else view s r)
  unfolding view
  view-removed lkey e total r found = elim (Option-cases (lookup r s.rkey_to_lkey)) [
    | inl nowhere ↦ ground (arith, lookup-remove e.rkey r s.rkey_to_lkey, nowhere)
    | inr (k, there) ↦
        let (old, at_k, has) = v.known r k there in
        ground (
          arith,
          lookup-remove e.rkey r s.rkey_to_lkey,
          there,
          at_k,
          lookup-remove lkey k s.regions,
          v.keyed lkey e found,
        )
  ]

  -- What is seen of a region is shorter than 2 ^ 63 bytes.
  pub view_short :
      (r : ℕ) {flags : ℕ} {content : List ℕ}
      → view s r ≡ some (flags, content)
      → length content < 2 ^ 63
  unfolding view
  view_short r {flags} {content} sees = elim (Option-cases (lookup r s.rkey_to_lkey)) [
    | inl nowhere ↦ ground (arith, nowhere)
    | inr (k, there) ↦
        let (old, at_k, has) = v.known r k there in
        let short = content_short k old at_k in ground (arith, there, at_k)
  ]
