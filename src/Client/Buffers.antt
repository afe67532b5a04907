-- ===== src/Client/Buffers.antt =====
-- Reading and writing the local buffers (crates/rdows-client/src/verbs.rs).
use rdows.Prelude.{
  ℕ, ◌++◌, ◌+◌, ◌-◌, ◌^◌, ◌≤◌, ◌<◌, ◌≡◌, refl, sym, ap, ◌∙◌, List, false, ◌||◌, some, ok, Profile,
  add_uint-ok, length, ltb, ◌==◌, if◌then◌else◌, arith, ◌⊎◌,
}
use rdows.Prelude.Dict.{Dict, lookup, insert, lookup-insert}
use rdows.Bytes.Ranges.{
  slice, splice, split, slice-append, splice-append, length-overwritten, slice-overwritten,
}
use rdows.Core.Error.{RdowsError}
use rdows.Client.LocalMemory.{
  MemoryRegionHandle, range, range_end, read_range, write_range, find_local, read_local,
  write_local,
}

module _ (prof : Profile) where
  range_end-inside :
      (start len : ℕ) (buf : List ℕ)
      → start + len ≤ length buf
      → length buf < 2 ^ 64
      → range_end prof start len buf ≡ ok (start + len)
  unfolding range_end
  range_end-inside start len buf h small =
      let inside : ltb (length buf) (start + len) ≡ false = ground arith in
      rw (range_end, add_uint-ok {E = RdowsError} prof 64 start len (omega arith), inside) refl

  read_range-inside :
      (start len : ℕ) (buf : List ℕ)
      → start + len ≤ length buf
      → length buf < 2 ^ 64
      → read_range prof start len buf ≡ ok (slice start len buf)
  unfolding read_range range
  read_range-inside start len buf h small =
      let inside : (ltb (start + len) start || ltb (length buf) (start + len)) ≡ false =
        ground arith in
      let size : start + len - start ≡ len = omega arith in
      rw (read_range, range_end-inside start len buf h small, range, inside, size) refl

  write_range-inside :
      (start : ℕ) (bytes buf : List ℕ)
      → start + length bytes ≤ length buf
      → length buf < 2 ^ 64
      → write_range prof start bytes buf ≡ ok (splice start bytes buf)
  unfolding write_range
  write_range-inside start bytes buf h small =
      rw (write_range, read_range-inside start (length bytes) buf h small) refl

  read_local-found :
      (lkey offset len : ℕ) (mrs : Dict MemoryRegionHandle) (mr : MemoryRegionHandle)
      → lookup lkey mrs ≡ some mr
      → read_local prof lkey offset len mrs ≡ read_range prof offset len mr.local_buf
  unfolding read_local find_local read_range
  read_local-found lkey offset len mrs mr e = rw (read_local, find_local, e)

  pub write_local-found :
      (lkey offset : ℕ) (bytes : List ℕ) (mrs : Dict MemoryRegionHandle) (mr : MemoryRegionHandle)
      → lookup lkey mrs ≡ some mr
      → offset + length bytes ≤ length mr.local_buf
      → length mr.local_buf < 2 ^ 64
      → write_local prof lkey offset bytes mrs
        ≡ ok (insert lkey (record mr { local_buf = splice offset bytes mr.local_buf }) mrs)
  unfolding write_local find_local
  write_local-found lkey offset bytes mrs mr e h small =
      rw (write_local, find_local, e, write_range-inside offset bytes mr.local_buf h small) refl

  read_local-lookup :
      (lkey offset len : ℕ) (mrs later : Dict MemoryRegionHandle)
      → lookup lkey mrs ≡ lookup lkey later
      → read_local prof lkey offset len mrs ≡ read_local prof lkey offset len later
  unfolding read_local find_local
  read_local-lookup lkey offset len mrs later e = rw (read_local, find_local, e) refl

-- Bytes that are written into the local buffer of a region, within it, are read back from there; what
-- is read from any other region, and from a range of that buffer apart from the written one, is what it
-- was. The buffer is shorter than 2 ^ 64 bytes.
pub read_local-write_local :
    (prof : Profile) (lkey offset : ℕ) (bytes : List ℕ) (mrs : Dict MemoryRegionHandle)
    (mr : MemoryRegionHandle)
    → lookup lkey mrs ≡ some mr
    → offset + length bytes ≤ length mr.local_buf
    → length mr.local_buf < 2 ^ 64
    → (later : Dict MemoryRegionHandle) × (write_local prof lkey offset bytes mrs ≡ ok later)
      × (read_local prof lkey offset (length bytes) later ≡ ok bytes)
      × ((other off len : ℕ)
          → (lkey == other) ≡ false
          → read_local prof other off len later ≡ read_local prof other off len mrs)
      × ((off len : ℕ)
          → (off + len ≤ offset) ⊎ (offset + length bytes ≤ off)
          → off + len ≤ length mr.local_buf
          → read_local prof lkey off len later ≡ read_local prof lkey off len mrs)
read_local-write_local prof lkey offset bytes mrs mr e h small =
    let cut = split offset (length bytes) mr.local_buf h in
    let written : List ℕ = cut.before ++ (bytes ++ cut.after) in
    let spliced : splice offset bytes mr.local_buf ≡ written =
      ap (splice offset bytes) cut.whole
      ∙ splice-append offset cut.before cut.mid cut.after bytes cut.length_before cut.length_mid in
    let size : length written ≡ length mr.local_buf = length-overwritten cut bytes refl in
    let handle : MemoryRegionHandle = record mr { local_buf = written } in
    let later : Dict MemoryRegionHandle = insert lkey handle mrs in
    let held : lookup lkey later ≡ some handle =
      rw (lookup-insert lkey lkey handle mrs) (ground arith) in
    (
      later,
      write_local-found prof lkey offset bytes mrs mr e h small
          ∙ ap (λ buf. ok (insert lkey (record mr { local_buf = buf }) mrs)) spliced,
      read_local-found prof lkey offset (length bytes) later handle held
          ∙ read_range-inside prof offset (length bytes) written (omega (arith, size))
              (omega (arith, size))
          ∙ ap ok (
              slice-append offset cut.before bytes cut.after (length bytes) cut.length_before refl),
      λ other off len apart. read_local-lookup prof other off len later mrs (
          lookup-insert lkey other handle mrs
          ∙ ap (λ b. if b then some handle else lookup other mrs) apart),
      λ off len apart inside.
          read_local-found prof lkey off len later handle held
          ∙ read_range-inside prof off len written (omega (arith, size)) (omega (arith, size))
          ∙ ap ok (slice-overwritten cut bytes off len refl apart)
          ∙ sym (read_range-inside prof off len mr.local_buf inside small)
          ∙ sym (read_local-found prof lkey off len mrs mr e),
    )
