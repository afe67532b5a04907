-- ===== src/Client/LocalMemory.antt =====
-- The local buffers of the client's regions (crates/rdows-client/src/verbs.rs).
use rdows.Prelude.{
  ℕ, ◌-◌, List, [], ◌∷◌, ◌++◌, ◌||◌, Profile, Result, add_uint, length, ltb, if◌then◌else◌, ok_or,
}
use rdows.Prelude.Dict.{Dict, lookup, insert}
use rdows.Bytes.Ranges.{slice, splice}
use rdows.Core.Error.{RdowsError, protocol, err_invalid_lkey, err_bounds}
use rdows.Core.Queue.Entry.{ScatterGatherEntry}

pub record MemoryRegionHandle : Type 0 where
  pub lkey : ℕ
  pub rkey : ℕ
  pub len : ℕ
  pub local_buf : List ℕ

-- `buf[start..end]` panics unless `start ≤ end ≤ len`.
unfoldable pub range : {E : Type 0} → ℕ → ℕ → List ℕ → Result E (List ℕ)
range start end buf =
    if ltb end start || ltb (length buf) end
    then Result.panic
    else Result.ok (slice start (end - start) buf)

-- `start + len` and the test that the range ends within the buffer.
unfoldable pub range_end : Profile → ℕ → ℕ → List ℕ → Result RdowsError ℕ
range_end prof start len buf = elim (add_uint {E = RdowsError} prof 64 start len) [
  | Result.ok end ↦ if ltb (length buf) end then Result.err (protocol err_bounds) else Result.ok end
  | Result.err e ↦ Result.err e
  | Result.panic ↦ Result.panic
]

-- `&buf[start..start + len]`, with the test before it.
unfoldable pub read_range : Profile → ℕ → ℕ → List ℕ → Result RdowsError (List ℕ)
read_range prof start len buf = elim (range_end prof start len buf) [
  | Result.ok end ↦ range start end buf
  | Result.err e ↦ Result.err e
  | Result.panic ↦ Result.panic
]

-- `buf[start..start + bytes.len()].copy_from_slice(bytes)`, with the test before it.
unfoldable pub write_range : Profile → ℕ → List ℕ → List ℕ → Result RdowsError (List ℕ)
write_range prof start bytes buf = elim (read_range prof start (length bytes) buf) [
  | Result.ok _ ↦ Result.ok (splice start bytes buf)
  | Result.err e ↦ Result.err e
  | Result.panic ↦ Result.panic
]

unfoldable pub find_local : ℕ → Dict MemoryRegionHandle → Result RdowsError MemoryRegionHandle
find_local lkey mrs = ok_or (lookup lkey mrs) (protocol err_invalid_lkey)

-- `read_local_mr`
unfoldable pub read_local :
    Profile → ℕ → ℕ → ℕ → Dict MemoryRegionHandle → Result RdowsError (List ℕ)
read_local prof lkey offset len mrs = elim (find_local lkey mrs) [
  | Result.ok mr ↦ read_range prof offset len mr.local_buf
  | Result.err e ↦ Result.err e
  | Result.panic ↦ Result.panic
]

-- The handles after a write into a local buffer.
unfoldable pub write_local :
    Profile → ℕ → ℕ → List ℕ → Dict MemoryRegionHandle → Result RdowsError (Dict MemoryRegionHandle)
write_local prof lkey offset bytes mrs = elim (find_local lkey mrs) [
  | Result.ok mr ↦ elim (write_range prof offset bytes mr.local_buf) [
    | Result.ok buf ↦ Result.ok (insert lkey (record mr { local_buf = buf }) mrs)
    | Result.err e ↦ Result.err e
    | Result.panic ↦ Result.panic
  ]
  | Result.err e ↦ Result.err e
  | Result.panic ↦ Result.panic
]

-- The loop of `gather_sg_data`, with what is gathered so far.
unfoldable pub gather :
    Profile
    → Dict MemoryRegionHandle
    → List ScatterGatherEntry
    → List ℕ
    → Result RdowsError (List ℕ)
gather prof mrs [] result = Result.ok result
gather prof mrs (sg ∷ sg_list) result = elim (read_local prof sg.lkey sg.offset sg.length mrs) [
  | Result.ok bytes ↦ gather prof mrs sg_list (result ++ bytes)
  | Result.err e ↦ Result.err e
  | Result.panic ↦ Result.panic
]
