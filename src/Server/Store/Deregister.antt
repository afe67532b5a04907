-- ===== src/Server/Store/Deregister.antt =====
-- `deregister` on every path.
use rdows.Prelude.{
  ℕ, ◌-◌, ◌^◌, ◌≤◌, ◌<◌, ◌≡◌, ◌≢◌, length, true, none, some, Result, ok, err, Profile, arith, ◌==◌,
  sub_uint-ok, inl, inr, Option-cases, Bool-cases,
}
use rdows.Prelude.Dict.{lookup}
use rdows.Prelude.Sums.{sum_by-remove}
use rdows.Core.Error.{ErrorCode, err_invalid_lkey, err_invalid_pd}
use rdows.Server.Store.Defs.{MemoryRegionEntry, MemoryStore, deregister}
use rdows.Server.Store.Invariant.{IsValid, size_of, removed, removed-IsValid}

module _ (pd lkey : ℕ) (s : MemoryStore) where
  -- How a deregistration may end.
  pub data Deregistered (out : Result ErrorCode (Unit {0}) × MemoryStore) : Type 0 where
    absent : lookup lkey s.regions ≡ none → out ≡ (err err_invalid_lkey, s) → Deregistered out
    foreign :
        (e : MemoryRegionEntry)
        → lookup lkey s.regions ≡ some e
        → e.pd ≢ pd
        → out ≡ (err err_invalid_pd, s)
        → Deregistered out
    done :
        (e : MemoryRegionEntry)
        → lookup lkey s.regions ≡ some e
        → e.pd ≡ pd
        → length e.content ≤ s.total_registered_bytes
        → out ≡ (ok tt, removed e lkey (s.total_registered_bytes - length e.content) s)
        → Deregistered out

  module _ (prof : Profile) where
    -- On a valid store a deregistration ends in one of three ways, none of them a panic: no such region,
    -- a region of another protection domain, both with the store unchanged, or the region is taken out.
    pub deregister-Deregistered : IsValid s → Deregistered (deregister prof pd lkey s)
    unfolding deregister
    deregister-Deregistered v = elim (Option-cases (lookup lkey s.regions)) [
      | inl none_there ↦ absent none_there (rw (none_there, deregister))
      | inr (e, found) ↦ elim (Bool-cases (e.pd == pd)) [
        | inl same ↦ done e found (ground arith) (fits e found) (removal e found same)
        | inr other ↦ foreign e found (ground arith) (rw (found, deregister, other))
      ]
    ]
      where
        fits :
            (e : MemoryRegionEntry)
            → lookup lkey s.regions ≡ some e
            → length e.content ≤ s.total_registered_bytes
        fits e found =
            omega (arith, v.counted, sum_by-remove size_of lkey e s.regions v.distinct found)

        removal :
            (e : MemoryRegionEntry)
            → lookup lkey s.regions ≡ some e
            → (e.pd == pd) ≡ true
            → deregister prof pd lkey s
              ≡ (ok tt, removed e lkey (s.total_registered_bytes - length e.content) s)
        removal e found same =
            let below : s.total_registered_bytes < 2 ^ 64 =
              omega (arith, v.within_bytes, v.addressable) in
            let rest =
              sub_uint-ok {E = ErrorCode} prof 64 s.total_registered_bytes (length e.content)
                (fits e found) below in
            rw (found, deregister, same, rest)

    -- A deregistration keeps the invariant, however it ends.
    pub deregister-IsValid : IsValid s → IsValid (deregister prof pd lkey s).1
    deregister-IsValid v = elim (deregister-Deregistered v) [
      | absent _ e ↦ rw e v
      | foreign _ _ _ e ↦ rw e v
      | done e found same fits out ↦ rw out (
          removed-IsValid e lkey (s.total_registered_bytes - length e.content) v found
            (omega arith))
    ]
