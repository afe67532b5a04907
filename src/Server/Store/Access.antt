-- ===== src/Server/Store/Access.antt =====
-- `read_region` and `write_region` on every path, in terms of the view.
use rdows.Prelude.{
  ℕ, ◌+◌, ◌<◌, ◌≡◌, refl, List, ◌++◌, length, true, false, none, some, Result, ok, err, arith, ◌==◌,
  if◌then◌else◌, inl, inr, Option-cases, Bool-cases,
}
use rdows.Prelude.Dict.{lookup}
use rdows.Core.Error.{ErrorCode, err_bounds, err_invalid_mkey, err_access_denied}
use rdows.Core.Memory.{contains, remote_write, remote_read}
use rdows.Server.Store.Defs.{
  MemoryRegionEntry, MemoryStore, find_region, find_granted, in_bounds, put_content, write_region,
  read_region,
}
use rdows.Server.Store.Invariant.{IsValid, put_content-IsValid}
use rdows.Server.Store.View.{view, seen, content_short, view-put_content}
use rdows.Bytes.Ranges.{
  splice, Split-inside, Split, split, slice-append, splice-append, length-overwritten,
}

module _ (rkey right start len : ℕ) (s : MemoryStore) where
  -- Why an access is refused.
  pub data Refusal : ErrorCode → Type 0 where
    unknown : view s rkey ≡ none → Refusal err_invalid_mkey
    denied :
        (flags : ℕ) (content : List ℕ)
        → view s rkey ≡ some (flags, content)
        → contains flags right ≡ false
        → Refusal err_access_denied
    outside :
        (flags : ℕ) (content : List ℕ)
        → view s rkey ≡ some (flags, content)
        → contains flags right ≡ true
        → length content < start + len
        → Refusal err_bounds

  -- The region on which an access may act, cut at the range.
  pub record Target : Type 0 where
    pub flags : ℕ
    pub content : List ℕ
    pub sees : view s rkey ≡ some (flags, content)
    pub allowed : contains flags right ≡ true
    pub range : Split start len content

  -- No reason to refuse an access to a target.
  pub Target-not_refused : Target → {e : ErrorCode} → Refusal e → ⊥
  Target-not_refused t (unknown nothing) = ground (arith, t.sees)
  Target-not_refused t (denied flags content sees lacking) = ground (arith, t.sees, t.allowed)
  Target-not_refused t (outside flags content sees held beyond) =
      ground (arith, t.sees, Split-inside t.range)

  -- How the lookups end that precede every access.
  pub data Looked (out : Result ErrorCode (ℕ × MemoryRegionEntry)) : Type 0 where
    refuses : (e : ErrorCode) → Refusal e → out ≡ err e → Looked out
    grants :
        (lkey : ℕ) (entry : MemoryRegionEntry)
        → lookup rkey s.rkey_to_lkey ≡ some lkey
        → lookup lkey s.regions ≡ some entry
        → view s rkey ≡ some (seen entry)
        → contains entry.access_flags right ≡ true
        → out ≡ ok (lkey, entry)
        → Looked out

  pub find_granted-Looked : Looked (find_granted rkey right s)
  unfolding view find_granted find_region
  find_granted-Looked = elim (Option-cases (lookup rkey s.rkey_to_lkey)) [
    | inl nowhere ↦
        refuses err_invalid_mkey (unknown (rw (nowhere, view)))
          (rw (nowhere, find_granted, find_region))
    | inr (lkey, leads) ↦ elim (Option-cases (lookup lkey s.regions)) [
      | inl absent ↦
          refuses err_invalid_mkey (unknown (rw (leads, view, absent)))
            (rw (leads, find_granted, find_region, absent))
      | inr (entry, found) ↦ elim (Bool-cases (contains entry.access_flags right)) [
        | inl held ↦
            grants lkey entry leads found (rw (leads, view, found)) held
              (rw (leads, find_granted, find_region, found, held))
        | inr lacking ↦
            refuses err_access_denied
              (denied entry.access_flags entry.content (rw (leads, view, found)) lacking)
              (rw (leads, find_granted, find_region, found, lacking))
      ]
    ]
  ]

module _ (rkey offset len : ℕ) (s : MemoryStore) where
  -- How a read may end.
  pub data Readout (out : Result ErrorCode (List ℕ)) : Type 0 where
    refused : (e : ErrorCode) → Refusal rkey remote_read offset len s e → out ≡ err e → Readout out
    done : (t : Target rkey remote_read offset len s) → out ≡ ok t.range.mid → Readout out

  -- On a valid store a read ends with the bytes of the range, or with the error whose reason holds: the
  -- R_Key leads nowhere, the right is missing, or the range leaves the region. It never panics.
  pub read_region-Readout : IsValid s → Readout (read_region rkey offset len s)
  unfolding read_region
  read_region-Readout v = elim (find_granted-Looked rkey remote_read offset len s) [
    | refuses e why out ↦ refused e why (rw (out, read_region))
    | grants lkey entry leads found sees held out ↦
        let short = content_short v lkey entry found in
        elim (Bool-cases (in_bounds offset len entry.content)) [
          | inl inside ↦
              let cut = split offset len entry.content (ground arith) in
              done
                (record {
                  flags = entry.access_flags;
                  content = entry.content;
                  sees = sees;
                  allowed = held;
                  range = cut;
                })
                (rw (
                  out,
                  read_region,
                  inside,
                  cut.whole,
                  slice-append offset cut.before cut.mid cut.after len cut.length_before
                      cut.length_mid,
                ))
          | inr beyond ↦
              refused err_bounds (outside entry.access_flags entry.content sees held (ground arith))
                (rw (out, read_region, beyond))
        ]
  ]

module _ (rkey offset : ℕ) (bytes : List ℕ) (s : MemoryStore) where
  -- How a write may end, with the store as it is then.
  pub data Written (out : Result ErrorCode (Unit {0}) × MemoryStore) : Type 0 where
    refused :
        (e : ErrorCode)
        → Refusal rkey remote_write offset (length bytes) s e
        → out ≡ (err e, s)
        → Written out
    done :
        (t : Target rkey remote_write offset (length bytes) s)
        → out.0 ≡ ok tt
        → ((r : ℕ)
            → view out.1 r ≡ (
                if rkey == r
                then some (t.flags, t.range.before ++ (bytes ++ t.range.after))
                else view s r))
        → IsValid out.1
        → out.1.used_rkeys ≡ s.used_rkeys
        → Written out

  -- On a valid store a write puts its bytes over the range, in the region of that R_Key alone, or ends
  -- with the error whose reason holds, and the store is what it was. It never panics, and the store
  -- stays valid.
  pub write_region-Written : IsValid s → Written (write_region rkey offset bytes s)
  unfolding write_region
  write_region-Written v = elim (find_granted-Looked rkey remote_write offset (length bytes) s) [
    | refuses e why out ↦ refused e why (rw (out, write_region))
    | grants lkey entry leads found sees held out ↦
        let short = content_short v lkey entry found in
        elim (Bool-cases (in_bounds offset (length bytes) entry.content)) [
          | inl inside ↦
              let cut = split offset (length bytes) entry.content (ground arith) in
              let new : List ℕ = cut.before ++ (bytes ++ cut.after) in
              let spliced : splice offset bytes entry.content ≡ new = rw (
                cut.whole,
                splice-append offset cut.before cut.mid cut.after bytes cut.length_before
                    cut.length_mid,
              ) in
              let result : write_region rkey offset bytes s
                  ≡ (ok tt, put_content lkey entry new s) =
                rw (out, write_region, inside, spliced) in
              let same : length new ≡ length entry.content = length-overwritten cut bytes refl in
              rw result (
                done
                  (record {
                    flags = entry.access_flags;
                    content = entry.content;
                    sees = sees;
                    allowed = held;
                    range = cut;
                  })
                  refl (λ r. view-put_content v rkey lkey entry new r leads found)
                  (put_content-IsValid entry lkey new v found same) refl)
          | inr beyond ↦
              refused err_bounds (outside entry.access_flags entry.content sees held (ground arith))
                (rw (out, write_region, beyond))
        ]
  ]
