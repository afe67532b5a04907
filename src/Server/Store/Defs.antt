-- ===== src/Server/Store/Defs.antt =====
-- `MemoryStore` and its methods. A method that changes the store returns the store beside its
-- result, since what was written before an error stays written.
use rdows.Prelude.{
  ℕ, zero, suc, ◌+◌, ◌%◌, ◌^◌, List, [], ◌∷◌, length, replicate, Bool, false, not, ◌&&◌, ◌||◌,
  Option, none, some, Result, ok, err, panic, Profile, add_uint, sub_uint, with_capacity, ltb, leb,
  ◌==◌, if◌then◌else◌,
}
use rdows.Prelude.Dict.{Dict, lookup, insert, remove}
use rdows.Bytes.{to_be, from_be}
use rdows.Bytes.Ranges.{splice, slice}
use rdows.Core.Error.{
  ErrorCode, err_internal, err_bounds, err_invalid_lkey, err_invalid_pd, err_invalid_mkey,
  err_access_denied, err_alignment, err_unknown_opcode,
}
use rdows.Core.Memory.{contains, remote_write, remote_read, remote_atomic}

pub record MemoryRegionEntry : Type 0 where
  pub pd : ℕ
  pub lkey : ℕ
  pub rkey : ℕ
  pub access_flags : ℕ
  pub content : List ℕ

pub record MemoryStore : Type 0 where
  pub regions : Dict MemoryRegionEntry
  pub rkey_to_lkey : Dict ℕ
  pub used_rkeys : List ℕ
  pub next_lkey : ℕ
  pub total_registered_bytes : ℕ
  pub max_regions : ℕ
  pub max_total_bytes : ℕ

-- `MemoryStore::new`
abbrev pub new_store : ℕ → ℕ → MemoryStore
new_store max_regions max_total_bytes = record {
  regions = [];
  rkey_to_lkey = [];
  used_rkeys = [];
  next_lkey = 1;
  total_registered_bytes = 0;
  max_regions = max_regions;
  max_total_bytes = max_total_bytes;
}

-- `HashSet::contains`
abbrev pub is_used : ℕ → List ℕ → Bool
is_used v [] = false
is_used v (u ∷ us) = u == v || is_used v us

-- The bytes that `OsRng` puts into the buffer at its i-th call.
abbrev pub Rng : Type 0
Rng = ℕ → List ℕ

-- The loop of `generate_rkey`: a number that is not 0 and was never used.
unfoldable pub draw : Rng → List ℕ → ℕ → ℕ → Option ℕ
draw rng used zero i = none
draw rng used (suc rounds) i =
    let later = draw rng used rounds (suc i) in
    let val : ℕ = from_be (rng i) in
    if not (val == 0) && not (is_used val used) then some val else later

-- The store as it is when the key has been drawn: the rest of `register`.
unfoldable pub add_region :
    Profile → ℕ → ℕ → ℕ → ℕ → ℕ → MemoryStore → Result ErrorCode (ℕ × ℕ) × MemoryStore
add_region prof pd access_flags region_len lkey rkey s =
    elim (with_capacity {E = ErrorCode} region_len 1) [
      | ok _ ↦ elim (add_uint {E = ErrorCode} prof 64 s.total_registered_bytes region_len) [
        | ok total ↦ (
          ok (lkey, rkey),
          record s {
            rkey_to_lkey = insert rkey lkey s.rkey_to_lkey;
            regions =
                insert lkey
                  (record {
                    pd = pd;
                    lkey = lkey;
                    rkey = rkey;
                    access_flags = access_flags;
                    content = replicate region_len 0;
                  })
                  s.regions;
            total_registered_bytes = total;
          },
        )
        | _ ↦ (panic, s)
      ]
      | _ ↦ (panic, s)
    ]

-- `self.next_lkey += 1` has happened also where no key is found.
unfoldable pub register_with_key :
    Profile → Rng → ℕ → ℕ → ℕ → MemoryStore → Result ErrorCode (ℕ × ℕ) × MemoryStore
register_with_key prof rng pd access_flags region_len s =
    elim (add_uint {E = ErrorCode} prof 32 s.next_lkey 1) [
      | ok next ↦ elim (draw rng s.used_rkeys 1000 0) [
        | some rkey ↦
            add_region prof pd access_flags region_len s.next_lkey rkey
              (record s { next_lkey = next; used_rkeys = rkey ∷ s.used_rkeys })
        | none ↦ (err err_internal, record s { next_lkey = next })
      ]
      | _ ↦ (panic, s)
    ]

unfoldable pub register :
    Profile → Rng → ℕ → ℕ → ℕ → MemoryStore → Result ErrorCode (ℕ × ℕ) × MemoryStore
register prof rng pd access_flags region_len s =
    if leb s.max_regions (length s.regions)
    then (err err_internal, s)
    else elim (add_uint {E = ErrorCode} prof 64 s.total_registered_bytes region_len) [
      | ok sum ↦
          if ltb s.max_total_bytes sum
          then (err err_bounds, s)
          else register_with_key prof rng pd access_flags region_len s
      | _ ↦ (panic, s)
    ]

unfoldable pub deregister :
    Profile → ℕ → ℕ → MemoryStore → Result ErrorCode (Unit {0}) × MemoryStore
deregister prof pd lkey s = elim (lookup lkey s.regions) [
  | none ↦ (err err_invalid_lkey, s)
  | some entry ↦
      if entry.pd == pd
      then elim (sub_uint {E = ErrorCode} prof 64 s.total_registered_bytes (length entry.content)) [
        | ok total ↦ (
          ok tt,
          record s {
            rkey_to_lkey = remove entry.rkey s.rkey_to_lkey;
            regions = remove lkey s.regions;
            total_registered_bytes = total;
          },
        )
        | _ ↦ (panic, s)
      ]
      else (err err_invalid_pd, s)
]

-- The two lookups with which every access by R_Key begins, with the L_Key found.
unfoldable pub find_region : ℕ → MemoryStore → Result ErrorCode (ℕ × MemoryRegionEntry)
find_region rkey s = elim (lookup rkey s.rkey_to_lkey) [
  | none ↦ err err_invalid_mkey
  | some lkey ↦ elim (lookup lkey s.regions) [
    | none ↦ err err_invalid_mkey
    | some entry ↦ ok (lkey, entry)
  ]
]

-- The lookups and the test of the access right.
unfoldable pub find_granted : ℕ → ℕ → MemoryStore → Result ErrorCode (ℕ × MemoryRegionEntry)
find_granted rkey right s = elim (find_region rkey s) [
  | ok (lkey, entry) ↦
      if contains entry.access_flags right then ok (lkey, entry) else err err_access_denied
  | err e ↦ err e
  | panic ↦ panic
]

unfoldable pub validate_rkey : ℕ → ℕ → MemoryStore → Result ErrorCode MemoryRegionEntry
validate_rkey rkey required_access s = elim (find_granted rkey required_access s) [
  | ok (lkey, entry) ↦ ok entry
  | err e ↦ err e
  | panic ↦ panic
]

-- `start.checked_add(len)` on 64 bits, and the test against the length of the region.
abbrev pub in_bounds : ℕ → ℕ → List ℕ → Bool
in_bounds start len content = ltb (start + len) (2 ^ 64) && leb (start + len) (length content)

abbrev pub put_content : ℕ → MemoryRegionEntry → List ℕ → MemoryStore → MemoryStore
put_content lkey entry content s = record s {
  regions = insert lkey (record entry { content = content }) s.regions;
}

unfoldable pub write_region :
    ℕ → ℕ → List ℕ → MemoryStore → Result ErrorCode (Unit {0}) × MemoryStore
write_region rkey offset bytes s = elim (find_granted rkey remote_write s) [
  | ok (lkey, entry) ↦
      if in_bounds offset (length bytes) entry.content
      then (ok tt, put_content lkey entry (splice offset bytes entry.content) s)
      else (err err_bounds, s)
  | err e ↦ (err e, s)
  | panic ↦ (panic, s)
]

unfoldable pub read_region : ℕ → ℕ → ℕ → MemoryStore → Result ErrorCode (List ℕ)
read_region rkey offset len s = elim (find_granted rkey remote_read s) [
  | ok (lkey, entry) ↦
      if in_bounds offset len entry.content
      then ok (slice offset len entry.content)
      else err err_bounds
  | err e ↦ err e
  | panic ↦ panic
]

-- 0x01 is compare-and-swap, 0x02 fetch-and-add.
unfoldable pub new_value : ℕ → ℕ → ℕ → ℕ → Result ErrorCode ℕ
new_value atomic_type operand1 operand2 original =
    if atomic_type == 0x01
    then ok (if original == operand1 then operand2 else original)
    else if atomic_type == 0x02
    then ok ((original + operand1) % 2 ^ 64)
    else err err_unknown_opcode

unfoldable pub apply_atomic :
    ℕ → ℕ → ℕ → ℕ → ℕ → MemoryRegionEntry → MemoryStore → Result ErrorCode ℕ × MemoryStore
apply_atomic remote_va atomic_type operand1 operand2 lkey entry s =
    let original : ℕ = from_be (slice remote_va 8 entry.content) in
    elim (new_value atomic_type operand1 operand2 original) [
      | ok value ↦
          (ok original, put_content lkey entry (splice remote_va (to_be 8 value) entry.content) s)
      | err e ↦ (err e, s)
      | panic ↦ (panic, s)
    ]

unfoldable pub atomic_op : ℕ → ℕ → ℕ → ℕ → ℕ → MemoryStore → Result ErrorCode ℕ × MemoryStore
atomic_op rkey remote_va atomic_type operand1 operand2 s =
    elim (find_granted rkey remote_atomic s) [
      | ok (lkey, entry) ↦
          if not (remote_va % 8 == 0)
          then (err err_alignment, s)
          else if in_bounds remote_va 8 entry.content
          then apply_atomic remote_va atomic_type operand1 operand2 lkey entry s
          else (err err_bounds, s)
      | err e ↦ (err e, s)
      | panic ↦ (panic, s)
    ]
