-- ===== src/Kv/Slot.antt =====
-- Slots of the table and the hash of a key (crates/rdows-kv/src/kv.rs).
use Prim.Native.Nat.{bit_xor}
use rdows.Prelude.{
  ℕ, ◌+◌, ◌*◌, ◌%◌, ◌^◌, List, [], ◌∷◌, Option, none, some, Result, ok, err, panic, length,
  replicate, ltb, ◌==◌, if◌then◌else◌,
}
use rdows.Bytes.{to_be, from_be}
use rdows.Bytes.Ranges.{slice, splice}
use rdows.Bytes.Utf8.{from_utf8_lossy}
use rdows.Client.LocalMemory.{range}
use rdows.Core.Error.{RdowsError}

abbrev pub slot_count : ℕ
slot_count = 64

abbrev pub slot_size : ℕ
slot_size = 1024

abbrev pub mr_size : ℕ
mr_size = slot_count * slot_size

abbrev pub max_key_len : ℕ
max_key_len = 255

abbrev pub max_value_len : ℕ
max_value_len = 764

abbrev pub off_status : ℕ
off_status = 0

abbrev pub off_key_len : ℕ
off_key_len = 1

abbrev pub off_val_len : ℕ
off_val_len = 3

abbrev pub off_key : ℕ
off_key = 5

abbrev pub off_value : ℕ
off_value = 260

pub data KvError : Type 0 where
  rdma : RdowsError → KvError
  table_full : KvError
  key_too_long : KvError
  value_too_long : KvError

-- The loop of `hash_key`: FNV-1a on 32 bits.
unfoldable pub hash_loop : ℕ → List ℕ → ℕ
hash_loop hash [] = hash
hash_loop hash (b ∷ key) = hash_loop (bit_xor hash b * 16777619 % 2 ^ 32) key

unfoldable pub hash_key : List ℕ → ℕ
hash_key key = hash_loop 2166136261 key % slot_count

-- `slot[off..off + bytes.len()].copy_from_slice(bytes)`
unfoldable pub put_at : ℕ → List ℕ → Result KvError (List ℕ) → Result KvError (List ℕ)
put_at off bytes (ok slot) =
    if ltb (length slot) (off + length bytes) then panic else ok (splice off bytes slot)
put_at off bytes r = r

-- The zeroes that a slot begins with.
unfoldable pub empty_slot : List ℕ
empty_slot = replicate slot_size 0

unfoldable pub encode_slot : List ℕ → List ℕ → Result KvError (List ℕ)
encode_slot key value = put_at off_value value (
    put_at off_key key (
      put_at off_val_len (to_be 2 (length value))
        (put_at off_key_len (to_be 2 (length key)) (put_at off_status (1 ∷ []) (ok empty_slot)))))

-- A `u16` in a slot.
unfoldable pub length_at : ℕ → List ℕ → ℕ
length_at off slot = from_be (slice off 2 slot)

-- The text in a range of the slot.
unfoldable pub text_at : ℕ → ℕ → List ℕ → Result KvError (List ℕ)
text_at off len slot = elim (range {E = KvError} off (off + len) slot) [
  | ok bytes ↦ ok (from_utf8_lossy bytes)
  | err e ↦ err e
  | panic ↦ panic
]

-- A range that leaves the slot panics.
unfoldable pub decode_slot : List ℕ → Result KvError (Option (List ℕ × List ℕ))
decode_slot slot =
    if from_be (slice off_status 1 slot) == 0
    then ok none
    else elim (text_at off_key (length_at off_key_len slot) slot) [
      | ok key ↦ elim (text_at off_value (length_at off_val_len slot) slot) [
        | ok value ↦ ok (some (key, value))
        | err e ↦ err e
        | panic ↦ panic
      ]
      | err e ↦ err e
      | panic ↦ panic
    ]
