-- ===== src/Kv/Examples.antt =====
-- The theorems on slots at concrete ones.
use rdows.Prelude.{
  ℕ, ◌≤◌, ◌≡◌, refl, List, [], ◌∷◌, ◌&&◌, none, some, ok, panic, length, length-replicate, leb,
  ◌==◌, if◌then◌else◌, arith, replicate,
}
use rdows.Bytes.{from_be}
use rdows.Bytes.Ranges.{slice}
use rdows.Bytes.Texts.{text}
use rdows.Bytes.Utf8.{is_utf8, from_utf8_lossy}
use rdows.Kv.Slot.{
  slot_size, max_value_len, off_status, off_key_len, off_val_len, off_key, off_value, hash_key,
  hash_loop, length_at, encode_slot, decode_slot,
}
use rdows.Kv.Dump.{slot_hex_lines}
use rdows.Kv.Codec.{decode_slot-encode_slot}
use rdows.Kv.Totality.{decode_slot-bounds, slot_hex_lines-Shows}

-- The slot where "foobar" is looked up first.
hash_key-foobar : hash_key (text "foobar") ≡ 40
unfolding hash_key hash_loop
hash_key-foobar = refl

decode_slot-encode_slot_example :
    (slot : List ℕ) × (encode_slot (b'k' ∷ []) (b'v' ∷ b'w' ∷ []) ≡ ok slot)
    × (length slot ≡ slot_size)
    × (decode_slot slot ≡ ok (some (b'k' ∷ [], b'v' ∷ b'w' ∷ [])))
unfolding is_utf8
decode_slot-encode_slot_example =
    decode_slot-encode_slot (b'k' ∷ []) (b'v' ∷ b'w' ∷ []) (omega arith) (omega arith) refl refl

-- A slot whose bytes are all 1: its key would have 257 bytes.
abbrev ones : List ℕ
ones = replicate slot_size 1

decode_slot-bounds_example : decode_slot ones ≡ (
    if from_be (slice off_status 1 ones) == 0
    then ok none
    else if leb (length_at off_key_len ones) 1019 && leb (length_at off_val_len ones) max_value_len
    then ok (
        some (
          from_utf8_lossy (slice off_key (length_at off_key_len ones) ones),
          from_utf8_lossy (slice off_value (length_at off_val_len ones) ones),
        ))
    else panic)
decode_slot-bounds_example = decode_slot-bounds ones (length-replicate {A = ℕ} slot_size 1)

slot_hex_lines-Shows_example :
    (lines : List (List ℕ)) × (slot_hex_lines ones ≡ ok lines) × (length lines ≤ 68)
slot_hex_lines-Shows_example = slot_hex_lines-Shows ones (length-replicate {A = ℕ} slot_size 1)
