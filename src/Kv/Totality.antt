-- ===== src/Kv/Totality.antt =====
-- When a slot can be read.
use rdows.Prelude.{
  ℕ, zero, suc, ◌++◌, inl, inr, drop, Bool-cases, ◌+◌, ◌-◌, ◌*◌, ◌≤◌, ◌≡◌, refl, List, [], ◌∷◌,
  true, false, ◌&&◌, ◌||◌, none, some, Result, ok, panic, length, ltb, leb, min, ◌==◌,
  if◌then◌else◌, arith, length-append,
}
use rdows.Bytes.{from_be}
use rdows.Bytes.Ranges.{slice}
use rdows.Bytes.Utf8.{from_utf8_lossy}
use rdows.Client.LocalMemory.{range}
use rdows.Kv.Slot.{
  KvError, slot_size, max_value_len, off_status, off_key_len, off_val_len, off_key, off_value,
  length_at, text_at, decode_slot,
}
use rdows.Kv.Dump.{slot_hex_lines, dump_part, dump_loop, hex_dump_region, rows_of}

range-inside :
    (start end : ℕ) (slot : List ℕ)
    → start ≤ end
    → end ≤ length slot
    → range {E = KvError} start end slot ≡ ok (slice start (end - start) slot)
unfolding range
range-inside start end slot h h' =
    let inside : (ltb end start || ltb (length slot) end) ≡ false = ground arith in
    rw (range, inside)

text_at-inside :
    (off len : ℕ) (slot : List ℕ)
    → off + len ≤ length slot
    → text_at off len slot ≡ ok (from_utf8_lossy (slice off len slot))
unfolding text_at
text_at-inside off len slot h =
    let size : off + len - off ≡ len = omega arith in
    rw (text_at, range-inside off (off + len) slot (omega arith) h, size)

text_at-outside :
    (off len : ℕ) (slot : List ℕ) → length slot + 1 ≤ off + len → text_at off len slot ≡ panic
unfolding text_at range
text_at-outside off len slot h =
    let outside : (ltb (off + len) off || ltb (length slot) (off + len)) ≡ true = ground arith in
    rw (text_at, range, outside)

-- A slot of 1024 bytes is vacant where its first byte is 0. Another one gives its key and its value,
-- with what is not UTF-8 replaced, where its lengths are at most 1019 and 764; with any other length
-- in its fields, reading it panics.
pub decode_slot-bounds :
    (slot : List ℕ)
    → length slot ≡ slot_size
    → decode_slot slot ≡ (
        if from_be (slice off_status 1 slot) == 0
        then ok none
        else if leb (length_at off_key_len slot) 1019
            && leb (length_at off_val_len slot) max_value_len
        then ok (
            some (
              from_utf8_lossy (slice off_key (length_at off_key_len slot) slot),
              from_utf8_lossy (slice off_value (length_at off_val_len slot) slot),
            ))
        else panic)
unfolding decode_slot
decode_slot-bounds slot h =
    let kl : ℕ = length_at off_key_len slot in
    let vl : ℕ = length_at off_val_len slot in
    elim (Bool-cases (leb kl 1019)) [
      | inr e ↦ rw (decode_slot, text_at-outside off_key kl slot (ground (arith, e)), e) refl
      | inl e ↦ elim (Bool-cases (leb vl max_value_len)) [
        | inr e' ↦
            rw
              (
                decode_slot,
                text_at-inside off_key kl slot (ground (arith, e)),
                text_at-outside off_value vl slot (ground (arith, e')),
                e,
                e',
              )
              refl
        | inl e' ↦
            rw
              (
                decode_slot,
                text_at-inside off_key kl slot (ground (arith, e)),
                text_at-inside off_value vl slot (ground (arith, e')),
                e,
                e',
              )
              refl
      ]
    ]

length-dump_loop :
    (rounds offset : ℕ) (bytes : List ℕ) → length (dump_loop rounds offset bytes) ≤ rounds
unfolding dump_loop
length-dump_loop zero offset bytes = omega arith
length-dump_loop (suc rounds) offset [] = omega arith
length-dump_loop (suc rounds) offset (b ∷ bytes) =
    omega (arith, length-dump_loop rounds (offset + 16) (drop 16 (b ∷ bytes)))

-- At most `n` lines, and no panic.
Shows : ℕ → Result KvError (List (List ℕ)) → Type 0
Shows n r = (lines : List (List ℕ)) × (r ≡ ok lines) × (length lines ≤ n)

dump_part-Shows :
    (title : List ℕ) (start end rows : ℕ) (slot : List ℕ) (n : ℕ)
    (rest : Result KvError (List (List ℕ)))
    → start ≤ end
    → end ≤ length slot
    → Shows n rest
    → Shows (1 + (rows + n)) (dump_part title start end rows slot rest)
unfolding Shows dump_part hex_dump_region
dump_part-Shows title start end rows slot n rest h h' (lines, e, few) =
    let part : List (List ℕ) = dump_loop rows start (slice start (end - start) slot) in
    (
      title ∷ (part ++ lines),
      rw (dump_part, range-inside start end slot h h', e) refl,
      omega (
        arith,
        few,
        length-append part lines,
        length-dump_loop rows start (slice start (end - start) slot),
      ),
    )

-- The lines that describe a slot of 1024 bytes are made without a panic, whatever its lengths are, and
-- there are at most 68 of them.
pub slot_hex_lines-Shows :
    (slot : List ℕ)
    → length slot ≡ slot_size
    → (lines : List (List ℕ)) × (slot_hex_lines slot ≡ ok lines) × (length lines ≤ 68)
unfolding slot_hex_lines Shows
slot_hex_lines-Shows slot h =
    let kr : ℕ = min (rows_of (length_at off_key_len slot)) 16 in
    let vs : ℕ = rows_of (length_at off_val_len slot) in
    let value : Shows _ _ =
      dump_part-Shows _ off_value (min (off_value + vs * 16) slot_size) (min vs 48) slot 0 (ok [])
        (ground arith) (ground (arith, h)) ([], refl, omega arith) in
    let key : Shows _ _ =
      dump_part-Shows _ off_key (off_key + kr * 16) kr slot _ _ (omega arith) (ground (arith, h))
        value in
    let (lines, e, few) =
      dump_part-Shows _ 0 off_key 1 slot _ _ (omega arith) (omega (arith, h)) key in
    (lines, e, ground (arith, few))
