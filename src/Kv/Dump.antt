-- ===== src/Kv/Dump.antt =====
-- The hexadecimal lines that describe a slot (crates/rdows-kv/src/kv.rs).
use rdows.Prelude.{
  ℕ, zero, suc, ◌+◌, ◌-◌, ◌*◌, ◌/◌, ◌%◌, List, [], ◌∷◌, ◌++◌, map, ◌&&◌, Result, ok, err, panic,
  length, take, drop, replicate, min, ltb, leb, if◌then◌else◌,
}
use rdows.Bytes.Texts.{text, decimal}
use rdows.Client.LocalMemory.{range}
use rdows.Kv.Slot.{KvError, off_key, off_key_len, off_val_len, off_value, slot_size, length_at}

unfoldable pub hex_digit : ℕ → ℕ
hex_digit n = if ltb n 10 then b'0' + n else b'A' + (n - 10)

-- `{:02X}` of a byte.
unfoldable pub hex_byte : ℕ → List ℕ
hex_byte b = hex_digit (b / 16) ∷ hex_digit (b % 16) ∷ []

-- `{:04X}` of a number below 65536.
unfoldable pub hex_offset : ℕ → List ℕ
hex_offset n = hex_byte (n / 256) ++ hex_byte (n % 256)

-- `join(" ")`
unfoldable pub spaced : List (List ℕ) → List ℕ
spaced [] = []
spaced (x ∷ []) = x
spaced (x ∷ y ∷ xs) = x ++ (b' ' ∷ spaced (y ∷ xs))

-- A byte of the text column: itself if it can be printed.
unfoldable pub printable : ℕ → ℕ
printable b = if leb 0x20 b && leb b 0x7E then b else b'.'

-- `{:<48}`
unfoldable pub pad_48 : List ℕ → List ℕ
pad_48 xs = xs ++ replicate (48 - length xs) b' '

unfoldable pub dump_line : ℕ → List ℕ → List ℕ
dump_line offset chunk =
    hex_offset offset
    ++ (text "  " ++ (pad_48 (spaced (map hex_byte chunk)) ++ (text "  " ++ map printable chunk)))

-- The loop of `hex_dump_region`, from the i-th chunk on; `rounds` are the lines that may follow.
unfoldable pub dump_loop : ℕ → ℕ → List ℕ → List (List ℕ)
dump_loop zero offset bytes = []
dump_loop (suc rounds) offset [] = []
dump_loop (suc rounds) offset (b ∷ bytes) =
    dump_line offset (take 16 (b ∷ bytes)) ∷ dump_loop rounds (offset + 16) (drop 16 (b ∷ bytes))

unfoldable pub hex_dump_region : List ℕ → ℕ → ℕ → List (List ℕ)
hex_dump_region bytes base_offset max_lines = dump_loop max_lines base_offset bytes

-- A title and the dump of a range, before the lines that follow.
unfoldable pub dump_part :
    List ℕ → ℕ → ℕ → ℕ → List ℕ → Result KvError (List (List ℕ)) → Result KvError (List (List ℕ))
dump_part title start end max_lines slot rest = elim (range {E = KvError} start end slot) [
  | ok bytes ↦ elim rest [
    | ok lines ↦ ok (title ∷ (hex_dump_region bytes start max_lines ++ lines))
    | err e ↦ err e
    | panic ↦ panic
  ]
  | err e ↦ err e
  | panic ↦ panic
]

-- `n.div_ceil(16) + 1`
unfoldable pub rows_of : ℕ → ℕ
rows_of n = (n + 15) / 16 + 1

-- `slot_hex_lines`. No part fails by an error, so the order in which they are put together is free.
unfoldable pub slot_hex_lines : List ℕ → Result KvError (List (List ℕ))
slot_hex_lines slot =
    let key_len : ℕ = length_at off_key_len slot in
    let key_show : ℕ = rows_of key_len in
    let val_len : ℕ = length_at off_val_len slot in
    let val_show : ℕ = rows_of val_len in
    dump_part (text "--- header (status, key_len, val_len) ---") 0 off_key 1 slot (
      dump_part (text "--- key data (" ++ (decimal key_len ++ text " bytes) ---")) off_key
        (off_key + min key_show 16 * 16) (min key_show 16) slot
        (dump_part (text "--- value data (" ++ (decimal val_len ++ text " bytes) ---")) off_value
          (min (off_value + val_show * 16) slot_size) (min val_show 48) slot (ok [])))
