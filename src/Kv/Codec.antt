-- ===== src/Kv/Codec.antt =====
-- Slots written and read back (crates/rdows-kv/src/kv.rs).
use rdows.Prelude.{
  ℕ, ◌+◌, ◌-◌, ◌≤◌, ◌≡◌, refl, ap, sym, ◌∙◌, List, [], ◌∷◌, ◌++◌, append_assoc, true, false, ◌||◌,
  some, ok, length, ltb, ◌==◌, arith, length-append, length-replicate,
}
use rdows.Bytes.{to_be, from_be, length-to_be, from_be-to_be}
use rdows.Bytes.Ranges.{slice, slice-append, slice-append_low, slice-append_high}
use rdows.Bytes.Utf8.{is_utf8, from_utf8_lossy_id}
use rdows.Client.LocalMemory.{range}
use rdows.Kv.Slot.{
  slot_size, max_key_len, max_value_len, off_status, off_key_len, off_val_len, off_key, off_value,
  put_at, empty_slot, encode_slot, length_at, text_at, decode_slot,
}
use rdows.Kv.Zeros.{zeros, put_at-zeros, put_at-next, slice_all}

text_at-ok :
    (off len : ℕ) (slot bytes : List ℕ)
    → off + len ≤ length slot
    → slice off len slot ≡ bytes
    → is_utf8 bytes ≡ true
    → text_at off len slot ≡ ok bytes
unfolding text_at range
text_at-ok off len slot bytes fits cut valid =
    let inside : (ltb (off + len) off || ltb (length slot) (off + len)) ≡ false = ground arith in
    let size : off + len - off ≡ len = omega arith in
    rw (text_at, range, inside, size, cut, from_utf8_lossy_id bytes valid)

-- A slot whose status is not 0 holds the two texts at their places.
decode_slot-used :
    (slot key value : List ℕ)
    → (from_be (slice off_status 1 slot) == 0) ≡ false
    → text_at off_key (length_at off_key_len slot) slot ≡ ok key
    → text_at off_value (length_at off_val_len slot) slot ≡ ok value
    → decode_slot slot ≡ ok (some (key, value))
unfolding decode_slot
decode_slot-used slot key value used hk hv = rw (decode_slot, used, hk, hv)

-- The parts of a slot that is in use.
module _ (key value : List ℕ) where
  head_part : List ℕ
  head_part = ((1 ∷ []) ++ to_be 2 (length key)) ++ to_be 2 (length value)

  upto_key : List ℕ
  upto_key = head_part ++ key

  upto_gap : List ℕ
  upto_gap = upto_key ++ zeros (max_key_len - length key)

  upto_value : List ℕ
  upto_value = upto_gap ++ value

  layout : List ℕ
  layout = upto_value ++ zeros (max_value_len - length value)

  length-head_part : length head_part ≡ 5
  unfolding head_part
  length-head_part = omega (
    arith,
    length-append ((1 ∷ []) ++ to_be 2 (length key)) (to_be 2 (length value)),
    length-append (1 ∷ []) (to_be 2 (length key)),
    length-to_be 2 (length key),
    length-to_be 2 (length value),
  )

  length-upto_key : length upto_key ≡ 5 + length key
  unfolding upto_key
  length-upto_key = omega (arith, length-append head_part key, length-head_part)

  module _ (hk : length key ≤ max_key_len) (hv : length value ≤ max_value_len) where
    length-upto_gap : length upto_gap ≡ off_value
    unfolding upto_gap
    length-upto_gap = omega (
      arith,
      length-append upto_key (zeros (max_key_len - length key)),
      length-upto_key,
      length-replicate {A = ℕ} (max_key_len - length key) 0,
    )

    length-upto_value : length upto_value ≡ off_value + length value
    unfolding upto_value
    length-upto_value = omega (arith, length-append upto_gap value, length-upto_gap)

    length-layout : length layout ≡ slot_size
    unfolding layout
    length-layout = omega (
      arith,
      length-append upto_value (zeros (max_value_len - length value)),
      length-upto_value,
      length-replicate {A = ℕ} (max_value_len - length value) 0,
    )

    encode_slot-layout : encode_slot key value ≡ ok layout
    unfolding encode_slot empty_slot layout upto_value upto_gap upto_key head_part
    encode_slot-layout =
        let kl : List ℕ = to_be 2 (length key) in
        let vl : List ℕ = to_be 2 (length value) in
        let two : length kl ≡ 2 = length-to_be 2 (length key) in
        let two' : length vl ≡ 2 = length-to_be 2 (length value) in
        let three : length ((1 ∷ []) ++ kl) ≡ 3 = omega (arith, length-append (1 ∷ []) kl, two) in
        ap
          (λ r.
            put_at off_value value
              (put_at off_key key (put_at off_val_len vl (put_at off_key_len kl r))))
          (put_at-next off_status (1 ∷ []) [] 1023 1024 refl refl)
        ∙ ap (λ r. put_at off_value value (put_at off_key key (put_at off_val_len vl r)))
            (put_at-next off_key_len kl (1 ∷ []) 1021 1023 refl (omega arith))
        ∙ ap (λ r. put_at off_value value (put_at off_key key r))
            (put_at-next off_val_len vl ((1 ∷ []) ++ kl) 1019 1021 (omega arith) (omega arith))
        ∙ ap (put_at off_value value) (
            put_at-next off_key key head_part (1019 - length key) 1019 (sym length-head_part)
              (omega arith))
        ∙ put_at-zeros off_value value upto_key (max_key_len - length key)
            (max_value_len - length value) (1019 - length key) (omega (arith, length-upto_key))
            (omega arith)

    field_at :
        (before mid after : List ℕ)
        → length mid ≡ 2
        → slice (length before) 2 ((before ++ mid) ++ after) ≡ mid
    field_at before mid after h =
        ap (slice (length before) 2) (append_assoc before mid after)
        ∙ slice-append (length before) before mid after 2 refl h

    -- A range of the first five bytes is one of the fields before the texts.
    slice_head :
        (start len : ℕ) → start + len ≤ 5 → slice start len layout ≡ slice start len head_part
    unfolding layout upto_value upto_gap upto_key
    slice_head start len h =
        slice-append_low start len upto_value _ (omega (arith, length-upto_value))
        ∙ slice-append_low start len upto_gap _ (omega (arith, length-upto_gap))
        ∙ slice-append_low start len upto_key _ (omega (arith, length-upto_key))
        ∙ slice-append_low start len head_part _ (omega (arith, length-head_part))

    status_read : from_be (slice off_status 1 layout) ≡ 1
    unfolding head_part slice from_be
    status_read = ap from_be (slice_head 0 1 (omega arith))

    key_len_read : length_at off_key_len layout ≡ length key
    unfolding length_at head_part
    key_len_read =
        ap from_be (
          slice_head 1 2 (omega arith)
          ∙ field_at (1 ∷ []) (to_be 2 (length key)) (to_be 2 (length value))
              (length-to_be 2 (length key)))
        ∙ from_be-to_be 2 (length key) (omega arith)

    val_len_read : length_at off_val_len layout ≡ length value
    unfolding length_at head_part
    val_len_read =
        let before : List ℕ = (1 ∷ []) ++ to_be 2 (length key) in
        let three : length before ≡ 3 =
          omega
            (arith, length-append (1 ∷ []) (to_be 2 (length key)), length-to_be 2 (length key)) in
        ap from_be (
          slice_head 3 2 (omega arith)
          ∙ slice-append_high 3 2 before (to_be 2 (length value)) (omega arith)
          ∙ ap (λ n. slice n 2 (to_be 2 (length value))) (omega arith)
          ∙ slice_all (to_be 2 (length value)) 2 (length-to_be 2 (length value)))
        ∙ from_be-to_be 2 (length value) (omega arith)

    key_read : slice off_key (length key) layout ≡ key
    unfolding layout upto_value upto_gap upto_key
    key_read =
        slice-append_low 5 (length key) upto_value _ (omega (arith, length-upto_value))
        ∙ slice-append_low 5 (length key) upto_gap _ (omega (arith, length-upto_gap))
        ∙ slice-append_low 5 (length key) upto_key _ (omega (arith, length-upto_key))
        ∙ slice-append_high 5 (length key) head_part key (omega (arith, length-head_part))
        ∙ ap (λ n. slice n (length key) key) (omega (arith, length-head_part))
        ∙ slice_all key (length key) refl

    value_read : slice off_value (length value) layout ≡ value
    unfolding layout upto_value
    value_read =
        slice-append_low off_value (length value) upto_value _ (omega (arith, length-upto_value))
        ∙ slice-append_high off_value (length value) upto_gap value (omega (arith, length-upto_gap))
        ∙ ap (λ n. slice n (length value) value) (omega (arith, length-upto_gap))
        ∙ slice_all value (length value) refl

    decode_slot-layout :
        is_utf8 key ≡ true → is_utf8 value ≡ true → decode_slot layout ≡ ok (some (key, value))
    decode_slot-layout ku vu =
        decode_slot-used layout key value (ap (λ n. n == 0) status_read)
          (ap (λ n. text_at off_key n layout) key_len_read
            ∙ text_at-ok off_key (length key) layout key (omega (arith, length-layout)) key_read ku)
          (ap (λ n. text_at off_value n layout) val_len_read
            ∙ text_at-ok off_value (length value) layout value (omega (arith, length-layout))
                value_read vu)

-- A key of at most 255 bytes and a value of at most 764, both UTF-8, are written into a slot of 1024
-- bytes without a panic, and are read back from it.
pub decode_slot-encode_slot :
    (key value : List ℕ)
    → length key ≤ max_key_len
    → length value ≤ max_value_len
    → is_utf8 key ≡ true
    → is_utf8 value ≡ true
    → (slot : List ℕ) × (encode_slot key value ≡ ok slot)
      × (length slot ≡ slot_size)
      × (decode_slot slot ≡ ok (some (key, value)))
decode_slot-encode_slot key value hk hv ku vu = (
  layout key value,
  encode_slot-layout key value hk hv,
  length-layout key value hk hv,
  decode_slot-layout key value hk hv ku vu,
)
