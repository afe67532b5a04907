-- ===== src/Kv/Zeros.antt =====
-- Bytes written into the zeroes of a slot (crates/rdows-kv/src/kv.rs).
use rdows.Prelude.{
  ℕ, zero, suc, ◌+◌, ◌≡◌, refl, ap, sym, ◌∙◌, List, [], ◌∷◌, ◌++◌, append_assoc, append-nil, false,
  ok, length, replicate, ltb, arith, length-append, length-replicate,
}
use rdows.Bytes.Ranges.{slice, slice-append, splice-append}
use rdows.Kv.Slot.{put_at}

abbrev pub zeros : ℕ → List ℕ
zeros n = replicate n 0

pub zeros-add : (m n k : ℕ) → k ≡ m + n → zeros k ≡ zeros m ++ zeros n
zeros-add zero n k h = ap zeros (omega (arith, h))
zeros-add (suc m) n zero h = absurd (omega arith)
zeros-add (suc m) n (suc k) h = ap (◌∷◌ 0) (zeros-add m n k (omega arith))

-- A write into the zeroes behind what is written, leaving a gap.
pub put_at-zeros :
    (off : ℕ) (bytes before : List ℕ) (gap m n : ℕ)
    → off ≡ length before + gap
    → n ≡ gap + (length bytes + m)
    → put_at off bytes (ok (before ++ zeros n)) ≡ ok (((before ++ zeros gap) ++ bytes) ++ zeros m)
unfolding put_at
put_at-zeros off bytes before gap m n ho hn =
    let cut : before ++ zeros n ≡ (before ++ zeros gap) ++ (zeros (length bytes) ++ zeros m) =
      ap (◌++◌ before) (
        zeros-add gap (length bytes + m) n hn
        ∙ ap (◌++◌ (zeros gap)) (zeros-add (length bytes) m (length bytes + m) refl))
      ∙ sym (append_assoc before (zeros gap) (zeros (length bytes) ++ zeros m)) in
    let at : length (before ++ zeros gap) ≡ off =
      omega (arith, length-append before (zeros gap), length-replicate {A = ℕ} gap 0) in
    let size : length (before ++ zeros n) ≡ length before + n =
      omega (arith, length-append before (zeros n), length-replicate {A = ℕ} n 0) in
    let fits : ltb (length (before ++ zeros n)) (off + length bytes) ≡ false =
      ground (arith, size) in
    rw
      (
        put_at,
        fits,
        cut,
        splice-append off (before ++ zeros gap) (zeros (length bytes)) (zeros m) bytes at
            (length-replicate (length bytes) 0),
      )
      (ap ok (sym (append_assoc (before ++ zeros gap) bytes (zeros m))))

-- The same with no gap.
pub put_at-next :
    (off : ℕ) (bytes before : List ℕ) (m n : ℕ)
    → off ≡ length before
    → n ≡ length bytes + m
    → put_at off bytes (ok (before ++ zeros n)) ≡ ok ((before ++ bytes) ++ zeros m)
put_at-next off bytes before m n ho hn =
    put_at-zeros off bytes before 0 m n (omega arith) (omega arith)
    ∙ ap (λ b. ok ((b ++ bytes) ++ zeros m)) (append-nil before)

pub slice_all : (xs : List ℕ) (n : ℕ) → length xs ≡ n → slice 0 n xs ≡ xs
slice_all xs n h = ap (slice 0 n) (sym (append-nil xs)) ∙ slice-append 0 [] xs [] n refl h
