-- ===== src/Bytes/Ranges.antt =====
-- A range of bytes inside a buffer: `content[start..start + len]`, read and overwritten.
use rdows.Prelude.{
  ℕ, zero, suc, ◌+◌, ◌-◌, ◌≤◌, ◌≡◌, refl, sym, ap, ◌∙◌, ◌⊎◌, inl, inr, List, [], ◌∷◌, ◌++◌, length,
  take, drop, arith, length-append, length-take, length-drop, take-append, drop-append,
  take-append-drop,
}

-- `content[start..start + len].copy_from_slice(bytes)`
unfoldable pub splice : ℕ → List ℕ → List ℕ → List ℕ
splice start bytes content = take start content ++ (bytes ++ drop (start + length bytes) content)

-- `content[start..start + len]`
unfoldable pub slice : ℕ → ℕ → List ℕ → List ℕ
slice start len content = take len (drop start content)

-- The bytes of a list before a range, in it, and after it.
pub record Split (start len : ℕ) (content : List ℕ) : Type 0 where
  pub before : List ℕ
  pub mid : List ℕ
  pub after : List ℕ
  pub whole : content ≡ before ++ (mid ++ after)
  pub length_before : length before ≡ start
  pub length_mid : length mid ≡ len

drop-drop : (m n k : ℕ) (xs : List ℕ) → k ≡ m + n → drop n (drop m xs) ≡ drop k xs
drop-drop zero n k xs h = ap (λ j. drop j xs) (omega arith)
drop-drop (suc m) n zero xs h = absurd (omega arith)
drop-drop (suc m) zero (suc k) [] h = refl
drop-drop (suc m) (suc n) (suc k) [] h = refl
drop-drop (suc m) n (suc k) (x ∷ xs) h = drop-drop m n k xs (omega arith)

pub split :
    (start len : ℕ) (content : List ℕ) → start + len ≤ length content → Split start len content
split start len content h = record {
  before = take start content;
  mid = take len (drop start content);
  after = drop len (drop start content);
  whole = sym (
      ap (◌++◌ (take start content)) (take-append-drop len (drop start content))
      ∙ take-append-drop start content);
  length_before = omega (arith, length-take start content);
  length_mid = omega (arith, length-take len (drop start content), length-drop start content);
}

module _ (start : ℕ) (before mid after : List ℕ) where
  pub slice-append :
      (len : ℕ)
      → length before ≡ start
      → length mid ≡ len
      → slice start len (before ++ (mid ++ after)) ≡ mid
  unfolding slice
  slice-append len hb hm =
      rw (drop-append start before (mid ++ after) hb) (take-append len mid after hm)

  pub splice-append :
      (new : List ℕ)
      → length before ≡ start
      → length mid ≡ length new
      → splice start new (before ++ (mid ++ after)) ≡ before ++ (new ++ after)
  unfolding splice
  splice-append new hb hm = rw (
    take-append start before (mid ++ after) hb,
    sym (drop-drop start (length new) (start + length new) (before ++ (mid ++ after)) refl),
    drop-append start before (mid ++ after) hb,
    drop-append (length new) mid after hm,
  )

pub Split-inside :
    {start len : ℕ} {content : List ℕ} → Split start len content → start + len ≤ length content
Split-inside cut = omega (
  arith,
  ap length cut.whole,
  cut.length_before,
  cut.length_mid,
  length-append cut.before (cut.mid ++ cut.after),
  length-append cut.mid cut.after,
)

-- To overwrite a range keeps the length.
pub length-overwritten :
    {start len : ℕ} {content : List ℕ} (cut : Split start len content) (new : List ℕ)
    → length new ≡ len
    → length (cut.before ++ (new ++ cut.after)) ≡ length content
length-overwritten {content = content} cut new h = omega (
  arith,
  ap length cut.whole,
  length-append cut.before (new ++ cut.after),
  length-append new cut.after,
  length-append cut.before (cut.mid ++ cut.after),
  length-append cut.mid cut.after,
  cut.length_mid,
)

-- A range that ends inside the first part does not see the rest.
pub slice-append_low :
    (start len : ℕ) (xs ys : List ℕ)
    → start + len ≤ length xs
    → slice start len (xs ++ ys) ≡ slice start len xs
unfolding slice
slice-append_low zero zero xs ys h = refl
slice-append_low zero (suc len) [] ys h = absurd (omega arith)
slice-append_low zero (suc len) (x ∷ xs) ys h =
    ap (◌∷◌ x) (slice-append_low zero len xs ys (omega arith))
slice-append_low (suc start) len [] ys h = absurd (omega arith)
slice-append_low (suc start) len (x ∷ xs) ys h = slice-append_low start len xs ys (omega arith)

-- A range that begins behind the first part sees only the rest.
pub slice-append_high :
    (start len : ℕ) (xs ys : List ℕ)
    → length xs ≤ start
    → slice start len (xs ++ ys) ≡ slice (start - length xs) len ys
unfolding slice
slice-append_high start len [] ys h = ap (λ n. slice n len ys) (omega arith)
slice-append_high zero len (x ∷ xs) ys h = absurd (omega arith)
slice-append_high (suc start) len (x ∷ xs) ys h =
    slice-append_high start len xs ys (omega arith) ∙ ap (λ n. slice n len ys) (omega arith)

-- To overwrite a range changes no range apart from it.
pub slice-overwritten :
    {start len : ℕ} {content : List ℕ} (cut : Split start len content) (new : List ℕ) (other n : ℕ)
    → length new ≡ len
    → (other + n ≤ start) ⊎ (start + len ≤ other)
    → slice other n (cut.before ++ (new ++ cut.after)) ≡ slice other n content
slice-overwritten cut new other n h (inl low) = rw (
  cut.whole,
  slice-append_low other n cut.before (new ++ cut.after) (omega (arith, cut.length_before)),
  slice-append_low other n cut.before (cut.mid ++ cut.after) (omega (arith, cut.length_before)),
)
slice-overwritten cut new other n h (inr high) = rw (
  cut.whole,
  slice-append_high other n cut.before (new ++ cut.after) (omega (arith, cut.length_before)),
  slice-append_high other n cut.before (cut.mid ++ cut.after) (omega (arith, cut.length_before)),
  slice-append_high (other - length cut.before) n new cut.after (omega (arith, cut.length_before)),
  slice-append_high (other - length cut.before) n cut.mid cut.after
      (omega (arith, cut.length_before, cut.length_mid)),
  h,
  cut.length_mid,
)
