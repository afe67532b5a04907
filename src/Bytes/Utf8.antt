-- ===== src/Bytes/Utf8.antt =====
-- UTF-8 in Rust's standard library: which byte sequences are text (`str::from_utf8`), and
-- `String::from_utf8_lossy`, which puts U+FFFD for each maximal part that is not.
use rdows.Prelude.{
  ℕ, zero, suc, ◌≡◌, ◌⊎◌, refl, List, [], ◌∷◌, ◌++◌, append_assoc, Bool, true, false, ◌&&◌, ltb,
  leb, ◌==◌, if◌then◌else◌, arith, inl, inr, ◌∙◌,
}

-- Between characters, or inside one: the bytes seen, the range of the next byte, and the number of
-- bytes behind that one.
pub data State : Type 0 where
  between : State
  inside : List ℕ → ℕ → ℕ → ℕ → State

-- What a byte at the start of a character leads to; `none`, no character starts so.
pub data Step : Type 0 where
  emit : List ℕ → Step
  enter : State → Step
  reject : Step

in_range : ℕ → ℕ → ℕ → Bool
in_range lo hi b = leb lo b && leb b hi

first_byte : ℕ → Step
unfolding in_range
first_byte b =
    if ltb b 0x80
    then emit (b ∷ [])
    else if in_range 0xC2 0xDF b
    then enter (inside (b ∷ []) 0x80 0xBF 0)
    else if b == 0xE0
    then enter (inside (b ∷ []) 0xA0 0xBF 1)
    else if b == 0xED
    then enter (inside (b ∷ []) 0x80 0x9F 1)
    else if in_range 0xE1 0xEF b
    then enter (inside (b ∷ []) 0x80 0xBF 1)
    else if b == 0xF0
    then enter (inside (b ∷ []) 0x90 0xBF 2)
    else if in_range 0xF1 0xF3 b
    then enter (inside (b ∷ []) 0x80 0xBF 2)
    else if b == 0xF4
    then enter (inside (b ∷ []) 0x80 0x8F 2)
    else reject

next_byte : State → ℕ → Step
unfolding first_byte
next_byte between b = first_byte b
next_byte (inside seen lo hi zero) b = if in_range lo hi b then emit (seen ++ (b ∷ [])) else reject
next_byte (inside seen lo hi (suc more)) b =
    if in_range lo hi b then enter (inside (seen ++ (b ∷ [])) 0x80 0xBF more) else reject

-- `str::from_utf8(bs).is_ok()`
is_utf8_from : State → List ℕ → Bool
unfolding next_byte
is_utf8_from between [] = true
is_utf8_from (inside _ _ _ _) [] = false
is_utf8_from s (b ∷ bs) = elim (next_byte s b) [
  | emit _ ↦ is_utf8_from between bs
  | enter s' ↦ is_utf8_from s' bs
  | reject ↦ false
]

unfoldable pub is_utf8 : List ℕ → Bool
unfolding is_utf8_from
is_utf8 bs = is_utf8_from between bs

-- U+FFFD
abbrev replacement : List ℕ
replacement = 0xEF ∷ 0xBF ∷ 0xBD ∷ []

-- The byte that breaks a character off is read again as a first byte.
retry : State → ℕ → List ℕ × State
unfolding first_byte
retry between b = (replacement, between)
retry (inside _ _ _ _) b = elim (first_byte b) [
  | emit out ↦ (replacement ++ out, between)
  | enter s ↦ (replacement, s)
  | reject ↦ (replacement ++ replacement, between)
]

feed : State → ℕ → List ℕ × State
unfolding next_byte retry
feed s b = elim (next_byte s b) [
  | emit out ↦ (out, between)
  | enter s' ↦ ([], s')
  | reject ↦ retry s b
]

lossy_from : State → List ℕ → List ℕ
unfolding feed
lossy_from between [] = []
lossy_from (inside _ _ _ _) [] = replacement
lossy_from s (b ∷ bs) = (feed s b).0 ++ lossy_from (feed s b).1 bs

-- `String::from_utf8_lossy(bs)`
unfoldable pub from_utf8_lossy : List ℕ → List ℕ
unfolding lossy_from
from_utf8_lossy bs = lossy_from between bs

abbrev held : State → List ℕ
held between = []
held (inside seen _ _ _) = seen

-- A first byte holds itself, and a further byte joins what is held.
next_byte_keeps :
    (s : State) (b : ℕ)
    → ((out : List ℕ) → next_byte s b ≡ emit out → out ≡ held s ++ (b ∷ []))
      × ((s' : State) → next_byte s b ≡ enter s' → held s' ≡ held s ++ (b ∷ []))
unfolding next_byte
next_byte_keeps between b = (λ out e. ground arith, λ s' e. ground arith)
next_byte_keeps (inside seen lo hi zero) b = (λ out e. ground arith, λ s' e. ground arith)
next_byte_keeps (inside seen lo hi (suc more)) b = (λ out e. ground arith, λ s' e. ground arith)

Step-cases :
    (r : Step) → ((out : List ℕ) × (r ≡ emit out)) ⊎ ((s : State) × (r ≡ enter s)) ⊎ (r ≡ reject)
Step-cases (emit out) = inl (out, refl)
Step-cases (enter s) = inr (inl (s, refl))
Step-cases reject = inr (inr refl)

-- `between` and `inside` treat a further byte alike.
is_utf8_from-cons :
    (s : State) (b : ℕ) (bs : List ℕ)
    → is_utf8_from s (b ∷ bs) ≡ elim (next_byte s b) [
      | emit _ ↦ is_utf8_from between bs
      | enter s' ↦ is_utf8_from s' bs
      | reject ↦ false
    ]
unfolding is_utf8_from
is_utf8_from-cons between b bs = refl
is_utf8_from-cons (inside _ _ _ _) b bs = refl

lossy_from-cons :
    (s : State) (b : ℕ) (bs : List ℕ)
    → lossy_from s (b ∷ bs) ≡ (feed s b).0 ++ lossy_from (feed s b).1 bs
unfolding lossy_from
lossy_from-cons between b bs = refl
lossy_from-cons (inside _ _ _ _) b bs = refl

feed_emit :
    (s : State) (b : ℕ) (out : List ℕ) → next_byte s b ≡ emit out → feed s b ≡ (out, between)
unfolding feed
feed_emit s b out e = rw (e, feed)

feed_enter : (s s' : State) (b : ℕ) → next_byte s b ≡ enter s' → feed s b ≡ ([], s')
unfolding feed
feed_enter s s' b e = rw (e, feed)

lossy_keeps : (s : State) (bs : List ℕ) → is_utf8_from s bs ≡ true → lossy_from s bs ≡ held s ++ bs
unfolding lossy_from is_utf8_from
lossy_keeps between [] h = refl
lossy_keeps (inside seen lo hi n) [] h = cc
lossy_keeps s (b ∷ bs) h = elim (Step-cases (next_byte s b)) [
  | inl (out, e) ↦
      let rest : is_utf8_from between bs ≡ true = rw (is_utf8_from-cons s b bs, e) at h in
      lossy_from-cons s b bs
      ∙ rw (feed_emit s b out e, lossy_keeps between bs rest, (next_byte_keeps s b).0 out e)
          (append_assoc (held s) (b ∷ []) bs)
  | inr (inl (s', e)) ↦
      let rest : is_utf8_from s' bs ≡ true = rw (is_utf8_from-cons s b bs, e) at h in
      lossy_from-cons s b bs
      ∙ rw (feed_enter s s' b e, lossy_keeps s' bs rest, (next_byte_keeps s b).1 s' e)
          (append_assoc (held s) (b ∷ []) bs)
  | inr (inr e) ↦ let never : false ≡ true = rw (is_utf8_from-cons s b bs, e) at h in cc
]

-- Text is returned as it is.
pub from_utf8_lossy_id : (bs : List ℕ) → is_utf8 bs ≡ true → from_utf8_lossy bs ≡ bs
unfolding from_utf8_lossy is_utf8
from_utf8_lossy_id = lossy_keeps between
