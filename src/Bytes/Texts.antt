-- ===== src/Bytes/Texts.antt =====
-- ASCII texts as their bytes, and numbers in decimal notation.
use Prim.Native.Char.{code}
use Prim.Native.String.{String}
use rdows.Prelude.{
  ℕ, zero, suc, ◌+◌, ◌/◌, ◌%◌, List, [], ◌∷◌, Bool, true, false, ◌&&◌, ◌==◌, ltb, if◌then◌else◌,
}

-- The bytes of an ASCII text.
abbrev pub text : String → List ℕ
text String.[] = []
text (String.◌∷◌ c s) = code c ∷ text s

abbrev digits : ℕ → ℕ → List ℕ → List ℕ
digits zero n behind = behind
digits (suc fuel) n behind =
    let longer = digits fuel (n / 10) ((b'0' + n % 10) ∷ behind) in
    if ltb n 10 then (b'0' + n) ∷ behind else longer

-- `{}` of `format!` for a `u32`, which has ten digits at most.
unfoldable pub decimal : ℕ → List ℕ
decimal n = digits 10 n []

-- `==` on texts.
abbrev pub same : List ℕ → List ℕ → Bool
same [] [] = true
same [] (y ∷ ys) = false
same (x ∷ xs) [] = false
same (x ∷ xs) (y ∷ ys) = x == y && same xs ys
