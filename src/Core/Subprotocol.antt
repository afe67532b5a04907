-- ===== src/Core/Subprotocol.antt =====
-- The WebSocket subprotocol in a header's value (crates/rdows-core/src/lib.rs, and the tests of it in
-- the server and the client).
use rdows.Prelude.{
  ℕ, List, [], ◌∷◌, Bool, true, false, ◌&&◌, ◌||◌, Option, none, some, leb, ◌==◌, if◌then◌else◌,
}
use rdows.Bytes.Texts.{text, same}

abbrev pub subprotocol : List ℕ
subprotocol = text "rdows.v1"

-- White space among the bytes of ASCII.
abbrev pub is_space : ℕ → Bool
is_space b = leb 9 b && leb b 13 || b == 32

-- `str::trim`, first at the start, then at the end.
unfoldable pub trim_start : List ℕ → List ℕ
trim_start [] = []
trim_start (b ∷ bs) = let rest = trim_start bs in if is_space b then rest else b ∷ bs

unfoldable pub all_space : List ℕ → Bool
all_space [] = true
all_space (b ∷ bs) = is_space b && all_space bs

unfoldable pub trim_end : List ℕ → List ℕ
trim_end [] = []
trim_end (b ∷ bs) = if all_space (b ∷ bs) then [] else b ∷ trim_end bs

-- `s.split(',')`: the part at the start, and those behind.
unfoldable pub split_comma : List ℕ → List ℕ × List (List ℕ)
split_comma [] = ([], [])
split_comma (b ∷ bs) =
    let (part, parts) = split_comma bs in
    if b == b',' then ([], part ∷ parts) else (b ∷ part, parts)

unfoldable pub any_is : List ℕ → List (List ℕ) → Bool
any_is wanted [] = false
any_is wanted (p ∷ ps) = same (trim_end (trim_start p)) wanted || any_is wanted ps

-- `s.split(',').any(|p| p.trim() == SUBPROTOCOL)`
unfoldable pub has_rdows : List ℕ → Bool
has_rdows value = let (part, parts) = split_comma value in any_is subprotocol (part ∷ parts)

-- A header's value; `none` is one that is no text.
abbrev pub HeaderValue : Type 0
HeaderValue = Option (List ℕ)

unfoldable pub value_has_rdows : HeaderValue → Bool
value_has_rdows none = false
value_has_rdows (some value) = has_rdows value
