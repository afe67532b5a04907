-- ===== src/Bytes/Order.antt =====
-- Big-endian integers: `to_be_bytes` and `from_be_bytes` of Rust's integer types.
use rdows.Prelude.{
  ℕ, zero, suc, ◌+◌, ◌*◌, ◌/◌, ◌%◌, ◌^◌, ◌<◌, ◌≡◌, refl, List, [], ◌∷◌, ◌++◌, length, length-append,
  arith,
}
use native.Mathlib.Nat.{pow-suc}

-- The last `w` bytes of `v`, the highest first.
unfoldable pub to_be : ℕ → ℕ → List ℕ
to_be zero v = []
to_be (suc w) v = to_be w (v / 256) ++ (v % 256 ∷ [])

from_be_loop : ℕ → List ℕ → ℕ
from_be_loop acc [] = acc
from_be_loop acc (b ∷ bs) = from_be_loop (acc * 256 + b) bs

-- The number that the bytes stand for.
unfoldable pub from_be : List ℕ → ℕ
unfolding from_be_loop
from_be bs = from_be_loop 0 bs

abbrev pub IsByte : ℕ → Type 0
IsByte b = b < 256

pub length-to_be : (w v : ℕ) → length (to_be w v) ≡ w
unfolding to_be
length-to_be zero v = refl
length-to_be (suc w) v =
    omega (arith, length-append {0} (to_be w (v / 256)) (v % 256 ∷ []), length-to_be w (v / 256))

from_be_loop-append :
    (acc b : ℕ) (bs : List ℕ) → from_be_loop acc (bs ++ (b ∷ [])) ≡ from_be_loop acc bs * 256 + b
unfolding from_be_loop
from_be_loop-append acc b [] = refl
from_be_loop-append acc b (c ∷ bs) = from_be_loop-append (acc * 256 + c) b bs

-- A value that fits in `w` bytes is read back from them.
pub from_be-to_be : (w v : ℕ) → v < 256 ^ w → from_be (to_be w v) ≡ v
unfolding from_be to_be
from_be-to_be zero v h = omega arith
from_be-to_be (suc w) v h = omega (
  arith,
  from_be_loop-append 0 (v % 256) (to_be w (v / 256)),
  pow-suc 256 w,
  from_be-to_be w (v / 256) (omega (arith, pow-suc 256 w)),
)
