-- ===== src/Prelude/Results.antt =====
-- Results of fallible code. `panic` is a Rust panic: a failed bounds check, an arithmetic overflow
-- under overflow checks, or a buffer read past its end.
use Prim.Native.Nat.{ℕ, ◌*◌, ◌+◌, ◌-◌, ◌%◌, ◌^◌, ◌≤◌, ◌<◌}
use mathlib.Core.Path.{◌≡◌, refl, ap, ◌∙◌}
use mathlib.Core.Option.{Option, none, some}
use mathlib.Core.Logic.{◌⊎◌, inl, inr}
use native.Mathlib.Nat.{mod-le, mod-eq_of_lt, add-mod_right}
use native.Mathlib.Omega.{arith}
use rdows.Prelude.Tests.{ltb, if◌then◌else◌, Bool-cases}

pub data Result {ℓ κ} (E : Type ℓ) (A : Type κ) : Type (ℓ ⊔ κ) where
  ok : A → Result E A
  err : E → Result E A
  panic : Result E A

-- `Option::ok_or`.
abbrev pub ok_or {ℓ κ} : {E : Type ℓ} {A : Type κ} → Option A → E → Result E A
ok_or none e = err e
ok_or (some a) e = ok a

-- Whether the build has overflow checks: Cargo's `dev` profile has, `release` has not.
pub data Profile : Type 0 where
  checked wrapping : Profile

-- `a + b` on unsigned integers of `w` bits.
abbrev pub add_uint {ℓ} : {E : Type ℓ} → Profile → ℕ → ℕ → ℕ → Result E ℕ
add_uint checked w a b = if ltb (a + b) (2 ^ w) then ok (a + b) else panic
add_uint wrapping w a b = ok ((a + b) % 2 ^ w)

-- `a - b` on unsigned integers of `w` bits.
abbrev pub sub_uint {ℓ} : {E : Type ℓ} → Profile → ℕ → ℕ → ℕ → Result E ℕ
sub_uint checked w a b = if ltb a b then panic else ok (a - b)
sub_uint wrapping w a b = ok ((a + 2 ^ w - b) % 2 ^ w)

-- `Vec::with_capacity(n)` and `vec![…; n]` for elements of `size` bytes panic where the bytes exceed
-- `isize::MAX`. (That memory runs out is not modelled.)
abbrev pub with_capacity {ℓ} : {E : Type ℓ} → ℕ → ℕ → Result E (Unit {0})
with_capacity n size = if ltb (2 ^ 63 - 1) (n * size) then panic else ok tt

pub Result-cases {ℓ κ} :
    {E : Type ℓ} {A : Type κ} (r : Result E A)
    → ((a : A) × (r ≡ ok a)) ⊎ ((e : E) × (r ≡ err e)) ⊎ (r ≡ panic)
Result-cases (ok a) = inl (a, refl)
Result-cases (err e) = inr (inl (e, refl))
Result-cases panic = inr (inr refl)

-- Where the mathematical result fits, both kinds of build give it.
pub add_uint-ok {ℓ} :
    {E : Type ℓ} (prof : Profile) (w a b : ℕ)
    → a + b < 2 ^ w
    → add_uint {E = E} prof w a b ≡ ok (a + b)
add_uint-ok checked w a b h = ground arith
add_uint-ok wrapping w a b h = ap ok (mod-eq_of_lt h)

pub sub_uint-ok {ℓ} :
    {E : Type ℓ} (prof : Profile) (w a b : ℕ)
    → b ≤ a
    → a < 2 ^ w
    → sub_uint {E = E} prof w a b ≡ ok (a - b)
sub_uint-ok checked w a b h h' = ground arith
sub_uint-ok wrapping w a b h h' =
    let moved : a + 2 ^ w - b ≡ (a - b) + 2 ^ w = omega arith in
    let inside : a - b < 2 ^ w = omega arith in
    ap ok (ap (λ n. n % 2 ^ w) moved ∙ add-mod_right (a - b) (2 ^ w) ∙ mod-eq_of_lt inside)

-- A sum that comes out is at most the true one, and is it where that fits.
pub add_uint-cases {ℓ} :
    {E : Type ℓ} (prof : Profile) (w a b : ℕ)
    → ((sum : ℕ) × (sum ≤ a + b)
        × (a + b < 2 ^ w → sum ≡ a + b)
        × (add_uint {E = E} prof w a b ≡ ok sum))
      ⊎ ((2 ^ w ≤ a + b) × (add_uint {E = E} prof w a b ≡ panic))
add_uint-cases checked w a b = elim (Bool-cases (ltb (a + b) (2 ^ w))) [
  | inl low ↦ inl (a + b, omega arith, λ h. refl, ground arith)
  | inr high ↦ inr (ground arith, ground arith)
]
add_uint-cases wrapping w a b =
    inl ((a + b) % 2 ^ w, mod-le (a + b) (2 ^ w), λ h. mod-eq_of_lt h, refl)
