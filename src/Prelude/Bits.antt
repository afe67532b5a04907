-- ===== src/Prelude/Bits.antt =====
-- Two facts about bit masks, at any width: `(high << k) | low`, and masking with one bit.
use Prim.Native.Nat.{
  ℕ, zero, suc, ◌+◌, ◌*◌, ◌/◌, ◌%◌, ◌^◌, ◌≤◌, ◌<◌, min, max, bit_and, bit_or, digits,
  bit_and-bitwise, bit_or-bitwise,
}
use mathlib.Core.Path.{◌≡◌, refl, sym, ap, ◌∙◌}
use native.Mathlib.Nat.{zero-div, zero-mod, pow-suc, div-div-eq-div-mul}
use native.Mathlib.Omega.{arith}

-- The recursion that `bit_or` stands for, where the high part has no bit in common with the low.
or_high : (n k a h l : ℕ) → a ≡ h * 2 ^ k → a ≤ n → l < 2 ^ k → digits (λ y. y) max n a l ≡ a + l
or_high zero k zero h l e p q = omega arith
or_high zero k (suc a) h l e p q = elim p [ ]
or_high (suc n) k zero h l e p q = omega arith
or_high (suc n) zero (suc a) h l e p q =
    let rest =
      or_high n zero (suc a / 2) (suc a / 2) (l / 2) (omega arith) (omega arith) (omega arith) in
    omega (arith, rest)
or_high (suc n) (suc k) (suc a) h l e p q =
    let double : h * 2 ^ suc k ≡ 2 * (h * 2 ^ k) =
      omega (arith, ap (λ (t : ℕ). h * t) (pow-suc 2 k)) in
    let rest =
      or_high n k (suc a / 2) h (l / 2) (omega arith) (omega arith) (omega (arith, pow-suc 2 k)) in
    omega (arith, rest)

-- `(h << k) | l` puts `h` in front of the `k` bits of `l`.
pub bit_or_shift : (k h l : ℕ) → l < 2 ^ k → bit_or (h * 2 ^ k) l ≡ h * 2 ^ k + l
bit_or_shift k h l q =
    bit_or-bitwise (h * 2 ^ k) l ∙ or_high (h * 2 ^ k) k (h * 2 ^ k) h l refl (omega arith) q

abbrev masked : ℕ → ℕ → ℕ → ℕ
masked = digits (λ y. 0) min

masked_none : (n a : ℕ) → a ≤ n → masked n a 0 ≡ 0
masked_none zero zero p = refl
masked_none zero (suc a) p = elim p [ ]
masked_none (suc n) zero p = refl
masked_none (suc n) (suc a) p = omega (arith, masked_none n (suc a / 2) (omega arith))

bit_quotient : (a k : ℕ) → a / 2 ^ suc k ≡ a / 2 / 2 ^ k
bit_quotient a k =
    let swapped : 2 ^ suc k ≡ 2 * 2 ^ k = omega (arith, pow-suc 2 k) in
    ap (λ (t : ℕ). a / t) swapped ∙ sym (div-div-eq-div-mul a 2 (2 ^ k))

masked_one : (n k a : ℕ) → a ≤ n → masked n a (2 ^ k) ≡ a / 2 ^ k % 2 * 2 ^ k
masked_one zero k zero p = simp (zero-div, zero-mod) (omega arith)
masked_one zero k (suc a) p = elim p [ ]
masked_one (suc n) k zero p = simp (zero-div, zero-mod) (omega arith)
masked_one (suc n) zero (suc a) p = omega (arith, masked_none n (suc a / 2) (omega arith))
masked_one (suc n) (suc k) (suc a) p =
    let half : 2 ^ suc k / 2 ≡ 2 ^ k = omega (arith, pow-suc 2 k) in
    omega (
      arith,
      pow-suc 2 k,
      ap (λ (t : ℕ). masked n (suc a / 2) t) half,
      masked_one n k (suc a / 2) (omega arith),
      ap (λ (t : ℕ). t % 2 * 2 ^ suc k) (bit_quotient (suc a) k),
      ap (λ (t : ℕ). suc a / 2 / 2 ^ k % 2 * t) (pow-suc 2 k),
    )

-- Masking with one bit.
pub bit_and-pow : (k a : ℕ) → bit_and a (2 ^ k) ≡ a / 2 ^ k % 2 * 2 ^ k
bit_and-pow k a = bit_and-bitwise a (2 ^ k) ∙ masked_one a k a (omega arith)
