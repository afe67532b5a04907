-- ===== src/Core/Memory.antt =====
-- Access flags of memory regions (crates/rdows-core/src/memory.rs). The newtypes `ProtectionDomain`,
-- `LKey` and `RKey` are the numbers that they hold.
use Prim.Native.Nat.{bit_and, bit_or}
use rdows.Prelude.{ℕ, ◌/◌, ◌%◌, ◌≡◌, ◌↔◌, Bool, true, arith, ◌==◌}
use rdows.Prelude.Bits.{bit_and-pow}

abbrev local_write : ℕ
local_write = 0x01

abbrev pub remote_write : ℕ
remote_write = 0x02

abbrev pub remote_read : ℕ
remote_read = 0x04

abbrev pub remote_atomic : ℕ
remote_atomic = 0x08

-- `AccessFlags::contains`
unfoldable pub contains : ℕ → ℕ → Bool
contains flags flag = bit_and flags flag == flag

is_empty : ℕ → Bool
is_empty flags = flags == 0

-- The operators `|` and `|=`.
union : ℕ → ℕ → ℕ
union = bit_or

-- Each of the four rights is one bit, from the lowest.
pub rights_bits :
    (flags : ℕ)
    → ((contains flags local_write ≡ true) ↔ (flags % 2 ≡ 1))
      × ((contains flags remote_write ≡ true) ↔ (flags / 2 % 2 ≡ 1))
      × ((contains flags remote_read ≡ true) ↔ (flags / 4 % 2 ≡ 1))
      × ((contains flags remote_atomic ≡ true) ↔ (flags / 8 % 2 ≡ 1))
unfolding contains
rights_bits flags = (
  ground (arith, bit_and-pow 0 flags),
  ground (arith, bit_and-pow 1 flags),
  ground (arith, bit_and-pow 2 flags),
  ground (arith, bit_and-pow 3 flags),
)
