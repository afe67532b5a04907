-- ===== src/Core/Tags.antt =====
-- `Opcode::try_from(b).map_err(|_| RdowsError::InvalidOpcode(b))`, in frame.rs and queue.rs.
use rdows.Prelude.{ℕ, ◌≡◌, ◌≢◌, Result, ok, err, panic, arith}
use rdows.Core.Opcode
use rdows.Core.Opcode.{Opcode}
use rdows.Core.Error.{RdowsError, invalid_opcode}

unfoldable pub opcode_of : ℕ → Result RdowsError Opcode
opcode_of b = elim (Opcode.try_from b) [ ok op ↦ ok op | _ ↦ err (invalid_opcode b) ]

pub opcode_of-to_u8 : (op : Opcode) → opcode_of (Opcode.to_u8 op) ≡ ok op
unfolding opcode_of
opcode_of-to_u8 op = ground (arith, Opcode.try_from-to_u8 op)

pub opcode_of-ne-panic : (b : ℕ) → opcode_of b ≢ panic
unfolding opcode_of
opcode_of-ne-panic b = ground arith

-- An accepted byte is the byte of the opcode that is returned.
pub opcode_of_sound : (b : ℕ) {op : Opcode} → opcode_of b ≡ ok op → Opcode.to_u8 op ≡ b
unfolding opcode_of
opcode_of_sound b {op} h = ground (arith, Opcode.to_u8_of_try_from b {op = op})
