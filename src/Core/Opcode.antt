-- ===== src/Core/Opcode.antt =====
-- The opcodes of the frame header (crates/rdows-core/src/opcode.rs).
use rdows.Prelude.{
  ℕ, ◌<◌, ◌≡◌, refl, ◌↔◌, Bool, true, false, Result, ok, err, arith, ◌==◌, if◌then◌else◌,
}

pub data Opcode : Type 0 where
  connect connect_ack disconnect mr_reg mr_reg_ack mr_dereg mr_dereg_ack send send_data recv_comp
        write write_data write_comp read_req read_resp atomic_req atomic_resp ack credit_update
        error :
      Opcode

-- Messages whose work request id should be zero.
unfoldable pub is_protocol_message : Opcode → Bool
is_protocol_message connect = true
is_protocol_message connect_ack = true
is_protocol_message ack = true
is_protocol_message error = true
is_protocol_message credit_update = true
is_protocol_message _ = false

-- `Opcode as u8`
unfoldable pub to_u8 : Opcode → ℕ
to_u8 connect = 0x01
to_u8 connect_ack = 0x02
to_u8 disconnect = 0x03
to_u8 mr_reg = 0x10
to_u8 mr_reg_ack = 0x11
to_u8 mr_dereg = 0x12
to_u8 mr_dereg_ack = 0x13
to_u8 send = 0x20
to_u8 send_data = 0x21
to_u8 recv_comp = 0x22
to_u8 write = 0x30
to_u8 write_data = 0x31
to_u8 write_comp = 0x32
to_u8 read_req = 0x40
to_u8 read_resp = 0x41
to_u8 atomic_req = 0x50
to_u8 atomic_resp = 0x51
to_u8 ack = 0x60
to_u8 credit_update = 0x61
to_u8 error = 0xf0

pub record InvalidOpcode : Type 0 where
  pub value : ℕ

-- `Opcode::try_from`
unfoldable pub try_from : ℕ → Result InvalidOpcode Opcode
try_from value =
    if value == 0x01
    then ok connect
    else if value == 0x02
    then ok connect_ack
    else if value == 0x03
    then ok disconnect
    else if value == 0x10
    then ok mr_reg
    else if value == 0x11
    then ok mr_reg_ack
    else if value == 0x12
    then ok mr_dereg
    else if value == 0x13
    then ok mr_dereg_ack
    else if value == 0x20
    then ok send
    else if value == 0x21
    then ok send_data
    else if value == 0x22
    then ok recv_comp
    else if value == 0x30
    then ok write
    else if value == 0x31
    then ok write_data
    else if value == 0x32
    then ok write_comp
    else if value == 0x40
    then ok read_req
    else if value == 0x41
    then ok read_resp
    else if value == 0x50
    then ok atomic_req
    else if value == 0x51
    then ok atomic_resp
    else if value == 0x60
    then ok ack
    else if value == 0x61
    then ok credit_update
    else if value == 0xf0
    then ok error
    else err (record { value = value })

pub to_u8-lt : (op : Opcode) → to_u8 op < 256
unfolding to_u8
to_u8-lt connect = omega arith
to_u8-lt connect_ack = omega arith
to_u8-lt disconnect = omega arith
to_u8-lt mr_reg = omega arith
to_u8-lt mr_reg_ack = omega arith
to_u8-lt mr_dereg = omega arith
to_u8-lt mr_dereg_ack = omega arith
to_u8-lt send = omega arith
to_u8-lt send_data = omega arith
to_u8-lt recv_comp = omega arith
to_u8-lt write = omega arith
to_u8-lt write_data = omega arith
to_u8-lt write_comp = omega arith
to_u8-lt read_req = omega arith
to_u8-lt read_resp = omega arith
to_u8-lt atomic_req = omega arith
to_u8-lt atomic_resp = omega arith
to_u8-lt ack = omega arith
to_u8-lt credit_update = omega arith
to_u8-lt error = omega arith

pub try_from-to_u8 : (op : Opcode) → try_from (to_u8 op) ≡ ok op
unfolding to_u8 try_from
try_from-to_u8 connect = refl
try_from-to_u8 connect_ack = refl
try_from-to_u8 disconnect = refl
try_from-to_u8 mr_reg = refl
try_from-to_u8 mr_reg_ack = refl
try_from-to_u8 mr_dereg = refl
try_from-to_u8 mr_dereg_ack = refl
try_from-to_u8 send = refl
try_from-to_u8 send_data = refl
try_from-to_u8 recv_comp = refl
try_from-to_u8 write = refl
try_from-to_u8 write_data = refl
try_from-to_u8 write_comp = refl
try_from-to_u8 read_req = refl
try_from-to_u8 read_resp = refl
try_from-to_u8 atomic_req = refl
try_from-to_u8 atomic_resp = refl
try_from-to_u8 ack = refl
try_from-to_u8 credit_update = refl
try_from-to_u8 error = refl

-- What is accepted is the byte of the opcode, so no two bytes are read as one opcode.
pub to_u8_of_try_from : (b : ℕ) {op : Opcode} → try_from b ≡ ok op → to_u8 op ≡ b
unfolding to_u8 try_from
to_u8_of_try_from b h = ground arith

-- `try_from` accepts exactly the bytes that `to_u8` gives, and returns what it was given for.
pub try_from-to_u8_iff : (b : ℕ) (op : Opcode) → (try_from b ≡ ok op) ↔ (to_u8 op ≡ b)
try_from-to_u8_iff b op = (to_u8_of_try_from b, λ e. rw (← e) (try_from-to_u8 op))
