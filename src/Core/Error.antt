-- ===== src/Core/Error.antt =====
-- Error codes on the wire and the library's errors (crates/rdows-core/src/error.rs).
-- A `String` is the list of its UTF-8 bytes.
use rdows.Prelude.{ℕ, ◌<◌, ◌^◌, ◌≡◌, refl, ◌↔◌, List, Result, ok, err, arith, ◌==◌, if◌then◌else◌}
use rdows.Core.Opcode.{Opcode}

pub data ErrorCode : Type 0 where
  success err_proto_version err_unknown_opcode err_invalid_pd err_invalid_lkey err_invalid_mkey
        err_access_denied err_bounds err_alignment err_payload_size err_rnr err_cq_overflow
        err_seq_gap err_timeout err_internal :
      ErrorCode

-- `ErrorCode as u16`
unfoldable pub to_u16 : ErrorCode → ℕ
to_u16 success = 0x0000
to_u16 err_proto_version = 0x0001
to_u16 err_unknown_opcode = 0x0002
to_u16 err_invalid_pd = 0x0003
to_u16 err_invalid_lkey = 0x0004
to_u16 err_invalid_mkey = 0x0005
to_u16 err_access_denied = 0x0006
to_u16 err_bounds = 0x0007
to_u16 err_alignment = 0x0008
to_u16 err_payload_size = 0x0009
to_u16 err_rnr = 0x0010
to_u16 err_cq_overflow = 0x0020
to_u16 err_seq_gap = 0x0030
to_u16 err_timeout = 0x0040
to_u16 err_internal = 0xffff

pub record InvalidErrorCode : Type 0 where
  pub value : ℕ

-- `ErrorCode::try_from`
unfoldable pub try_from : ℕ → Result InvalidErrorCode ErrorCode
try_from value =
    if value == 0x0000
    then ok success
    else if value == 0x0001
    then ok err_proto_version
    else if value == 0x0002
    then ok err_unknown_opcode
    else if value == 0x0003
    then ok err_invalid_pd
    else if value == 0x0004
    then ok err_invalid_lkey
    else if value == 0x0005
    then ok err_invalid_mkey
    else if value == 0x0006
    then ok err_access_denied
    else if value == 0x0007
    then ok err_bounds
    else if value == 0x0008
    then ok err_alignment
    else if value == 0x0009
    then ok err_payload_size
    else if value == 0x0010
    then ok err_rnr
    else if value == 0x0020
    then ok err_cq_overflow
    else if value == 0x0030
    then ok err_seq_gap
    else if value == 0x0040
    then ok err_timeout
    else if value == 0xffff
    then ok err_internal
    else err (record { value = value })

-- `ErrorCode::try_from(v).unwrap_or(ErrorCode::ErrInternal)`
unfoldable pub code_or_internal : ℕ → ErrorCode
unfolding try_from
code_or_internal v = elim (try_from v) [ ok c ↦ c | _ ↦ err_internal ]

pub data RdowsError : Type 0 where
  invalid_version : ℕ → RdowsError
  invalid_opcode : ℕ → RdowsError
  payload_too_short : ℕ → ℕ → RdowsError
  header_too_short : ℕ → RdowsError
  protocol : ErrorCode → RdowsError
  connection_rejected : List ℕ → RdowsError
  session_not_ready : RdowsError
  session_closed : RdowsError
  send_credits_exhausted : RdowsError
  unexpected_message : List ℕ → Opcode → RdowsError
  web_socket : List ℕ → RdowsError
  tls : List ℕ → RdowsError
  io : List ℕ → RdowsError

pub to_u16-lt : (c : ErrorCode) → to_u16 c < 2 ^ 16
unfolding to_u16
to_u16-lt success = omega arith
to_u16-lt err_proto_version = omega arith
to_u16-lt err_unknown_opcode = omega arith
to_u16-lt err_invalid_pd = omega arith
to_u16-lt err_invalid_lkey = omega arith
to_u16-lt err_invalid_mkey = omega arith
to_u16-lt err_access_denied = omega arith
to_u16-lt err_bounds = omega arith
to_u16-lt err_alignment = omega arith
to_u16-lt err_payload_size = omega arith
to_u16-lt err_rnr = omega arith
to_u16-lt err_cq_overflow = omega arith
to_u16-lt err_seq_gap = omega arith
to_u16-lt err_timeout = omega arith
to_u16-lt err_internal = omega arith

pub try_from-to_u16 : (c : ErrorCode) → try_from (to_u16 c) ≡ ok c
unfolding to_u16 try_from
try_from-to_u16 success = refl
try_from-to_u16 err_proto_version = refl
try_from-to_u16 err_unknown_opcode = refl
try_from-to_u16 err_invalid_pd = refl
try_from-to_u16 err_invalid_lkey = refl
try_from-to_u16 err_invalid_mkey = refl
try_from-to_u16 err_access_denied = refl
try_from-to_u16 err_bounds = refl
try_from-to_u16 err_alignment = refl
try_from-to_u16 err_payload_size = refl
try_from-to_u16 err_rnr = refl
try_from-to_u16 err_cq_overflow = refl
try_from-to_u16 err_seq_gap = refl
try_from-to_u16 err_timeout = refl
try_from-to_u16 err_internal = refl

pub to_u16_of_try_from : (v : ℕ) {c : ErrorCode} → try_from v ≡ ok c → to_u16 c ≡ v
unfolding to_u16 try_from
to_u16_of_try_from v h = ground arith

pub code_or_internal-to_u16 : (c : ErrorCode) → code_or_internal (to_u16 c) ≡ c
unfolding code_or_internal to_u16
code_or_internal-to_u16 success = refl
code_or_internal-to_u16 err_proto_version = refl
code_or_internal-to_u16 err_unknown_opcode = refl
code_or_internal-to_u16 err_invalid_pd = refl
code_or_internal-to_u16 err_invalid_lkey = refl
code_or_internal-to_u16 err_invalid_mkey = refl
code_or_internal-to_u16 err_access_denied = refl
code_or_internal-to_u16 err_bounds = refl
code_or_internal-to_u16 err_alignment = refl
code_or_internal-to_u16 err_payload_size = refl
code_or_internal-to_u16 err_rnr = refl
code_or_internal-to_u16 err_cq_overflow = refl
code_or_internal-to_u16 err_seq_gap = refl
code_or_internal-to_u16 err_timeout = refl
code_or_internal-to_u16 err_internal = refl

-- `try_from` accepts exactly the numbers that `to_u16` gives, and returns what it was given for.
pub try_from-to_u16_iff : (v : ℕ) (c : ErrorCode) → (try_from v ≡ ok c) ↔ (to_u16 c ≡ v)
try_from-to_u16_iff v c = (to_u16_of_try_from v, λ e. rw (← e) (try_from-to_u16 c))
