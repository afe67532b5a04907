-- ===== src/Core/Message/Defs.antt =====
-- Messages: a header and a payload (crates/rdows-core/src/message.rs, `RdowsMessage`).
use rdows.Prelude.{ℕ, ◌%◌, ◌^◌, List, [], Profile, Result, ok, err, panic}
use rdows.Bytes.{BufApi}
use rdows.Bytes.Formats.{Encoder, Decoder, skip, pure, ◌>>=◌}
use rdows.Core.Error.{RdowsError}
use rdows.Core.Opcode.{Opcode}
use rdows.Core.Frame
use rdows.Core.Frame.{RdowsHeader}
use rdows.Core.Message.Connect
use rdows.Core.Message.MrReg
use rdows.Core.Message.MrRegAck
use rdows.Core.Message.MrDereg
use rdows.Core.Message.MrDeregAck
use rdows.Core.Message.Send
use rdows.Core.Message.DataBytes
use rdows.Core.Message.Write
use rdows.Core.Message.ReadReq
use rdows.Core.Message.ReadResp
use rdows.Core.Message.AtomicReq
use rdows.Core.Message.AtomicResp
use rdows.Core.Message.CreditUpdate
use rdows.Core.Message.ErrorReply
use rdows.Core.Message.Connect.{ConnectPayload}
use rdows.Core.Message.MrReg.{MrRegPayload}
use rdows.Core.Message.MrRegAck.{MrRegAckPayload}
use rdows.Core.Message.MrDereg.{MrDeregPayload}
use rdows.Core.Message.MrDeregAck.{MrDeregAckPayload}
use rdows.Core.Message.Send.{SendPayload}
use rdows.Core.Message.DataBytes.{DataPayload}
use rdows.Core.Message.Write.{WritePayload}
use rdows.Core.Message.ReadReq.{ReadReqPayload}
use rdows.Core.Message.ReadResp.{ReadRespPayload}
use rdows.Core.Message.AtomicReq.{AtomicReqPayload}
use rdows.Core.Message.AtomicResp.{AtomicRespPayload}
use rdows.Core.Message.CreditUpdate.{CreditUpdatePayload}
use rdows.Core.Message.ErrorReply.{ErrorPayload}

pub data RdowsMessage : Type 0 where
  connect : RdowsHeader → ConnectPayload → RdowsMessage
  connect_ack : RdowsHeader → ConnectPayload → RdowsMessage
  disconnect : RdowsHeader → RdowsMessage
  mr_reg : RdowsHeader → MrRegPayload → RdowsMessage
  mr_reg_ack : RdowsHeader → MrRegAckPayload → RdowsMessage
  mr_dereg : RdowsHeader → MrDeregPayload → RdowsMessage
  mr_dereg_ack : RdowsHeader → MrDeregAckPayload → RdowsMessage
  send : RdowsHeader → SendPayload → RdowsMessage
  send_data : RdowsHeader → DataPayload → RdowsMessage
  recv_comp : RdowsHeader → RdowsMessage
  write : RdowsHeader → WritePayload → RdowsMessage
  write_data : RdowsHeader → DataPayload → RdowsMessage
  write_comp : RdowsHeader → RdowsMessage
  read_req : RdowsHeader → ReadReqPayload → RdowsMessage
  read_resp : RdowsHeader → ReadRespPayload → RdowsMessage
  atomic_req : RdowsHeader → AtomicReqPayload → RdowsMessage
  atomic_resp : RdowsHeader → AtomicRespPayload → RdowsMessage
  ack : RdowsHeader → RdowsMessage
  credit_update : RdowsHeader → CreditUpdatePayload → RdowsMessage
  error : RdowsHeader → ErrorPayload → RdowsMessage

unfoldable pub header : RdowsMessage → RdowsHeader
header (connect h p) = h
header (connect_ack h p) = h
header (disconnect h) = h
header (mr_reg h p) = h
header (mr_reg_ack h p) = h
header (mr_dereg h p) = h
header (mr_dereg_ack h p) = h
header (send h p) = h
header (send_data h p) = h
header (recv_comp h) = h
header (write h p) = h
header (write_data h p) = h
header (write_comp h) = h
header (read_req h p) = h
header (read_resp h p) = h
header (atomic_req h p) = h
header (atomic_resp h p) = h
header (ack h) = h
header (credit_update h p) = h
header (error h p) = h

-- The `match` of `encode`: what goes into `payload_buf`.
unfoldable pub encode_payload : BufApi → RdowsMessage → Encoder
encode_payload api (connect h p) = Connect.encode api p
encode_payload api (connect_ack h p) = Connect.encode api p
encode_payload api (disconnect h) = skip
encode_payload api (mr_reg h p) = MrReg.encode api p
encode_payload api (mr_reg_ack h p) = MrRegAck.encode api p
encode_payload api (mr_dereg h p) = MrDereg.encode api p
encode_payload api (mr_dereg_ack h p) = MrDeregAck.encode api p
encode_payload api (send h p) = Send.encode api p
encode_payload api (send_data h p) = DataBytes.encode api p
encode_payload api (recv_comp h) = skip
encode_payload api (write h p) = Write.encode api p
encode_payload api (write_data h p) = DataBytes.encode api p
encode_payload api (write_comp h) = skip
encode_payload api (read_req h p) = ReadReq.encode api p
encode_payload api (read_resp h p) = ReadResp.encode api p
encode_payload api (atomic_req h p) = AtomicReq.encode api p
encode_payload api (atomic_resp h p) = AtomicResp.encode api p
encode_payload api (ack h) = skip
encode_payload api (credit_update h p) = CreditUpdate.encode api p
encode_payload api (error h p) = ErrorReply.encode api p

-- `RdowsMessage::encode`
unfoldable pub encode : BufApi → RdowsMessage → List ℕ
encode api m =
    let payload_buf : List ℕ = encode_payload api m [] in
    let h : RdowsHeader = record (header m) { payload_length = api.len payload_buf % 2 ^ 32 } in
    api.extend_from_slice payload_buf (Frame.encode api h [])

-- The `match` of `decode`.
unfoldable pub decode_body :
    Profile → BufApi → RdowsHeader → Opcode → Decoder RdowsError RdowsMessage
decode_body prof api h Opcode.connect = Connect.decode api >>= λ p. pure (connect h p)
decode_body prof api h Opcode.connect_ack = Connect.decode api >>= λ p. pure (connect_ack h p)
decode_body prof api h Opcode.disconnect = pure (disconnect h)
decode_body prof api h Opcode.mr_reg = MrReg.decode api h.payload_length >>= λ p. pure (mr_reg h p)
decode_body prof api h Opcode.mr_reg_ack = MrRegAck.decode api >>= λ p. pure (mr_reg_ack h p)
decode_body prof api h Opcode.mr_dereg = MrDereg.decode api >>= λ p. pure (mr_dereg h p)
decode_body prof api h Opcode.mr_dereg_ack = MrDeregAck.decode api >>= λ p. pure (mr_dereg_ack h p)
decode_body prof api h Opcode.send = Send.decode api >>= λ p. pure (send h p)
decode_body prof api h Opcode.send_data =
    DataBytes.decode api h.payload_length >>= λ p. pure (send_data h p)
decode_body prof api h Opcode.recv_comp = pure (recv_comp h)
decode_body prof api h Opcode.write =
    Write.decode prof api h.payload_length >>= λ p. pure (write h p)
decode_body prof api h Opcode.write_data =
    DataBytes.decode api h.payload_length >>= λ p. pure (write_data h p)
decode_body prof api h Opcode.write_comp = pure (write_comp h)
decode_body prof api h Opcode.read_req = ReadReq.decode api >>= λ p. pure (read_req h p)
decode_body prof api h Opcode.read_resp =
    ReadResp.decode prof api h.payload_length >>= λ p. pure (read_resp h p)
decode_body prof api h Opcode.atomic_req = AtomicReq.decode api >>= λ p. pure (atomic_req h p)
decode_body prof api h Opcode.atomic_resp = AtomicResp.decode api >>= λ p. pure (atomic_resp h p)
decode_body prof api h Opcode.ack = pure (ack h)
decode_body prof api h Opcode.credit_update =
    CreditUpdate.decode api >>= λ p. pure (credit_update h p)
decode_body prof api h Opcode.error = ErrorReply.decode api >>= λ p. pure (error h p)

unfoldable pub decode_frame : Profile → BufApi → Decoder RdowsError RdowsMessage
decode_frame prof api = Frame.decode api >>= λ h. decode_body prof api h h.opcode

-- `RdowsMessage::decode`: bytes behind the message are dropped.
unfoldable pub decode : Profile → BufApi → List ℕ → Result RdowsError RdowsMessage
decode prof api bytes = elim (decode_frame prof api bytes) [
  | ok (m, rest) ↦ ok m
  | err e ↦ err e
  | panic ↦ panic
]
