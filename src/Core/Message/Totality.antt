-- ===== src/Core/Message/Totality.antt =====
-- On which frames the decoder panics.
use rdows.Prelude.{
  ℕ, ◌≤◌, ◌<◌, ◌≡◌, ◌≢◌, sym, ◌⊎◌, inl, inr, List, length, arith, Profile, wrapping, ok, panic,
  Result-cases,
}
use mathlib.Core.Path.{subst}
use rdows.Bytes.{BufApi, IsBufApi}
use rdows.Bytes.Formats.{Safe, Safe->>=, Safe-pure, ◌>>=◌}
use rdows.Core.Need.{IsU32}
use rdows.Core.Opcode.{Opcode}
use rdows.Core.Frame
use rdows.Core.Frame.{RdowsHeader}
use rdows.Core.Message.Connect
use rdows.Core.Message.MrReg
use rdows.Core.Message.MrRegAck
use rdows.Core.Message.MrDereg
use rdows.Core.Message.MrDeregAck
use rdows.Core.Message.Send
use rdows.Core.Message.DataBytes
use rdows.Core.Message.Write
use rdows.Core.Message.ReadReq
use rdows.Core.Message.ReadResp
use rdows.Core.Message.AtomicReq
use rdows.Core.Message.AtomicResp
use rdows.Core.Message.CreditUpdate
use rdows.Core.Message.ErrorReply
use rdows.Core.Message.Defs.{decode_body, decode_frame, decode}

-- What the length field has to say: 24 bytes at least of a WRITE and, where overflow is checked,
-- 8 of a READ_RESP.
abbrev pub LengthOk : Profile → RdowsHeader → Opcode → Type 0
LengthOk prof h Opcode.write = (24 ≤ h.payload_length) × IsU32 h.payload_length
LengthOk prof h Opcode.read_resp = (8 ≤ h.payload_length) ⊎ (prof ≡ wrapping)
LengthOk prof h _ = Unit

module _ {api : BufApi} (laws : IsBufApi api) (prof : Profile) where
  decode_body-Safe :
      (h : RdowsHeader) (op : Opcode) → LengthOk prof h op → Safe 0 (decode_body prof api h op)
  unfolding decode_body
  decode_body-Safe h Opcode.connect k = Safe->>= (Connect.decode-Safe laws) λ p. Safe-pure _
  decode_body-Safe h Opcode.connect_ack k = Safe->>= (Connect.decode-Safe laws) λ p. Safe-pure _
  decode_body-Safe h Opcode.disconnect k = Safe-pure _
  decode_body-Safe h Opcode.mr_reg k =
      Safe->>= (MrReg.decode-Safe laws h.payload_length) λ p. Safe-pure _
  decode_body-Safe h Opcode.mr_reg_ack k = Safe->>= (MrRegAck.decode-Safe laws) λ p. Safe-pure _
  decode_body-Safe h Opcode.mr_dereg k = Safe->>= (MrDereg.decode-Safe laws) λ p. Safe-pure _
  decode_body-Safe h Opcode.mr_dereg_ack k = Safe->>= (MrDeregAck.decode-Safe laws) λ p. Safe-pure _
  decode_body-Safe h Opcode.send k = Safe->>= (Send.decode-Safe laws) λ p. Safe-pure _
  decode_body-Safe h Opcode.send_data k =
      Safe->>= (DataBytes.decode-Safe laws h.payload_length) λ p. Safe-pure _
  decode_body-Safe h Opcode.recv_comp k = Safe-pure _
  decode_body-Safe h Opcode.write k =
      Safe->>= (Write.decode-Safe laws prof h.payload_length k.0 k.1) λ p. Safe-pure _
  decode_body-Safe h Opcode.write_data k =
      Safe->>= (DataBytes.decode-Safe laws h.payload_length) λ p. Safe-pure _
  decode_body-Safe h Opcode.write_comp k = Safe-pure _
  decode_body-Safe h Opcode.read_req k = Safe->>= (ReadReq.decode-Safe laws) λ p. Safe-pure _
  decode_body-Safe h Opcode.read_resp k =
      Safe->>= (ReadResp.decode-Safe laws prof h.payload_length k) λ p. Safe-pure _
  decode_body-Safe h Opcode.atomic_req k = Safe->>= (AtomicReq.decode-Safe laws) λ p. Safe-pure _
  decode_body-Safe h Opcode.atomic_resp k = Safe->>= (AtomicResp.decode-Safe laws) λ p. Safe-pure _
  decode_body-Safe h Opcode.ack k = Safe-pure _
  decode_body-Safe h Opcode.credit_update k =
      Safe->>= (CreditUpdate.decode-Safe laws) λ p. Safe-pure _
  decode_body-Safe h Opcode.error k = Safe->>= (ErrorReply.decode-Safe laws) λ p. Safe-pure _

  decode_frame-ne-panic :
      (bytes : List ℕ)
      → ((h : RdowsHeader) (rest : List ℕ)
          → Frame.decode api bytes ≡ ok (h, rest)
          → LengthOk prof h h.opcode)
      → decode_frame prof api bytes ≢ panic
  unfolding decode_frame ◌>>=◌
  decode_frame-ne-panic bytes k = elim (Result-cases (Frame.decode api bytes)) [
    | inl ((h, rest), e) ↦
        rw (e, ◌>>=◌) ((decode_body-Safe h h.opcode (k h rest e)).run rest (omega arith))
    | inr (inl (x, e)) ↦ rw (e, ◌>>=◌) (λ p. cc)
    | inr (inr e) ↦ absurd ((Frame.decode-Safe laws).run bytes (omega arith) e)
  ]

  -- Any bytes at all are decoded or refused with an error, without a panic, unless a header is read
  -- from them whose length field is below the fixed part of its WRITE or READ_RESP payload.
  pub decode-ne-panic :
      (bytes : List ℕ)
      → ((h : RdowsHeader) (rest : List ℕ)
          → Frame.decode api bytes ≡ ok (h, rest)
          → LengthOk prof h h.opcode)
      → decode prof api bytes ≢ panic
  unfolding decode
  decode-ne-panic bytes k =
      let total : decode_frame prof api bytes ≢ panic = decode_frame-ne-panic bytes k in
      ground arith

  decode_frame_panics :
      (bytes : List ℕ) (h : RdowsHeader) (rest : List ℕ)
      → Frame.decode api bytes ≡ ok (h, rest)
      → h.opcode ≡ Opcode.write
      → h.payload_length < 24
      → 24 ≤ length rest
      → decode_frame prof api bytes ≡ panic
  unfolding decode_frame decode_body ◌>>=◌
  decode_frame_panics bytes h rest e op short room =
      rw (e, ◌>>=◌)
        (subst (λ o. decode_body prof api h o rest ≡ panic) (sym op)
          (rw (Write.decode_panics laws prof h.payload_length rest short room, ◌>>=◌)))

  -- A WRITE whose length field is below 24 panics in both builds, if 24 bytes follow the header.
  pub decode_write_panics :
      (bytes : List ℕ) (h : RdowsHeader) (rest : List ℕ)
      → Frame.decode api bytes ≡ ok (h, rest)
      → h.opcode ≡ Opcode.write
      → h.payload_length < 24
      → 24 ≤ length rest
      → decode prof api bytes ≡ panic
  unfolding decode
  decode_write_panics bytes h rest e op short room =
      rw (decode_frame_panics bytes h rest e op short room, decode)
