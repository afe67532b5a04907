-- ===== src/Core/Message/RoundTrip.antt =====
-- What a message looks like on the wire, and that `decode` reads back what `encode` wrote.
use rdows.Prelude.{ℕ, ◌%◌, ◌^◌, ◌≡◌, refl, ap, ◌∙◌, List, [], ◌++◌, length, arith, Profile, ok}
use rdows.Bytes.{BufApi, IsBufApi}
use rdows.Bytes.Formats.{Writes, Decodes, Writes-skip, Decodes-pure, Decodes->>=, Decodes-last}
use rdows.Core.Need.{IsU32}
use rdows.Core.Opcode.{Opcode}
use rdows.Core.Frame
use rdows.Core.Frame.{RdowsHeader}
use rdows.Core.Message.Connect
use rdows.Core.Message.MrReg
use rdows.Core.Message.MrRegAck
use rdows.Core.Message.MrDereg
use rdows.Core.Message.MrDeregAck
use rdows.Core.Message.Send
use rdows.Core.Message.DataBytes
use rdows.Core.Message.Write
use rdows.Core.Message.ReadReq
use rdows.Core.Message.ReadResp
use rdows.Core.Message.AtomicReq
use rdows.Core.Message.AtomicResp
use rdows.Core.Message.CreditUpdate
use rdows.Core.Message.ErrorReply
use rdows.Core.Message.Defs.{
  RdowsMessage, connect, connect_ack, disconnect, mr_reg, mr_reg_ack, mr_dereg, mr_dereg_ack, send,
  send_data, recv_comp, write, write_data, write_comp, read_req, read_resp, atomic_req, atomic_resp,
  ack, credit_update, error, header, encode_payload, encode, decode_body, decode_frame, decode,
}

-- The opcode that stands for the kind of message.
unfoldable pub kind : RdowsMessage → Opcode
kind (connect h p) = Opcode.connect
kind (connect_ack h p) = Opcode.connect_ack
kind (disconnect h) = Opcode.disconnect
kind (mr_reg h p) = Opcode.mr_reg
kind (mr_reg_ack h p) = Opcode.mr_reg_ack
kind (mr_dereg h p) = Opcode.mr_dereg
kind (mr_dereg_ack h p) = Opcode.mr_dereg_ack
kind (send h p) = Opcode.send
kind (send_data h p) = Opcode.send_data
kind (recv_comp h) = Opcode.recv_comp
kind (write h p) = Opcode.write
kind (write_data h p) = Opcode.write_data
kind (write_comp h) = Opcode.write_comp
kind (read_req h p) = Opcode.read_req
kind (read_resp h p) = Opcode.read_resp
kind (atomic_req h p) = Opcode.atomic_req
kind (atomic_resp h p) = Opcode.atomic_resp
kind (ack h) = Opcode.ack
kind (credit_update h p) = Opcode.credit_update
kind (error h p) = Opcode.error

-- The bytes of the payload.
unfoldable pub payload : RdowsMessage → List ℕ
payload (connect h p) = Connect.layout p
payload (connect_ack h p) = Connect.layout p
payload (disconnect h) = []
payload (mr_reg h p) = MrReg.layout p
payload (mr_reg_ack h p) = MrRegAck.layout p
payload (mr_dereg h p) = MrDereg.layout p
payload (mr_dereg_ack h p) = MrDeregAck.layout p
payload (send h p) = Send.layout p
payload (send_data h p) = p.content
payload (recv_comp h) = []
payload (write h p) = Write.layout p
payload (write_data h p) = p.content
payload (write_comp h) = []
payload (read_req h p) = ReadReq.layout p
payload (read_resp h p) = ReadResp.layout p
payload (atomic_req h p) = AtomicReq.layout p
payload (atomic_resp h p) = AtomicResp.layout p
payload (ack h) = []
payload (credit_update h p) = CreditUpdate.layout p
payload (error h p) = ErrorReply.layout p

abbrev pub PayloadFits : RdowsMessage → Type 0
PayloadFits (connect h p) = Connect.Fits p
PayloadFits (connect_ack h p) = Connect.Fits p
PayloadFits (disconnect h) = Unit
PayloadFits (mr_reg h p) = MrReg.Fits p
PayloadFits (mr_reg_ack h p) = MrRegAck.Fits p
PayloadFits (mr_dereg h p) = MrDereg.Fits p
PayloadFits (mr_dereg_ack h p) = MrDeregAck.Fits p
PayloadFits (send h p) = Send.Fits p
PayloadFits (send_data h p) = Unit
PayloadFits (recv_comp h) = Unit
PayloadFits (write h p) = Write.Fits p
PayloadFits (write_data h p) = Unit
PayloadFits (write_comp h) = Unit
PayloadFits (read_req h p) = ReadReq.Fits p
PayloadFits (read_resp h p) = ReadResp.Fits p
PayloadFits (atomic_req h p) = AtomicReq.Fits p
PayloadFits (atomic_resp h p) = AtomicResp.Fits p
PayloadFits (ack h) = Unit
PayloadFits (credit_update h p) = CreditUpdate.Fits p
PayloadFits (error h p) = ErrorReply.Fits p

unfoldable pub with_header : RdowsHeader → RdowsMessage → RdowsMessage
with_header h' (connect h p) = connect h' p
with_header h' (connect_ack h p) = connect_ack h' p
with_header h' (disconnect h) = disconnect h'
with_header h' (mr_reg h p) = mr_reg h' p
with_header h' (mr_reg_ack h p) = mr_reg_ack h' p
with_header h' (mr_dereg h p) = mr_dereg h' p
with_header h' (mr_dereg_ack h p) = mr_dereg_ack h' p
with_header h' (send h p) = send h' p
with_header h' (send_data h p) = send_data h' p
with_header h' (recv_comp h) = recv_comp h'
with_header h' (write h p) = write h' p
with_header h' (write_data h p) = write_data h' p
with_header h' (write_comp h) = write_comp h'
with_header h' (read_req h p) = read_req h' p
with_header h' (read_resp h p) = read_resp h' p
with_header h' (atomic_req h p) = atomic_req h' p
with_header h' (atomic_resp h p) = atomic_resp h' p
with_header h' (ack h) = ack h'
with_header h' (credit_update h p) = credit_update h' p
with_header h' (error h p) = error h' p

-- The message with the length of its payload in its header.
unfoldable pub stamped : RdowsMessage → RdowsMessage
stamped m = with_header (record (header m) { payload_length = length (payload m) }) m

-- A message that can be sent: the fields are in range, the header has the opcode of the message,
-- and the length of the payload fits its field. What the header had for a length does not matter.
pub record IsValid (m : RdowsMessage) : Type 0 where
  pub header_fits : Frame.Fits (record (header m) { payload_length = length (payload m) })
  pub has_kind : (header m).opcode ≡ kind m
  pub payload_fits : PayloadFits m

module _ {api : BufApi} (laws : IsBufApi api) where
  encode_payload-Writes : (m : RdowsMessage) → Writes (encode_payload api m) (payload m)
  unfolding encode_payload payload
  encode_payload-Writes (connect h p) = Connect.encode-Writes laws p
  encode_payload-Writes (connect_ack h p) = Connect.encode-Writes laws p
  encode_payload-Writes (disconnect h) = Writes-skip
  encode_payload-Writes (mr_reg h p) = MrReg.encode-Writes laws p
  encode_payload-Writes (mr_reg_ack h p) = MrRegAck.encode-Writes laws p
  encode_payload-Writes (mr_dereg h p) = MrDereg.encode-Writes laws p
  encode_payload-Writes (mr_dereg_ack h p) = MrDeregAck.encode-Writes laws p
  encode_payload-Writes (send h p) = Send.encode-Writes laws p
  encode_payload-Writes (send_data h p) = DataBytes.encode-Writes laws p
  encode_payload-Writes (recv_comp h) = Writes-skip
  encode_payload-Writes (write h p) = Write.encode-Writes laws p
  encode_payload-Writes (write_data h p) = DataBytes.encode-Writes laws p
  encode_payload-Writes (write_comp h) = Writes-skip
  encode_payload-Writes (read_req h p) = ReadReq.encode-Writes laws p
  encode_payload-Writes (read_resp h p) = ReadResp.encode-Writes laws p
  encode_payload-Writes (atomic_req h p) = AtomicReq.encode-Writes laws p
  encode_payload-Writes (atomic_resp h p) = AtomicResp.encode-Writes laws p
  encode_payload-Writes (ack h) = Writes-skip
  encode_payload-Writes (credit_update h p) = CreditUpdate.encode-Writes laws p
  encode_payload-Writes (error h p) = ErrorReply.encode-Writes laws p

  decode_body-Decodes :
      (prof : Profile) (h : RdowsHeader) (m : RdowsMessage)
      → PayloadFits m
      → h.payload_length ≡ length (payload m)
      → IsU32 (length (payload m))
      → Decodes (decode_body prof api h (kind m)) (payload m) (with_header h m)
  unfolding decode_body kind payload with_header
  decode_body-Decodes prof h (connect _ p) f e u = Decodes-last _ (Connect.decode-Decodes laws p f)
  decode_body-Decodes prof h (connect_ack _ p) f e u =
      Decodes-last _ (Connect.decode-Decodes laws p f)
  decode_body-Decodes prof h (disconnect _) f e u = Decodes-pure
  decode_body-Decodes prof h (mr_reg _ p) f e u =
      simp (e ∙ MrReg.length-layout p) (Decodes-last (mr_reg h) (MrReg.decode-Decodes laws p f))
  decode_body-Decodes prof h (mr_reg_ack _ p) f e u =
      Decodes-last _ (MrRegAck.decode-Decodes laws p f)
  decode_body-Decodes prof h (mr_dereg _ p) f e u = Decodes-last _ (MrDereg.decode-Decodes laws p f)
  decode_body-Decodes prof h (mr_dereg_ack _ p) f e u =
      Decodes-last _ (MrDeregAck.decode-Decodes laws p f)
  decode_body-Decodes prof h (send _ p) f e u = Decodes-last _ (Send.decode-Decodes laws p f)
  decode_body-Decodes prof h (send_data _ p) f e u =
      simp e (Decodes-last (send_data h) (DataBytes.decode-Decodes laws p))
  decode_body-Decodes prof h (recv_comp _) f e u = Decodes-pure
  decode_body-Decodes prof h (write _ p) f e u = simp (e ∙ Write.length-layout p) (
      Decodes-last (write h)
        (Write.decode-Decodes laws prof p f (omega (arith, Write.length-layout p))))
  decode_body-Decodes prof h (write_data _ p) f e u =
      simp e (Decodes-last (write_data h) (DataBytes.decode-Decodes laws p))
  decode_body-Decodes prof h (write_comp _) f e u = Decodes-pure
  decode_body-Decodes prof h (read_req _ p) f e u = Decodes-last _ (ReadReq.decode-Decodes laws p f)
  decode_body-Decodes prof h (read_resp _ p) f e u = simp (e ∙ ReadResp.length-layout p) (
      Decodes-last (read_resp h)
        (ReadResp.decode-Decodes laws prof p f (omega (arith, ReadResp.length-layout p))))
  decode_body-Decodes prof h (atomic_req _ p) f e u =
      Decodes-last _ (AtomicReq.decode-Decodes laws p f)
  decode_body-Decodes prof h (atomic_resp _ p) f e u =
      Decodes-last _ (AtomicResp.decode-Decodes laws p f)
  decode_body-Decodes prof h (ack _) f e u = Decodes-pure
  decode_body-Decodes prof h (credit_update _ p) f e u =
      Decodes-last _ (CreditUpdate.decode-Decodes laws p f)
  decode_body-Decodes prof h (error _ p) f e u = Decodes-last _ (ErrorReply.decode-Decodes laws p f)

  -- `encode` writes the header, with the length of the payload filled in, and the payload.
  pub encode-layout :
      (m : RdowsMessage)
      → IsU32 (length (payload m))
      → encode api m
        ≡ Frame.layout (record (header m) { payload_length = length (payload m) }) ++ payload m
  unfolding encode
  encode-layout m h =
      let body : encode_payload api m [] ≡ payload m = (encode_payload-Writes m).run [] in
      let same : length (payload m) % 2 ^ 32 ≡ length (payload m) = omega arith in
      rw (body, encode)
        (rw (laws.measures (payload m)) (
          rw same (
            laws.extends (payload m) _
            ∙ ap (λ (t : List ℕ). t ++ payload m) ((Frame.encode-Writes laws _).run []))))

  decode_frame-Decodes :
      (prof : Profile) (m : RdowsMessage)
      → IsValid m
      → Decodes
          (decode_frame prof api)
          (Frame.layout (record (header m) { payload_length = length (payload m) }) ++ payload m)
          (stamped m)
  unfolding decode_frame stamped
  decode_frame-Decodes prof m v = Decodes->>= _ (Frame.decode-Decodes laws _ v.header_fits) (
      rw v.has_kind
        (decode_body-Decodes prof _ m v.payload_fits refl v.header_fits.payload_length_fits))

  -- Whatever message can be sent is read back, with the length of its payload in its header, and
  -- bytes behind it do no harm.
  pub decode-encode :
      (prof : Profile) (m : RdowsMessage) (rest : List ℕ)
      → IsValid m
      → decode prof api (encode api m ++ rest) ≡ ok (stamped m)
  unfolding decode
  decode-encode prof m rest v =
      rw (encode-layout m v.header_fits.payload_length_fits)
        (rw ((decode_frame-Decodes prof m v).run rest, decode))
