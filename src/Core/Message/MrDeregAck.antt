-- ===== src/Core/Message/MrDeregAck.antt =====
-- MR_DEREG_ACK payloads (crates/rdows-core/src/message.rs).
use rdows.Prelude.{ℕ, ◌≡◌, List, ◌++◌, length, arith, length-append, replicate, length-replicate}
use rdows.Bytes.{BufApi, IsBufApi, to_be, length-to_be}
use rdows.Bytes.Formats.{
  Encoder, Decoder, ◌⨟◌, ◌>>=◌, ◌>>◌, pure, read, Writes, Decodes, Safe, Writes-⨟, Safe-pure, jump,
  Decodes->>=, Decodes->>_pure,
}
use rdows.Core.Need.{IsU16, need, Decodes-need, Safe-need}
use rdows.Core.Fields.{writes16, decodes16, safe16, zeros, pad, Safe-pad}
use rdows.Core.Error.{RdowsError}

pub record MrDeregAckPayload : Type 0 where
  pub status : ℕ

abbrev pub mr_dereg_ack_size : ℕ
mr_dereg_ack_size = 8

pub encode : BufApi → MrDeregAckPayload → Encoder
encode api p = api.put_u16 p.status ⨟ api.put_bytes 0 6

pub decode : BufApi → Decoder RdowsError MrDeregAckPayload
decode api = do
  need api mr_dereg_ack_size
  status ← read api.get_u16
  jump (api.advance 6)
  pure (record { status = status })

-- The bytes of a payload.
unfoldable pub layout : MrDeregAckPayload → List ℕ
layout p = to_be 2 p.status ++ replicate 6 0

abbrev pub Fits : MrDeregAckPayload → Type 0
Fits p = IsU16 p.status

pub length-layout : (p : MrDeregAckPayload) → length (layout p) ≡ 8
unfolding layout
length-layout p = simp (length-append, length-to_be, length-replicate)

module _ {api : BufApi} (laws : IsBufApi api) where
  pub encode-Writes : (p : MrDeregAckPayload) → Writes (encode api p) (layout p)
  unfolding encode layout
  encode-Writes p = search (Writes-⨟, writes16 laws, zeros laws) depth 4

  pub decode-Decodes : (p : MrDeregAckPayload) → Fits p → Decodes (decode api) (layout p) p
  unfolding decode layout
  decode-Decodes p h =
      Decodes-need laws 8 (omega (arith, length-layout p))
        (Decodes->>= _ (decodes16 laws h) (Decodes->>_pure (pad laws 6)))

  pub decode-Safe : Safe 0 (decode api)
  unfolding decode
  decode-Safe = search (Safe-need laws, safe16 laws, Safe-pad laws, Safe-pure) depth 7
