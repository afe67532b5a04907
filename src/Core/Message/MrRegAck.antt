-- ===== src/Core/Message/MrRegAck.antt =====
-- MR_REG_ACK payloads (crates/rdows-core/src/message.rs).
use rdows.Prelude.{ℕ, ◌≡◌, List, ◌++◌, length, arith, length-append}
use rdows.Bytes.{BufApi, IsBufApi, to_be, length-to_be}
use rdows.Bytes.Formats.{
  Encoder, Decoder, ◌⨟◌, ◌>>=◌, ◌>>◌, pure, read, Writes, Decodes, Safe, Writes-⨟, Safe-pure,
  Decodes->>=, Decodes-last,
}
use rdows.Core.Need.{IsU16, IsU32, need, Decodes-need, Safe-need}
use rdows.Core.Fields.{writes16, decodes16, safe16, writes32, decodes32, safe32}
use rdows.Core.Error.{RdowsError}

pub record MrRegAckPayload : Type 0 where
  pub pd : ℕ
  pub lkey : ℕ
  pub rkey : ℕ
  pub status : ℕ

abbrev pub mr_reg_ack_size : ℕ
mr_reg_ack_size = 16

pub encode : BufApi → MrRegAckPayload → Encoder
encode api p =
    api.put_u32 p.pd
    ⨟ api.put_u32 p.lkey
    ⨟ api.put_u32 p.rkey
    ⨟ api.put_u16 p.status
    ⨟ api.put_u16 0

pub decode : BufApi → Decoder RdowsError MrRegAckPayload
decode api = do
  need api mr_reg_ack_size
  pd ← read api.get_u32
  lkey ← read api.get_u32
  rkey ← read api.get_u32
  status ← read api.get_u16
  reserved ← read api.get_u16
  pure (record { pd = pd; lkey = lkey; rkey = rkey; status = status })

-- The bytes of a payload.
unfoldable pub layout : MrRegAckPayload → List ℕ
layout p = to_be 4 p.pd ++ (to_be 4 p.lkey ++ (to_be 4 p.rkey ++ (to_be 2 p.status ++ to_be 2 0)))

abbrev pub Fits : MrRegAckPayload → Type 0
Fits p = IsU32 p.pd × IsU32 p.lkey × IsU32 p.rkey × IsU16 p.status

pub length-layout : (p : MrRegAckPayload) → length (layout p) ≡ 16
unfolding layout
length-layout p = simp (length-append, length-to_be)

module _ {api : BufApi} (laws : IsBufApi api) where
  pub encode-Writes : (p : MrRegAckPayload) → Writes (encode api p) (layout p)
  unfolding encode layout
  encode-Writes p = search (Writes-⨟, writes16 laws, writes32 laws) depth 7

  pub decode-Decodes : (p : MrRegAckPayload) → Fits p → Decodes (decode api) (layout p) p
  unfolding decode layout
  decode-Decodes p h = Decodes-need laws 16 (omega (arith, length-layout p)) (
      Decodes->>= _ (decodes32 laws h.0) (
        Decodes->>= _ (decodes32 laws h.1) (
          Decodes->>= _ (decodes32 laws h.2)
            (Decodes->>= _ (decodes16 laws h.3) (Decodes-last _ (decodes16 laws (omega arith)))))))

  pub decode-Safe : Safe 0 (decode api)
  unfolding decode
  decode-Safe = search (Safe-need laws, safe16 laws, safe32 laws, Safe-pure) depth 13
