-- ===== src/Core/Message/Connect.antt =====
-- CONNECT and CONNECT_ACK payloads (crates/rdows-core/src/message.rs).
use rdows.Prelude.{ℕ, ◌≡◌, List, ◌++◌, length, arith, length-append}
use rdows.Bytes.{BufApi, IsBufApi, to_be, length-to_be}
use rdows.Bytes.Formats.{
  Encoder, Decoder, ◌⨟◌, ◌>>=◌, ◌>>◌, pure, read, Writes, Decodes, Safe, Writes-⨟, Safe-pure,
  Decodes->>=, Decodes-last,
}
use rdows.Core.Need.{IsU32, need, Decodes-need, Safe-need}
use rdows.Core.Fields.{writes32, decodes32, safe32}
use rdows.Core.Error.{RdowsError}

pub record ConnectPayload : Type 0 where
  pub pd : ℕ
  pub capability_flags : ℕ
  pub max_msg_size : ℕ
  pub icc : ℕ

abbrev pub connect_payload_size : ℕ
connect_payload_size = 16

pub encode : BufApi → ConnectPayload → Encoder
encode api p =
    api.put_u32 p.pd
    ⨟ api.put_u32 p.capability_flags
    ⨟ api.put_u32 p.max_msg_size
    ⨟ api.put_u32 p.icc

pub decode : BufApi → Decoder RdowsError ConnectPayload
decode api = do
  need api connect_payload_size
  pd ← read api.get_u32
  capability_flags ← read api.get_u32
  max_msg_size ← read api.get_u32
  icc ← read api.get_u32
  pure (record {
    pd = pd;
    capability_flags = capability_flags;
    max_msg_size = max_msg_size;
    icc = icc;
  })

-- The bytes of a payload.
unfoldable pub layout : ConnectPayload → List ℕ
layout p = to_be 4 p.pd ++ (to_be 4 p.capability_flags ++ (to_be 4 p.max_msg_size ++ to_be 4 p.icc))

abbrev pub Fits : ConnectPayload → Type 0
Fits p = IsU32 p.pd × IsU32 p.capability_flags × IsU32 p.max_msg_size × IsU32 p.icc

pub length-layout : (p : ConnectPayload) → length (layout p) ≡ 16
unfolding layout
length-layout p = simp (length-append, length-to_be)

module _ {api : BufApi} (laws : IsBufApi api) where
  pub encode-Writes : (p : ConnectPayload) → Writes (encode api p) (layout p)
  unfolding encode layout
  encode-Writes p = search (Writes-⨟, writes32 laws) depth 6

  pub decode-Decodes : (p : ConnectPayload) → Fits p → Decodes (decode api) (layout p) p
  unfolding decode layout
  decode-Decodes p h = Decodes-need laws 16 (omega (arith, length-layout p)) (
      Decodes->>= _ (decodes32 laws h.0) (
        Decodes->>= _ (decodes32 laws h.1)
          (Decodes->>= _ (decodes32 laws h.2) (Decodes-last _ (decodes32 laws h.3)))))

  pub decode-Safe : Safe 0 (decode api)
  unfolding decode
  decode-Safe = search (Safe-need laws, safe32 laws, Safe-pure) depth 11
