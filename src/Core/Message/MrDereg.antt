-- ===== src/Core/Message/MrDereg.antt =====
-- MR_DEREG payloads (crates/rdows-core/src/message.rs).
use rdows.Prelude.{ℕ, ◌≡◌, List, ◌++◌, length, arith, length-append}
use rdows.Bytes.{BufApi, IsBufApi, to_be, length-to_be}
use rdows.Bytes.Formats.{
  Encoder, Decoder, ◌⨟◌, ◌>>=◌, ◌>>◌, pure, read, Writes, Decodes, Safe, Writes-⨟, Safe-pure,
  Decodes->>=, Decodes-last,
}
use rdows.Core.Need.{IsU32, need, Decodes-need, Safe-need}
use rdows.Core.Fields.{writes32, decodes32, safe32}
use rdows.Core.Error.{RdowsError}

pub record MrDeregPayload : Type 0 where
  pub pd : ℕ
  pub lkey : ℕ

abbrev pub mr_dereg_size : ℕ
mr_dereg_size = 8

pub encode : BufApi → MrDeregPayload → Encoder
encode api p = api.put_u32 p.pd ⨟ api.put_u32 p.lkey

pub decode : BufApi → Decoder RdowsError MrDeregPayload
decode api = do
  need api mr_dereg_size
  pd ← read api.get_u32
  lkey ← read api.get_u32
  pure (record { pd = pd; lkey = lkey })

-- The bytes of a payload.
unfoldable pub layout : MrDeregPayload → List ℕ
layout p = to_be 4 p.pd ++ to_be 4 p.lkey

abbrev pub Fits : MrDeregPayload → Type 0
Fits p = IsU32 p.pd × IsU32 p.lkey

pub length-layout : (p : MrDeregPayload) → length (layout p) ≡ 8
unfolding layout
length-layout p = simp (length-append, length-to_be)

module _ {api : BufApi} (laws : IsBufApi api) where
  pub encode-Writes : (p : MrDeregPayload) → Writes (encode api p) (layout p)
  unfolding encode layout
  encode-Writes p = search (Writes-⨟, writes32 laws) depth 4

  pub decode-Decodes : (p : MrDeregPayload) → Fits p → Decodes (decode api) (layout p) p
  unfolding decode layout
  decode-Decodes p h =
      Decodes-need laws 8 (omega (arith, length-layout p))
        (Decodes->>= _ (decodes32 laws h.0) (Decodes-last _ (decodes32 laws h.1)))

  pub decode-Safe : Safe 0 (decode api)
  unfolding decode
  decode-Safe = search (Safe-need laws, safe32 laws, Safe-pure) depth 7
