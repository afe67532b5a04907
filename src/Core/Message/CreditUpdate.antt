-- ===== src/Core/Message/CreditUpdate.antt =====
-- CREDIT_UPDATE payloads (crates/rdows-core/src/message.rs).
use rdows.Prelude.{ℕ, ◌≡◌, List, ◌++◌, length, arith, length-append}
use rdows.Bytes.{BufApi, IsBufApi, to_be, length-to_be}
use rdows.Bytes.Formats.{
  Encoder, Decoder, ◌⨟◌, ◌>>=◌, ◌>>◌, pure, read, Writes, Decodes, Safe, Writes-⨟, Safe-pure,
  Decodes->>=, Decodes-last,
}
use rdows.Core.Need.{IsU32, need, Decodes-need, Safe-need}
use rdows.Core.Fields.{writes32, decodes32, safe32}
use rdows.Core.Error.{RdowsError}

pub record CreditUpdatePayload : Type 0 where
  pub credit_increment : ℕ

abbrev pub credit_update_size : ℕ
credit_update_size = 8

pub encode : BufApi → CreditUpdatePayload → Encoder
encode api p = api.put_u32 p.credit_increment ⨟ api.put_u32 0

pub decode : BufApi → Decoder RdowsError CreditUpdatePayload
decode api = do
  need api credit_update_size
  credit_increment ← read api.get_u32
  reserved ← read api.get_u32
  pure (record { credit_increment = credit_increment })

-- The bytes of a payload.
unfoldable pub layout : CreditUpdatePayload → List ℕ
layout p = to_be 4 p.credit_increment ++ to_be 4 0

abbrev pub Fits : CreditUpdatePayload → Type 0
Fits p = IsU32 p.credit_increment

pub length-layout : (p : CreditUpdatePayload) → length (layout p) ≡ 8
unfolding layout
length-layout p = simp (length-append, length-to_be)

module _ {api : BufApi} (laws : IsBufApi api) where
  pub encode-Writes : (p : CreditUpdatePayload) → Writes (encode api p) (layout p)
  unfolding encode layout
  encode-Writes p = search (Writes-⨟, writes32 laws) depth 4

  pub decode-Decodes : (p : CreditUpdatePayload) → Fits p → Decodes (decode api) (layout p) p
  unfolding decode layout
  decode-Decodes p h =
      Decodes-need laws 8 (omega (arith, length-layout p))
        (Decodes->>= _ (decodes32 laws h) (Decodes-last _ (decodes32 laws (omega arith))))

  pub decode-Safe : Safe 0 (decode api)
  unfolding decode
  decode-Safe = search (Safe-need laws, safe32 laws, Safe-pure) depth 7
