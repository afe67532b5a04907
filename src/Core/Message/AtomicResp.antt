-- ===== src/Core/Message/AtomicResp.antt =====
-- ATOMIC_RESP payloads (crates/rdows-core/src/message.rs).
use rdows.Prelude.{ℕ, ◌≡◌, List, ◌++◌, length, arith, length-append, replicate, length-replicate}
use rdows.Bytes.{BufApi, IsBufApi, to_be, length-to_be}
use rdows.Bytes.Formats.{
  Encoder, Decoder, ◌⨟◌, ◌>>=◌, ◌>>◌, pure, read, Writes, Decodes, Safe, Writes-⨟, Safe-pure, jump,
  Decodes->>=, Decodes->>_pure,
}
use rdows.Core.Need.{IsU16, IsU64, need, Decodes-need, Safe-need}
use rdows.Core.Fields.{
  writes16, decodes16, safe16, writes64, decodes64, safe64, zeros, pad, Safe-pad,
}
use rdows.Core.Error.{RdowsError}

pub record AtomicRespPayload : Type 0 where
  pub original_value : ℕ
  pub status : ℕ

abbrev pub atomic_resp_size : ℕ
atomic_resp_size = 16

pub encode : BufApi → AtomicRespPayload → Encoder
encode api p = api.put_u64 p.original_value ⨟ api.put_u16 p.status ⨟ api.put_bytes 0 6

pub decode : BufApi → Decoder RdowsError AtomicRespPayload
decode api = do
  need api atomic_resp_size
  original_value ← read api.get_u64
  status ← read api.get_u16
  jump (api.advance 6)
  pure (record { original_value = original_value; status = status })

-- The bytes of a payload.
unfoldable pub layout : AtomicRespPayload → List ℕ
layout p = to_be 8 p.original_value ++ (to_be 2 p.status ++ replicate 6 0)

abbrev pub Fits : AtomicRespPayload → Type 0
Fits p = IsU64 p.original_value × IsU16 p.status

pub length-layout : (p : AtomicRespPayload) → length (layout p) ≡ 16
unfolding layout
length-layout p = simp (length-append, length-to_be, length-replicate)

module _ {api : BufApi} (laws : IsBufApi api) where
  pub encode-Writes : (p : AtomicRespPayload) → Writes (encode api p) (layout p)
  unfolding encode layout
  encode-Writes p = search (Writes-⨟, writes16 laws, writes64 laws, zeros laws) depth 5

  pub decode-Decodes : (p : AtomicRespPayload) → Fits p → Decodes (decode api) (layout p) p
  unfolding decode layout
  decode-Decodes p h = Decodes-need laws 16 (omega (arith, length-layout p)) (
      Decodes->>= _ (decodes64 laws h.0)
        (Decodes->>= _ (decodes16 laws h.1) (Decodes->>_pure (pad laws 6))))

  pub decode-Safe : Safe 0 (decode api)
  unfolding decode
  decode-Safe = search (Safe-need laws, safe16 laws, safe64 laws, Safe-pad laws, Safe-pure) depth 9
