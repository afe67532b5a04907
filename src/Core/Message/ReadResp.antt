-- ===== src/Core/Message/ReadResp.antt =====
-- READ_RESP payloads: an offset and raw bytes (crates/rdows-core/src/message.rs).
use rdows.Prelude.{
  ℕ, ◌+◌, ◌≤◌, ◌≡◌, ◌≢◌, refl, ◌⊎◌, inl, inr, List, ◌++◌, length, arith, length-append, Profile,
  checked, wrapping, ok, panic, sub_uint,
}
use rdows.Bytes.{BufApi, IsBufApi, to_be, length-to_be}
use rdows.Bytes.Formats.{
  Encoder, Decoder, ◌⨟◌, ◌>>=◌, ◌>>◌, pure, read, lift, Writes, Decodes, Safe, Writes-⨟, Safe-pure,
  Decodes->>=, Decodes-last, Decodes-lift->>=, Decodes-copy, Safe-lift->>=,
}
use rdows.Core.Need.{
  IsU32, IsU64, need, need_or, Decodes-need, Decodes-need_or, Safe-need, Safe-need_or,
}
use rdows.Core.Fields.{writes64, Writes-slice, decodes64, safe64, Safe-copy}
use rdows.Core.Error.{RdowsError, payload_too_short}

pub record ReadRespPayload : Type 0 where
  pub fragment_offset : ℕ
  pub content : List ℕ

pub encode : BufApi → ReadRespPayload → Encoder
encode api p = api.put_u64 p.fragment_offset ⨟ api.put_slice p.content

pub decode : Profile → BufApi → ℕ → Decoder RdowsError ReadRespPayload
decode prof api payload_length = do
  need api 8
  fragment_offset ← read api.get_u64
  data_len ← lift (sub_uint prof 64 payload_length 8)
  need_or api data_len (λ left. payload_too_short payload_length (8 + left))
  content ← read (api.copy_to_bytes data_len)
  pure (record { fragment_offset = fragment_offset; content = content })

unfoldable pub encoded_len : ReadRespPayload → ℕ
encoded_len p = 8 + length p.content

-- The bytes of a payload.
unfoldable pub layout : ReadRespPayload → List ℕ
layout p = to_be 8 p.fragment_offset ++ p.content

abbrev pub Fits : ReadRespPayload → Type 0
Fits p = IsU64 p.fragment_offset

-- `encoded_len` is the number of bytes.
pub length-layout : (p : ReadRespPayload) → length (layout p) ≡ encoded_len p
unfolding layout encoded_len
length-layout p = simp (length-append, length-to_be)

data_len_lem :
    (prof : Profile) (n : ℕ) → IsU32 (8 + n) → sub_uint {E = RdowsError} prof 64 (8 + n) 8 ≡ ok n
data_len_lem checked n h = ground arith
data_len_lem wrapping n h = ground arith

data_len-ne-panic :
    (prof : Profile) (n : ℕ)
    → (8 ≤ n) ⊎ (prof ≡ wrapping)
    → sub_uint {E = RdowsError} prof 64 n 8 ≢ panic
data_len-ne-panic checked n (inl h) = ground arith
data_len-ne-panic checked n (inr e) = λ _. cc
data_len-ne-panic wrapping n h = λ e. cc

module _ {api : BufApi} (laws : IsBufApi api) where
  pub encode-Writes : (p : ReadRespPayload) → Writes (encode api p) (layout p)
  unfolding encode layout
  encode-Writes p = search (Writes-⨟, writes64 laws, Writes-slice laws)

  pub decode-Decodes :
      (prof : Profile) (p : ReadRespPayload)
      → Fits p
      → IsU32 (encoded_len p)
      → Decodes (decode prof api (encoded_len p)) (layout p) p
  unfolding decode layout encoded_len
  decode-Decodes prof p h k = Decodes-need laws 8 (omega (arith, length-layout p)) (
      Decodes->>= _ (decodes64 laws h) (
        Decodes-lift->>= _ (data_len_lem prof (length p.content) k) (
          Decodes-need_or laws _ _ (omega arith) (
            Decodes-last _
              (Decodes-copy (api.copy_to_bytes (length p.content)) (laws.copies p.content))))))

  pub decode-Safe :
      (prof : Profile) (payload_length : ℕ)
      → (8 ≤ payload_length) ⊎ (prof ≡ wrapping)
      → Safe 0 (decode prof api payload_length)
  unfolding decode
  decode-Safe prof n h = Safe-need laws 8 (
      safe64 laws refl λ off.
        Safe-lift->>= (data_len-ne-panic prof n h)
          λ len. Safe-need_or laws len _ (Safe-copy laws len (omega arith) λ bs. Safe-pure _))
