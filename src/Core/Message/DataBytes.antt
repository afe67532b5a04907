-- ===== src/Core/Message/DataBytes.antt =====
-- SEND_DATA and WRITE_DATA payloads: raw bytes (crates/rdows-core/src/message.rs).
use rdows.Prelude.{ℕ, List, length, arith}
use rdows.Bytes.{BufApi, IsBufApi}
use rdows.Bytes.Formats.{
  Encoder, Decoder, ◌>>=◌, ◌>>◌, pure, read, Writes, Decodes, Safe, Safe-pure, Decodes-copy,
  Decodes-last,
}
use rdows.Core.Need.{need, Decodes-need, Safe-need}
use rdows.Core.Fields.{Writes-slice, Safe-copy}
use rdows.Core.Error.{RdowsError}

pub record DataPayload : Type 0 where
  pub content : List ℕ

pub encode : BufApi → DataPayload → Encoder
encode api p = api.put_slice p.content

pub decode : BufApi → ℕ → Decoder RdowsError DataPayload
decode api payload_length = do
  need api payload_length
  content ← read (api.copy_to_bytes payload_length)
  pure (record { content = content })

module _ {api : BufApi} (laws : IsBufApi api) where
  pub encode-Writes : (p : DataPayload) → Writes (encode api p) p.content
  unfolding encode
  encode-Writes p = Writes-slice laws p.content

  pub decode-Decodes : (p : DataPayload) → Decodes (decode api (length p.content)) p.content p
  unfolding decode
  decode-Decodes p =
      Decodes-need laws _ (omega arith) (
        Decodes-last _
          (Decodes-copy (api.copy_to_bytes (length p.content)) (laws.copies p.content)))

  pub decode-Safe : (payload_length : ℕ) → Safe 0 (decode api payload_length)
  unfolding decode
  decode-Safe n = Safe-need laws n (Safe-copy laws n (omega arith) λ bs. Safe-pure _)
