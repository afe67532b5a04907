-- ===== src/Core/Message/ErrorReply.antt =====
-- ERROR payloads: a code, the failing sequence number and a text
-- (crates/rdows-core/src/message.rs).
use rdows.Prelude.{
  ℕ, zero, suc, ok, ◌+◌, ◌%◌, ◌^◌, ◌≤◌, ◌≡◌, refl, List, [], ◌∷◌, ◌++◌, length, arith,
  length-append, leb, ltb, ◌&&◌, if◌then◌else◌, true, Bool-cases, inl, inr, ap, ◌∙◌,
}
use rdows.Bytes.{BufApi, IsBufApi, to_be, length-to_be}
use rdows.Bytes.Utf8.{from_utf8_lossy, from_utf8_lossy_id, is_utf8}
use rdows.Bytes.Formats.{
  Encoder, Decoder, ◌⨟◌, ◌>>=◌, ◌>>◌, pure, read, Writes, Decodes, Safe, Writes-⨟, Safe-pure,
  Decodes->>=, Decodes-last, Decodes-result, Decodes-copy, Safe->>=,
}
use rdows.Core.Need.{IsU16, IsU32, need, Decodes-need, Safe-need}
use rdows.Core.Fields.{
  writes16, writes32, Writes-slice, decodes16, decodes32, safe16, safe32, Safe-copy,
}
use rdows.Core.Error.{
  RdowsError, ErrorCode, to_u16, to_u16-lt, code_or_internal, code_or_internal-to_u16,
}

pub record ErrorPayload : Type 0 where
  pub error_code : ErrorCode
  pub failing_seq : ℕ
  pub description : List ℕ

abbrev error_fixed_size : ℕ
error_fixed_size = 10

pub encode : BufApi → ErrorPayload → Encoder
encode api p =
    api.put_u16 (to_u16 p.error_code)
    ⨟ api.put_u16 0
    ⨟ api.put_u32 p.failing_seq
    ⨟ api.put_u16 (length p.description % 2 ^ 16)
    ⨟ api.put_slice p.description

-- A text that is cut off is dropped.
decode_description : BufApi → ℕ → Decoder RdowsError (List ℕ)
decode_description api desc_len buf =
    (if ltb 0 desc_len && leb desc_len (api.remaining buf)
        then (read (api.copy_to_bytes desc_len) >>= λ bs. pure (from_utf8_lossy bs))
        else pure [])
      buf

pub decode : BufApi → Decoder RdowsError ErrorPayload
decode api = do
  need api error_fixed_size
  code_val ← read api.get_u16
  reserved ← read api.get_u16
  failing_seq ← read api.get_u32
  desc_len ← read api.get_u16
  description ← decode_description api desc_len
  pure (record {
    error_code = code_or_internal code_val;
    failing_seq = failing_seq;
    description = description;
  })

unfoldable pub encoded_len : ErrorPayload → ℕ
encoded_len p = error_fixed_size + length p.description

-- The bytes of a payload.
unfoldable pub layout : ErrorPayload → List ℕ
layout p =
    to_be 2 (to_u16 p.error_code)
    ++ (to_be 2 0
        ++ (to_be 4 p.failing_seq ++ (to_be 2 (length p.description % 2 ^ 16) ++ p.description)))

pub record Fits (p : ErrorPayload) : Type 0 where
  pub failing_seq_fits : IsU32 p.failing_seq
  pub description_fits : IsU16 (length p.description)
  pub description_is_text : is_utf8 p.description ≡ true

-- `encoded_len` is the number of bytes.
pub length-layout : (p : ErrorPayload) → length (layout p) ≡ encoded_len p
unfolding layout encoded_len
length-layout p = simp (length-append, length-to_be) (omega arith)

encoded_len_min : (p : ErrorPayload) → 10 ≤ encoded_len p
unfolding encoded_len
encoded_len_min p = omega arith

module _ {api : BufApi} (laws : IsBufApi api) where
  pub encode-Writes : (p : ErrorPayload) → Writes (encode api p) (layout p)
  unfolding encode layout
  encode-Writes p = search (Writes-⨟, writes16 laws, writes32 laws, Writes-slice laws) depth 7

  decode_description-Decodes :
      (n : ℕ) (bs : List ℕ)
      → is_utf8 bs ≡ true
      → length bs ≡ n
      → Decodes (decode_description api n) bs bs
  unfolding decode_description pure
  decode_description-Decodes zero [] h e = record { run = λ rest. refl }
  decode_description-Decodes zero (b ∷ bs) h e = absurd (omega arith)
  decode_description-Decodes (suc n) bs h e =
      let copied : Decodes (read (api.copy_to_bytes (suc n))) bs bs =
        Decodes-copy (api.copy_to_bytes (suc n)) (rw e at (laws.copies bs)) in
      record {
        run = λ rest.
            let room : (ltb 0 (suc n) && leb (suc n) (length (bs ++ rest))) ≡ true =
              ground (arith, e, length-append {0} bs rest) in
            rw (laws.counts (bs ++ rest)) (
              rw room (
                (Decodes-last from_utf8_lossy copied).run rest
                ∙ ap (λ (t : List ℕ). ok (t, rest)) (from_utf8_lossy_id bs h)));
      }

  pub decode-Decodes : (p : ErrorPayload) → Fits p → Decodes (decode api) (layout p) p
  unfolding decode layout
  decode-Decodes p h =
      Decodes-result (λ i. record p { error_code = code_or_internal-to_u16 p.error_code i })
        (Decodes-need laws 10 (omega (arith, length-layout p, encoded_len_min p)) (
          Decodes->>= _ (decodes16 laws (to_u16-lt p.error_code)) (
            Decodes->>= _ (decodes16 laws (omega arith)) (
              Decodes->>= _ (decodes32 laws h.failing_seq_fits) (
                Decodes->>= _ (decodes16 laws (omega arith)) (
                  Decodes-last _ (
                    decode_description-Decodes _ p.description h.description_is_text
                      (omega (arith, h.description_fits)))))))))

  decode_description-Safe : (n : ℕ) → Safe 0 (decode_description api n)
  unfolding decode_description
  decode_description-Safe n = record {
    run = λ buf h. elim (Bool-cases (ltb 0 n && leb n (length buf))) [
      | inl there ↦ rw (laws.counts buf) (
          rw there
            ((Safe-copy laws {k = n} n (omega arith) λ bs. Safe-pure _).run buf (ground arith)))
      | inr absent ↦ rw (laws.counts buf) (rw absent ((Safe-pure []).run buf h))
    ];
  }

  pub decode-Safe : Safe 0 (decode api)
  unfolding decode
  decode-Safe =
      search
        (Safe-need laws, safe16 laws, safe32 laws, Safe->>=, decode_description-Safe, Safe-pure)
        depth 12
