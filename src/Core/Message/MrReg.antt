-- ===== src/Core/Message/MrReg.antt =====
-- MR_REG payloads, of 16 or 20 bytes (crates/rdows-core/src/message.rs).
use Prim.Native.Nat.{bit_or}
use rdows.Prelude.{
  ℕ, ◌+◌, ◌*◌, ◌/◌, ◌%◌, ◌^◌, ◌≤◌, ◌≡◌, refl, List, [], ◌++◌, length, Option, none, some, arith,
  length-append, leb, if◌then◌else◌, ◌&&◌, true, Bool-cases, inl, inr, ◌∙◌,
}
use rdows.Prelude.Bits.{bit_or_shift}
use rdows.Bytes.{BufApi, IsBufApi, to_be, length-to_be}
use rdows.Bytes.Formats.{
  Encoder, Decoder, ◌⨟◌, skip, ◌>>=◌, ◌>>◌, pure, read, Writes, Decodes, Safe, Writes-⨟,
  Writes-skip, Safe-pure, Decodes->>=, Decodes-last, Decodes-result, Safe->>=,
}
use rdows.Core.Need.{IsU32, IsU64, need, Decodes-need, Safe-need}
use rdows.Core.Fields.{writes32, decodes32, safe32}
use rdows.Core.Error.{RdowsError}

pub record MrRegPayload : Type 0 where
  pub pd : ℕ
  pub access_flags : ℕ
  pub region_len : ℕ
  pub suggested_lkey : Option ℕ

encode_lkey : BufApi → Option ℕ → Encoder
encode_lkey api none = skip
encode_lkey api (some lkey) = api.put_u32 lkey

pub encode : BufApi → MrRegPayload → Encoder
encode api p =
    api.put_u32 p.pd
    ⨟ api.put_u32 p.access_flags
    ⨟ api.put_u32 (p.region_len / 2 ^ 32 % 2 ^ 32)
    ⨟ api.put_u32 (p.region_len % 2 ^ 32)
    ⨟ encode_lkey api p.suggested_lkey

-- The key is there if the frame's length field says so and the bytes are there.
decode_lkey : BufApi → ℕ → Decoder RdowsError (Option ℕ)
decode_lkey api payload_length buf =
    (if leb 20 payload_length && leb 4 (api.remaining buf)
        then (read api.get_u32 >>= λ lkey. pure (some lkey))
        else pure none)
      buf

-- `(high << 32) | low`, on 64 bits.
region_len_of : ℕ → ℕ → ℕ
region_len_of high low = bit_or (high * 2 ^ 32 % 2 ^ 64) low

pub decode : BufApi → ℕ → Decoder RdowsError MrRegPayload
decode api payload_length = do
  need api 16
  pd ← read api.get_u32
  access_flags ← read api.get_u32
  high ← read api.get_u32
  low ← read api.get_u32
  suggested_lkey ← decode_lkey api payload_length
  pure (record {
    pd = pd;
    access_flags = access_flags;
    region_len = region_len_of high low;
    suggested_lkey = suggested_lkey;
  })

unfoldable pub encoded_len : MrRegPayload → ℕ
encoded_len p = elim p.suggested_lkey [ none ↦ 16 | some _ ↦ 20 ]

pub lkey_layout : Option ℕ → List ℕ
lkey_layout none = []
lkey_layout (some lkey) = to_be 4 lkey

-- The bytes of a payload: the length is one 64-bit integer.
unfoldable pub layout : MrRegPayload → List ℕ
layout p =
    to_be 4 p.pd
    ++ (to_be 4 p.access_flags
        ++ (to_be 4 (p.region_len / 2 ^ 32 % 2 ^ 32)
            ++ (to_be 4 (p.region_len % 2 ^ 32) ++ lkey_layout p.suggested_lkey)))

abbrev LkeyFits : Option ℕ → Type 0
LkeyFits none = Unit
LkeyFits (some lkey) = IsU32 lkey

abbrev pub Fits : MrRegPayload → Type 0
Fits p = IsU32 p.pd × IsU32 p.access_flags × IsU64 p.region_len × LkeyFits p.suggested_lkey

halves : (v : ℕ) → IsU64 v → region_len_of (v / 2 ^ 32 % 2 ^ 32) (v % 2 ^ 32) ≡ v
unfolding region_len_of
halves v h =
    let e : v / 2 ^ 32 % 2 ^ 32 * 2 ^ 32 % 2 ^ 64 ≡ v / 2 ^ 32 * 2 ^ 32 = omega arith in
    rw e (bit_or_shift 32 (v / 2 ^ 32) (v % 2 ^ 32) (omega arith) ∙ omega arith)

length-lkey_layout :
    (o : Option ℕ) (p : MrRegPayload)
    → p.suggested_lkey ≡ o
    → length (lkey_layout o) + 16 ≡ encoded_len p
unfolding lkey_layout encoded_len
length-lkey_layout none p e = rw e
length-lkey_layout (some lkey) p e = rw (e, length-to_be)

encoded_len_min : (p : MrRegPayload) → 16 ≤ encoded_len p
unfolding encoded_len
encoded_len_min p = ground arith

-- `encoded_len` is the number of bytes.
pub length-layout : (p : MrRegPayload) → length (layout p) ≡ encoded_len p
unfolding layout
length-layout p =
    simp (length-append, length-to_be) (omega (arith, length-lkey_layout p.suggested_lkey p refl))

module _ {api : BufApi} (laws : IsBufApi api) where
  encode_lkey-Writes : (o : Option ℕ) → Writes (encode_lkey api o) (lkey_layout o)
  unfolding encode_lkey lkey_layout
  encode_lkey-Writes none = Writes-skip
  encode_lkey-Writes (some lkey) = writes32 laws lkey

  pub encode-Writes : (p : MrRegPayload) → Writes (encode api p) (layout p)
  unfolding encode layout
  encode-Writes p = search (Writes-⨟, writes32 laws, encode_lkey-Writes) depth 7

  -- With no key the length field has to say so: the decoder would take the bytes behind for one.
  decode_lkey-Decodes :
      (o : Option ℕ) (p : MrRegPayload)
      → p.suggested_lkey ≡ o
      → LkeyFits o
      → Decodes (decode_lkey api (encoded_len p)) (lkey_layout o) o
  unfolding decode_lkey lkey_layout encoded_len pure
  decode_lkey-Decodes none p e h = rw e (record { run = λ rest. refl })
  decode_lkey-Decodes (some lkey) p e h = rw e (record {
    run = λ rest.
        let room : leb 4 (length (to_be 4 lkey ++ rest)) ≡ true =
          ground (arith, length-append {0} (to_be 4 lkey) rest, length-to_be 4 lkey) in
        rw (laws.counts (to_be 4 lkey ++ rest))
          (rw room ((Decodes-last some (decodes32 laws h)).run rest));
  })

  pub decode-Decodes :
      (p : MrRegPayload) → Fits p → Decodes (decode api (encoded_len p)) (layout p) p
  unfolding decode layout
  decode-Decodes p h =
      Decodes-result (λ i. record p { region_len = halves p.region_len h.2 i })
        (Decodes-need laws 16 (omega (arith, length-layout p, encoded_len_min p)) (
          Decodes->>= _ (decodes32 laws h.0) (
            Decodes->>= _ (decodes32 laws h.1) (
              Decodes->>= _ (decodes32 laws (omega arith)) (
                Decodes->>= _ (decodes32 laws (omega arith))
                  (Decodes-last _ (decode_lkey-Decodes p.suggested_lkey p refl h.3)))))))

  decode_lkey-Safe : (payload_length : ℕ) → Safe 0 (decode_lkey api payload_length)
  unfolding decode_lkey
  decode_lkey-Safe payload_length = record {
    run = λ buf h. elim (Bool-cases (leb 20 payload_length && leb 4 (length buf))) [
      | inl there ↦
          rw (laws.counts buf)
            (rw there ((safe32 laws {n = 4} refl (λ v. Safe-pure (some v))).run buf (ground arith)))
      | inr absent ↦ rw (laws.counts buf) (rw absent ((Safe-pure none).run buf h))
    ];
  }

  pub decode-Safe : (payload_length : ℕ) → Safe 0 (decode api payload_length)
  unfolding decode
  decode-Safe payload_length =
      search (Safe-need laws, safe32 laws, Safe->>=, decode_lkey-Safe, Safe-pure) depth 9
