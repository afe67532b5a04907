-- ===== src/Core/Message/Write.antt =====
-- WRITE payloads: a target and a scatter/gather list (crates/rdows-core/src/message.rs).
use rdows.Prelude.{
  ℕ, ◌+◌, ◌-◌, ◌*◌, ◌/◌, ◌≤◌, ◌<◌, ◌≡◌, ◌≢◌, List, ◌++◌, length, arith, length-append, Profile,
  checked, wrapping, Result, ok, panic, sub_uint, with_capacity, length-drop, drop, ◌∙◌,
}
use rdows.Bytes.{BufApi, IsBufApi, to_be, length-to_be}
use rdows.Bytes.Formats.{
  Encoder, Decoder, ◌⨟◌, ◌>>=◌, ◌>>◌, pure, read, lift, Writes, Decodes, Safe, Writes-⨟, Safe-pure,
  Decodes->>=, Decodes-last, Decodes-lift->>=, Safe->>=, Safe-lift->>=, panic-lift,
}
use rdows.Core.Need.{IsU32, IsU64, need, Decodes-need, Safe-need, run-need}
use rdows.Core.Fields.{writes32, writes64, decodes32, decodes64, safe32, safe64, run32, run64}
use rdows.Core.Error.{RdowsError}
use rdows.Core.Queue.Entry.{ScatterGatherEntry, sg_entry_size}
use rdows.Core.Queue.Entries
use rdows.Core.Queue.Entries.{
  encode_entries, decode_entries, encode_entries-Writes, decode_entries-Decodes,
  decode_entries-Safe,
}

pub record WritePayload : Type 0 where
  pub rkey : ℕ
  pub remote_va : ℕ
  pub total : ℕ
  pub sg_list : List ScatterGatherEntry

abbrev write_header_size : ℕ
write_header_size = 24

pub encode : BufApi → WritePayload → Encoder
encode api p =
    api.put_u32 p.rkey
    ⨟ api.put_u32 0
    ⨟ api.put_u64 p.remote_va
    ⨟ api.put_u64 p.total
    ⨟ encode_entries api p.sg_list

-- The subtraction is on `usize`, of 64 bits. An entry takes 16 bytes in memory too.
entry_count : Profile → ℕ → Result RdowsError ℕ
entry_count prof payload_length =
    elim (sub_uint {E = RdowsError} prof 64 payload_length write_header_size) [
      | ok sg_bytes ↦ elim (with_capacity {E = RdowsError} (sg_bytes / sg_entry_size) 16) [
        | ok _ ↦ ok (sg_bytes / sg_entry_size)
        | _ ↦ panic
      ]
      | _ ↦ panic
    ]

pub decode : Profile → BufApi → ℕ → Decoder RdowsError WritePayload
decode prof api payload_length = do
  need api write_header_size
  rkey ← read api.get_u32
  reserved ← read api.get_u32
  remote_va ← read api.get_u64
  total ← read api.get_u64
  count ← lift (entry_count prof payload_length)
  sg_list ← decode_entries api count
  pure (record { rkey = rkey; remote_va = remote_va; total = total; sg_list = sg_list })

unfoldable pub encoded_len : WritePayload → ℕ
encoded_len p = write_header_size + length p.sg_list * sg_entry_size

-- The bytes of a payload.
unfoldable pub layout : WritePayload → List ℕ
layout p =
    to_be 4 p.rkey
    ++ (to_be 4 0 ++ (to_be 8 p.remote_va ++ (to_be 8 p.total ++ Entries.layout p.sg_list)))

pub record Fits (p : WritePayload) : Type 0 where
  pub rkey_fits : IsU32 p.rkey
  pub remote_va_fits : IsU64 p.remote_va
  pub total_fits : IsU64 p.total
  pub entries_fit : Entries.AllFit p.sg_list

-- `encoded_len` is the number of bytes.
pub length-layout : (p : WritePayload) → length (layout p) ≡ encoded_len p
unfolding layout encoded_len
length-layout p =
    simp (length-append, length-to_be) (omega (arith, Entries.length-layout p.sg_list))

entry_count_lem :
    (prof : Profile) (n : ℕ) → IsU32 (24 + n * 16) → entry_count prof (24 + n * 16) ≡ ok n
unfolding entry_count
entry_count_lem checked n h = ground arith
entry_count_lem wrapping n h = ground arith

entry_count-ne-panic : (prof : Profile) (n : ℕ) → 24 ≤ n → IsU32 n → entry_count prof n ≢ panic
unfolding entry_count
entry_count-ne-panic checked n h k = ground arith
entry_count-ne-panic wrapping n h k = ground arith

-- Both builds panic: one on the subtraction, the other on the capacity.
entry_count_panics : (prof : Profile) (n : ℕ) → n < 24 → entry_count prof n ≡ panic
unfolding entry_count
entry_count_panics checked n h = ground arith
entry_count_panics wrapping n h = ground arith

module _ {api : BufApi} (laws : IsBufApi api) where
  pub encode-Writes : (p : WritePayload) → Writes (encode api p) (layout p)
  unfolding encode layout
  encode-Writes p =
      search (Writes-⨟, writes32 laws, writes64 laws, encode_entries-Writes laws) depth 7

  pub decode-Decodes :
      (prof : Profile) (p : WritePayload)
      → Fits p
      → IsU32 (encoded_len p)
      → Decodes (decode prof api (encoded_len p)) (layout p) p
  unfolding decode layout encoded_len
  decode-Decodes prof p h k = Decodes-need laws 24 (omega (arith, length-layout p)) (
      Decodes->>= _ (decodes32 laws h.rkey_fits) (
        Decodes->>= _ (decodes32 laws (omega arith)) (
          Decodes->>= _ (decodes64 laws h.remote_va_fits) (
            Decodes->>= _ (decodes64 laws h.total_fits) (
              Decodes-lift->>= _ (entry_count_lem prof (length p.sg_list) k)
                (Decodes-last _ (decode_entries-Decodes laws p.sg_list h.entries_fit)))))))

  pub decode-Safe :
      (prof : Profile) (payload_length : ℕ)
      → 24 ≤ payload_length
      → IsU32 payload_length
      → Safe 0 (decode prof api payload_length)
  unfolding decode
  decode-Safe prof n h k =
      search
        (
          Safe-need laws,
          safe32 laws,
          safe64 laws,
          Safe-lift->>=,
          entry_count-ne-panic prof n h k,
          Safe->>=,
          decode_entries-Safe laws,
          Safe-pure,
        )
        depth 18

  -- A length field below the fixed part makes the decoder panic, whatever the bytes are.
  pub decode_panics :
      (prof : Profile) (payload_length : ℕ) (buf : List ℕ)
      → payload_length < 24
      → 24 ≤ length buf
      → decode prof api payload_length buf ≡ panic
  unfolding decode
  decode_panics prof n buf h k =
      run-need laws 24 _ buf k
      ∙ run32 laws _ buf (omega arith)
      ∙ run32 laws _ (drop 4 buf) (omega (arith, drops 4 buf))
      ∙ run64 laws _ (drop 4 (drop 4 buf)) (omega (arith, drops 4 buf, drops 4 (drop 4 buf)))
      ∙ run64 laws _ (drop 8 (drop 4 (drop 4 buf)))
          (omega (arith, drops 4 buf, drops 4 (drop 4 buf), drops 8 (drop 4 (drop 4 buf))))
      ∙ panic-lift _ _ (entry_count_panics prof n h)
    where
      drops : (w : ℕ) (bs : List ℕ) → length (drop w bs) ≡ length bs - w
      drops = length-drop
