-- ===== src/Core/Message/Send.antt =====
-- SEND payloads: a count and a scatter/gather list (crates/rdows-core/src/message.rs).
use rdows.Prelude.{ℕ, ◌+◌, ◌*◌, ◌%◌, ◌^◌, ◌≤◌, ◌≡◌, refl, List, ◌++◌, length, arith, length-append}
use rdows.Bytes.{BufApi, IsBufApi, to_be, length-to_be}
use rdows.Bytes.Formats.{
  Encoder, Decoder, ◌⨟◌, ◌>>=◌, ◌>>◌, pure, read, Writes, Decodes, Safe, Writes-⨟, Safe-pure,
  Decodes->>=, Decodes-last, Safe->>=, Safe-weaken,
}
use rdows.Core.Need.{IsU16, need, need_or, Decodes-need, Decodes-need_or, Safe-need, Safe-need_or}
use rdows.Core.Fields.{writes16, decodes16, safe16}
use rdows.Core.Error.{RdowsError, payload_too_short}
use rdows.Core.Queue.Entry.{ScatterGatherEntry, sg_entry_size}
use rdows.Core.Queue.Entries
use rdows.Core.Queue.Entries.{
  encode_entries, decode_entries, encode_entries-Writes, decode_entries-Decodes,
  decode_entries-Safe,
}

pub record SendPayload : Type 0 where
  pub sg_list : List ScatterGatherEntry

pub encode : BufApi → SendPayload → Encoder
encode api p =
    api.put_u16 (length p.sg_list % 2 ^ 16) ⨟ api.put_u16 0 ⨟ encode_entries api p.sg_list

-- The second test reports both lengths with the four bytes already read. `count` is a u16, so
-- neither `needed` nor the capacity of the vector can overflow.
pub decode : BufApi → Decoder RdowsError SendPayload
decode api = do
  need api 4
  count ← read api.get_u16
  reserved ← read api.get_u16
  let needed = count * sg_entry_size
  need_or api needed (λ left. payload_too_short (4 + needed) (4 + left))
  sg_list ← decode_entries api count
  pure (record { sg_list = sg_list })

unfoldable pub encoded_len : SendPayload → ℕ
encoded_len p = 4 + length p.sg_list * sg_entry_size

-- The bytes of a payload.
unfoldable pub layout : SendPayload → List ℕ
layout p = to_be 2 (length p.sg_list % 2 ^ 16) ++ (to_be 2 0 ++ Entries.layout p.sg_list)

abbrev pub Fits : SendPayload → Type 0
Fits p = IsU16 (length p.sg_list) × Entries.AllFit p.sg_list

-- `encoded_len` is the number of bytes.
pub length-layout : (p : SendPayload) → length (layout p) ≡ encoded_len p
unfolding layout encoded_len
length-layout p =
    simp (length-append, length-to_be) (omega (arith, Entries.length-layout p.sg_list))

module _ {api : BufApi} (laws : IsBufApi api) where
  pub encode-Writes : (p : SendPayload) → Writes (encode api p) (layout p)
  unfolding encode layout
  encode-Writes p = search (Writes-⨟, writes16 laws, encode_entries-Writes laws)

  pub decode-Decodes : (p : SendPayload) → Fits p → Decodes (decode api) (layout p) p
  unfolding decode layout
  decode-Decodes p h =
      let same : length p.sg_list % 2 ^ 16 ≡ length p.sg_list = omega arith in
      rw same (
        Decodes-need laws 4 (omega (arith, size)) (
          Decodes->>= _ (decodes16 laws h.0) (
            Decodes->>= _ (decodes16 laws (omega arith)) (
              Decodes-need_or laws _ _ (omega (arith, Entries.length-layout p.sg_list))
                (Decodes-last _ (decode_entries-Decodes laws p.sg_list h.1))))))
    where
      size : 4 ≤ length (to_be 2 (length p.sg_list) ++ (to_be 2 0 ++ Entries.layout p.sg_list))
      size = simp (length-append, length-to_be) (omega arith)

  pub decode-Safe : Safe 0 (decode api)
  unfolding decode
  decode-Safe = Safe-need laws 4 (
      safe16 laws refl λ count. safe16 laws refl λ reserved.
        Safe-need_or laws _ _
          (Safe->>= (Safe-weaken (omega arith) (decode_entries-Safe laws count)) λ es. Safe-pure _))
