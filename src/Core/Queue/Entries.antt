-- ===== src/Core/Queue/Entries.antt =====
-- The scatter/gather list of a SEND or WRITE: one entry after the other
-- (the loops of crates/rdows-core/src/message.rs).
use rdows.Prelude.{ℕ, zero, suc, ◌*◌, ◌≡◌, List, [], ◌∷◌, ◌++◌, length, length-append, arith, refl}
use rdows.Bytes.{BufApi, IsBufApi}
use rdows.Bytes.Formats.{
  Encoder, Decoder, ◌⨟◌, skip, ◌>>=◌, pure, Writes, Decodes, Safe, Writes-⨟, Writes-skip, Safe-pure,
  Safe->>=, Decodes->>=, Decodes-last, Decodes-pure,
}
use rdows.Core.Error.{RdowsError}
use rdows.Core.Queue.Entry
use rdows.Core.Queue.Entry.{ScatterGatherEntry}

-- `for entry in &self.sg_list { entry.encode(buf) }`
unfoldable pub encode_entries : BufApi → List ScatterGatherEntry → Encoder
encode_entries api [] = skip
encode_entries api (e ∷ es) = Entry.encode api e ⨟ encode_entries api es

-- `for _ in 0..count { sg_list.push(ScatterGatherEntry::decode(buf)?) }`
unfoldable pub decode_entries : BufApi → ℕ → Decoder RdowsError (List ScatterGatherEntry)
decode_entries api zero = pure []
decode_entries api (suc count) =
    Entry.decode api >>= λ e. decode_entries api count >>= λ es. pure (e ∷ es)

unfoldable pub layout : List ScatterGatherEntry → List ℕ
layout [] = []
layout (e ∷ es) = Entry.layout e ++ layout es

abbrev pub AllFit : List ScatterGatherEntry → Type 0
AllFit [] = Unit
AllFit (e ∷ es) = Entry.Fits e × AllFit es

pub length-layout : (es : List ScatterGatherEntry) → length (layout es) ≡ length es * 16
unfolding layout
length-layout [] = refl
length-layout (e ∷ es) =
    omega (
      arith,
      length-append {0} (Entry.layout e) (layout es),
      Entry.length-layout e,
      length-layout es,
    )

module _ {api : BufApi} (laws : IsBufApi api) where
  pub encode_entries-Writes :
      (es : List ScatterGatherEntry) → Writes (encode_entries api es) (layout es)
  unfolding encode_entries layout
  encode_entries-Writes [] = Writes-skip
  encode_entries-Writes (e ∷ es) = Writes-⨟ (Entry.encode-Writes laws e) (encode_entries-Writes es)

  pub decode_entries-Decodes :
      (es : List ScatterGatherEntry)
      → AllFit es
      → Decodes (decode_entries api (length es)) (layout es) es
  unfolding decode_entries layout
  decode_entries-Decodes [] h = Decodes-pure
  decode_entries-Decodes (e ∷ es) h =
      Decodes->>= _ (Entry.decode-Decodes laws e h.0)
        (Decodes-last _ (decode_entries-Decodes es h.1))

  pub decode_entries-Safe : (count : ℕ) → Safe 0 (decode_entries api count)
  unfolding decode_entries
  decode_entries-Safe zero = Safe-pure []
  decode_entries-Safe (suc count) =
      Safe->>= (Entry.decode-Safe laws) λ e. Safe->>= (decode_entries-Safe count) λ es. Safe-pure _
