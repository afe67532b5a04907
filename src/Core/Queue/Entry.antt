-- ===== src/Core/Queue/Entry.antt =====
-- Scatter/gather entries (crates/rdows-core/src/queue.rs).
use rdows.Prelude.{ℕ, ◌≡◌, List, ◌++◌, length, arith, length-append}
use rdows.Bytes.{BufApi, IsBufApi, to_be, length-to_be}
use rdows.Bytes.Formats.{
  Encoder, Decoder, ◌⨟◌, ◌>>=◌, ◌>>◌, pure, read, Writes, Decodes, Safe, Writes-⨟, Safe-pure,
  Decodes->>=, Decodes-last,
}
use rdows.Core.Need.{IsU32, IsU64, need, Decodes-need, Safe-need}
use rdows.Core.Fields.{writes32, decodes32, safe32, writes64, decodes64, safe64}
use rdows.Core.Error.{RdowsError}

pub record ScatterGatherEntry : Type 0 where
  pub lkey : ℕ
  pub offset : ℕ
  pub length : ℕ

abbrev pub sg_entry_size : ℕ
sg_entry_size = 16

pub encode : BufApi → ScatterGatherEntry → Encoder
encode api p = api.put_u32 p.lkey ⨟ api.put_u64 p.offset ⨟ api.put_u32 p.length

pub decode : BufApi → Decoder RdowsError ScatterGatherEntry
decode api = do
  need api sg_entry_size
  lkey ← read api.get_u32
  offset ← read api.get_u64
  length ← read api.get_u32
  pure (record { lkey = lkey; offset = offset; length = length })

-- The bytes of a payload.
unfoldable pub layout : ScatterGatherEntry → List ℕ
layout p = to_be 4 p.lkey ++ (to_be 8 p.offset ++ to_be 4 p.length)

abbrev pub Fits : ScatterGatherEntry → Type 0
Fits p = IsU32 p.lkey × IsU64 p.offset × IsU32 p.length

pub length-layout : (p : ScatterGatherEntry) → length (layout p) ≡ 16
unfolding layout
length-layout p = simp (length-append, length-to_be)

module _ {api : BufApi} (laws : IsBufApi api) where
  pub encode-Writes : (p : ScatterGatherEntry) → Writes (encode api p) (layout p)
  unfolding encode layout
  encode-Writes p = search (Writes-⨟, writes32 laws, writes64 laws) depth 5

  pub decode-Decodes : (p : ScatterGatherEntry) → Fits p → Decodes (decode api) (layout p) p
  unfolding decode layout
  decode-Decodes p h = Decodes-need laws 16 (omega (arith, length-layout p)) (
      Decodes->>= _ (decodes32 laws h.0)
        (Decodes->>= _ (decodes64 laws h.1) (Decodes-last _ (decodes32 laws h.2))))

  pub decode-Safe : Safe 0 (decode api)
  unfolding decode
  decode-Safe = search (Safe-need laws, safe32 laws, safe64 laws, Safe-pure) depth 9
