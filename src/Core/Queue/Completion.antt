-- ===== src/Core/Queue/Completion.antt =====
-- Completion queue entries of 24 bytes (crates/rdows-core/src/queue.rs).
use rdows.Prelude.{ℕ, ◌≡◌, ok, List, [], ◌++◌, length, arith, length-append}
use rdows.Bytes.{BufApi, IsBufApi, to_be, length-to_be}
use rdows.Bytes.Formats.{
  Encoder, Decoder, ◌⨟◌, ◌>>=◌, ◌>>◌, pure, read, lift, Writes, Decodes, Safe, Writes-⨟, Safe-pure,
  Decodes->>=, Decodes-lift->>=, Decodes-last, Safe-lift->>=,
}
use rdows.Core.Need.{IsU8, IsU16, IsU32, IsU64, need, Decodes-need, Safe-need}
use rdows.Core.Fields.{
  writes8, writes16, writes32, writes64, decodes8, decodes16, decodes32, decodes64, safe8, safe16,
  safe32, safe64,
}
use rdows.Core.Opcode
use rdows.Core.Opcode.{Opcode}
use rdows.Core.Tags.{opcode_of, opcode_of-to_u8, opcode_of-ne-panic}
use rdows.Core.Error.{RdowsError}

pub record CompletionQueueEntry : Type 0 where
  pub wrid : ℕ
  pub status : ℕ
  pub opcode : Opcode
  pub vendor_error : ℕ
  pub byte_count : ℕ
  pub qp_number : ℕ

abbrev cqe_size : ℕ
cqe_size = 24

pub encode : BufApi → CompletionQueueEntry → Encoder
encode api c =
    api.put_u64 c.wrid
    ⨟ api.put_u16 c.status
    ⨟ api.put_u8 (Opcode.to_u8 c.opcode)
    ⨟ api.put_u8 c.vendor_error
    ⨟ api.put_u32 c.byte_count
    ⨟ api.put_u32 c.qp_number
    ⨟ api.put_u32 0

pub decode : BufApi → Decoder RdowsError CompletionQueueEntry
decode api = do
  need api cqe_size
  wrid ← read api.get_u64
  status ← read api.get_u16
  opcode_byte ← read api.get_u8
  opcode ← lift (opcode_of opcode_byte)
  vendor_error ← read api.get_u8
  byte_count ← read api.get_u32
  qp_number ← read api.get_u32
  reserved ← read api.get_u32
  pure (record {
    wrid = wrid;
    status = status;
    opcode = opcode;
    vendor_error = vendor_error;
    byte_count = byte_count;
    qp_number = qp_number;
  })

-- The bytes of an entry.
unfoldable pub layout : CompletionQueueEntry → List ℕ
layout c =
    to_be 8 c.wrid
    ++ (to_be 2 c.status
        ++ (to_be 1 (Opcode.to_u8 c.opcode)
            ++ (to_be 1 c.vendor_error
                ++ (to_be 4 c.byte_count ++ (to_be 4 c.qp_number ++ to_be 4 0)))))

pub record Fits (c : CompletionQueueEntry) : Type 0 where
  pub wrid_fits : IsU64 c.wrid
  pub status_fits : IsU16 c.status
  pub vendor_error_fits : IsU8 c.vendor_error
  pub byte_count_fits : IsU32 c.byte_count
  pub qp_number_fits : IsU32 c.qp_number

length-layout : (c : CompletionQueueEntry) → length (layout c) ≡ 24
unfolding layout
length-layout c = simp (length-append, length-to_be)

module _ {api : BufApi} (laws : IsBufApi api) where
  pub encode-Writes : (c : CompletionQueueEntry) → Writes (encode api c) (layout c)
  unfolding encode layout
  encode-Writes c =
      search (Writes-⨟, writes8 laws, writes16 laws, writes32 laws, writes64 laws) depth 9

  pub decode-Decodes : (c : CompletionQueueEntry) → Fits c → Decodes (decode api) (layout c) c
  unfolding decode layout
  decode-Decodes c fits = Decodes-need laws 24 (omega (arith, length-layout c)) (
      Decodes->>= _ (decodes64 laws fits.wrid_fits) (
        Decodes->>= _ (decodes16 laws fits.status_fits) (
          Decodes->>= _ (decodes8 laws (Opcode.to_u8-lt c.opcode)) (
            Decodes-lift->>= _ (opcode_of-to_u8 c.opcode) (
              Decodes->>= _ (decodes8 laws fits.vendor_error_fits) (
                Decodes->>= _ (decodes32 laws fits.byte_count_fits) (
                  Decodes->>= _ (decodes32 laws fits.qp_number_fits)
                    (Decodes-last _ (decodes32 laws (omega arith))))))))))

  pub decode-Safe : Safe 0 (decode api)
  unfolding decode
  decode-Safe =
      search
        (
          Safe-need laws,
          safe8 laws,
          safe16 laws,
          safe32 laws,
          safe64 laws,
          Safe-lift->>=,
          opcode_of-ne-panic,
          Safe-pure,
        )
        depth 24

  -- An entry whose fields are in range is read back from what `encode` adds to a buffer, with the
  -- bytes behind it left.
  pub decode-encode_completion :
      (c : CompletionQueueEntry) (rest : List ℕ)
      → Fits c
      → decode api (encode api c [] ++ rest) ≡ ok (c, rest)
  decode-encode_completion c rest h = rw ((encode-Writes c).run []) ((decode-Decodes c h).run rest)
