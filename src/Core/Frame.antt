-- ===== src/Core/Frame.antt =====
-- The frame header of 24 bytes (crates/rdows-core/src/frame.rs, lib.rs).
use Prim.Native.Nat.{bit_and}
use rdows.Prelude.{
  ℕ, ◌/◌, ◌%◌, ◌^◌, ◌≡◌, ◌≢◌, ◌↔◌, List, ◌++◌, length, Result, ok, err, panic, Bool, true, not,
  arith, length-append, ◌==◌, if◌then◌else◌,
}
use rdows.Prelude.Bits.{bit_and-pow}
use rdows.Bytes.{BufApi, IsBufApi, to_be, length-to_be}
use rdows.Bytes.Formats.{
  Encoder, Decoder, ◌⨟◌, ◌>>=◌, ◌>>◌, pure, read, lift, Writes, Decodes, Safe, Writes-⨟, Safe-pure,
  Decodes->>=, Decodes-lift->>=, Decodes-last, Safe-lift->>=,
}
use rdows.Core.Need.{IsU16, IsU32, IsU64, need_or, Decodes-need_or, Safe-need_or}
use rdows.Core.Fields.{
  writes8, writes16, writes32, writes64, decodes8, decodes16, decodes32, decodes64, safe8, safe16,
  safe32, safe64,
}
use rdows.Core.Opcode
use rdows.Core.Opcode.{Opcode}
use rdows.Core.Tags.{opcode_of, opcode_of-to_u8, opcode_of-ne-panic}
use rdows.Core.Error.{RdowsError, invalid_version, header_too_short}

abbrev pub rdows_version : ℕ
rdows_version = 0x01

abbrev pub header_size : ℕ
header_size = 24

abbrev flag_f : ℕ
flag_f = 0x8000

abbrev flag_l : ℕ
flag_l = 0x4000

abbrev flag_s : ℕ
flag_s = 0x2000

pub record RdowsHeader : Type 0 where
  pub version : ℕ
  pub opcode : Opcode
  pub flags : ℕ
  pub session_id : ℕ
  pub sequence : ℕ
  pub wrid : ℕ
  pub payload_length : ℕ

-- `RdowsHeader::new`
unfoldable pub new_header : Opcode → ℕ → ℕ → ℕ → RdowsHeader
new_header opcode session_id sequence wrid = record {
  version = rdows_version;
  opcode = opcode;
  flags = 0;
  session_id = session_id;
  sequence = sequence;
  wrid = wrid;
  payload_length = 0;
}

pub encode : BufApi → RdowsHeader → Encoder
encode api h =
    api.put_u8 h.version
    ⨟ api.put_u8 (Opcode.to_u8 h.opcode)
    ⨟ api.put_u16 h.flags
    ⨟ api.put_u32 h.session_id
    ⨟ api.put_u32 h.sequence
    ⨟ api.put_u64 h.wrid
    ⨟ api.put_u32 h.payload_length

-- `if version != RDOWS_VERSION { return Err(…) }`
unfoldable pub check_version : ℕ → Result RdowsError (Unit {0})
check_version version = if version == rdows_version then ok tt else err (invalid_version version)

unfoldable pub decode : BufApi → Decoder RdowsError RdowsHeader
decode api = do
  need_or api header_size header_too_short
  version ← read api.get_u8
  _ ← lift (check_version version)
  opcode_byte ← read api.get_u8
  opcode ← lift (opcode_of opcode_byte)
  flags ← read api.get_u16
  session_id ← read api.get_u32
  sequence ← read api.get_u32
  wrid ← read api.get_u64
  payload_length ← read api.get_u32
  pure (record {
    version = version;
    opcode = opcode;
    flags = flags;
    session_id = session_id;
    sequence = sequence;
    wrid = wrid;
    payload_length = payload_length;
  })

is_fragment : RdowsHeader → Bool
is_fragment h = not (bit_and h.flags flag_f == 0)

is_last_fragment : RdowsHeader → Bool
is_last_fragment h = not (bit_and h.flags flag_l == 0)

is_solicited : RdowsHeader → Bool
is_solicited h = not (bit_and h.flags flag_s == 0)

-- The bytes of a header.
pub layout : RdowsHeader → List ℕ
layout h =
    to_be 1 h.version
    ++ (to_be 1 (Opcode.to_u8 h.opcode)
        ++ (to_be 2 h.flags
            ++ (to_be 4 h.session_id
                ++ (to_be 4 h.sequence ++ (to_be 8 h.wrid ++ to_be 4 h.payload_length)))))

pub record Fits (h : RdowsHeader) : Type 0 where
  pub is_version : h.version ≡ rdows_version
  pub flags_fit : IsU16 h.flags
  pub session_id_fits : IsU32 h.session_id
  pub sequence_fits : IsU32 h.sequence
  pub wrid_fits : IsU64 h.wrid
  pub payload_length_fits : IsU32 h.payload_length

pub length-layout : (h : RdowsHeader) → length (layout h) ≡ 24
unfolding layout
length-layout h = simp (length-append, length-to_be)

check_version-ne-panic : (v : ℕ) → check_version v ≢ panic
unfolding check_version
check_version-ne-panic v = ground arith

-- The flag tests read bits 15, 14 and 13.
flag_bits :
    (h : RdowsHeader)
    → ((is_fragment h ≡ true) ↔ (h.flags / 2 ^ 15 % 2 ≡ 1))
      × ((is_last_fragment h ≡ true) ↔ (h.flags / 2 ^ 14 % 2 ≡ 1))
      × ((is_solicited h ≡ true) ↔ (h.flags / 2 ^ 13 % 2 ≡ 1))
unfolding is_fragment is_last_fragment is_solicited
flag_bits h = (
  ground (arith, bit_and-pow 15 h.flags),
  ground (arith, bit_and-pow 14 h.flags),
  ground (arith, bit_and-pow 13 h.flags),
)

module _ {api : BufApi} (laws : IsBufApi api) where
  pub encode-Writes : (h : RdowsHeader) → Writes (encode api h) (layout h)
  unfolding encode layout
  encode-Writes h =
      search (Writes-⨟, writes8 laws, writes16 laws, writes32 laws, writes64 laws) depth 9

  pub decode-Decodes : (h : RdowsHeader) → Fits h → Decodes (decode api) (layout h) h
  unfolding decode layout check_version
  decode-Decodes h fits =
      Decodes-need_or laws 24 header_too_short (omega (arith, length-layout h)) (
        Decodes->>= _ (decodes8 laws (omega (arith, fits.is_version))) (
          Decodes-lift->>= _ (ground (arith, fits.is_version)) (
            Decodes->>= _ (decodes8 laws (Opcode.to_u8-lt h.opcode)) (
              Decodes-lift->>= _ (opcode_of-to_u8 h.opcode) (
                Decodes->>= _ (decodes16 laws fits.flags_fit) (
                  Decodes->>= _ (decodes32 laws fits.session_id_fits) (
                    Decodes->>= _ (decodes32 laws fits.sequence_fits) (
                      Decodes->>= _ (decodes64 laws fits.wrid_fits)
                        (Decodes-last _ (decodes32 laws fits.payload_length_fits))))))))))

  pub decode-Safe : Safe 0 (decode api)
  unfolding decode
  decode-Safe =
      search
        (
          Safe-need_or laws,
          safe8 laws,
          safe16 laws,
          safe32 laws,
          safe64 laws,
          Safe-lift->>=,
          check_version-ne-panic,
          opcode_of-ne-panic,
          Safe-pure,
        )
        depth 24
