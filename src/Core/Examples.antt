-- ===== src/Core/Examples.antt =====
-- Runs of the codec on concrete bytes, and its theorems at concrete inputs.
use rdows.Prelude.{
  ℕ, ◌≡◌, ◌≢◌, ◌↔◌, refl, List, [], ◌∷◌, ◌++◌, checked, wrapping, ok, panic, length, arith,
  replicate, Result, sym, ap, ◌∙◌,
}
use mathlib.Core.Path.{subst}
use rdows.Bytes.{from_be}
use rdows.Bytes.ListApi.{list_api, list_api-IsBufApi, split_at, get_from}
use rdows.Bytes.Utf8.{is_utf8, from_utf8_lossy}
use rdows.Bytes.Formats.{◌>>=◌, ◌>>◌, read, pure, lift}
use rdows.Core.Need.{need_or}
use rdows.Core.Tags.{opcode_of}
use rdows.Core.Opcode
use rdows.Core.Opcode.{Opcode}
use rdows.Core.Error
use rdows.Core.Error.{ErrorCode, RdowsError, err_rnr}
use rdows.Core.Frame
use rdows.Core.Frame.{RdowsHeader, check_version}
use rdows.Core.Queue.Completion
use rdows.Core.Queue.Completion.{CompletionQueueEntry}
use rdows.Core.Message.ErrorReply.{encoded_len, length-layout}
use rdows.Core.Message.RoundTrip
use rdows.Core.Message.Totality
use rdows.Core.Message.{RdowsMessage, error, header, encode, decode}

-- What a run of a decoder computes with.
run : ℕ
unfolding ◌>>=◌ ◌>>◌ read pure lift need_or opcode_of Opcode.try_from check_version get_from
    split_at from_be
run = 0

-- An ERROR message with the text "no".
abbrev reply_header : RdowsHeader
reply_header = record {
  version = 1;
  opcode = Opcode.error;
  flags = 0;
  session_id = 7;
  sequence = 3;
  wrid = 0;
  payload_length = 0;
}

abbrev reply : RdowsMessage
reply =
    error reply_header
      (record { error_code = err_rnr; failing_seq = 9; description = b'n' ∷ b'o' ∷ [] })

reply_length : length (RoundTrip.payload reply) ≡ 12
unfolding RoundTrip.payload encoded_len
reply_length = length-layout _

reply-IsValid : RoundTrip.IsValid reply
unfolding RoundTrip.kind RoundTrip.payload header is_utf8
reply-IsValid = record {
  header_fits = record {
    is_version = refl;
    flags_fit = omega arith;
    session_id_fits = omega arith;
    sequence_fits = omega arith;
    wrid_fits = omega arith;
    payload_length_fits = omega (arith, reply_length);
  };
  has_kind = refl;
  payload_fits = record {
    failing_seq_fits = omega arith;
    description_fits = omega arith;
    description_is_text = refl;
  };
}

decode-encode_example :
    decode wrapping list_api (encode list_api reply ++ (1 ∷ 2 ∷ [])) ≡ ok (RoundTrip.stamped reply)
decode-encode_example =
    RoundTrip.decode-encode list_api-IsBufApi wrapping reply (1 ∷ 2 ∷ []) reply-IsValid

encode-layout_example :
    encode list_api reply
    ≡ Frame.layout (record (header reply) { payload_length = length (RoundTrip.payload reply) })
      ++ RoundTrip.payload reply
encode-layout_example =
    RoundTrip.encode-layout list_api-IsBufApi reply (omega (arith, reply_length))

-- The bytes of a header with opcode 0x30, WRITE, and the length 5.
abbrev short_write : List ℕ
short_write =
    1 ∷ 0x30 ∷ 0 ∷ 0 ∷ 0 ∷ 0 ∷ 0 ∷ 7 ∷ 0 ∷ 0 ∷ 0 ∷ 3 ∷ 0 ∷ 0 ∷ 0 ∷ 0 ∷ 0 ∷ 0 ∷ 0 ∷ 0 ∷ 0 ∷ 0 ∷ 0 ∷ 5
    ∷ []

abbrev short_header : RdowsHeader
short_header = record {
  version = 1;
  opcode = Opcode.write;
  flags = 0;
  session_id = 7;
  sequence = 3;
  wrid = 0;
  payload_length = 5;
}

short_write_read :
    Frame.decode list_api (short_write ++ replicate 24 0) ≡ ok (short_header, replicate 24 0)
unfolding run Frame.decode
short_write_read = refl

decode_write_panics_example : decode checked list_api (short_write ++ replicate 24 0) ≡ panic
decode_write_panics_example =
    Totality.decode_write_panics list_api-IsBufApi checked (short_write ++ replicate 24 0)
      short_header (replicate 24 0) short_write_read refl (omega arith) (omega arith)

-- The payload of a WRITE of 2 bytes at 14 under the R_Key 77, with one scatter/gather entry.
abbrev write_payload : List ℕ
write_payload =
    0 ∷ 0 ∷ 0 ∷ 77 ∷ 0 ∷ 0 ∷ 0 ∷ 0 ∷ 0 ∷ 0 ∷ 0 ∷ 0 ∷ 0 ∷ 0 ∷ 0 ∷ 14 ∷ 0 ∷ 0 ∷ 0 ∷ 0 ∷ 0 ∷ 0 ∷ 0 ∷ 2
    ∷ 0 ∷ 0 ∷ 0 ∷ 1 ∷ 0 ∷ 0 ∷ 0 ∷ 2 ∷ 0 ∷ 0 ∷ 0 ∷ 0 ∷ 0 ∷ 0 ∷ 0 ∷ 4 ∷ []

-- Its frame: the length field is 40.
abbrev write_frame : List ℕ
write_frame =
    1 ∷ 0x30 ∷ 0 ∷ 0 ∷ 0 ∷ 0 ∷ 0 ∷ 7 ∷ 0 ∷ 0 ∷ 0 ∷ 3 ∷ 0 ∷ 0 ∷ 0 ∷ 0 ∷ 0 ∷ 0 ∷ 0 ∷ 0 ∷ 0 ∷ 0 ∷ 0
    ∷ 40 ∷ write_payload

write_frame_read :
    Frame.decode list_api write_frame
    ≡ ok (record short_header { payload_length = 40 }, write_payload)
unfolding run Frame.decode
write_frame_read = refl

write_frame-LengthOk :
    (h : RdowsHeader) (rest : List ℕ)
    → Frame.decode list_api write_frame ≡ ok (h, rest)
    → Totality.LengthOk checked h h.opcode
write_frame-LengthOk h rest e =
    subst (λ (h : RdowsHeader). Totality.LengthOk checked h h.opcode)
      (ap header_of (sym write_frame_read ∙ e)) (omega arith, omega arith)
  where
    header_of : Result RdowsError (RdowsHeader × List ℕ) → RdowsHeader
    header_of (ok (h, rest)) = h
    header_of _ = short_header

decode-ne-panic_example : decode checked list_api write_frame ≢ panic
decode-ne-panic_example =
    Totality.decode-ne-panic list_api-IsBufApi checked write_frame write_frame-LengthOk

abbrev failed_read : CompletionQueueEntry
failed_read = record {
  wrid = 99;
  status = 5;
  opcode = Opcode.read_req;
  vendor_error = 0x42;
  byte_count = 0;
  qp_number = 1;
}

decode-encode_completion_example :
    Completion.decode list_api (Completion.encode list_api failed_read [] ++ (1 ∷ []))
    ≡ ok (failed_read, 1 ∷ [])
decode-encode_completion_example =
    Completion.decode-encode_completion list_api-IsBufApi failed_read (1 ∷ []) (record {
      wrid_fits = omega arith;
      status_fits = omega arith;
      vendor_error_fits = omega arith;
      byte_count_fits = omega arith;
      qp_number_fits = omega arith;
    })

try_from-to_u8_iff_example :
    (Opcode.try_from 0x30 ≡ ok Opcode.write) ↔ (Opcode.to_u8 Opcode.write ≡ 0x30)
try_from-to_u8_iff_example = Opcode.try_from-to_u8_iff 0x30 Opcode.write

try_from-to_u16_iff_example : (Error.try_from 0x10 ≡ ok err_rnr) ↔ (Error.to_u16 err_rnr ≡ 0x10)
try_from-to_u16_iff_example = Error.try_from-to_u16_iff 0x10 err_rnr

-- A stray continuation byte and a character cut off at the end.
lossy_example :
    from_utf8_lossy (b'a' ∷ 0x80 ∷ 0xE2 ∷ 0x82 ∷ [])
    ≡ b'a' ∷ 0xEF ∷ 0xBF ∷ 0xBD ∷ 0xEF ∷ 0xBF ∷ 0xBD ∷ []
unfolding from_utf8_lossy
lossy_example = refl
