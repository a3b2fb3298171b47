-- ===== src/Reader/Tests.antt =====
-- reader.go at concrete inputs.
use nntppool.Base.{
  ◌+◌, ◌≡◌, ◌↔◌, refl, ◌⊎◌, inl, true, false, Option, none, List, [], ◌∷◌, ◌++◌, arith, Bytes,
  ascii, length,
}
use nntppool.Base.Int.{pos}
use nntppool.Errors.{Err}
use nntppool.Base.Digits.{parse_int}
use nntppool.Reader.{is_multiline, yenc, NntpResponse, new_response}
use nntppool.Reader.Decode.{Rapidyenc, end_none, fed, feed}
use nntppool.Reader.Decode.Lines.{wire, wire_length, feed-status_line, feed-wire}
use nntppool.Reader.Validate.{validate_body, complete_file}
use nntppool.Reader.Validate.Coherent.{IsCoherent, validate_body_iff, validate_body-crc}

-- A decoder that passes every byte on, and a writer that keeps them.
abbrev copying : Rapidyenc
copying = record {
  decode = λ buf state. record {
    output = buf;
    consumed = length buf;
    end = end_none;
    state = state;
    err = none;
  };
  state_crlf = 4;
  state_crlf_eq = 5;
}

abbrev keep : Bytes → Bytes → Bytes × Option Err
keep w bs = (w ++ bs, none)

feed-status_line_example :
    feed copying keep (new_response false false) (ascii "223 a" ++ 13 ∷ 10 ∷ ascii "430 b") []
    ≡ fed 7 true none
        (record (new_response false false) {
          message = ascii "223 a";
          status_code = pos 223;
          eof = true;
          bytes_consumed = 7;
        })
        []
unfolding parse_int is_multiline
feed-status_line_example =
    feed-status_line copying keep false false (ascii "223 a") (ascii "430 b") [] (pos 223)
      (ground arith) (omega arith) refl refl

abbrev header_lines : List Bytes
header_lines = ascii "From: a" ∷ ascii "..dot" ∷ []

feed-wire_example :
    feed copying keep
      (new_response false false)
      (ascii "221 h" ++ 13 ∷ 10 ∷ wire header_lines (ascii "223 x"))
      []
    ≡ fed
        (length (ascii "221 h") + 2 + wire_length header_lines)
        true
        none
        (record (new_response false false) {
          message = ascii "221 h";
          status_code = pos 221;
          lines = header_lines;
          eof = true;
          bytes_consumed = length (ascii "221 h") + 2 + wire_length header_lines;
        })
        []
unfolding parse_int is_multiline
feed-wire_example =
    feed-wire copying keep false false (ascii "221 h") header_lines (ascii "223 x") [] (pos 221)
      (ground arith) (omega arith) refl (inl refl) (ground arith)

-- A whole file of five bytes with the checksum of its trailer.
abbrev five_bytes : NntpResponse
five_bytes = record (new_response false false) {
  status_code = pos 222;
  format = yenc;
  has_begin = true;
  has_end = true;
  bytes_decoded = 5;
  end_size = pos 5;
  has_file_crc = true;
  file_crc = 77;
  crc = 77;
  yenc_meta = record {
    file_name = ascii "a.bin";
    file_size = pos 5;
    part = pos 0;
    part_begin = pos 0;
    part_size = pos 5;
    total = pos 0;
  };
}

validate_body_iff_example : ((validate_body five_bytes).0 ≡ none) ↔ IsCoherent five_bytes
validate_body_iff_example = validate_body_iff five_bytes refl

five_bytes_accepted : (validate_body five_bytes).0 ≡ none
unfolding validate_body complete_file
five_bytes_accepted = refl

validate_body-crc_example :
    (((validate_body five_bytes).1.has_crc ≡ true) ↔ (
      (five_bytes.has_part_crc ≡ true)
      ⊎ ((five_bytes.has_file_crc ≡ true) × (complete_file five_bytes ≡ true))))
    × ((validate_body five_bytes).1.has_crc ≡ true
        → (validate_body five_bytes).1.crc ≡ (validate_body five_bytes).1.expected_crc)
validate_body-crc_example = validate_body-crc five_bytes refl five_bytes_accepted
