-- ===== src/Reader/Decode.antt =====
-- reader.go: `Feed`, `decode` and `decodeYenc`. The decoder of package rapidyenc is the parameter
-- `y`, the caller's writer is `write` on a state of its own; for a nil writer `write` discards. A
-- slice bound that is negative or past the end is a panic. The loop over lines takes fuel, one unit
-- for each line.
pub mod Lines
use nntppool.Base.{
  ℕ, zero, suc, ◌+◌, Bool, true, false, not, ◌&&◌, Option, none, some, List, [], ◌∷◌, ◌++◌, ltb,
  leb, ◌==◌, if◌then◌else◌, length, take, drop, Bytes, ascii, bytes_eq, cut_line,
}
use nntppool.Base.Int.{ℤ, pos, negsuc, sub_ℕ}
use nntppool.Base.Digits.{is_fine, parse_int}
use nntppool.Errors.{Err, sentinel, both, body_corrupt, protocol_desync, is_code, is_some}
use nntppool.Reader.{
  Format, unknown, yenc, uu, NntpResponse, is_unknown, is_yenc, is_multiline, detect_format,
}
use nntppool.Reader.Headers.{process_yenc_header}
use nntppool.Reader.Crc.{crc32_update}

-- Where rapidyenc stopped.
pub data End : Type 0 where
  end_none end_control end_article : End

pub record Decoded : Type 0 where
  pub output : Bytes
  pub consumed : ℕ
  pub end : End
  pub state : ℕ
  pub err : Option Err

-- `rapidyenc.DecodeIncremental`, and the two of its states that the code names.
pub record Rapidyenc : Type 0 where
  pub decode : Bytes → ℕ → Decoded
  pub state_crlf : ℕ
  pub state_crlf_eq : ℕ

-- What `decodeYenc` returns, with the response and the writer it leaves.
pub record YencStep (W : Type 0) : Type 0 where
  pub n : ℤ
  pub err : Option Err
  pub resp : NntpResponse
  pub out : W

pub data Outcome (W : Type 0) : Type 0 where
  returns : ℕ → Option Err → NntpResponse → W → Outcome W
  panics : Outcome W
  starved : Outcome W

pub data Fed (W : Type 0) : Type 0 where
  fed : ℕ → Bool → Option Err → NntpResponse → W → Fed W
  crashed : Fed W
  stuck : Fed W

abbrev pub slice_from : Bytes → ℤ → Option Bytes
slice_from buf (pos n) = if leb n (length buf) then some (drop n buf) else none
slice_from buf (negsuc n) = none

abbrev pub offset : ℤ → ℕ
offset (pos n) = n
offset (negsuc n) = 0

module _ (y : Rapidyenc) {W : Type 0} (write : W → Bytes → W × Option Err) where
  -- The `switch end` of `decodeYenc`.
  settle_end : End → ℕ → NntpResponse → ℤ × NntpResponse
  settle_end end_none n r =
      if r.state == y.state_crlf_eq
      then (sub_ℕ n 1, record r { state = y.state_crlf })
      else (pos n, r)
  settle_end end_control n r = (sub_ℕ n 2, record r { body = false })
  settle_end end_article n r = (sub_ℕ n 3, record r { body = false })

  settled : Decoded → NntpResponse → W → YencStep W
  unfolding settle_end
  settled d r w = record {
    n = (settle_end d.end d.consumed r).0;
    err = none;
    resp = (settle_end d.end d.consumed r).1;
    out = w;
  }

  written : Decoded → NntpResponse → W × Option Err → YencStep W
  unfolding settled
  written d r (w, none) = settled d r w
  written d r (w, some e) = record { n = pos 0; err = some e; resp = r; out = w }

  produced : Decoded → NntpResponse → W → YencStep W
  unfolding written
  produced d r w =
      if length d.output == 0
      then settled d r w
      else written d
          (record r {
            crc = crc32_update r.crc d.output;
            bytes_decoded = r.bytes_decoded + length d.output;
          })
          (write w d.output)

  strict_error : Option Err → Bool → Option Err
  strict_error none strict = none
  strict_error (some e) strict = if strict then some (both (sentinel body_corrupt) e) else none

  unfoldable pub decode_yenc : NntpResponse → Bytes → W → YencStep W
  unfolding produced strict_error
  decode_yenc r buf w =
      let d : Decoded = y.decode buf r.state in
      let r' : NntpResponse = record r { state = d.state } in
      if length buf == 0
      then record { n = pos 0; err = none; resp = r; out = w }
      else elim (strict_error d.err r.strict_decode_errors) [
        | some e ↦ record { n = pos 0; err = some e; resp = r'; out = w }
        | none ↦ produced d r' w
      ]

  -- The rest of the loop, behind one line.
  abbrev Next : Type 0
  Next = NntpResponse → Bytes → W → ℕ → Outcome W

  after_yenc : Next → Bytes → ℕ → YencStep W → Outcome W
  after_yenc next buf read s = elim (slice_from buf s.n) [
    | none ↦ panics
    | some rest ↦
        (if is_some s.err
          then returns (read + offset s.n) s.err s.resp s.out
          else if s.resp.body
          then returns (read + offset s.n) none s.resp s.out
          else next s.resp rest s.out (read + offset s.n))
  ]

  header_line : Next → NntpResponse → Bytes → W → ℕ → Outcome W
  unfolding after_yenc
  header_line next r buf w read =
      if r.body then after_yenc next buf read (decode_yenc r buf w) else next r buf w read

  -- The `switch r.Format`.
  by_format : Next → Format → NntpResponse → Bytes → Bytes → W → ℕ → Outcome W
  unfolding header_line
  by_format next unknown r line buf w read =
      next (record r { lines = r.lines ++ line ∷ [] }) buf w read
  by_format next yenc r line buf w read = header_line next (process_yenc_header r line) buf w read
  by_format next uu r line buf w read = next r buf w read

  status_line : Next → NntpResponse → Bytes → Bytes → W → ℕ → Outcome W
  status_line next r line buf w read =
      let code : ℤ = (parse_int (take 3 line)).0 in
      let r' : NntpResponse = record r { message = line; status_code = code } in
      if not (is_fine (parse_int (take 3 line)).1)
      then returns read (some (sentinel protocol_desync)) r' w
      else if not (is_multiline code)
      then returns read none (record r' { eof = true }) w
      else next r' buf w read

  on_line : Next → NntpResponse → Bytes → Bytes → W → ℕ → Outcome W
  unfolding by_format status_line
  on_line next r line buf w read =
      let r' : NntpResponse = detect_format r line in
      if bytes_eq line (ascii ".")
      then returns read none (record r { eof = true }) w
      else if is_unknown r.format
      then (if is_code r.status_code 0 && leb 3 (length line)
          then status_line next r line buf w read
          else by_format next r'.format r' line buf w read)
      else by_format next r.format r line buf w read

  unfoldable pub decode_lines : ℕ → NntpResponse → Bytes → W → ℕ → Outcome W
  unfolding on_line
  decode_lines zero r buf w read = starved
  decode_lines (suc fuel) r buf w read =
      let next : Next = decode_lines fuel in
      elim (cut_line buf) [
        | none ↦ returns read none r w
        | some (line, rest) ↦ on_line next r line rest w (read + length line + 2)
      ]

  -- `decode`, on fuel: the part in the middle of a yEnc body, then the lines.
  continue_body : ℕ → Bytes → YencStep W → Outcome W
  continue_body fuel buf s = elim (slice_from buf s.n) [
    | none ↦ panics
    | some rest ↦
        (if s.resp.body
          then returns (offset s.n) none s.resp s.out
          else decode_lines fuel s.resp rest s.out (offset s.n))
  ]

  in_body : ℕ → Bytes → YencStep W → Outcome W
  unfolding continue_body
  in_body fuel buf s =
      if is_some s.err then returns (offset s.n) s.err s.resp s.out else continue_body fuel buf s

  unfoldable pub decode : ℕ → NntpResponse → Bytes → W → Outcome W
  unfolding in_body
  decode fuel r buf w =
      if r.body && is_yenc r.format
      then in_body fuel buf (decode_yenc r buf w)
      else if r.body
      then returns 0 none r w
      else decode_lines fuel r buf w 0

  fed_of : Outcome W → Fed W
  fed_of (returns n (some e) r w) =
      fed n false (some e) (record r { bytes_consumed = r.bytes_consumed + n }) w
  fed_of (returns n none r w) =
      fed n r.eof none (record r { bytes_consumed = r.bytes_consumed + n }) w
  fed_of panics = crashed
  fed_of starved = stuck

  -- `Feed`. Each line takes two bytes at least, so the fuel is enough.
  unfoldable pub feed : NntpResponse → Bytes → W → Fed W
  unfolding fed_of
  feed r buf w = fed_of (decode (suc (length buf)) r buf w)
