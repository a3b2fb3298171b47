-- ===== src/Reader.antt =====
-- reader.go: the response decoder `NNTPResponse` and the detection of its format, line by line.
-- Reader/Headers.antt has the yEnc headers, Reader/Decode.antt has `Feed` and Reader/Validate.antt
-- `validateBody`. A line is a byte string without its CRLF. `onMeta` is a flag, armed until the
-- callback has run, and `announced` holds what it was called with, latest first. The decoder state of
-- package rapidyenc is a Go integer.
pub mod Crc
pub mod Headers
pub mod Decode
pub mod Validate
pub mod Uu
mod Tests
use Prim.Native.String.{String}
use nntppool.Base.{
  ℕ, ◌+◌, ◌-◌, ◌*◌, ◌/◌, ◌%◌, Bool, true, false, not, ◌&&◌, ◌||◌, Option, none, some, List, [], ◌∷◌,
  ltb, leb, ◌==◌, if◌then◌else◌, length, take, drop, Bytes, ascii, bytes_eq, has_prefix,
  strip_prefix, after, contains, until,
}
use nntppool.Base.Int.{ℤ, pos, negsuc, ◌-ℤ◌, eq_ℤ, leb_ℤ, ltb_ℤ}
use nntppool.Base.Digits.{is_fine, parse_uint, parse_int, NumStatus}
use nntppool.Errors.{is_code}

pub data Format : Type 0 where
  unknown yenc uu : Format

pub record YencMeta : Type 0 where
  pub file_name : Bytes
  pub file_size : ℤ  -- int64, as all below
  pub part : ℤ
  pub part_begin : ℤ
  pub part_size : ℤ
  pub total : ℤ

pub record NntpResponse : Type 0 where
  pub bytes_decoded : ℕ
  pub bytes_consumed : ℕ
  pub lines : List Bytes
  pub format : Format
  pub yenc_meta : YencMeta
  pub end_size : ℤ
  pub expected_crc : ℕ
  pub message : Bytes
  pub state : ℕ
  pub status_code : ℤ
  pub crc : ℕ
  pub eof : Bool
  pub body : Bool
  pub has_part : Bool
  pub has_begin : Bool
  pub has_end : Bool
  pub has_crc : Bool
  pub has_part_crc : Bool
  pub has_file_crc : Bool
  pub has_empty_line : Bool
  pub part_crc : ℕ
  pub file_crc : ℕ
  pub on_meta : Bool
  pub announced : List YencMeta
  pub header_err : Option String
  pub strict_decode_errors : Bool

abbrev pub no_meta : YencMeta
no_meta = record {
  file_name = [];
  file_size = pos 0;
  part = pos 0;
  part_begin = pos 0;
  part_size = pos 0;
  total = pos 0;
}

-- `NNTPResponse{onMeta: ..., strictDecodeErrors: ...}`; rapidyenc's initial state is the zero value.
abbrev pub new_response : Bool → Bool → NntpResponse
new_response on_meta strict = record {
  bytes_decoded = 0;
  bytes_consumed = 0;
  lines = [];
  format = unknown;
  yenc_meta = no_meta;
  end_size = pos 0;
  expected_crc = 0;
  message = [];
  state = 0;
  status_code = pos 0;
  crc = 0;
  eof = false;
  body = false;
  has_part = false;
  has_begin = false;
  has_end = false;
  has_crc = false;
  has_part_crc = false;
  has_file_crc = false;
  has_empty_line = false;
  part_crc = 0;
  file_crc = 0;
  on_meta = on_meta;
  announced = [];
  header_err = none;
  strict_decode_errors = strict;
}

abbrev pub is_unknown : Format → Bool
is_unknown unknown = true
is_unknown _ = false

abbrev pub is_yenc : Format → Bool
is_yenc yenc = true
is_yenc _ = false

unfoldable pub is_multiline : ℤ → Bool
is_multiline c = is_code c 222 || is_code c 220 || is_code c 221 || is_code c 101

all_in_ascii_range : ℕ → ℕ → Bytes → Bool
all_in_ascii_range lo hi [] = true
all_in_ascii_range lo hi (c ∷ cs) =
    let rest = all_in_ascii_range lo hi cs in if ltb c lo || ltb hi c then false else rest

only_space_or_backtick : Bytes → Bool
only_space_or_backtick [] = true
only_space_or_backtick (c ∷ cs) =
    let rest = only_space_or_backtick cs in if not (c == b' ') && not (c == 96) then false else rest

-- `(int(c) - 32) & 63` is `(c + 32) % 64` for a byte, also where the difference is negative.
decode_uu_char_workaround : ℕ → ℕ
decode_uu_char_workaround c = ((c + 32) % 64 * 4 + 5) / 3

decode_uu_char : ℕ → ℕ
decode_uu_char c = if c == 96 then 0 else (c + 224) % 256 % 64

trim_left : ℕ → Bytes → Bytes
trim_left c [] = []
trim_left c (d ∷ s) = let rest = trim_left c s in if d == c then rest else d ∷ s

-- One candidate length of the loop over the two UU length characters.
fits_uu : Bytes → ℕ → Bool
unfolding all_in_ascii_range only_space_or_backtick
fits_uu line n =
    not (ltb (length line) n || leb n 0)
    && all_in_ascii_range 32 96 (take (n - 1) (drop 1 line))
    && only_space_or_backtick (drop n line)

abbrev first_byte : Bytes → ℕ
first_byte [] = 0
first_byte (c ∷ cs) = c

-- The part of `detectFormat` behind the removal of dot stuffing.
detect_short_uu : NntpResponse → Bytes → NntpResponse
unfolding fits_uu decode_uu_char_workaround decode_uu_char
detect_short_uu r line =
    if leb (length line) 1
    then r
    else if not (is_code r.status_code 222)
        && (not (is_code r.status_code 220) || not r.has_empty_line)
    then r
    else if fits_uu line (decode_uu_char_workaround (first_byte line))
        || fits_uu line (decode_uu_char (first_byte line))
    then record r { format = uu; body = true }
    else r

-- The branch of `detectFormat` for a line that begins with "begin ".
detect_begin : NntpResponse → Bytes → NntpResponse
unfolding trim_left all_in_ascii_range
detect_begin r line = elim (strip_prefix (trim_left b' ' (drop 6 line)) (ascii " ")) [
  | none ↦ r
  | some perms ↦ if all_in_ascii_range b'0' b'7' perms then record r { format = uu } else r
]

unfoldable pub detect_format : NntpResponse → Bytes → NntpResponse
unfolding detect_begin detect_short_uu
detect_format r line =
    if not (is_code r.status_code 222) && not (is_code r.status_code 220)
    then r
    else if length line == 0
    then record r { has_empty_line = true }
    else if has_prefix line (ascii "=ybegin ")
    then record r { format = yenc }
    else if (length line == 60 || length line == 61) && first_byte line == b'M'
    then record r { format = uu }
    else if has_prefix line (ascii "begin ")
    then detect_begin r line
    else detect_short_uu r (if has_prefix line (ascii "..") then drop 1 line else line)
