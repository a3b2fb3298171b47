-- ===== src/Reader/Headers.antt =====
-- reader.go: the yEnc header lines, `processYencHeader`, and the fields they are read with.
use Prim.Native.String.{String}
use nntppool.Base.{
  ℕ, Bool, true, false, not, ◌&&◌, ◌||◌, Option, none, some, [], ◌∷◌, ◌==◌, if◌then◌else◌, length,
  drop, Bytes, ascii, has_prefix, after, contains, until,
}
use nntppool.Base.Int.{ℤ, pos, ◌-ℤ◌, leb_ℤ, ltb_ℤ}
use nntppool.Base.Digits.{is_fine, parse_uint, parse_int}
use nntppool.Reader.{NntpResponse}

-- `extractString`, `extractInt` and `extractCRC`: `none` or a false flag is an error.
unfoldable pub extract_string : Bytes → Bytes → Option Bytes
extract_string line sub = elim (after line sub) [
  | none ↦ none
  | some rest ↦ some (until (0 ∷ 13 ∷ 10 ∷ []) rest)
]

abbrev blanks : Bytes
blanks = 0 ∷ 32 ∷ 13 ∷ 10 ∷ []

unfoldable pub extract_int : Bytes → Bytes → ℤ × Bool
extract_int line sub = elim (after line sub) [
  | none ↦ (pos 0, false)
  | some rest ↦ ((parse_int (until blanks rest)).0, is_fine (parse_int (until blanks rest)).1)
]

unfoldable pub extract_crc : Bytes → Bytes → ℕ × Bool
extract_crc line sub = elim (after line sub) [
  | none ↦ (0, false)
  | some rest ↦
      let value : Bytes = until blanks rest in
      if length value == 8
      then ((parse_uint 16 32 value).0, is_fine (parse_uint 16 32 value).1)
      else (0, false)
]

abbrev set_err : Bool → String → NntpResponse → NntpResponse
set_err ok message r = if ok then r else record r { header_err = some message }

-- `if r.onMeta != nil { r.onMeta(r.YEnc); r.onMeta = nil }`
abbrev announce : NntpResponse → NntpResponse
announce r =
    if r.on_meta then record r { announced = r.yenc_meta ∷ r.announced; on_meta = false } else r

-- The `=ybegin` line, behind the keyword, is read in four steps.
read_size : Bytes → NntpResponse → NntpResponse
read_size line r =
    let (v, ok) = extract_int line (ascii " size=") in
    set_err ok "invalid =ybegin size"
      (record r { yenc_meta = record r.yenc_meta { file_size = v } })

read_name : Bytes → NntpResponse → NntpResponse
read_name line r = elim (extract_string line (ascii " name=")) [
  | none ↦ record r {
    yenc_meta = record r.yenc_meta { file_name = [] };
    header_err = some "invalid =ybegin name";
  }
  | some name ↦ record r { yenc_meta = record r.yenc_meta { file_name = name } }
]

single_part : NntpResponse → NntpResponse
single_part r =
    announce (record r {
      body = true;
      yenc_meta = record r.yenc_meta { part_size = r.yenc_meta.file_size };
    })

read_part : Bytes → NntpResponse → NntpResponse
unfolding single_part
read_part line r =
    let (v, ok) = extract_int line (ascii " part=") in
    let r' : NntpResponse = record r { yenc_meta = record r.yenc_meta { part = v } } in
    if ok
    then r'
    else single_part (set_err (not (contains line (ascii " part="))) "invalid =ybegin part" r')

read_total : Bytes → NntpResponse → NntpResponse
read_total line r =
    let (v, ok) = extract_int line (ascii " total=") in
    set_err (ok || not (contains line (ascii " total="))) "invalid =ybegin total"
      (record r { yenc_meta = record r.yenc_meta { total = v } })

process_ybegin : NntpResponse → Bytes → NntpResponse
unfolding read_size read_name read_part read_total
process_ybegin r line =
    read_total line
      (read_part line (read_name line (read_size line (record r { has_begin = true }))))

process_ypart : NntpResponse → Bytes → NntpResponse
process_ypart r line =
    let (begin, begin_ok) = extract_int line (ascii " begin=") in
    let (end, end_ok) = extract_int line (ascii " end=") in
    let r1 : NntpResponse = record r { has_part = true; body = true } in
    let r2 : NntpResponse =
      if not begin_ok || leb_ℤ begin (pos 0)
      then record r1 { header_err = some "invalid =ypart begin" }
      else record r1 { yenc_meta = record r1.yenc_meta { part_begin = begin -ℤ pos 1 } } in
    let r3 : NntpResponse =
      if end_ok && leb_ℤ begin end && ltb_ℤ (pos 0) begin
      then record r2 {
        yenc_meta = record r2.yenc_meta { part_size = end -ℤ r2.yenc_meta.part_begin };
      }
      else record r2 { header_err = some "invalid =ypart end" } in
    announce r3

read_part_crc : Bytes → NntpResponse → NntpResponse
read_part_crc line r =
    let (v, ok) = extract_crc line (ascii " pcrc32=") in
    if not (contains line (ascii " pcrc32="))
    then r
    else if ok
    then record r { part_crc = v; has_part_crc = true }
    else record r { header_err = some "invalid =yend pcrc32" }

read_file_crc : Bytes → NntpResponse → NntpResponse
read_file_crc line r =
    let (v, ok) = extract_crc line (ascii " crc32=") in
    if not (contains line (ascii " crc32="))
    then r
    else if ok
    then record r { file_crc = v; has_file_crc = true }
    else record r { header_err = some "invalid =yend crc32" }

choose_crc : NntpResponse → NntpResponse
choose_crc r =
    if r.has_part_crc
    then record r { expected_crc = r.part_crc; has_crc = true }
    else if r.has_file_crc
    then record r { expected_crc = r.file_crc; has_crc = true }
    else r

read_end_size : Bytes → NntpResponse → NntpResponse
read_end_size line r =
    let (v, ok) = extract_int line (ascii " size=") in
    set_err ok "invalid =yend size" (record r { end_size = v })

process_yend : NntpResponse → Bytes → NntpResponse
unfolding read_part_crc read_file_crc choose_crc read_end_size
process_yend r line =
    read_end_size line
      (choose_crc (read_file_crc line (read_part_crc line (record r { has_end = true }))))

-- The keywords are cut off without their trailing space.
unfoldable pub process_yenc_header : NntpResponse → Bytes → NntpResponse
unfolding process_ybegin process_ypart process_yend
process_yenc_header r line =
    if has_prefix line (ascii "=ybegin ")
    then process_ybegin r (drop 7 line)
    else if has_prefix line (ascii "=ypart ")
    then process_ypart r (drop 6 line)
    else if has_prefix line (ascii "=yend ")
    then process_yend r (drop 5 line)
    else r
