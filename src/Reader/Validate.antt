-- ===== src/Reader/Validate.antt =====
-- reader.go: `validateBody`, which accepts a yEnc body only if its framing and checksums agree.
pub mod Coherent
use Prim.Native.String.{String}
use nntppool.Base.{
  ℕ, ◌+◌, ◌^◌, ◌<◌, ◌≡◌, ◌≢◌, ◌↔◌, ◌⊎◌, inl, inr, refl, Bool, true, false, not, ◌&&◌, ◌||◌, Option,
  none, some, arith, List, [], ◌∷◌, ltb, leb, ◌==◌, if◌then◌else◌, length, Bytes,
}
use nntppool.Base.Int.{ℤ, pos, negsuc, ◌+ℤ◌, eq_ℤ, leb_ℤ, ltb_ℤ, wrap64, ◌≤ℤ◌}
use nntppool.Errors.{Err, sentinel, both, text, wrap, body_corrupt, crc_mismatch, is_code, is_some}
use nntppool.Reader.{Format, unknown, yenc, uu, YencMeta, NntpResponse, is_yenc}

abbrev corrupt : String → Option Err
corrupt message = some (wrap message (sentinel body_corrupt))

abbrev crc_error : Option Err
crc_error = some (both (sentinel body_corrupt) (sentinel crc_mismatch))

-- `PartBegin + PartSize`, in int64.
unfoldable pub part_end : YencMeta → ℤ
part_end m = wrap64 (m.part_begin +ℤ m.part_size)

unfoldable pub complete_file : NntpResponse → Bool
complete_file r =
    not r.has_part
    || (eq_ℤ r.yenc_meta.part_begin (pos 0) && eq_ℤ r.yenc_meta.part_size r.yenc_meta.file_size)

pub check_multipart : NntpResponse → Option Err
check_multipart r =
    let m : YencMeta = r.yenc_meta in
    if not r.has_part
    then corrupt "multipart body missing =ypart"
    else if leb_ℤ m.total (pos 0) || ltb_ℤ m.total m.part
    then corrupt "part exceeds total"
    else if not (eq_ℤ m.part_size (pos r.bytes_decoded))
        || ltb_ℤ m.file_size (part_end m)
        || (eq_ℤ m.part m.total && not (eq_ℤ (part_end m) m.file_size))
        || (ltb_ℤ m.part m.total && leb_ℤ m.file_size (part_end m))
    then corrupt "incoherent multipart size"
    else none

pub check_size : NntpResponse → Option Err
unfolding check_multipart
check_size r =
    if ltb_ℤ (pos 0) r.yenc_meta.part
    then check_multipart r
    else if not (eq_ℤ r.yenc_meta.file_size (pos r.bytes_decoded))
    then corrupt "decoded size does not match file size"
    else none

pub check_trailer : NntpResponse → Option Err
check_trailer r =
    if not (eq_ℤ r.end_size (pos r.bytes_decoded))
    then corrupt "trailer size does not match decoded size"
    else if r.has_part_crc && not (r.crc == r.part_crc)
    then crc_error
    else if r.has_file_crc && complete_file r && not (r.crc == r.file_crc)
    then crc_error
    else none

pub check_framing : NntpResponse → Option Err
check_framing r =
    let m : YencMeta = r.yenc_meta in
    if not (is_yenc r.format) || not r.has_begin
    then corrupt "missing valid =ybegin"
    else if is_some r.header_err
    then corrupt "invalid header"
    else if not r.has_end
    then corrupt "missing =yend"
    else if ltb_ℤ m.file_size (pos 0) || ltb_ℤ m.part_size (pos 0) || ltb_ℤ m.part_begin (pos 0)
    then corrupt "negative yEnc metadata"
    else if length m.file_name == 0
    then corrupt "missing yEnc name"
    else if r.has_part && leb_ℤ m.part (pos 0)
    then corrupt "=ypart without valid part number"
    else none

-- The checks run in this order, each only if those before it pass.
abbrev pub first_error : Option Err → Option Err → Option Err
first_error (some e) o = some e
first_error none o = o

pub applicable_crc : NntpResponse → NntpResponse
applicable_crc r =
    if r.has_part_crc
    then record r { has_crc = true; expected_crc = r.part_crc }
    else if r.has_file_crc && complete_file r
    then record r { has_crc = true; expected_crc = r.file_crc }
    else record r { has_crc = false; expected_crc = 0 }

pub accept : NntpResponse → Option Err → Option Err × NntpResponse
unfolding applicable_crc
accept r (some e) = (some e, r)
accept r none = (none, applicable_crc r)

unfoldable pub validate_body : NntpResponse → Option Err × NntpResponse
unfolding check_framing check_size check_trailer accept
validate_body r =
    if not (is_code r.status_code 222)
    then (none, r)
    else accept r (first_error (check_framing r) (first_error (check_size r) (check_trailer r)))
