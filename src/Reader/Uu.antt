-- ===== src/Reader/Uu.antt =====
-- reader.go: UU articles.
use nntppool.Base.{◌≡◌, refl, ◌⊎◌, true, false, Option, none, [], ◌∷◌, arith}
use nntppool.Base.{Bytes, ascii, has_prefix, strip_prefix, drop}
use nntppool.Errors.{Err}
use nntppool.Base.Int.{pos}
use nntppool.Reader.{uu, NntpResponse, detect_format, detect_begin, trim_left}
use nntppool.Reader.Decode.{Rapidyenc, fed, feed, decode}

-- `bytes.CutPrefix` with a space never succeeds on what `bytes.TrimLeft` of spaces leaves.
trim_left-space : (s : Bytes) → strip_prefix (trim_left b' ' s) (ascii " ") ≡ none
unfolding trim_left
trim_left-space [] = refl
trim_left-space (c ∷ s) = ground (arith, trim_left-space s)

-- A line with the "begin " header of a UU file, of any permissions and name, leaves the response
-- as it was, unless it is a full line that begins with 'M': the format is never set by the header.
pub detect_format-begin :
    (r : NntpResponse) (line : Bytes)
    → (r.status_code ≡ pos 222) ⊎ (r.status_code ≡ pos 220)
    → has_prefix line (ascii "begin ") ≡ true
    → detect_format r line ≡ r
unfolding detect_format detect_begin
detect_format-begin r [] c h = cc
detect_format-begin r (a ∷ s) c h = ground (arith, trim_left-space (drop 6 (a ∷ s)))

-- Once a line has been taken for UU data, `Feed` consumes nothing of any later buffer and is never
-- done, so the terminator is not seen if it was not in the same buffer.
pub feed-uu :
    (y : Rapidyenc) {W : Type 0} (write : W → Bytes → W × Option Err) (r : NntpResponse)
    (buf : Bytes) (w : W)
    → r.format ≡ uu
    → r.body ≡ true
    → r.eof ≡ false
    → feed y write r buf w ≡ fed 0 false none r w
unfolding feed decode
feed-uu y write r buf w f b e = ground arith
