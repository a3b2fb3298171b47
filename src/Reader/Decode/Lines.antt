-- ===== src/Reader/Decode/Lines.antt =====
-- reader.go: line responses. What a server writes is what `Feed` reads, and no byte more.
use nntppool.Base.{
  ℕ, zero, suc, ◌+◌, ◌≤◌, ◌<◌, ◌≡◌, refl, ap, ◌∙◌, ◌⊎◌, Bool, true, false, not, Option, none, some,
  List, [], ◌∷◌, ◌++◌, arith, length, length-append, if◌then◌else◌,
}
use nntppool.Base.{Bytes, ascii, bytes_eq, cut_line, cut_line-append, NoCr, take}
use mathlib.Core.List.{append-nil, append_assoc}
use native.Mathlib.Nat.{add_assoc}
use nntppool.Base.Int.{ℤ, pos}
use nntppool.Base.Digits.{parse_int, fine}
use nntppool.Errors.{Err}
use nntppool.Reader.{unknown, NntpResponse, new_response, is_multiline, detect_format}
use nntppool.Reader.Decode.{
  Rapidyenc, Outcome, returns, fed, decode_lines, on_line, by_format, status_line, decode, feed,
  fed_of,
}

-- A multi-line block as a server sends it, in front of what follows on the wire.
pub wire : List Bytes → Bytes → Bytes
wire [] rest = b'.' ∷ 13 ∷ 10 ∷ rest
wire (l ∷ ls) rest = l ++ 13 ∷ 10 ∷ wire ls rest

pub wire_length : List Bytes → ℕ
wire_length [] = 3
wire_length (l ∷ ls) = length l + 2 + wire_length ls

-- Lines that the block can carry: without CR, and not the terminator.
abbrev pub Plain : List Bytes → Type 0
Plain [] = Unit {0}
Plain (l ∷ ls) = NoCr l × (bytes_eq l (ascii ".") ≡ false) × Plain ls

length-wire :
    (ls : List Bytes) (rest : Bytes) → length (wire ls rest) ≡ wire_length ls + length rest
unfolding wire wire_length
length-wire [] rest = omega arith
length-wire (l ∷ ls) rest =
    omega (arith, length-append l (13 ∷ 10 ∷ wire ls rest), length-wire ls rest)

-- The codes of HEAD and CAPABILITIES, whose lines are kept as they are.
abbrev pub IsText : ℤ → Type 0
IsText c = (c ≡ pos 221) ⊎ (c ≡ pos 101)

detect_format_text :
    (r : NntpResponse) (line : Bytes) → IsText r.status_code → detect_format r line ≡ r
unfolding detect_format
detect_format_text r line h = ground arith

text_multiline : (c : ℤ) → IsText c → is_multiline c ≡ true
unfolding is_multiline
text_multiline c h = ground arith

module _ (y : Rapidyenc) {W : Type 0} (write : W → Bytes → W × Option Err) where
  text_line :
      (next : NntpResponse → Bytes → W → ℕ → Outcome W) (r : NntpResponse) (line buf : Bytes)
      (w : W) (read : ℕ)
      → IsText r.status_code
      → r.format ≡ unknown
      → bytes_eq line (ascii ".") ≡ false
      → on_line y write next r line buf w read
        ≡ next (record r { lines = r.lines ++ line ∷ [] }) buf w read
  unfolding on_line by_format
  text_line next r line buf w read c f d = ground (arith, detect_format_text r line c)

  decode_lines_cut :
      (fuel : ℕ) (r : NntpResponse) (buf line rest : Bytes) (w : W) (read : ℕ)
      → cut_line buf ≡ some (line, rest)
      → decode_lines y write (suc fuel) r buf w read
        ≡ on_line y write (decode_lines y write fuel) r line rest w (read + length line + 2)
  unfolding decode_lines
  decode_lines_cut fuel r buf line rest w read e = rw (e, decode_lines)

  dot_line :
      (next : NntpResponse → Bytes → W → ℕ → Outcome W) (r : NntpResponse) (buf : Bytes) (w : W)
      (read : ℕ)
      → on_line y write next r (ascii ".") buf w read
        ≡ returns read none (record r { eof = true }) w
  unfolding on_line
  dot_line next r buf w read = refl

  decode_lines-wire :
      (fuel : ℕ) (r : NntpResponse) (ls : List Bytes) (rest : Bytes) (w : W) (read : ℕ)
      → IsText r.status_code
      → r.format ≡ unknown
      → Plain ls
      → length (wire ls rest) < fuel
      → decode_lines y write fuel r (wire ls rest) w read
        ≡ returns (read + wire_length ls) none (record r { lines = r.lines ++ ls; eof = true }) w
  unfolding wire wire_length
  decode_lines-wire zero r ls rest w read c f p h = absurd (omega arith)
  decode_lines-wire (suc fuel) r [] rest w read c f p h =
      decode_lines_cut fuel r (wire [] rest) (ascii ".") rest w read
        (cut_line-append (ascii ".") rest (ground arith, tt))
      ∙ dot_line (decode_lines y write fuel) r rest w (read + 1 + 2)
      ∙ cc (append-nil r.lines, add_assoc read 1 2)
  decode_lines-wire (suc fuel) r (l ∷ ls) rest w read c f p h =
      decode_lines_cut fuel r (wire (l ∷ ls) rest) l (wire ls rest) w read
        (cut_line-append l (wire ls rest) p.0)
      ∙ text_line (decode_lines y write fuel) r l (wire ls rest) w (read + length l + 2) c f p.1
      ∙ decode_lines-wire fuel (record r { lines = r.lines ++ l ∷ [] }) ls rest w
          (read + length l + 2) c f p.2 (omega (arith, length-append l (13 ∷ 10 ∷ wire ls rest)))
      ∙ ground (arith, append_assoc r.lines (l ∷ []) ls)

  status_text :
      (next : NntpResponse → Bytes → W → ℕ → Outcome W) (r : NntpResponse) (line buf : Bytes)
      (w : W) (read : ℕ) (c : ℤ)
      → r.format ≡ unknown
      → r.status_code ≡ pos 0
      → bytes_eq line (ascii ".") ≡ false
      → 3 ≤ length line
      → parse_int (take 3 line) ≡ (c, fine)
      → on_line y write next r line buf w read ≡ (
          if not (is_multiline c)
          then returns read none (record r { message = line; status_code = c; eof = true }) w
          else next (record r { message = line; status_code = c }) buf w read)
  unfolding on_line status_line
  status_text next r line buf w read c f z d l q = ground arith

  -- A fresh decoder on the status line.
  first_line :
      (on_meta strict : Bool) (line rest : Bytes) (w : W) (c : ℤ)
      → NoCr line
      → 3 ≤ length line
      → parse_int (take 3 line) ≡ (c, fine)
      → let r = new_response on_meta strict in
        let buf = line ++ 13 ∷ 10 ∷ rest in
        decode y write (suc (length buf)) r buf w ≡ (
          if not (is_multiline c)
          then returns
              (length line + 2)
              none
              (record r { message = line; status_code = c; eof = true })
              w
          else decode_lines y write
              (length buf)
              (record r { message = line; status_code = c })
              rest
              w
              (length line + 2))
  unfolding decode
  first_line on_meta strict line rest w c n l q =
      decode_lines_cut _ (new_response on_meta strict) (line ++ 13 ∷ 10 ∷ rest) line rest w 0
        (cut_line-append line rest n)
      ∙ status_text _ (new_response on_meta strict) line rest w (0 + length line + 2) c refl refl
          (not_dot line l) l q
      ∙ ap
          (λ k.
            if not (is_multiline c)
            then returns k none
                (record (new_response on_meta strict) {
                  message = line;
                  status_code = c;
                  eof = true;
                })
                w
            else decode_lines y write (length (line ++ 13 ∷ 10 ∷ rest))
                (record (new_response on_meta strict) { message = line; status_code = c }) rest w k)
          (omega arith)
    where
      not_dot : (s : Bytes) → 3 ≤ length s → bytes_eq s (ascii ".") ≡ false
      not_dot [] h = refl
      not_dot (a ∷ []) h = absurd (omega (arith, h))
      not_dot (a ∷ b ∷ s) h = ground arith

  -- `Feed` on a fresh decoder reads a response of one line, whatever follows it on the wire: it
  -- consumes the line with its CRLF, is done, and keeps the text and the code.
  pub feed-status_line :
      (on_meta strict : Bool) (line rest : Bytes) (w : W) (c : ℤ)
      → NoCr line
      → 3 ≤ length line
      → parse_int (take 3 line) ≡ (c, fine)
      → is_multiline c ≡ false
      → feed y write (new_response on_meta strict) (line ++ 13 ∷ 10 ∷ rest) w
        ≡ fed
            (length line + 2)
            true
            none
            (record (new_response on_meta strict) {
              message = line;
              status_code = c;
              eof = true;
              bytes_consumed = length line + 2;
            })
            w
  unfolding feed decode
  feed-status_line on_meta strict line rest w c n l q m =
      ap (fed_of y write) (first_line on_meta strict line rest w c n l q) ∙ ground (arith, m)

  decode-wire :
      (on_meta strict : Bool) (line : Bytes) (ls : List Bytes) (rest : Bytes) (w : W) (c : ℤ)
      → NoCr line
      → 3 ≤ length line
      → parse_int (take 3 line) ≡ (c, fine)
      → IsText c
      → Plain ls
      → let r = new_response on_meta strict in
        let buf = line ++ 13 ∷ 10 ∷ wire ls rest in
        decode y write (suc (length buf)) r buf w
        ≡ returns
            (length line + 2 + wire_length ls)
            none
            (record r { message = line; status_code = c; lines = ls; eof = true })
            w
  decode-wire on_meta strict line ls rest w c n l q t p =
      first_line on_meta strict line (wire ls rest) w c n l q
      ∙ ground (
        arith,
        text_multiline c t,
        decode_lines-wire (length (line ++ 13 ∷ 10 ∷ wire ls rest))
            (record (new_response on_meta strict) { message = line; status_code = c }) ls rest w
            (length line + 2) t refl p (omega (arith, length-append line (13 ∷ 10 ∷ wire ls rest))),
      )

  -- `Feed` on a fresh decoder reads a multi-line text response (HEAD or CAPABILITIES) whose lines have no CR and are not the terminator, whatever
  -- follows it on the wire: it consumes the response to its last byte, is done, and keeps exactly
  -- the lines that were sent.
  pub feed-wire :
      (on_meta strict : Bool) (line : Bytes) (ls : List Bytes) (rest : Bytes) (w : W) (c : ℤ)
      → NoCr line
      → 3 ≤ length line
      → parse_int (take 3 line) ≡ (c, fine)
      → IsText c
      → Plain ls
      → feed y write (new_response on_meta strict) (line ++ 13 ∷ 10 ∷ wire ls rest) w
        ≡ fed
            (length line + 2 + wire_length ls)
            true
            none
            (record (new_response on_meta strict) {
              message = line;
              status_code = c;
              lines = ls;
              eof = true;
              bytes_consumed = length line + 2 + wire_length ls;
            })
            w
  unfolding feed
  feed-wire on_meta strict line ls rest w c n l q t p =
      ap (fed_of y write) (decode-wire on_meta strict line ls rest w c n l q t p) ∙ ground arith
