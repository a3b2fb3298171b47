-- ===== src/Base/Digits.antt =====
-- package strconv, as far as the code calls it: `ParseUint`, `ParseInt` and `Atoi`.
use Prim.Native.Nat.{ℕ, ◌+◌, ◌-◌, ◌*◌, ◌^◌}
use mathlib.Core.Bool.{Bool, true, false, ◌&&◌}
use mathlib.Core.List.{[], ◌∷◌}
use nntppool.Base.Tests.{◌==◌, ltb, leb, if◌then◌else◌}
use nntppool.Base.Text.{Bytes}
use nntppool.Base.Int.{ℤ, pos, negsuc}

pub data NumStatus : Type 0 where
  fine syntax range : NumStatus

abbrev pub is_fine : NumStatus → Bool
is_fine fine = true
is_fine _ = false

-- The value of a digit, or 255.
abbrev pub digit : ℕ → ℕ
digit c =
    if leb b'0' c && leb c b'9'
    then c - 48
    else if leb b'a' c && leb c b'z'
    then c - 97 + 10
    else if leb b'A' c && leb c b'Z'
    then c - 65 + 10
    else 255

-- The loop of `ParseUint` in base `base` for `bits` bits: it stops at the first bad digit or the
-- first overflow, whichever comes first.
unfoldable pub digits_from : (base bits acc : ℕ) → Bytes → ℕ × NumStatus
digits_from base bits acc [] = (acc, fine)
digits_from base bits acc (c ∷ cs) =
    let rest = digits_from base bits (acc * base + digit c) cs in
    if leb base (digit c)
    then (0, syntax)
    else if leb (2 ^ bits) (acc * base + digit c)
    then (2 ^ bits - 1, range)
    else rest

unfoldable pub parse_uint : (base bits : ℕ) → Bytes → ℕ × NumStatus
unfolding digits_from
parse_uint base bits [] = (0, syntax)
parse_uint base bits (c ∷ cs) = digits_from base bits 0 (c ∷ cs)

-- -n, as an integer.
abbrev pub minus : ℕ → ℤ
minus n = if n == 0 then pos 0 else negsuc (n - 1)

signed : Bool → ℕ × NumStatus → ℤ × NumStatus
signed negative (n, syntax) = (pos 0, syntax)
signed false (n, s) = if leb (2 ^ 63) n then (pos (2 ^ 63 - 1), range) else (pos n, s)
signed true (n, s) = if ltb (2 ^ 63) n then (minus (2 ^ 63), range) else (minus n, s)

-- `strconv.ParseInt(s, 10, 64)`. Its value is the nearest int64 when the number is out of range.
unfoldable pub parse_int : Bytes → ℤ × NumStatus
unfolding parse_uint signed
parse_int [] = (pos 0, syntax)
parse_int (c ∷ cs) =
    if c == b'-'
    then signed true (parse_uint 10 64 cs)
    else if c == b'+'
    then signed false (parse_uint 10 64 cs)
    else signed false (parse_uint 10 64 (c ∷ cs))
