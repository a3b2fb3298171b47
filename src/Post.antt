-- ===== src/Post.antt =====
-- post.go: the checks of the headers of an article, and their folding into lines. A string is its
-- bytes; `isValidNewsgroupName` and `isValidHeaderName` range over runes, of which none above ASCII
-- passes, as none of their bytes does.
pub mod Folding
pub mod Safety
mod Tests
use nntppool.Base.{
  ℕ, zero, suc, ◌+◌, ◌-◌, Bool, true, false, not, ◌&&◌, ◌||◌, Option, none, some, List, [], ◌∷◌,
  ◌++◌, ltb, leb, ◌==◌, if◌then◌else◌, length, take, drop, Bytes, elem,
}

abbrev pub max_header_line_len : ℕ
max_header_line_len = 900

abbrev pub is_letter_or_digit : ℕ → Bool
is_letter_or_digit c =
    leb b'a' c && leb c b'z' || leb b'A' c && leb c b'Z' || leb b'0' c && leb c b'9'

abbrev is_group_mark : ℕ → Bool
is_group_mark c = c == b'.' || c == b'+' || c == b'_' || c == b'-'

group_rest : Bytes → Bool
group_rest [] = true
group_rest (c ∷ s) = let rest = group_rest s in (is_letter_or_digit c || is_group_mark c) && rest

unfoldable pub is_valid_newsgroup_name : Bytes → Bool
unfolding group_rest
is_valid_newsgroup_name [] = false
is_valid_newsgroup_name (c ∷ s) = is_letter_or_digit c && group_rest s

unfoldable pub contains_crlf : Bytes → Bool
contains_crlf s = elem 13 s || elem 10 s

name_rest : Bytes → Bool
name_rest [] = true
name_rest (c ∷ s) =
    let rest = name_rest s in if ltb c 33 || ltb 126 c || c == b':' then false else rest

unfoldable pub is_valid_header_name : Bytes → Bool
unfolding name_rest
is_valid_header_name [] = false
is_valid_header_name (c ∷ s) = name_rest (c ∷ s)

unfoldable pub is_ascii : Bytes → Bool
is_ascii [] = true
is_ascii (c ∷ s) = let rest = is_ascii s in if ltb 127 c then false else rest

abbrev pub is_blank : ℕ → Bool
is_blank c = c == 32 || c == 9

-- `strings.LastIndexAny(s, " \t")`; `none` for a negative result.
unfoldable pub last_blank : Bytes → Option ℕ
last_blank [] = none
last_blank (c ∷ s) =
    let here = if is_blank c then some 0 else none in
    elim (last_blank s) [ some i ↦ some (suc i) | none ↦ here ]

-- `strings.TrimLeft(s, " \t")`
unfoldable pub trim_blanks : Bytes → Bytes
trim_blanks [] = []
trim_blanks (c ∷ s) = let rest = trim_blanks s in if is_blank c then rest else c ∷ s

abbrev pub fold_mark : Bytes
fold_mark = 13 ∷ 10 ∷ 9 ∷ []

-- The loop of `foldHeaderLine` on fuel, behind what is written: `none` if the fuel runs out.
unfoldable pub fold_loop : ℕ → Bytes → Option Bytes
fold_loop zero remaining = none
fold_loop (suc fuel) remaining =
    let cut = last_blank (take max_header_line_len remaining) in
    if leb (length remaining) max_header_line_len then some remaining else elim cut [
      | none ↦ some remaining
      | some zero ↦ some remaining
      | some (suc i) ↦ elim (fold_loop fuel (trim_blanks (drop (suc i) remaining))) [
        | none ↦ none
        | some rest ↦ some (take (suc i) remaining ++ (fold_mark ++ rest))
      ]
    ]

-- A turn shortens what remains, so that its length is fuel enough.
unfoldable pub fold_header_line : Bytes → Option Bytes
fold_header_line line = fold_loop (suc (length line)) line

-- `Date` only matters to the writing. A map is an association list, in the order of its iteration.
pub record PostHeaders : Type 0 where
  pub from : Bytes
  pub subject : Bytes
  pub newsgroups : List Bytes
  pub message_id : Bytes
  pub extra : List (Bytes × List Bytes)

pub data HeaderError : Type 0 where
  from_required from_crlf subject_required subject_crlf newsgroup_required : HeaderError
  invalid_newsgroup message_id_crlf malformed_message_id : HeaderError
  invalid_extra_name extra_crlf : HeaderError

unfoldable pub any_crlf : List Bytes → Bool
any_crlf [] = false
any_crlf (v ∷ vs) = contains_crlf v || any_crlf vs

abbrev pub starts_with : ℕ → Bytes → Bool
starts_with b [] = false
starts_with b (c ∷ s) = c == b

abbrev pub ends_with : ℕ → Bytes → Bool
ends_with b [] = false
ends_with b (c ∷ []) = c == b
ends_with b (c ∷ d ∷ s) = ends_with b (d ∷ s)

check_message_id : Bytes → Option HeaderError
check_message_id s =
    if length s == 0
    then none
    else if contains_crlf s
    then some message_id_crlf
    else if not (starts_with b'<' s) || not (ends_with b'>' s) || elem 32 s || elem 9 s
    then some malformed_message_id
    else none

unfoldable pub check_extra : List (Bytes × List Bytes) → Option HeaderError
check_extra [] = none
check_extra ((k, vs) ∷ rest) =
    let later = check_extra rest in
    if not (is_valid_header_name k)
    then some invalid_extra_name
    else if any_crlf vs
    then some extra_crlf
    else later

-- `strings.TrimSpace` is the parameter `trim_space`.
module _ (trim_space : Bytes → Bytes) where
  unfoldable pub any_invalid_group : List Bytes → Bool
  any_invalid_group [] = false
  any_invalid_group (g ∷ gs) = not (is_valid_newsgroup_name (trim_space g)) || any_invalid_group gs

  unfoldable pub validate : PostHeaders → Option HeaderError
  unfolding check_message_id
  validate h =
      if length (trim_space h.from) == 0
      then some from_required
      else if contains_crlf h.from
      then some from_crlf
      else if length (trim_space h.subject) == 0
      then some subject_required
      else if contains_crlf h.subject
      then some subject_crlf
      else if length h.newsgroups == 0
      then some newsgroup_required
      else if any_invalid_group h.newsgroups
      then some invalid_newsgroup
      else elim (check_message_id h.message_id) [ some e ↦ some e | none ↦ check_extra h.extra ]
