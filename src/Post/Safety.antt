-- ===== src/Post/Safety.antt =====
-- post.go: validated headers cannot carry a line of their own.
use nntppool.Base.{◌≡◌, refl, true, false, none, List, [], ◌∷◌, arith, Bytes}
use nntppool.Post.{
  PostHeaders, group_rest, is_valid_newsgroup_name, contains_crlf, name_rest, is_valid_header_name,
  any_crlf, check_message_id, check_extra, any_invalid_group, validate,
}

-- No CR and no LF.
abbrev pub Clean : Bytes → Type 0
Clean s = contains_crlf s ≡ false

abbrev pub AllClean : List Bytes → Type 0
AllClean [] = Unit {0}
AllClean (s ∷ ss) = Clean s × AllClean ss

abbrev pub ExtraClean : List (Bytes × List Bytes) → Type 0
ExtraClean [] = Unit {0}
ExtraClean ((k, vs) ∷ rest) = Clean k × AllClean vs × ExtraClean rest

group_rest-Clean : (s : Bytes) → group_rest s ≡ true → Clean s
unfolding group_rest contains_crlf
group_rest-Clean [] h = refl
group_rest-Clean (c ∷ s) h = ground (arith, group_rest-Clean s)

group-Clean : (s : Bytes) → is_valid_newsgroup_name s ≡ true → Clean s
unfolding is_valid_newsgroup_name contains_crlf
group-Clean [] h = cc
group-Clean (c ∷ s) h = ground (arith, group_rest-Clean s)

name_rest-Clean : (s : Bytes) → name_rest s ≡ true → Clean s
unfolding name_rest contains_crlf
name_rest-Clean [] h = refl
name_rest-Clean (c ∷ s) h = ground (arith, name_rest-Clean s)

name-Clean : (s : Bytes) → is_valid_header_name s ≡ true → Clean s
unfolding is_valid_header_name
name-Clean [] h = cc
name-Clean (c ∷ s) h = name_rest-Clean (c ∷ s) h

any_crlf-AllClean : (vs : List Bytes) → any_crlf vs ≡ false → AllClean vs
unfolding any_crlf
any_crlf-AllClean [] h = tt
any_crlf-AllClean (v ∷ vs) h = (ground arith, any_crlf-AllClean vs (ground arith))

check_extra-ExtraClean :
    (extra : List (Bytes × List Bytes)) → check_extra extra ≡ none → ExtraClean extra
unfolding check_extra
check_extra-ExtraClean [] h = tt
check_extra-ExtraClean ((k, vs) ∷ rest) h = (
  name-Clean k (ground arith),
  any_crlf-AllClean vs (ground arith),
  check_extra-ExtraClean rest (ground arith),
)

message_id-Clean : (s : Bytes) → check_message_id s ≡ none → Clean s
unfolding check_message_id contains_crlf
message_id-Clean [] h = refl
message_id-Clean (c ∷ s) h = ground arith

module _ (trim_space : Bytes → Bytes) where
  abbrev pub GroupsClean : List Bytes → Type 0
  GroupsClean [] = Unit {0}
  GroupsClean (g ∷ gs) = Clean (trim_space g) × GroupsClean gs

  groups-GroupsClean : (gs : List Bytes) → any_invalid_group trim_space gs ≡ false → GroupsClean gs
  unfolding any_invalid_group
  groups-GroupsClean [] h = tt
  groups-GroupsClean (g ∷ gs) h =
      (group-Clean (trim_space g) (ground arith), groups-GroupsClean gs (ground arith))

  passed :
      (h : PostHeaders)
      → validate trim_space h ≡ none
      → Clean h.from
        × Clean h.subject
        × (any_invalid_group trim_space h.newsgroups ≡ false)
        × (check_message_id h.message_id ≡ none)
        × (check_extra h.extra ≡ none)
  unfolding validate
  passed h e = ground arith

  -- Headers that pass the checks have no CR and no LF in anything that is written of them: not in
  -- From, Subject and Message-ID, in the trimmed names of the groups, nor in the names and values of
  -- the other headers. So no value can begin a line of its own.
  pub validate-Clean :
      (h : PostHeaders)
      → validate trim_space h ≡ none
      → Clean h.from
        × Clean h.subject
        × GroupsClean h.newsgroups
        × Clean h.message_id
        × ExtraClean h.extra
  validate-Clean h e =
      let (f, s, g, m, x) = passed h e in
      (
        f,
        s,
        groups-GroupsClean h.newsgroups g,
        message_id-Clean h.message_id m,
        check_extra-ExtraClean h.extra x,
      )
