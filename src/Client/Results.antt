-- ===== src/Client/Results.antt =====
-- client.go: what a caller is told.
use nntppool.Base.{
  ℕ, false, Option, none, some, List, [], ◌∷◌, ◌++◌, ◌≡◌, refl, ap, ◌∙◌, ◌⊎◌, inl, inr, arith,
  Bytes, elem,
}
use nntppool.Base.Digits.{parse_int}
use nntppool.Outcome.{SendError}
use nntppool.Attempt.{Response, replied, cause_of, response_error, reply_error}
use nntppool.Client.{
  StatResult, cut_blank, split_blanks, trim_angles, trim_left_angles, trim_right_angles,
  cons_unless_angle, parse_stat, stat_of, parts_of,
}

response_error-none :
    (resp : Response) → cause_of resp ≡ none → response_error (replied resp) ≡ none
unfolding response_error reply_error
response_error-none resp h = rw (h)

-- The error of a reply, or what is made of it.
abbrev told : {A : Type 0} → SendError ⊎ A → Option SendError → SendError ⊎ A
told a o = elim o [ some e ↦ inl e | none ↦ a ]

cut_blank_lem : (a b : Bytes) → elem 32 a ≡ false → cut_blank (a ++ 32 ∷ b) ≡ some (a, b)
unfolding cut_blank
cut_blank_lem [] b h = ground arith
cut_blank_lem (c ∷ a) b h = ground (arith, cut_blank_lem a b)

cut_blank-none : (a : Bytes) → elem 32 a ≡ false → cut_blank a ≡ none
unfolding cut_blank
cut_blank-none [] h = refl
cut_blank-none (c ∷ a) h = ground (arith, cut_blank-none a)

-- A text without angles, between two of them.
trim_right_lem :
    (x : Bytes) → elem b'<' x ≡ false → elem b'>' x ≡ false → trim_right_angles (x ++ b'>' ∷ []) ≡ x
unfolding trim_right_angles
trim_right_lem [] h k = refl
trim_right_lem (c ∷ []) h k = ground arith
trim_right_lem (c ∷ d ∷ x) h k = rw (trim_right_lem (d ∷ x) (ground arith) (ground arith))

trim_left_lem : (x : Bytes) → elem b'<' x ≡ false → elem b'>' x ≡ false → trim_left_angles x ≡ x
unfolding trim_left_angles
trim_left_lem [] h k = refl
trim_left_lem (c ∷ x) h k = ground arith

trim_angles_lem :
    (x : Bytes)
    → elem b'<' x ≡ false
    → elem b'>' x ≡ false
    → trim_angles (b'<' ∷ (x ++ b'>' ∷ [])) ≡ x
unfolding trim_angles trim_right_angles trim_left_angles
trim_angles_lem [] h k = refl
trim_angles_lem (c ∷ x) h k =
    ap (λ z. trim_left_angles (cons_unless_angle b'<' z)) (trim_right_lem (c ∷ x) h k)
    ∙ trim_left_lem (c ∷ x) h k

abbrev cut_on : ℕ → Bytes → Option (Bytes × Bytes) → List Bytes
cut_on n s o = elim o [ none ↦ s ∷ [] | some (a, b) ↦ a ∷ split_blanks n b ]

angled_blank : (x : Bytes) → elem 32 x ≡ false → elem 32 (x ++ b'>' ∷ []) ≡ false
angled_blank [] h = refl
angled_blank (c ∷ x) h = ground (arith, angled_blank x)

split_lem :
    (a num c : Bytes)
    → elem 32 a ≡ false
    → elem 32 num ≡ false
    → elem 32 c ≡ false
    → split_blanks 3 (a ++ 32 ∷ (num ++ 32 ∷ c)) ≡ a ∷ num ∷ c ∷ []
unfolding split_blanks
split_lem a num c h k l =
    ap (cut_on 2 (a ++ 32 ∷ (num ++ 32 ∷ c))) (cut_blank_lem a (num ++ 32 ∷ c) h)
    ∙ ap (λ z. a ∷ cut_on 1 (num ++ 32 ∷ c) z) (cut_blank_lem num c k)
    ∙ ap (λ z. a ∷ num ∷ cut_on 0 c z) (cut_blank-none c l)

-- A status line of a code, a number and a message-ID in angles, parted by blanks, gives that number, as
-- ParseInt reads it, and that message-ID without its angles, whatever article was asked for.
pub parse_stat-line :
    (asked a num x : Bytes) (resp : Response)
    → cause_of resp ≡ none
    → resp.status ≡ a ++ 32 ∷ (num ++ 32 ∷ (b'<' ∷ (x ++ b'>' ∷ [])))
    → elem 32 a ≡ false
    → elem 32 num ≡ false
    → elem 32 x ≡ false
    → elem b'<' x ≡ false
    → elem b'>' x ≡ false
    → (s : StatResult) × (parse_stat asked (replied resp) ≡ inr s)
      × (s.message_id ≡ x)
      × (s.number ≡ (parse_int num).0)
unfolding parse_stat stat_of
parse_stat-line asked a num x resp n e h k l p q =
    let w =
      ap (split_blanks 3) e ∙ split_lem a num (b'<' ∷ (x ++ b'>' ∷ [])) h k (angled_blank x l) in
    (
      _,
      ap (told (stat_of asked (replied resp))) (response_error-none resp n),
      ap (λ z. (parts_of asked z).0) w ∙ trim_angles_lem x p q,
      ap (λ z. (parts_of asked z).1) w,
    )
