-- ===== src/Post/Folding.antt =====
-- post.go: what the folding of a header line does.
use nntppool.Base.{
  ℕ, zero, suc, ◌≤◌, ◌<◌, ◌≡◌, refl, sym, ap, ◌∙◌, inl, inr, ◌||◌, Option, none, some, [], ◌∷◌,
  ◌++◌, arith, length, length-drop, take, drop, take-append-drop, Bool-cases, Option-cases, Bytes,
  leb, ◌==◌, if◌then◌else◌,
}
use nntppool.Post.{
  max_header_line_len, is_blank, last_blank, trim_blanks, fold_mark, fold_loop, fold_header_line,
}

-- The text without its blanks, and without line breaks: what folding must keep.
abbrev pub ink : Bytes → Bytes
ink [] = []
ink (c ∷ s) = if is_blank c || c == 13 || c == 10 then ink s else c ∷ ink s

ink-append : (s t : Bytes) → ink (s ++ t) ≡ ink s ++ ink t
ink-append [] t = refl
ink-append (c ∷ s) t = ground (arith, ink-append s t)

ink-trim_blanks : (s : Bytes) → ink (trim_blanks s) ≡ ink s
unfolding trim_blanks
ink-trim_blanks [] = refl
ink-trim_blanks (c ∷ s) = ground (arith, ink-trim_blanks s)

length-trim_blanks : (s : Bytes) → length (trim_blanks s) ≤ length s
unfolding trim_blanks
length-trim_blanks [] = omega arith
length-trim_blanks (c ∷ s) = ground (arith, length-trim_blanks s)

-- The loop returns, and keeps all that is no blank and no line break.
abbrev Folded : Bytes → Option Bytes → Type 0
Folded line none = ⊥
Folded line (some out) = ink out ≡ ink line

joined :
    (line : Bytes) (i : ℕ) (o : Option Bytes)
    → Folded (trim_blanks (drop (suc i) line)) o
    → Folded line
        (elim o [ none ↦ none | some rest ↦ some (take (suc i) line ++ (fold_mark ++ rest)) ])
joined line i none h = h
joined line i (some rest) h =
    ink-append (take (suc i) line) (fold_mark ++ rest)
    ∙ ap (λ z. ink (take (suc i) line) ++ z) (h ∙ ink-trim_blanks (drop (suc i) line))
    ∙ sym (ink-append (take (suc i) line) (drop (suc i) line))
    ∙ ap ink (take-append-drop (suc i) line)

fold_loop-Folded :
    (fuel : ℕ) (line : Bytes) → length line < fuel → Folded line (fold_loop fuel line)
unfolding fold_loop
fold_loop-Folded zero line h = absurd (omega (arith, h))
fold_loop-Folded (suc fuel) line h = elim (Bool-cases (leb (length line) max_header_line_len)) [
  | inl e ↦ rw (e, Folded) refl
  | inr e ↦ elim (Option-cases (last_blank (take max_header_line_len line))) [
    | inl q ↦ rw (e, q, Folded) refl
    | inr (zero, q) ↦ rw (e, q, Folded) refl
    | inr (suc i, q) ↦
        rw (e, q)
          (joined line i (fold_loop fuel (trim_blanks (drop (suc i) line)))
            (fold_loop-Folded fuel (trim_blanks (drop (suc i) line)) (shorter i (ground arith))))
  ]
]
  where
    shorter : (i : ℕ) → 900 < length line → length (trim_blanks (drop (suc i) line)) < fuel
    shorter i k =
        omega (arith, h, k, length-trim_blanks (drop (suc i) line), length-drop (suc i) line)

-- Folding ends on every line, and changes nothing but blanks and line breaks.
pub fold_header_line-ink :
    (line : Bytes) → (out : Bytes) × (fold_header_line line ≡ some out) × (ink out ≡ ink line)
unfolding fold_header_line
fold_header_line-ink line =
    result (fold_header_line line) refl (fold_loop-Folded (suc (length line)) line (omega arith))
  where
    result :
        (o : Option Bytes)
        → fold_header_line line ≡ o
        → Folded line o
        → (out : Bytes) × (fold_header_line line ≡ some out) × (ink out ≡ ink line)
    result none e h = absurd h
    result (some out) e h = (out, e, h)
