-- ===== src/Base/Text.antt =====
-- Byte strings: Go's `[]byte`, and its `string` where the code walks it.
use Prim.Native.Nat.{ℕ}
use Prim.Native.Char.{code}
use Prim.Native.String.{String}
use mathlib.Core.Path.{◌≡◌, refl}
use mathlib.Core.Logic.{◌↔◌, ◌≢◌}
use mathlib.Core.Bool.{Bool, true, false, ◌&&◌, ◌||◌}
use mathlib.Core.Option.{Option, none, some}
use mathlib.Core.List.{List, [], ◌∷◌, ◌++◌}
use native.Mathlib.Omega.{arith}
use nntppool.Base.Tests.{◌==◌, if◌then◌else◌}

abbrev pub Bytes : Type 0
Bytes = List ℕ

-- The bytes of an ASCII literal. `String` has its own `[]` and `∷`.
abbrev pub ascii : String → Bytes
ascii String.[] = []
ascii (String.◌∷◌ c s) = code c ∷ ascii s

abbrev pub bytes_eq : Bytes → Bytes → Bool
bytes_eq [] [] = true
bytes_eq [] (b ∷ t) = false
bytes_eq (a ∷ s) [] = false
bytes_eq (a ∷ s) (b ∷ t) = a == b && bytes_eq s t

pub bytes_eq_iff : (s t : Bytes) → (bytes_eq s t ≡ true) ↔ (s ≡ t)
bytes_eq_iff [] [] = (λ _. refl, λ _. refl)
bytes_eq_iff [] (b ∷ t) = (λ h. ground arith, λ h. ground arith)
bytes_eq_iff (a ∷ s) [] = (λ h. ground arith, λ h. ground arith)
bytes_eq_iff (a ∷ s) (b ∷ t) =
    (λ h. ground (arith, bytes_eq_iff s t), λ h. ground (arith, bytes_eq_iff s t))

-- `bytes.HasPrefix`.
abbrev pub has_prefix : Bytes → Bytes → Bool
has_prefix s [] = true
has_prefix [] (b ∷ t) = false
has_prefix (a ∷ s) (b ∷ t) = a == b && has_prefix s t

-- `bytes.ContainsAny` and its kin for a set of single bytes.
abbrev pub elem : ℕ → Bytes → Bool
elem c [] = false
elem c (d ∷ ds) = c == d || elem c ds

-- `bytes.HasPrefix` and the rest behind the prefix.
abbrev pub strip_prefix : Bytes → Bytes → Option Bytes
strip_prefix s [] = some s
strip_prefix [] (b ∷ t) = none
strip_prefix (a ∷ s) (b ∷ t) = if a == b then strip_prefix s t else none

-- What follows the first occurrence of a substring: `data[bytes.Index(data, sub) + len(sub):]`.
unfoldable pub after : Bytes → Bytes → Option Bytes
after [] sub = strip_prefix [] sub
after (a ∷ s) sub =
    let rest = after s sub in elim (strip_prefix (a ∷ s) sub) [ none ↦ rest | some r ↦ some r ]

-- `bytes.Contains`.
abbrev pub contains : Bytes → Bytes → Bool
contains s sub = elim (after s sub) [ none ↦ false | some r ↦ true ]

-- The bytes in front of the first one of `stops`, or all: `data[:bytes.IndexAny(data, stops)]`.
unfoldable pub until : Bytes → Bytes → Bytes
until stops [] = []
until stops (a ∷ s) = let rest = a ∷ until stops s in if elem a stops then [] else rest

abbrev extend : ℕ → Option (Bytes × Bytes) → Option (Bytes × Bytes)
extend b none = none
extend b (some (l, r)) = some (b ∷ l, r)

-- At the byte `b`, with the cut of what follows it at hand.
abbrev cut_at : ℕ → Bytes → Option (Bytes × Bytes) → Option (Bytes × Bytes)
cut_at b [] rest = none
cut_at b (c ∷ t) rest = if b == 13 && c == 10 then some ([], t) else extend b rest

-- `bytes.Cut(buf, "\r\n")`: the first line and what is behind it.
unfoldable pub cut_line : Bytes → Option (Bytes × Bytes)
cut_line [] = none
cut_line (a ∷ s) = cut_at a s (cut_line s)

cut_at_lem :
    (b : ℕ) (s : Bytes) (rest : Option (Bytes × Bytes)) (line tail : Bytes)
    → ((l t : Bytes) → rest ≡ some (l, t) → s ≡ l ++ 13 ∷ 10 ∷ t)
    → cut_at b s rest ≡ some (line, tail)
    → b ∷ s ≡ line ++ 13 ∷ 10 ∷ tail
cut_at_lem b [] rest line tail ih h = ground arith
cut_at_lem b (c ∷ t) none line tail ih h = ground arith
cut_at_lem b (c ∷ t) (some (l, r)) line tail ih h = ground (arith, ih l r refl)

-- A line that is cut off is followed by CRLF and the rest.
pub cut_line_lem :
    (buf line tail : Bytes) → cut_line buf ≡ some (line, tail) → buf ≡ line ++ 13 ∷ 10 ∷ tail
unfolding cut_line
cut_line_lem [] line tail h = cc
cut_line_lem (a ∷ s) line tail h =
    cut_at_lem a s (cut_line s) line tail (λ l t e. cut_line_lem s l t e) h

-- A line without CR is cut off whole.
abbrev pub NoCr : Bytes → Type 0
NoCr [] = Unit {0}
NoCr (c ∷ cs) = (c ≢ 13) × NoCr cs

pub cut_line-append :
    (line tail : Bytes) → NoCr line → cut_line (line ++ 13 ∷ 10 ∷ tail) ≡ some (line, tail)
unfolding cut_line
cut_line-append [] tail h = refl
cut_line-append (a ∷ []) tail h = ground (arith, cut_line-append [] tail tt)
cut_line-append (a ∷ b ∷ s) tail h = ground (arith, cut_line-append (b ∷ s) tail h.1)
