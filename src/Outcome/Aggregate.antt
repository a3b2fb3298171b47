-- ===== src/Outcome/Aggregate.antt =====
-- errors.go: what the kind of the final error says of the attempts.
use nntppool.Base.{
  ◌≡◌, refl, ◌≢◌, Bool, true, false, ◌&&◌, ◌||◌, Option, none, some, List, [], ◌∷◌, arith,
  if◌then◌else◌,
}
use nntppool.Base.{◌↔◌}
use nntppool.Errors.{Err, article_not_found, is, is?, is_some, with_error_classification}
use nntppool.Outcome.{
  OutcomeKind, success, hard_article_absence, cancellation, inconclusive, AttemptEvidence,
  same_kind, Summary, summarize_one, summarize, no_summary, find_last, representative,
  new_transport_error, or_cause, absence_cause, uniform_error, mixed_cause,
}

abbrev pub outcomes : List AttemptEvidence → List OutcomeKind
outcomes [] = []
outcomes (a ∷ rest) = a.outcome ∷ outcomes rest

abbrev pub failures_of : List OutcomeKind → List OutcomeKind
failures_of [] = []
failures_of (o ∷ os) = if same_kind o success then failures_of os else o ∷ failures_of os

abbrev pub any_kind : OutcomeKind → List OutcomeKind → Bool
any_kind k [] = false
any_kind k (o ∷ os) = same_kind o k || any_kind k os

abbrev pub all_kind : OutcomeKind → List OutcomeKind → Bool
all_kind k [] = true
all_kind k (o ∷ os) = same_kind o k && all_kind k os

-- A single kind, if the failures agree on one.
abbrev pub agreed : List OutcomeKind → OutcomeKind
agreed [] = inconclusive
agreed (o ∷ os) = if all_kind o os then o else inconclusive

-- The kind of a final result, by its failed attempts alone.
pub verdict : List OutcomeKind → OutcomeKind
verdict os = if any_kind cancellation os then cancellation else agreed (failures_of os)

abbrev cancelled : Summary
cancelled = record { kind = cancellation; have_kind = true; mixed = false }

abbrev agreeing : OutcomeKind → Summary
agreeing k = record { kind = k; have_kind = true; mixed = false }

abbrev disagreeing : Summary
disagreeing = record { kind = inconclusive; have_kind = true; mixed = true }

summarize-cancelled : (attempts : List AttemptEvidence) → summarize cancelled attempts ≡ cancelled
unfolding summarize summarize_one
summarize-cancelled [] = refl
summarize-cancelled (a ∷ rest) = ground (arith, summarize-cancelled rest)

summarize-disagreeing :
    (attempts : List AttemptEvidence)
    → summarize disagreeing attempts
      ≡ (if any_kind cancellation (outcomes attempts) then cancelled else disagreeing)
unfolding summarize summarize_one
summarize-disagreeing [] = refl
summarize-disagreeing (a ∷ rest) =
    ground (arith, summarize-disagreeing rest, summarize-cancelled rest)

summarize-agreeing :
    (k : OutcomeKind) (attempts : List AttemptEvidence)
    → k ≢ cancellation
    → summarize (agreeing k) attempts ≡ (
        if any_kind cancellation (outcomes attempts)
        then cancelled
        else if all_kind k (failures_of (outcomes attempts))
        then agreeing k
        else disagreeing)
unfolding summarize summarize_one
summarize-agreeing k [] h = refl
summarize-agreeing k (a ∷ rest) h =
    ground
      (arith, summarize-agreeing k rest h, summarize-disagreeing rest, summarize-cancelled rest)

abbrev no_verdict : List OutcomeKind → Summary
no_verdict [] = no_summary
no_verdict (k ∷ ks) = if all_kind k ks then agreeing k else disagreeing

summarize_lem :
    (attempts : List AttemptEvidence)
    → summarize no_summary attempts ≡ (
        if any_kind cancellation (outcomes attempts)
        then cancelled
        else no_verdict (failures_of (outcomes attempts)))
unfolding summarize summarize_one
summarize_lem [] = refl
summarize_lem (a ∷ rest) =
    ground (arith, summarize_lem rest, summarize-agreeing a.outcome rest, summarize-cancelled rest)

-- The kind of the final error is the verdict on the outcomes: cancellation if any attempt was
-- cancelled, the common kind of the failures if they all agree, and inconclusive otherwise.
pub new_transport_error-verdict :
    (attempts : List AttemptEvidence) (cause : Option Err)
    → (new_transport_error attempts cause).kind ≡ verdict (outcomes attempts)
unfolding new_transport_error verdict
new_transport_error-verdict attempts cause = ground (arith, summarize_lem attempts)

no_cancellation :
    (os : List OutcomeKind)
    → all_kind hard_article_absence (failures_of os) ≡ true
    → any_kind cancellation os ≡ false
no_cancellation [] h = refl
no_cancellation (o ∷ os) h = ground (arith, no_cancellation os)

any_kind-failures_of :
    (os : List OutcomeKind)
    → any_kind hard_article_absence (failures_of os) ≡ any_kind hard_article_absence os
any_kind-failures_of [] = refl
any_kind-failures_of (o ∷ os) = ground (arith, any_kind-failures_of os)

agreed-absence :
    (os : List OutcomeKind)
    → (agreed os ≡ hard_article_absence)
      ↔ ((all_kind hard_article_absence os ≡ true) × (any_kind hard_article_absence os ≡ true))
agreed-absence [] = (λ h. ground arith, λ h. ground arith)
agreed-absence (o ∷ os) = (λ h. ground arith, λ h. ground arith)

-- The final error reports a missing article exactly if one attempt at least found it missing, and
-- every other attempt found it missing too or succeeded.
pub new_transport_error-absence :
    (attempts : List AttemptEvidence) (cause : Option Err)
    → ((new_transport_error attempts cause).kind ≡ hard_article_absence) ↔ (
        (all_kind hard_article_absence (failures_of (outcomes attempts)) ≡ true)
        × (any_kind hard_article_absence (outcomes attempts) ≡ true))
unfolding verdict
new_transport_error-absence attempts cause =
    let os = outcomes attempts in
    let v = new_transport_error-verdict attempts cause in
    let a = agreed-absence (failures_of os) in
    let k = any_kind-failures_of os in
    (λ h. ground (arith, v, a, k), λ h. ground (arith, v, a, k, no_cancellation os h.0))

absence_cause-is :
    (k : OutcomeKind) (c : Option Err)
    → k ≡ hard_article_absence
    → is_some (absence_cause k c) ≡ true
    → is? (absence_cause k c) article_not_found ≡ true
unfolding absence_cause with_error_classification is
absence_cause-is k none h s = ground arith
absence_cause-is k (some e) h s = ground arith

uniform_error-is :
    (k : OutcomeKind) (attempts : List AttemptEvidence) (c : Option Err)
    (o : Option AttemptEvidence)
    → k ≡ hard_article_absence
    → is_some (uniform_error k attempts c o).cause ≡ true
    → is? (uniform_error k attempts c o).cause article_not_found ≡ true
unfolding uniform_error
uniform_error-is k attempts c none h s = absence_cause-is k c h s
uniform_error-is k attempts c (some a) h s = absence_cause-is k (or_cause a.cause c) h s

uniform_error-kind :
    (k : OutcomeKind) (attempts : List AttemptEvidence) (c : Option Err)
    (o : Option AttemptEvidence)
    → (uniform_error k attempts c o).kind ≡ k
unfolding uniform_error
uniform_error-kind k attempts c none = refl
uniform_error-kind k attempts c (some a) = refl

-- A final error that reports a missing article and has a cause is matched by `ErrArticleNotFound`.
pub new_transport_error-cause :
    (attempts : List AttemptEvidence) (cause : Option Err)
    → (new_transport_error attempts cause).kind ≡ hard_article_absence
    → is_some (new_transport_error attempts cause).cause ≡ true
    → is? (new_transport_error attempts cause).cause article_not_found ≡ true
unfolding new_transport_error
new_transport_error-cause attempts cause h c =
    let s = summarize no_summary attempts in
    let o = find_last (λ a. same_kind a.outcome s.kind) attempts in
    let m = find_last representative attempts in
    ground (
      arith,
      absence_cause-is s.kind (mixed_cause m cause),
      uniform_error-is s.kind attempts cause o,
      uniform_error-kind s.kind attempts cause o,
    )
