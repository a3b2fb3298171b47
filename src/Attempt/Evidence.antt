-- ===== src/Attempt/Evidence.antt =====
-- nntp.go and errors.go: what the evidence of one attempt says of the response it was built from.
use nntppool.Base.{ℕ, ◌≡◌, sym, ◌∙◌, ◌⊎◌, inl, inr, Bool, true, none, arith, if◌then◌else◌}
use Prim.Native.String.{String}
use nntppool.Base.{◌↔◌}
use nntppool.Base.Int.{ℤ, pos, negsuc}
use nntppool.Errors.{success_code}
use nntppool.Errors.Laws.{IsAbsence}
use nntppool.Outcome.{
  success, hard_article_absence, body, valid, is_article_operation, operation_from_payload,
}
use nntppool.Outcome.Classes.{
  outcome_of_status, classify_outcome-to_error, classify_outcome-success,
}
use nntppool.Attempt.{
  Request, Response, cause_of, validation_of, is_absent_after_retry, request_maps_451_to_absence,
  build_attempt_evidence,
}

-- A 451 that the provider's policy reads as a missing article.
abbrev pub IsMapped : Request → ℤ → Type 0
IsMapped req c =
    (c ≡ pos 451)
    × (is_absent_after_retry req.response451_policy ≡ true)
    × (is_article_operation (operation_from_payload req.payload) ≡ true)

outcome_lem :
    (req : Request) (id : String) (resp : Response) (at : ℕ)
    → resp.err ≡ none
    → (build_attempt_evidence req id resp at).outcome ≡ (
        if request_maps_451_to_absence req resp.status_code
        then hard_article_absence
        else outcome_of_status resp.status_code)
unfolding build_attempt_evidence
outcome_lem req id resp at h =
    ground (arith, classify_outcome-to_error resp.status_code resp.status)

plain_outcome :
    (b : Bool) (c : ℤ)
    → (b ≡ true → c ≡ pos 451)
    → (((if b then hard_article_absence else outcome_of_status c) ≡ hard_article_absence)
        ↔ (IsAbsence c ⊎ (b ≡ true)))
      × (((if b then hard_article_absence else outcome_of_status c) ≡ success)
          ↔ (success_code c ≡ true))
unfolding outcome_of_status
plain_outcome b (pos n) h =
    ((λ e. ground arith, λ e. ground arith), (λ e. ground arith, λ e. ground arith))
plain_outcome b (negsuc n) h =
    ((λ e. ground arith, λ e. ground arith), (λ e. ground arith, λ e. ground arith))

maps-IsMapped :
    (req : Request) (c : ℤ) → (request_maps_451_to_absence req c ≡ true) ↔ IsMapped req c
unfolding request_maps_451_to_absence
maps-IsMapped req (pos n) = (λ e. ground arith, λ e. ground arith)
maps-IsMapped req (negsuc n) = (λ e. ground arith, λ e. ground arith)

-- The outcome of a plain status: an answered request found the article missing exactly for 423, 430
-- and a 451 that its policy maps; it succeeded exactly for 2xx and 3xx.
pub build_attempt_evidence_outcome :
    (req : Request) (id : String) (resp : Response) (at : ℕ)
    → resp.err ≡ none
    → (((build_attempt_evidence req id resp at).outcome ≡ hard_article_absence)
        ↔ (IsAbsence resp.status_code ⊎ IsMapped req resp.status_code))
      × (((build_attempt_evidence req id resp at).outcome ≡ success)
          ↔ (success_code resp.status_code ≡ true))
build_attempt_evidence_outcome req id resp at h =
    let o = outcome_lem req id resp at h in
    let m = maps-IsMapped req resp.status_code in
    let r =
      plain_outcome (request_maps_451_to_absence req resp.status_code) resp.status_code
        (λ e. (m.0 e).0) in
    (
      (
        λ e. elim (r.0.0 (sym o ∙ e)) [ inl a ↦ inl a | inr b ↦ inr (m.0 b) ],
        λ e. o ∙ r.0.1 (elim e [ inl a ↦ inl a | inr b ↦ inr (m.1 b) ]),
      ),
      (λ e. r.1.0 (sym o ∙ e), λ e. o ∙ r.1.1 e),
    )

-- A body counts as validated only for a BODY command that asked for validation and got a status of
-- success without any error, and then it does.
pub build_attempt_evidence-valid :
    (req : Request) (id : String) (resp : Response) (at : ℕ)
    → ((build_attempt_evidence req id resp at).body_validation ≡ valid) ↔ (
        (operation_from_payload req.payload ≡ body)
        × (req.validate_body ≡ true)
        × (resp.err ≡ none)
        × (success_code resp.status_code ≡ true))
unfolding build_attempt_evidence validation_of
build_attempt_evidence-valid req id resp at = (
  λ h. let c = classify_outcome-success resp.status_code (cause_of resp) in ground arith,
  λ (o, v, e, s).
      let r = build_attempt_evidence_outcome req id resp at e in let t = r.1.1 s in ground arith,
)
