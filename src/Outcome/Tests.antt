-- ===== src/Outcome/Tests.antt =====
-- errors.go: final errors of concrete attempts.
use Prim.Native.String.{String}
use nntppool.Base.{◌≡◌, ◌↔◌, true, false, Option, none, some, [], ◌∷◌, arith}
use nntppool.Base.Int.{ℤ, pos}
use nntppool.Errors.{Err, sentinel, status, eof, is_some}
use nntppool.Outcome.{
  OutcomeKind, AttemptEvidence, hard_article_absence, transport_failure, inconclusive, body,
  not_applicable, new_transport_error, summarize, summarize_one, find_last,
}
use nntppool.Outcome.Aggregate.{
  outcomes, verdict, failures_of, all_kind, any_kind, new_transport_error-verdict,
  new_transport_error-absence,
}

abbrev attempt : String → OutcomeKind → ℤ → Option Err → AttemptEvidence
attempt id outcome code cause = record {
  provider_id = id;
  operation = body;
  outcome = outcome;
  response_code = code;
  body_validation = not_applicable;
  cause = cause;
  provider_response_timeout = false;
  pool_queue = 0;
  head_wait = 0;
  service = 0;
}

abbrev missing : AttemptEvidence
missing = attempt "first" hard_article_absence (pos 430) (some (status (pos 430) []))

abbrev missing_too : AttemptEvidence
missing_too = attempt "second" hard_article_absence (pos 423) (some (status (pos 430) []))

abbrev died : AttemptEvidence
died = attempt "third" transport_failure (pos 0) (some (sentinel eof))

mixed_is_inconclusive : (new_transport_error (missing ∷ died ∷ []) none).kind ≡ inconclusive
unfolding new_transport_error summarize summarize_one find_last
mixed_is_inconclusive = ground arith

new_transport_error-verdict_example :
    (new_transport_error (missing ∷ died ∷ []) none).kind ≡ verdict (outcomes (missing ∷ died ∷ []))
new_transport_error-verdict_example = new_transport_error-verdict (missing ∷ died ∷ []) none

new_transport_error-absence_example :
    ((new_transport_error (missing ∷ missing_too ∷ []) none).kind ≡ hard_article_absence) ↔ (
      (all_kind hard_article_absence (failures_of (outcomes (missing ∷ missing_too ∷ []))) ≡ true)
      × (any_kind hard_article_absence (outcomes (missing ∷ missing_too ∷ [])) ≡ true))
new_transport_error-absence_example = new_transport_error-absence (missing ∷ missing_too ∷ []) none

both_missing : (new_transport_error (missing ∷ missing_too ∷ []) none).kind ≡ hard_article_absence
unfolding new_transport_error summarize summarize_one find_last
both_missing = ground arith

both_caused : is_some (new_transport_error (missing ∷ missing_too ∷ []) none).cause ≡ true
unfolding new_transport_error summarize summarize_one find_last
both_caused = ground arith
