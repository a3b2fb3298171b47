-- ===== src/Attempt/Tests.antt =====
-- The evidence of concrete requests.
use nntppool.Base.{
  ◌∙◌, ◌≡◌, refl, ◌⊎◌, true, false, not, ◌&&◌, none, some, [], ◌∷◌, ascii, if◌then◌else◌,
}
use nntppool.Base.Int.{ℤ, pos}
use nntppool.Breaker.{neutral, failure}
use nntppool.Breaker
use nntppool.Errors.{is?, the, circuit_breaker_open, is_code, success_code}
use nntppool.Outcome.{AttemptEvidence, temporary_failure, transport_failure, operation_from_payload}
use nntppool.Attempt.{
  Request, Response, absent_after_retry, error_response, build_attempt_evidence,
  request_maps_451_to_absence, last?, any_mapped_451, classify_circuit_breaker_completion,
}
use nntppool.Attempt.Completion.{IsProviderFault, completion_failure, completion_of_status}

abbrev fetch : Request
fetch = record {
  payload = ascii "BODY <a@b>";
  validate_body = true;
  fresh_transport = false;
  response451_policy = absent_after_retry;
  priority = false;
  submitted_at = some 10;
  written_at = 20;
  response_head_at = 30;
  decoded_committed = false;
  ctx_err = none;
}

abbrev answer : ℤ → Response
answer code = record (error_response none) { status_code = code }

abbrev busy : Response
busy = record (answer (pos 451)) {
  attempts =
      build_attempt_evidence (record fetch { payload = ascii "DATE" }) "news" (answer (pos 451)) 50
      ∷ [];
}

busy_fails : classify_circuit_breaker_completion busy true false ≡ failure
unfolding request_maps_451_to_absence operation_from_payload
busy_fails =
    completion_of_status (record fetch { payload = ascii "DATE" }) "news" (answer (pos 451)) 50 refl
    ∙ refl

completion_failure_example :
    (true ≡ true)
    × (false ≡ false)
    × (any_mapped_451 busy.attempts ≡ false)
    × ((final : AttemptEvidence) × (last? busy.attempts ≡ some final)
        × (((final.outcome ≡ temporary_failure)
              × (is? final.cause (the circuit_breaker_open) ≡ false))
            ⊎ ((final.outcome ≡ transport_failure) × IsProviderFault final busy.request)))
completion_failure_example = completion_failure busy true false busy_fails

completion_of_status_example :
    classify_circuit_breaker_completion
      (record (answer (pos 451)) {
        attempts = build_attempt_evidence fetch "news" (answer (pos 451)) 50 ∷ [];
      })
      true
      false
    ≡ (if success_code (pos 451)
        then Breaker.success
        else if is_code (pos 451) 451 && not (request_maps_451_to_absence fetch (pos 451))
        then failure
        else neutral)
completion_of_status_example = completion_of_status fetch "news" (answer (pos 451)) 50 refl
