-- ===== src/Attempt/Completion.antt =====
-- circuit_breaker.go: what the outcome of a request tells its provider's circuit breaker.
use nntppool.Base.{
  ℕ, ◌<◌, ◌≡◌, refl, ◌⊎◌, inl, inr, Bool, true, false, not, ◌&&◌, Option, none, some, [], ◌∷◌,
  arith, if◌then◌else◌, Bool-cases,
}
use Prim.Native.String.{String}
use nntppool.Breaker.{Completion, neutral, failure}
use nntppool.Breaker
use nntppool.Errors.{the, circuit_breaker_open, is?, is_code, success_code}
use nntppool.Outcome.{AttemptEvidence, temporary_failure, transport_failure}
use nntppool.Outcome.Classes.{outcome_of_status, classify_outcome-to_error, to_error-circuit}
use nntppool.Attempt.{
  Request, Response, request_maps_451_to_absence, build_attempt_evidence, any_mapped_451, last?,
  transport_completion, final_completion, classify_circuit_breaker_completion,
}

-- A transport failure that the provider is to blame for: it timed out after it had begun to answer,
-- the request was never written, or the response had begun.
abbrev pub IsProviderFault : AttemptEvidence → Option Request → Type 0
IsProviderFault final req =
    (final.provider_response_timeout ≡ true)
    ⊎ ((r : Request) × (req ≡ some r) × ((r.written_at ≡ 0) ⊎ (0 < r.response_head_at)))

transport_completion_failure :
    (final : AttemptEvidence) (req : Option Request)
    → transport_completion final req ≡ failure
    → IsProviderFault final req
unfolding transport_completion
transport_completion_failure final none h = ground arith
transport_completion_failure final (some r) h = elim (Bool-cases final.provider_response_timeout) [
  | inl e ↦ inl e
  | inr e ↦ inr (r, refl, ground arith)
]

final_failure :
    (final : AttemptEvidence) (req : Option Request)
    → final_completion (some final) req ≡ failure
    → ((final.outcome ≡ temporary_failure) × (is? final.cause (the circuit_breaker_open) ≡ false))
      ⊎ ((final.outcome ≡ transport_failure) × IsProviderFault final req)
unfolding final_completion
final_failure final req h = ground (arith, transport_completion_failure final req)

answered_failure :
    (resp : Response) (ok cancelled : Bool)
    → classify_circuit_breaker_completion resp ok cancelled ≡ failure
    → (ok ≡ true)
      × (cancelled ≡ false)
      × (any_mapped_451 resp.attempts ≡ false)
      × (final_completion (last? resp.attempts) resp.request ≡ failure)
unfolding classify_circuit_breaker_completion
answered_failure resp ok cancelled h = ground arith

final_exists :
    (final : Option AttemptEvidence) (req : Option Request)
    → final_completion final req ≡ failure
    → (a : AttemptEvidence) × (final ≡ some a)
      × (((a.outcome ≡ temporary_failure) × (is? a.cause (the circuit_breaker_open) ≡ false))
          ⊎ ((a.outcome ≡ transport_failure) × IsProviderFault a req))
unfolding final_completion
final_exists none req h = ground arith
final_exists (some a) req h = (a, refl, final_failure a req h)

-- A request counts against its provider only if it was answered or failed without being cancelled,
-- no attempt found a mapped 451, and the last attempt is a temporary failure other than the
-- breaker's own refusal or a transport failure that the provider is to blame for.
pub completion_failure :
    (resp : Response) (ok cancelled : Bool)
    → classify_circuit_breaker_completion resp ok cancelled ≡ failure
    → (ok ≡ true)
      × (cancelled ≡ false)
      × (any_mapped_451 resp.attempts ≡ false)
      × ((final : AttemptEvidence) × (last? resp.attempts ≡ some final)
          × (((final.outcome ≡ temporary_failure)
                × (is? final.cause (the circuit_breaker_open) ≡ false))
              ⊎ ((final.outcome ≡ transport_failure) × IsProviderFault final resp.request)))
completion_failure resp ok cancelled h =
    let (o, c, m, f) = answered_failure resp ok cancelled h in
    (o, c, m, final_exists (last? resp.attempts) resp.request f)

-- An answered request, with the evidence of its one attempt, tells the breaker by the status code
-- alone: 2xx and 3xx are a success, a 451 that is not mapped to absence is a failure, everything
-- else is neutral.
pub completion_of_status :
    (req : Request) (id : String) (resp : Response) (at : ℕ)
    → resp.err ≡ none
    → classify_circuit_breaker_completion
        (record resp { attempts = build_attempt_evidence req id resp at ∷ [] })
        true
        false
      ≡ (if success_code resp.status_code
          then Breaker.success
          else if is_code resp.status_code 451
              && not (request_maps_451_to_absence req resp.status_code)
          then failure
          else neutral)
unfolding classify_circuit_breaker_completion final_completion any_mapped_451 build_attempt_evidence
    request_maps_451_to_absence outcome_of_status
completion_of_status req id resp at h = ground (
  arith,
  classify_outcome-to_error resp.status_code resp.status,
  to_error-circuit resp.status_code resp.status,
)
