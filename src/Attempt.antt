-- ===== src/Attempt.antt =====
-- nntp.go and errors.go: a request, its response, and the evidence that one attempt leaves; what
-- the circuit breaker makes of it (circuit_breaker.go). Instants are Unix nanoseconds, 0 in
-- `written_at` and `response_head_at` where nothing is stored, as in the source; the zero
-- `submittedAt` is `none`. `ctx_err` is what `req.Ctx.Err()` gives when the evidence is built.
pub mod Evidence
pub mod Completion
mod Tests
use Prim.Native.String.{String}
use nntppool.Base.{
  ℕ, ◌-◌, Bool, true, false, not, ◌&&◌, ◌||◌, Option, none, some, List, [], ◌∷◌, ltb, leb, ◌==◌,
  if◌then◌else◌, length, Bytes,
}
use nntppool.Base.Int.{ℤ, pos}
use nntppool.Breaker.{neutral, failure}
use nntppool.Breaker
use nntppool.Errors.{Err, the, circuit_breaker_open, is?, is_some, is_code, to_error, as_net, wrap}
use nntppool.Outcome.{
  OutcomeKind, success, hard_article_absence, temporary_failure, corrupt_body, transport_failure,
  cancellation, Operation, body, BodyValidation, not_applicable, not_requested, valid, invalid,
  incomplete, AttemptEvidence, TransportError, SendError, plain, transport, same_kind,
  operation_from_payload, is_article_operation, classify_outcome, new_transport_error,
}
use nntppool.Reader.{NntpResponse, new_response}

-- A uint8; other values are refused when a provider is configured.
pub data Response451Policy : Type 0 where
  temporary absent_after_retry : Response451Policy
  unknown_policy : ℕ → Response451Policy

abbrev pub is_absent_after_retry : Response451Policy → Bool
is_absent_after_retry absent_after_retry = true
is_absent_after_retry _ = false

pub record Request : Type 0 where
  pub payload : Bytes
  pub validate_body : Bool
  pub fresh_transport : Bool
  pub response451_policy : Response451Policy
  pub priority : Bool
  pub submitted_at : Option ℕ
  pub written_at : ℕ
  pub response_head_at : ℕ
  pub decoded_committed : Bool
  pub ctx_err : Option Err

pub record Response : Type 0 where
  pub status_code : ℤ
  pub status : Bytes
  pub provider_id : String
  pub attempts : List AttemptEvidence
  pub lines : List Bytes
  pub buffered : Bytes
  pub meta : NntpResponse
  pub err : Option Err
  pub request : Option Request

-- What a caller of `Send` receives: a provider's response, or a `Response` with only its error and
-- the attempts set.
pub data Reply : Type 0 where
  replied : Response → Reply
  failed : SendError → List AttemptEvidence → Reply

-- `Response{Err: cause}` and its kin.
abbrev pub error_response : Option Err → Response
error_response cause = record {
  status_code = pos 0;
  status = [];
  provider_id = "";
  attempts = [];
  lines = [];
  buffered = [];
  meta = new_response false false;
  err = cause;
  request = none;
}

unfoldable pub request_maps_451_to_absence : Request → ℤ → Bool
request_maps_451_to_absence req code =
    is_code code 451
    && is_absent_after_retry req.response451_policy
    && is_article_operation (operation_from_payload req.payload)

abbrev pub cause_of : Response → Option Err
cause_of resp = elim resp.err [ some e ↦ some e | none ↦ to_error resp.status_code resp.status ]

abbrev pub is_body : Operation → Bool
is_body body = true
is_body _ = false

validation_of : Request → Response → OutcomeKind → BodyValidation
validation_of req resp outcome =
    if not (is_body (operation_from_payload req.payload))
    then not_applicable
    else if not req.validate_body
    then not_requested
    else if same_kind outcome success
    then valid
    else if same_kind outcome corrupt_body
    then invalid
    else if is_code resp.status_code 222 || is_some resp.err
    then incomplete
    else not_applicable

pool_queue_of : Option ℕ → ℕ → ℕ → ℕ
pool_queue_of none written_at completed_at = 0
pool_queue_of (some submitted) written_at completed_at =
    if ltb 0 written_at then written_at - submitted else completed_at - submitted

abbrev pub timed_out : Option Err → Bool
timed_out none = false
timed_out (some e) = elim (as_net e) [ some timeout ↦ timeout | none ↦ false ]

-- Durations are `max(d, 0)`, which is subtraction on ℕ.
unfoldable pub build_attempt_evidence : Request → String → Response → ℕ → AttemptEvidence
unfolding validation_of pool_queue_of request_maps_451_to_absence
build_attempt_evidence req provider_id resp completed_at =
    let outcome =
      if not (is_some resp.err) && request_maps_451_to_absence req resp.status_code
      then hard_article_absence
      else classify_outcome resp.status_code (cause_of resp) in
    record {
      provider_id = provider_id;
      operation = operation_from_payload req.payload;
      outcome = outcome;
      response_code = resp.status_code;
      body_validation = validation_of req resp outcome;
      cause = cause_of resp;
      provider_response_timeout =
          ltb 0 req.response_head_at && not (is_some req.ctx_err) && timed_out resp.err;
      pool_queue = pool_queue_of req.submitted_at req.written_at completed_at;
      head_wait =
          if ltb 0 req.written_at && ltb 0 req.response_head_at
          then req.response_head_at - req.written_at
          else if ltb 0 req.written_at
          then completed_at - req.written_at
          else 0;
      service = if ltb 0 req.response_head_at then completed_at - req.response_head_at else 0;
    }

-- `&Request{Payload: payload, ValidateBody: validateBody}`
abbrev bare_request : Bytes → Bool → Request
bare_request payload validate_body = record {
  payload = payload;
  validate_body = validate_body;
  fresh_transport = false;
  response451_policy = temporary;
  priority = false;
  submitted_at = none;
  written_at = 0;
  response_head_at = 0;
  decoded_committed = false;
  ctx_err = none;
}

unfoldable pub build_eligibility_evidence : Bytes → String → Err → Bool → ℕ → AttemptEvidence
build_eligibility_evidence payload provider_id cause validate_body now =
    build_attempt_evidence (bare_request payload validate_body) provider_id
      (error_response (some cause)) now

abbrev pub last? {ℓ} : {A : Type ℓ} → List A → Option A
last? [] = none
last? (a ∷ rest) = elim (last? rest) [ none ↦ some a | some b ↦ some b ]

conclusive_451 : Option AttemptEvidence → Bool
conclusive_451 none = false
conclusive_451 (some a) = is_code a.response_code 451 && same_kind a.outcome hard_article_absence

unfoldable pub response_is_hard_article_absence : Response → Bool
unfolding conclusive_451
response_is_hard_article_absence resp =
    if is_code resp.status_code 423 || is_code resp.status_code 430
    then true
    else if not (is_code resp.status_code 451)
    then false
    else conclusive_451 (last? resp.attempts)

committed_request : Option Request → Bool
committed_request none = false
committed_request (some req) = req.decoded_committed

unfoldable pub attempt_committed_resp : Response → Bool
unfolding committed_request
attempt_committed_resp resp = committed_request resp.request

-- The loop over the attempts of `classifyCircuitBreakerCompletion`.
unfoldable pub any_mapped_451 : List AttemptEvidence → Bool
any_mapped_451 [] = false
any_mapped_451 (a ∷ rest) =
    (is_code a.response_code 451 && same_kind a.outcome hard_article_absence) || any_mapped_451 rest

transport_completion : AttemptEvidence → Option Request → Breaker.Completion
transport_completion final req = if final.provider_response_timeout then failure else elim req [
  | none ↦ neutral
  | some r ↦ if r.written_at == 0 || ltb 0 r.response_head_at then failure else neutral
]

final_completion : Option AttemptEvidence → Option Request → Breaker.Completion
unfolding transport_completion
final_completion none req = neutral
final_completion (some final) req =
    if same_kind final.outcome success
    then Breaker.success
    else if same_kind final.outcome temporary_failure
    then (if is? final.cause (the circuit_breaker_open) then neutral else failure)
    else if same_kind final.outcome transport_failure
    then transport_completion final req
    else neutral

unfoldable pub classify_circuit_breaker_completion : Response → Bool → Bool → Breaker.Completion
unfolding final_completion any_mapped_451
classify_circuit_breaker_completion resp ok cancelled =
    if cancelled || not ok || length resp.attempts == 0
    then neutral
    else if any_mapped_451 resp.attempts
    then neutral
    else final_completion (last? resp.attempts) resp.request

unfoldable pub reply_error : Option Err → List AttemptEvidence → Option SendError
reply_error none attempts = none
reply_error (some cause) [] = some (plain cause)
reply_error (some cause) (a ∷ rest) = some (transport (new_transport_error (a ∷ rest) (some cause)))

-- `responseError`: an error that is a `*TransportError` already is passed on.
unfoldable pub response_error : Reply → Option SendError
unfolding reply_error
response_error (replied resp) = reply_error (cause_of resp) resp.attempts
response_error (failed (transport e) attempts) = some (transport e)
response_error (failed (plain e) attempts) = reply_error (some e) attempts

last_provider : Option AttemptEvidence → String
last_provider none = ""
last_provider (some a) = a.provider_id

unfoldable pub cancellation_response : List AttemptEvidence → Option Err → Reply
unfolding last_provider
cancellation_response attempts cause =
    failed
      (transport (record {
        kind = cancellation;
        provider_id = last_provider (last? attempts);
        response_code = pos 0;
        attempts = attempts;
        cause = cause;
      }))
      attempts
