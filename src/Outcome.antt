-- ===== src/Outcome.antt =====
-- errors.go: outcome kinds, attempt evidence, their classification, and the final transport error.
-- Times are nanoseconds.
pub mod Aggregate
pub mod Classes
mod Tests
use Prim.Native.String.{String}
use nntppool.Base.{
  ℕ, ◌+◌, ◌-◌, Bool, true, false, not, ◌&&◌, ◌||◌, Option, none, some, List, [], ◌∷◌, ltb, leb,
  ◌==◌, if◌then◌else◌, Bytes, ascii, bytes_eq,
}
use mathlib.Core.Logic.{ite}
use nntppool.Base.Int.{ℤ, pos}
use nntppool.Errors.{
  Err, Target, the, status, sentinel, canceled, deadline_exceeded, body_corrupt, crc_mismatch,
  quota_exceeded, circuit_breaker_open, invalid_provider_configuration, max_connections, is, is?,
  is_some, is_code, success_code, as_status, article_not_found, auth_required, auth_rejected,
  service_unavailable, with_error_classification,
}

pub data OutcomeKind : Type 0 where
  success hard_article_absence temporary_failure provider_unavailable : OutcomeKind
  corrupt_body cancellation transport_failure inconclusive : OutcomeKind

pub OutcomeKind-discrete : Discrete OutcomeKind
OutcomeKind-discrete = hlevel

pub data Operation : Type 0 where
  unknown body stat head article post : Operation

pub data BodyValidation : Type 0 where
  not_applicable not_requested valid invalid incomplete : BodyValidation

pub record AttemptEvidence : Type 0 where
  pub provider_id : String
  pub operation : Operation
  pub outcome : OutcomeKind
  pub response_code : ℤ
  pub body_validation : BodyValidation
  pub cause : Option Err
  pub provider_response_timeout : Bool
  pub pool_queue : ℕ
  pub head_wait : ℕ
  pub service : ℕ

pub record TransportError : Type 0 where
  pub kind : OutcomeKind
  pub provider_id : String
  pub response_code : ℤ
  pub attempts : List AttemptEvidence
  pub cause : Option Err

-- What a caller gets: a `*TransportError`, or an error that carries no attempts.
pub data SendError : Type 0 where
  plain : Err → SendError
  transport : TransportError → SendError

abbrev pub same_kind : OutcomeKind → OutcomeKind → Bool
same_kind a b = ite (OutcomeKind-discrete a b) true false

-- The command word, up to the first blank.
unfoldable pub command : Bytes → Bytes
command [] = []
command (c ∷ cs) =
    let rest = c ∷ command cs in if c == b' ' || c == 9 || c == 13 || c == 10 then [] else rest

abbrev lower : ℕ → ℕ
lower c = if leb b'A' c && leb c b'Z' then c + 32 else c

-- `bytes.EqualFold` against an ASCII word without 'k': besides the ASCII letters it folds the long s
-- (U+017F, two bytes) with 's'.
unfoldable pub fold : Bytes → Bytes
fold [] = []
fold (a ∷ []) = lower a ∷ []
fold (a ∷ b ∷ s) =
    let short = lower a ∷ fold (b ∷ s) in
    let long = b's' ∷ fold s in if a == 0xC5 && b == 0xBF then long else short

unfoldable pub operation_from_payload : Bytes → Operation
unfolding command fold
operation_from_payload payload =
    let word = fold (command payload) in
    if bytes_eq word (ascii "body")
    then body
    else if bytes_eq word (ascii "stat")
    then stat
    else if bytes_eq word (ascii "head")
    then head
    else if bytes_eq word (ascii "article")
    then article
    else if bytes_eq word (ascii "post")
    then post
    else unknown

abbrev pub is_article_operation : Operation → Bool
is_article_operation stat = true
is_article_operation body = true
is_article_operation head = true
is_article_operation article = true
is_article_operation _ = false

as_protocol_error : Option Err → Bool
as_protocol_error none = false
as_protocol_error (some e) = is_some (as_status e)

unfoldable pub classify_outcome : ℤ → Option Err → OutcomeKind
unfolding as_protocol_error
classify_outcome code err =
    if not (is_some err) && success_code code
    then success
    else if is? err (the canceled) || is? err (the deadline_exceeded)
    then cancellation
    else if is? err (the body_corrupt) || is? err (the crc_mismatch)
    then corrupt_body
    else if is? err (the circuit_breaker_open)
    then temporary_failure
    else if is? err service_unavailable
        || is? err auth_required
        || is? err auth_rejected
        || is? err (the quota_exceeded)
        || is? err (the invalid_provider_configuration)
        || is? err (the max_connections)
        || is_code code 502
    then provider_unavailable
    else if is_code code 423 || is_code code 430 || is? err article_not_found
    then hard_article_absence
    else if is_code code 451
    then temporary_failure
    else if as_protocol_error err
    then inconclusive
    else if is_some err
    then transport_failure
    else inconclusive

-- The three variables of the first loop of `newTransportError`.
pub record Summary : Type 0 where
  pub kind : OutcomeKind
  pub have_kind : Bool
  pub mixed : Bool

unfoldable pub summarize_one : Summary → OutcomeKind → Summary
summarize_one s o =
    if same_kind o success
    then s
    else if same_kind o cancellation
    then record { kind = cancellation; have_kind = true; mixed = false }
    else if same_kind s.kind cancellation
    then s
    else if not s.have_kind
    then record s { kind = o; have_kind = true }
    else if not (same_kind s.kind o)
    then record s { kind = inconclusive; mixed = true }
    else s

unfoldable pub summarize : Summary → List AttemptEvidence → Summary
summarize s [] = s
summarize s (a ∷ rest) = summarize (summarize_one s a.outcome) rest

abbrev pub no_summary : Summary
no_summary = record { kind = inconclusive; have_kind = false; mixed = false }

-- The loops that run from the last attempt down: the last one that passes.
unfoldable pub find_last {ℓ} : {A : Type ℓ} → (A → Bool) → List A → Option A
find_last p [] = none
find_last p (a ∷ rest) =
    let here = if p a then some a else none in
    elim (find_last p rest) [ some b ↦ some b | none ↦ here ]

abbrev pub representative : AttemptEvidence → Bool
representative a =
    not (same_kind a.outcome success)
    && not (same_kind a.outcome hard_article_absence)
    && is_some a.cause

abbrev pub or_cause : Option Err → Option Err → Option Err
or_cause (some e) c = some e
or_cause none c = c

mixed_cause : Option AttemptEvidence → Option Err → Option Err
mixed_cause none cause = cause
mixed_cause (some a) cause = or_cause a.cause cause

-- `withErrorClassification(cause, ErrArticleNotFound)`
absence_cause : OutcomeKind → Option Err → Option Err
absence_cause kind none = none
absence_cause kind (some e) =
    if same_kind kind hard_article_absence
    then some (with_error_classification e (status (pos 430) []) article_not_found)
    else some e

uniform_error :
    OutcomeKind → List AttemptEvidence → Option Err → Option AttemptEvidence → TransportError
unfolding absence_cause
uniform_error kind attempts cause none = record {
  kind = kind;
  provider_id = "";
  response_code = pos 0;
  attempts = attempts;
  cause = absence_cause kind cause;
}
uniform_error kind attempts cause (some a) = record {
  kind = kind;
  provider_id = a.provider_id;
  response_code = a.response_code;
  attempts = attempts;
  cause = absence_cause kind (or_cause a.cause cause);
}

unfoldable pub new_transport_error : List AttemptEvidence → Option Err → TransportError
unfolding mixed_cause uniform_error
new_transport_error attempts cause =
    let s : Summary = summarize no_summary attempts in
    if s.mixed
    then record {
      kind = s.kind;
      provider_id = "";
      response_code = pos 0;
      attempts = attempts;
      cause = absence_cause s.kind (mixed_cause (find_last representative attempts) cause);
    }
    else uniform_error s.kind attempts cause (find_last (λ a. same_kind a.outcome s.kind) attempts)
