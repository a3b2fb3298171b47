-- ===== src/Outcome/Classes.antt =====
-- errors.go: the outcome of an answer by its status code alone.
use nntppool.Base.{◌≡◌, true, false, ◌||◌, Option, none, some, arith, if◌then◌else◌}
use nntppool.Base.{Bytes}
use nntppool.Base.Int.{ℤ, pos, negsuc}
use nntppool.Errors.{
  Err, the, circuit_breaker_open, is, is?, to_error, is_code, success_code, as_status,
}
use nntppool.Outcome.{
  OutcomeKind, success, hard_article_absence, temporary_failure, provider_unavailable, inconclusive,
  classify_outcome,
}

-- What a status code means, without an error of the transport.
unfoldable pub outcome_of_status : ℤ → OutcomeKind
outcome_of_status c =
    if success_code c
    then success
    else if is_code c 480 || is_code c 481 || is_code c 502
    then provider_unavailable
    else if is_code c 423 || is_code c 430
    then hard_article_absence
    else if is_code c 451
    then temporary_failure
    else inconclusive

-- An answer is classified by its status code alone, whatever text comes with it.
pub classify_outcome-to_error :
    (c : ℤ) (m : Bytes) → classify_outcome c (to_error c m) ≡ outcome_of_status c
unfolding classify_outcome to_error is as_status outcome_of_status
classify_outcome-to_error (pos n) m = ground arith
classify_outcome-to_error (negsuc n) m = ground arith

-- The error of a status is never the circuit breaker's.
pub to_error-circuit : (c : ℤ) (m : Bytes) → is? (to_error c m) (the circuit_breaker_open) ≡ false
unfolding to_error is
to_error-circuit c m = ground arith

-- Success leaves no error and needs a code of success.
pub classify_outcome-success :
    (c : ℤ) (e : Option Err) → classify_outcome c e ≡ success → (e ≡ none) × (success_code c ≡ true)
unfolding classify_outcome
classify_outcome-success c none h = ground arith
classify_outcome-success c (some e) h = ground arith
