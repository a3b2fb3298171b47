-- ===== src/Errors.antt =====
-- errors.go and nntp.go: error values, and what `errors.Is` and `errors.As` find in them. An error
-- is a tree: `wrap` is `fmt.Errorf` with one `%w`, `both` is `classifiedError` and `fmt.Errorf` with
-- two. `status` is `*Error`, `greeting` is `*greetingError`, `circuit` is `*CircuitBreakerError`.
-- The errors of package net are `net` with the answer of their `Timeout` method and the error they
-- unwrap to, and `address` for `*net.AddrError`; `context.DeadlineExceeded` and `net.ErrClosed` have
-- such a method too. A nil error is `none`. The texts of messages are kept only where the code reads
-- them.
pub mod Laws
mod Tests
use Prim.Native.String.{String}
use nntppool.Base.{
  ℕ, Bool, true, false, not, ◌||◌, [], Option, none, some, ◌==◌, leb, ltb, ◌&&◌, if◌then◌else◌,
  Bytes,
}
use nntppool.Base.Int.{ℤ, pos, negsuc, eq_ℤ}
use nntppool.Breaker.{BreakerError}

-- The values of `errors.New` that the code tests for.
pub data Sentinel : Type 0 where
  canceled deadline_exceeded eof unexpected_eof closed_pipe net_closed : Sentinel
  crc_mismatch body_corrupt protocol_desync quota_exceeded : Sentinel
  invalid_provider_configuration max_connections connection_died : Sentinel
  circuit_breaker_open abandoned_body_drain_limit fresh_transport_required : Sentinel
  background_stat_window_full : Sentinel

abbrev tag : Sentinel → ℕ
tag canceled = 0
tag deadline_exceeded = 1
tag eof = 2
tag unexpected_eof = 3
tag closed_pipe = 4
tag net_closed = 5
tag crc_mismatch = 6
tag body_corrupt = 7
tag protocol_desync = 8
tag quota_exceeded = 9
tag invalid_provider_configuration = 10
tag max_connections = 11
tag connection_died = 12
tag circuit_breaker_open = 13
tag abandoned_body_drain_limit = 14
tag fresh_transport_required = 15
tag background_stat_window_full = 16

abbrev pub same_sentinel : Sentinel → Sentinel → Bool
same_sentinel a b = tag a == tag b

pub data Err : Type 0 where
  sentinel : Sentinel → Err
  status : ℤ → Bytes → Err
  greeting : ℤ → Bytes → Err
  circuit : BreakerError → Err
  net : Bool → Err → Err
  address : Err
  text : String → Err
  wrap : String → Err → Err
  both : Err → Err → Err

-- What the code hands to `errors.Is`: a sentinel, or one of the `*Error` values by its code.
pub data Target : Type 0 where
  the : Sentinel → Target
  code : ℤ → Target

abbrev pub is_code : ℤ → ℕ → Bool
is_code (pos n) k = n == k
is_code (negsuc n) k = false

abbrev pub error_category : ℤ → ℤ
error_category c = if is_code c 423 || is_code c 430 then pos 430 else c

-- `ErrArticleNotFound`, `ErrAuthRequired`, ...: the package's `*Error` values, as targets.
abbrev pub article_not_found : Target
article_not_found = code (pos 430)

abbrev pub auth_required : Target
auth_required = code (pos 480)

abbrev pub auth_rejected : Target
auth_rejected = code (pos 481)

abbrev pub service_unavailable : Target
service_unavailable = code (pos 502)

-- `(*Error).Is`, which also covers the identity of two `*Error` values.
status_is : ℤ → Target → Bool
status_is c (the s) = false
status_is c (code d) = eq_ℤ (error_category c) (error_category d)

-- `(*greetingError).Is`.
greeting_is : ℤ → Target → Bool
unfolding status_is
greeting_is c t =
    if is_code c 400 || is_code c 502
    then names_max_connections t
    else if is_code c 480
    then status_is (pos 480) t
    else if is_code c 481
    then status_is (pos 481) t
    else false
  where
    names_max_connections : Target → Bool
    names_max_connections (the s) = same_sentinel s max_connections
    names_max_connections (code d) = false

sentinel_is : Sentinel → Target → Bool
sentinel_is s (the u) = same_sentinel s u
sentinel_is s (code d) = false

-- `errors.Is`.
unfoldable pub is : Err → Target → Bool
unfolding status_is greeting_is sentinel_is
is (sentinel s) t = sentinel_is s t
is (status c m) t = status_is c t
is (greeting c m) t = greeting_is c t
is (circuit e) t = sentinel_is circuit_breaker_open t
is (net timeout e) t = is e t
is address t = false
is (text m) t = false
is (wrap m e) t = is e t
is (both e f) t = is e t || is f t

abbrev pub or_else {ℓ} : {A : Type ℓ} → Option A → Option A → Option A
or_else (some a) o = some a
or_else none o = o

sentinel_net : Sentinel → Option Bool
sentinel_net deadline_exceeded = some true
sentinel_net net_closed = some false
sentinel_net _ = none

-- `errors.As` with a `net.Error`: the answer of its `Timeout` method.
unfoldable pub as_net : Err → Option Bool
unfolding sentinel_net
as_net (sentinel s) = sentinel_net s
as_net (status c m) = none
as_net (greeting c m) = none
as_net (circuit e) = none
as_net (net timeout e) = some timeout
as_net address = some false
as_net (text m) = none
as_net (wrap m e) = as_net e
as_net (both e f) = or_else (as_net e) (as_net f)

-- `errors.As` with an `*Error`: its code.
unfoldable pub as_status : Err → Option ℤ
as_status (sentinel s) = none
as_status (status c m) = some c
as_status (greeting c m) = none
as_status (circuit e) = none
as_status (net timeout e) = as_status e
as_status address = none
as_status (text m) = none
as_status (wrap m e) = as_status e
as_status (both e f) = or_else (as_status e) (as_status f)

-- `errors.As` with a `*net.AddrError`.
unfoldable pub has_address : Err → Bool
has_address (sentinel s) = false
has_address (status c m) = false
has_address (greeting c m) = false
has_address (circuit e) = false
has_address (net timeout e) = has_address e
has_address address = true
has_address (text m) = false
has_address (wrap m e) = has_address e
has_address (both e f) = has_address e || has_address f

-- `errors.Is` of an error that may be nil.
abbrev pub is? : Option Err → Target → Bool
is? none t = false
is? (some e) t = is e t

abbrev pub is_some {ℓ} : {A : Type ℓ} → Option A → Bool
is_some none = false
is_some (some a) = true

unfoldable pub with_error_classification : Err → Err → Target → Err
with_error_classification cause category as_target =
    if is cause as_target then cause else both cause category

abbrev pub success_code : ℤ → Bool
success_code (pos n) = leb 200 n && ltb n 400
success_code (negsuc n) = false

-- `toError`; the fresh `*Error` of the default case carries the server's text.
unfoldable pub to_error : ℤ → Bytes → Option Err
to_error c m =
    if success_code c
    then none
    else if is_code c 423 || is_code c 430
    then some (status (pos 430) [])
    else if is_code c 440
    then some (status (pos 440) [])
    else if is_code c 441
    then some (status (pos 441) [])
    else if is_code c 480
    then some (status (pos 480) [])
    else if is_code c 481
    then some (status (pos 481) [])
    else if is_code c 502
    then some (status (pos 502) [])
    else some (status c m)

is_net_failure : Option Bool → Bool
is_net_failure none = false
is_net_failure (some timeout) = not timeout

unfoldable pub is_connection_death_error : Option Err → Bool
unfolding is_net_failure
is_connection_death_error none = false
is_connection_death_error (some e) =
    if is e auth_required || is e auth_rejected || is e (the invalid_provider_configuration)
    then false
    else if is e (the connection_died)
        || is e (the eof)
        || is e (the unexpected_eof)
        || is e (the closed_pipe)
        || is e (the net_closed)
    then true
    else is_net_failure (as_net e)

unfoldable pub is_bootstrap_transport_error : Err → Bool
is_bootstrap_transport_error e =
    if is e (the canceled)
      || is e (the deadline_exceeded)
      || is e (the eof)
      || is e (the unexpected_eof)
      || is e (the closed_pipe)
      || is e (the net_closed)
    then true
    else is_some (as_net e)

abbrev pub configuration_error : Err → Err
configuration_error e =
    with_error_classification e (sentinel invalid_provider_configuration)
      (the invalid_provider_configuration)

unfoldable pub classify_dial_configuration_error : Option Err → Option Err
classify_dial_configuration_error none = none
classify_dial_configuration_error (some e) =
    if has_address e then some (configuration_error e) else some e

unfoldable pub classify_tls_configuration_error : Option Err → Option Err
classify_tls_configuration_error none = none
classify_tls_configuration_error (some e) =
    if is_bootstrap_transport_error e then some e else some (configuration_error e)

-- `authResponseError`: a refused AUTHINFO command, with the category of its reply.
unfoldable pub auth_response_error : String → ℤ → Bytes → Err
unfolding to_error
auth_response_error stage c message = elim (to_error c message) [
  | none ↦ with_error_classification (text stage) (status c message) (code c)
  | some category ↦ with_error_classification (text stage) category (code c)
]
