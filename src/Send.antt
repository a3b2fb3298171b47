-- ===== src/Send.antt =====
-- nntp.go: one request on its way to a provider. A provider group is what the code reads of it; all
-- that changes behind the request's back, and all that it changes, is the state of a `World`: the
-- connections that answer, the contexts, the clock, the breakers and quotas of the groups, the lists
-- of providers. A world is a parameter of all that follows.
pub mod Fuel
pub mod Group
pub mod Resilient
pub mod Visit
pub mod Race
pub mod Start
pub mod Failover
pub mod Walk
pub mod Steady
pub mod Bounded
pub mod Promise
pub mod Released
pub mod Probe
mod Tests
use Prim.Native.String.{String}
use nntppool.Base.{ℕ, Bool, Option, List, Bytes}
use nntppool.Base.Int.{ℤ}
use nntppool.Errors.{Err}
use nntppool.Breaker.{Breaker}
use nntppool.Dispatch.{Quota, Floats}
use nntppool.Attempt.{Response451Policy, Request, Response}

-- `reconnects` is `ReconnectDelay > 0`.
pub record Provider : Type 0 where
  pub name : String
  pub id : String
  pub policy : Response451Policy
  pub reconnects : Bool

-- What a caller asks for. `writer` tells whether there is a `bodyWriter`.
pub record Call : Type 0 where
  pub payload : Bytes
  pub writer : Bool
  pub validate_body : Bool
  pub priority : Bool

-- What a connection has stored in the request when its fate is known.
pub record Marks : Type 0 where
  pub written_at : ℕ
  pub response_head_at : ℕ
  pub decoded_committed : Bool
  pub ctx_err : Option Err

-- Which case of the `select` statements of `tryGroup` is taken; the cases before and after the
-- request was handed over return the same. `request_done` tells whether the caller's own context
-- has ended.
pub data Fate : Type 0 where
  delivered : Response → Fate
  channel_closed group_done : Fate
  client_done : Err → Fate
  request_done : Err → Bool → Fate

-- `submit` takes a request to its fate, with or without the caller's writer; `pause` waits out the
-- delay before a retry, or tells that the caller's context ended first.
pub record World : Type 1 where
  pub W : Type 0
  pub floats : Floats
  pub submit : W → Provider → Request → Bool → W × Marks × Fate
  pub clock : W → W × ℕ
  pub pause : W → W × Bool
  pub ctx_err : W → Option Err
  pub client_err : W → Option Err
  pub breaker : W → Provider → Breaker
  pub put_breaker : W → Provider → Breaker → W
  pub quota : W → Provider → Quota
  pub put_quota : W → Provider → Quota → W
  pub available : W → Provider → ℤ
  pub speed : W → Provider → floats.F
  pub remove : W → String → W
  pub reconnect : W → Provider → W
  pub bump : W → W × ℕ
  pub mains : W → List Provider
  pub backups : W → List Provider

-- The client's settings. `fifo` is `DispatchFIFO`; every other strategy is the round robin.
pub record Settings : Type 0 where
  pub fifo : Bool
  pub speed_aware : Bool
  pub stat_probe : Bool

-- What `tryGroup` and `tryGroupResilient` return.
pub record Tried (W : Type 0) : Type 0 where
  pub world : W
  pub resp : Response
  pub ok : Bool
  pub cancelled : Bool
