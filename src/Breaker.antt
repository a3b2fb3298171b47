-- ===== src/Breaker.antt =====
-- circuit_breaker.go: the provider circuit breaker: `acquire`, `complete` and `snapshot`, with the
-- helpers that run under its lock. A method that mutates the breaker returns the new record; the
-- mutex makes each method one step. The clock is an argument: `now` is the method's own reading of
-- `clock.Now()`, and `at` the one that `openLocked` makes. Times are nanoseconds since the zero
-- `time.Time`, so `Before` is `<`. `lease.breaker` is the address of a breaker, `none` for the nil
-- pointer of the zero lease. Indexing the cooldown table out of range would panic; the invariant
-- in Breaker/Invariant.antt keeps the index in range.
pub mod Invariant
pub mod Window
pub mod Ladder
pub mod Exclusive
pub mod Release
mod Tests
use Prim.Native.String.{String}
use nntppool.Base.{
  ℕ, ◌+◌, ◌-◌, ◌*◌, ◌%◌, ◌^◌, Bool, true, false, not, ◌||◌, Option, none, some, List, [], ◌∷◌, ◌++◌,
  ltb, leb, ◌==◌, if◌then◌else◌, length, get_or,
}

pub data BreakerState : Type 0 where
  disabled closed opened half_open : BreakerState

pub data Completion : Type 0 where
  neutral success failure : Completion

pub record BreakerStats : Type 0 where
  pub state : BreakerState
  pub qualifying_failures : ℕ
  pub open_until : ℕ
  pub cooldown : ℕ
  pub probe_in_flight : Bool

pub record BreakerError : Type 0 where
  pub provider_id : String
  pub state : BreakerState
  pub retry_at : ℕ

pub record Lease : Type 0 where
  pub breaker : Option ℕ
  pub generation : ℕ  -- uint64
  pub enabled : Bool
  pub probe : Bool

pub record Breaker : Type 0 where
  pub address : ℕ
  pub enabled : Bool
  pub state : BreakerState
  pub failures : List ℕ
  pub cooldown_index : ℕ
  pub open_until : ℕ
  pub probe_in_flight : Bool
  pub generation : ℕ  -- uint64

abbrev pub second : ℕ
second = 1_000_000_000

abbrev pub failure_threshold : ℕ
failure_threshold = 3

abbrev pub failure_window : ℕ
failure_window = 30 * second

abbrev pub cooldowns : List ℕ
cooldowns = 10 * second ∷ 20 * second ∷ 40 * second ∷ 80 * second ∷ 120 * second ∷ []

abbrev pub cooldown_of : ℕ → ℕ
cooldown_of i = get_or cooldowns i 0

-- uint64 increment
abbrev pub next_generation : ℕ → ℕ
next_generation g = (g + 1) % 2 ^ 64

abbrev pub is_closed : BreakerState → Bool
is_closed closed = true
is_closed _ = false

abbrev pub is_opened : BreakerState → Bool
is_opened opened = true
is_opened _ = false

abbrev pub is_success : Completion → Bool
is_success success = true
is_success _ = false

abbrev pub is_failure : Completion → Bool
is_failure failure = true
is_failure _ = false

unfoldable pub new_breaker : ℕ → Bool → Breaker
new_breaker address enabled = record {
  address = address;
  enabled = enabled;
  state = if enabled then closed else disabled;
  failures = [];
  cooldown_index = 0;
  open_until = 0;
  probe_in_flight = false;
  generation = 0;
}

pub data Acquired : Type 0 where
  granted : Lease → Acquired
  refused : BreakerError → Acquired

unfoldable pub acquire : Breaker → String → ℕ → Breaker × Acquired
acquire b provider_id now =
    if not b.enabled || is_closed b.state
    then (b, granted lease)
    else if leb b.open_until now
    then (if not b.probe_in_flight
        then (record b { probe_in_flight = true }, granted (record lease { probe = true }))
        else (b, refused (error half_open)))
    else (b, refused (error opened))
  where
    lease : Lease
    lease = record {
      breaker = some b.address;
      generation = b.generation;
      enabled = b.enabled;
      probe = false;
    }

    error : BreakerState → BreakerError
    error state = record { provider_id = provider_id; state = state; retry_at = b.open_until }

-- The loop stops at the first failure that is not before `now - failure_window`.
unfoldable pub prune_failures : ℕ → List ℕ → List ℕ
prune_failures now [] = []
prune_failures now (t ∷ ts) =
    let rest = prune_failures now ts in if ltb (t + failure_window) now then rest else t ∷ ts

unfoldable pub open_locked : Breaker → ℕ → Breaker
open_locked b at = record b {
  state = opened;
  failures = [];
  probe_in_flight = false;
  open_until = at + cooldown_of b.cooldown_index;
  generation = next_generation b.generation;
}

unfoldable pub reset_locked : Breaker → Breaker
reset_locked b = record b {
  state = closed;
  failures = [];
  cooldown_index = 0;
  open_until = 0;
  probe_in_flight = false;
  generation = next_generation b.generation;
}

abbrev pub is_owner : Option ℕ → Breaker → Bool
is_owner none b = false
is_owner (some address) b = address == b.address

-- The probe's branch of `complete`, once `probe_in_flight` is cleared.
pub complete_probe : Breaker → Completion → ℕ → Breaker
unfolding open_locked
complete_probe b c at =
    if is_failure c
    then open_locked
        (if ltb b.cooldown_index (length cooldowns - 1)
          then record b { cooldown_index = b.cooldown_index + 1 }
          else b)
        at
    else b

-- The counting branch of `complete`.
pub count_failure : Breaker → ℕ → ℕ → Breaker
unfolding open_locked prune_failures
count_failure b now at =
    let failures' : List ℕ = prune_failures now b.failures ++ now ∷ [] in
    let b' : Breaker = record b { failures = failures' } in
    if leb failure_threshold (length failures')
    then open_locked (record b' { cooldown_index = 0 }) at
    else b'

unfoldable pub complete : Breaker → Lease → Completion → ℕ → ℕ → Breaker
unfolding complete_probe count_failure reset_locked
complete b l c now at =
    if not l.enabled || not (is_owner l.breaker b)
    then b
    else if is_success c
    then reset_locked b
    else if not (l.generation == b.generation)
    then b
    else if l.probe
    then (if not b.probe_in_flight
        then b
        else complete_probe (record b { probe_in_flight = false }) c at)
    else if not (is_failure c) || not (is_closed b.state)
    then b
    else count_failure b now at

unfoldable pub snapshot : Breaker → ℕ → Breaker × BreakerStats
unfolding prune_failures
snapshot b now =
    if not b.enabled
    then (b, off)
    else if is_closed b.state
    then (pruned, stats pruned closed)
    else (b, stats b (if leb b.open_until now then half_open else b.state))
  where
    off : BreakerStats
    off = record {
      state = disabled;
      qualifying_failures = 0;
      open_until = 0;
      cooldown = 0;
      probe_in_flight = false;
    }

    pruned : Breaker
    pruned = record b { failures = prune_failures now b.failures }

    stats : Breaker → BreakerState → BreakerStats
    stats p state = record {
      state = state;
      qualifying_failures = length p.failures;
      open_until = p.open_until;
      cooldown = if is_opened p.state then cooldown_of p.cooldown_index else 0;
      probe_in_flight = p.probe_in_flight;
    }
