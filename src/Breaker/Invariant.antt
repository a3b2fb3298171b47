-- ===== src/Breaker/Invariant.antt =====
-- circuit_breaker.go: what holds of a breaker between two calls.
use nntppool.Base.{
  ℕ, ◌^◌, ◌≤◌, ◌<◌, ◌≡◌, ◌⊎◌, Bool, true, false, List, [], ◌∷◌, ◌++◌, arith, length, length-append,
}
use Prim.Native.String.{String}
use nntppool.Breaker.{
  disabled, closed, opened, Completion, Lease, Breaker, failure_threshold, is_owner, new_breaker,
  acquire, prune_failures, open_locked, reset_locked, complete_probe, count_failure, complete,
  snapshot,
}

-- The stored state is never `half_open`; a closed breaker holds fewer failures than the threshold
-- and is reset otherwise; an open one has forgotten its failures; only an open one is probed.
pub record IsValid (b : Breaker) : Type 0 where
  pub off : b.enabled ≡ false → b.state ≡ disabled
  pub on : b.enabled ≡ true → (b.state ≡ closed) ⊎ (b.state ≡ opened)
  pub few : length b.failures < failure_threshold
  pub forgotten : b.state ≡ opened → length b.failures ≡ 0
  pub fresh : b.state ≡ closed → (b.cooldown_index ≡ 0) × (b.open_until ≡ 0)
  pub in_table : b.cooldown_index ≤ 4
  pub probed : b.probe_in_flight ≡ true → b.state ≡ opened
  pub word : b.generation < 2 ^ 64

-- A lease that `acquire` handed out carries the breaker's `enabled`.
abbrev pub IsLeaseOf : Breaker → Lease → Type 0
IsLeaseOf b l = is_owner l.breaker b ≡ true → l.enabled ≡ b.enabled

pub new_breaker-IsValid : (address : ℕ) (enabled : Bool) → IsValid (new_breaker address enabled)
unfolding new_breaker
new_breaker-IsValid address enabled = ground arith

pub acquire-IsValid :
    (b : Breaker) (id : String) (now : ℕ) → IsValid b → IsValid (acquire b id now).0
unfolding acquire
acquire-IsValid b id now v = ground arith

pub length-prune_failures-le : (now : ℕ) (ts : List ℕ) → length (prune_failures now ts) ≤ length ts
unfolding prune_failures
length-prune_failures-le now [] = omega arith
length-prune_failures-le now (t ∷ ts) = ground (arith, length-prune_failures-le now ts)

reset_locked-IsValid : (b : Breaker) → b.enabled ≡ true → IsValid (reset_locked b)
unfolding reset_locked
reset_locked-IsValid b e = ground arith

open_locked-IsValid :
    (b : Breaker) (at : ℕ) → b.enabled ≡ true → b.cooldown_index ≤ 4 → IsValid (open_locked b at)
unfolding open_locked
open_locked-IsValid b at e h = ground arith

count_failure-IsValid :
    (b : Breaker) (now at : ℕ)
    → IsValid b
    → b.state ≡ closed
    → b.enabled ≡ true
    → IsValid (count_failure b now at)
unfolding count_failure
count_failure-IsValid b now at v s e = ground (
  arith,
  open_locked-IsValid
      (record b { failures = prune_failures now b.failures ++ now ∷ []; cooldown_index = 0 }) at,
  length-append (prune_failures now b.failures) (now ∷ []),
)

complete_probe-IsValid :
    (b : Breaker) (c : Completion) (at : ℕ)
    → IsValid b
    → b.enabled ≡ true
    → IsValid (complete_probe b c at)
unfolding complete_probe open_locked
complete_probe-IsValid b c at v e = ground arith

-- `complete`, for every lease of the breaker and every completion, keeps the breaker valid.
pub complete-IsValid :
    (b : Breaker) (l : Lease) (c : Completion) (now at : ℕ)
    → IsValid b
    → IsLeaseOf b l
    → IsValid (complete b l c now at)
unfolding complete
complete-IsValid b l c now at v h = ground (
  arith,
  reset_locked-IsValid b,
  complete_probe-IsValid (record b { probe_in_flight = false }) c at,
  count_failure-IsValid b now at v,
)

pub snapshot-IsValid : (b : Breaker) (now : ℕ) → IsValid b → IsValid (snapshot b now).0
unfolding snapshot
snapshot-IsValid b now v = ground (arith, length-prune_failures-le now b.failures)
