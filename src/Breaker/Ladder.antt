-- ===== src/Breaker/Ladder.antt =====
-- circuit_breaker.go: half-open probes and the cooldown ladder.
use nntppool.Base.{
  ℕ, ◌+◌, ◌≤◌, min, ◌≡◌, true, false, Option, none, some, List, [], ◌∷◌, arith, length,
}
use Prim.Native.String.{String}
use nntppool.Breaker.{
  opened, failure, Lease, Breaker, Acquired, granted, refused, cooldown_of, acquire, open_locked,
  complete_probe, complete,
}

abbrev lease_of : Acquired → Option Lease
lease_of (granted l) = some l
lease_of (refused e) = none

-- One request of a provider whose breaker is open: it acquires at `now`, and what it was granted
-- fails at `at`. A request that was refused completes nothing.
abbrev fail_granted : Breaker → Acquired → ℕ → Breaker
fail_granted b (granted l) at = complete b l failure at at
fail_granted b (refused e) at = b

unfoldable pub failed_request : Breaker → String → ℕ × ℕ → Breaker
failed_request b id (now, at) = fail_granted (acquire b id now).0 (acquire b id now).1 at

unfoldable pub failed_requests : Breaker → String → List (ℕ × ℕ) → Breaker
failed_requests b id [] = b
failed_requests b id (r ∷ rs) = failed_requests (failed_request b id r) id rs

-- Each request comes when the cooldown before it has ended, and no probe is left in flight.
abbrev pub IsIdle : Breaker → Type 0
IsIdle b = (b.enabled ≡ true) × (b.state ≡ opened) × (b.probe_in_flight ≡ false)

abbrev pub Timely : Breaker → String → List (ℕ × ℕ) → Type 0
Timely b id [] = Unit {0}
Timely b id (r ∷ rs) = (b.open_until ≤ r.0) × Timely (failed_request b id r) id rs

failed_request_lem :
    (b : Breaker) (id : String) (r : ℕ × ℕ)
    → IsIdle b
    → b.cooldown_index ≤ 4
    → b.open_until ≤ r.0
    → IsIdle (failed_request b id r)
      × ((failed_request b id r).cooldown_index ≡ min 4 (b.cooldown_index + 1))
      × ((failed_request b id r).open_until ≡ r.1 + cooldown_of (min 4 (b.cooldown_index + 1)))
unfolding failed_request acquire complete complete_probe open_locked
failed_request_lem b id (now, at) i m h = ground arith

-- After any number of half-open probes that fail, each begun when the cooldown before it had
-- ended, the breaker is open and idle, and its cooldown index has risen by one for each probe, up
-- to the last entry of the table.
pub failed_requests-climb :
    (b : Breaker) (id : String) (rs : List (ℕ × ℕ))
    → IsIdle b
    → b.cooldown_index ≤ 4
    → Timely b id rs
    → IsIdle (failed_requests b id rs)
      × ((failed_requests b id rs).cooldown_index ≡ min 4 (b.cooldown_index + length rs))
unfolding failed_requests
failed_requests-climb b id [] i m h = (i, omega arith)
failed_requests-climb b id (r ∷ rs) i m h =
    let step = failed_request_lem b id r i m h.0 in
    let rest =
      failed_requests-climb (failed_request b id r) id rs step.0 (omega (arith, step)) h.1 in
    (rest.0, omega (arith, step.1, rest.1))
