-- ===== src/Breaker/Tests.antt =====
-- circuit_breaker.go at concrete inputs.
use nntppool.Base.{
  ℕ, ◌+◌, ◌*◌, ◌^◌, ◌<◌, min, ◌≡◌, refl, true, false, some, List, [], ◌∷◌, arith, dec_lt, length,
  leb, if◌then◌else◌,
}
use nntppool.Breaker.{
  closed, opened, half_open, Completion, failure, Lease, Breaker, refused, second, new_breaker,
  acquire, complete,
}
use nntppool.Breaker.Invariant.{IsValid}
use nntppool.Breaker.Window.{Counted, complete-Counted}
use nntppool.Breaker.Ladder.{failed_request, failed_requests, IsIdle, failed_requests-climb}
use nntppool.Breaker.Exclusive.{
  System, acquires, completes, start, Reach, here, next, probes, bit, probe_exclusive,
  probe_refuses,
}

-- A closed breaker with two failures, at 100 s and 110 s.
abbrev strained : Breaker
strained = record {
  address = 7;
  enabled = true;
  state = closed;
  failures = 100 * second ∷ 110 * second ∷ [];
  cooldown_index = 0;
  open_until = 0;
  probe_in_flight = false;
  generation = 4;
}

abbrev ordinary : Lease
ordinary = record { breaker = some 7; generation = 4; enabled = true; probe = false }

abbrev tripped : Breaker
tripped = complete strained ordinary failure (120 * second) (120 * second)

strained-IsValid : IsValid strained
strained-IsValid = ground arith

third_failure_opens : (tripped.state ≡ opened) × (tripped.open_until ≡ 130 * second)
unfolding complete
third_failure_opens = (refl, refl)

-- The first failure has left the window.
late_failure_counts :
    (complete strained ordinary failure (131 * second) (131 * second)).failures
    ≡ 110 * second ∷ 131 * second ∷ []
unfolding complete
late_failure_counts = refl

complete-Counted_example :
    Counted strained
      (120 * second)
      (120 * second)
      (complete strained ordinary failure (120 * second) (120 * second))
complete-Counted_example =
    complete-Counted strained ordinary (120 * second) (120 * second) refl (omega arith) refl refl
      refl refl

abbrev resting : Breaker
resting = record strained { state = opened; failures = []; open_until = 130 * second }

abbrev probes_at : List (ℕ × ℕ)
probes_at = (130 * second, 131 * second) ∷ (151 * second, 152 * second) ∷ []

failed_requests-climb_example :
    IsIdle (failed_requests resting "news" probes_at)
    × ((failed_requests resting "news" probes_at).cooldown_index ≡ min 4 (0 + length probes_at))
unfolding failed_requests failed_request acquire complete
failed_requests-climb_example =
    failed_requests-climb resting "news" probes_at (refl, refl, refl) (omega arith)
      (omega arith, (omega arith, tt))

-- Reachable systems by evaluation.
record Run : Type 0 where
  last : System
  reach : Reach 7 last

request : Run → ℕ → Run
request r now = record { last = _; reach = next r.reach (acquires r.last "news" now) }

finish_head : (r : Run) (ls : List Lease) → r.last.leases ≡ ls → Completion → ℕ → Run
unfolding dec_lt
finish_head r [] e c now = r
finish_head r (l ∷ ls) e c now = elim (dec_lt (r.last.breaker.generation + 1) (2 ^ 64)) [
  | yes h ↦ record { last = _; reach = next r.reach (completes r.last [] l ls c now now e h) }
  | no _ ↦ r
]

finish : Run → Completion → ℕ → Run
unfolding finish_head
finish r c now = finish_head r r.last.leases refl c now

failing : Run → ℕ → Run
unfolding request finish
failing r now = finish (request r now) failure now

abbrev began : Run
began = record { last = start 7; reach = here }

probing : Run
unfolding failing request finish
probing = request (failing (failing (failing began 1) 2) 3) (11 * second)

probe_exclusive_example :
    probes probing.last.breaker.generation probing.last.leases
    ≡ bit probing.last.breaker.probe_in_flight
probe_exclusive_example = probe_exclusive probing.reach

probing_probes : 0 < probes probing.last.breaker.generation probing.last.leases
unfolding probing acquire complete new_breaker
probing_probes = omega arith

probe_refuses_example : acquire probing.last.breaker "news" (12 * second) ≡ (
  probing.last.breaker,
  refused (record {
    provider_id = "news";
    state = if leb probing.last.breaker.open_until (12 * second) then half_open else opened;
    retry_at = probing.last.breaker.open_until;
  }),
)
probe_refuses_example = probe_refuses probing.reach probing_probes "news" (12 * second)
