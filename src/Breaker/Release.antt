-- ===== src/Breaker/Release.antt =====
-- circuit_breaker.go: a lease that is given back.
use Prim.Native.String.{String}
use nntppool.Base.{ℕ, false, ◌≡◌, arith}
use nntppool.Breaker.{
  Breaker, granted, refused, Acquired, Completion, acquire, complete, complete_probe, count_failure,
  open_locked, reset_locked,
}

-- The breaker after `acquire`, with the lease, if one was granted, given back.
abbrev pub given_back : Breaker → Acquired → Completion → ℕ → ℕ → Breaker
given_back b (granted l) c now at = complete b l c now at
given_back b (refused e) c now at = b

pub given_back_lem :
    (b : Breaker) (id : String) (t : ℕ) (c : Completion) (now at : ℕ)
    → b.probe_in_flight ≡ false
    → (given_back (acquire b id t).0 (acquire b id t).1 c now at).probe_in_flight ≡ false
unfolding acquire complete complete_probe count_failure open_locked reset_locked
given_back_lem b id t c now at p = ground arith
