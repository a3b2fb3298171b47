-- ===== src/Dispatch/Tests.antt =====
-- nntp.go at concrete inputs: three providers, the first over its quota. Speeds are whole numbers.
use nntppool.Base.{
  ℕ, ◌*◌, ◌^◌, ◌<◌, min, max, ◌≡◌, ◌⊎◌, true, false, List, [], ◌∷◌, arith, ltb, leb,
}
use nntppool.Base.Int.{pos, ◌≤ℤ◌}
use nntppool.Dispatch.{
  Quota, attempt_timeout, min_attempt_timeout, max_attempt_timeout, Floats, Group, dispatch_weights,
  first_available, total_of, round_robin_start,
}
use nntppool.Dispatch.Choice.{accepts, ready, round_robin_start-accepts, first_available-first}
use nntppool.Dispatch.Quotas.{attempt_timeout-bounds}

abbrev whole : Floats
whole = record {
  F = ℕ;
  nought = 0;
  less = ltb;
  at_most = leb;
  score = λ speed top. pos (4 * speed);
}

abbrev spent : Quota
spent = record { bytes = 100; used = 100; exceeded = true; period = 50; reset_at = 70 }

abbrev fresh : Quota
fresh = record { bytes = 0; used = 0; exceeded = false; period = 0; reset_at = 0 }

abbrev group : Quota → ℕ → Group whole
group q n = record { quota = q; available = pos n; speed = 1 }

abbrev mains : List (Group whole)
mains = group spent 8 ∷ group fresh 3 ∷ group fresh 5 ∷ []

round_robin_start-accepts_example :
    ((counter : ℕ)
      → 0 < total_of 0 (dispatch_weights whole mains false 10).0
      → accepts whole 10 mains (round_robin_start (dispatch_weights whole mains false 10).0 counter)
        ≡ true)
    × ((i : ℕ)
        → accepts whole 10 mains i ≡ true
        → (counter : ℕ) × (round_robin_start (dispatch_weights whole mains false 10).0 counter ≡ i))
round_robin_start-accepts_example = round_robin_start-accepts whole mains false 10

first_available-first_example :
    ((ready whole 10 mains (first_available whole 10 mains 0).0 ≡ true)
      × ((j : ℕ) → j < (first_available whole 10 mains 0).0 → ready whole 10 mains j ≡ false))
    ⊎ (((first_available whole 10 mains 0).0 ≡ 0) × ((j : ℕ) → ready whole 10 mains j ≡ false))
first_available-first_example = first_available-first whole mains 10

attempt_timeout-bounds_example :
    (min_attempt_timeout ≤ℤ attempt_timeout (pos 0) (pos 900000000))
    × (attempt_timeout (pos 0) (pos 900000000) ≤ℤ max_attempt_timeout)
    × ((n : ℕ)
        → pos 900000000 ≡ pos n
        → n < 2 ^ 61
        → attempt_timeout (pos 0) (pos 900000000)
          ≡ pos (min (10 * 1000000000) (max (2 * 1000000000) (n * 4))))
attempt_timeout-bounds_example = attempt_timeout-bounds (pos 0) (pos 900000000) (omega arith)
