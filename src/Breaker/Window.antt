-- ===== src/Breaker/Window.antt =====
-- circuit_breaker.go: failure counting. The pruned list against a filter, and when it opens.
use nntppool.Base.{
  ℕ, ◌+◌, ◌*◌, ◌≤◌, ◌<◌, ◌≡◌, refl, true, false, List, [], ◌∷◌, ◌++◌, arith, length, length-append,
  leb, if◌then◌else◌,
}
use nntppool.Breaker.{
  closed, opened, failure, Lease, Breaker, failure_window, second, next_generation, is_owner,
  prune_failures, open_locked, count_failure, complete,
}

abbrev pub AllFrom : ℕ → List ℕ → Type 0
AllFrom s [] = Unit {0}
AllFrom s (u ∷ us) = (s ≤ u) × AllFrom s us

-- Failure times as `append` leaves them under a clock that does not go back.
abbrev pub Ascending : List ℕ → Type 0
Ascending [] = Unit {0}
Ascending (t ∷ ts) = AllFrom t ts × Ascending ts

-- The failures of the last thirty seconds, one by one.
pub recent : ℕ → List ℕ → List ℕ
recent now [] = []
recent now (t ∷ ts) = if leb now (t + failure_window) then t ∷ recent now ts else recent now ts

recent_of_AllFrom :
    (now s : ℕ) (ts : List ℕ) → now ≤ s + failure_window → AllFrom s ts → recent now ts ≡ ts
unfolding recent
recent_of_AllFrom now s [] h a = refl
recent_of_AllFrom now s (t ∷ ts) h a = ground (arith, recent_of_AllFrom now s ts h a.1)

-- On ascending failure times, dropping the stale prefix keeps exactly the failures in the window.
pub prune_failures-eq-recent :
    (now : ℕ) (ts : List ℕ) → Ascending ts → prune_failures now ts ≡ recent now ts
unfolding prune_failures recent
prune_failures-eq-recent now [] a = refl
prune_failures-eq-recent now (t ∷ ts) a =
    ground (arith, prune_failures-eq-recent now ts a.1, recent_of_AllFrom now t ts)

pub prune_failures-Ascending :
    (now : ℕ) (ts : List ℕ) → Ascending ts → Ascending (prune_failures now ts)
unfolding prune_failures
prune_failures-Ascending now [] a = tt
prune_failures-Ascending now (t ∷ ts) a = ground (arith, prune_failures-Ascending now ts a.1)

-- What one counted failure of a closed breaker does.
pub record Counted (b : Breaker) (now at : ℕ) (b' : Breaker) : Type 0 where
  pub opens :
      2 ≤ length (recent now b.failures)
      → (b'.state ≡ opened)
        × (b'.open_until ≡ at + 10 * second)
        × (b'.failures ≡ [])
        × (b'.generation ≡ next_generation b.generation)
  pub counts :
      length (recent now b.failures) < 2
      → (b'.state ≡ closed)
        × (b'.failures ≡ recent now b.failures ++ now ∷ [])
        × (b'.generation ≡ b.generation)

-- A failure of an ordinary request that holds a current lease opens a closed breaker for ten
-- seconds if two or more earlier failures lie in the window of thirty seconds that ends at `now`,
-- and is otherwise only recorded behind those.
pub complete-Counted :
    (b : Breaker) (l : Lease) (now at : ℕ)
    → b.state ≡ closed
    → Ascending b.failures
    → l.enabled ≡ true
    → l.probe ≡ false
    → is_owner l.breaker b ≡ true
    → l.generation ≡ b.generation
    → Counted b now at (complete b l failure now at)
unfolding complete count_failure open_locked
complete-Counted b l now at s a e p o g = ground (
  arith,
  prune_failures-eq-recent now b.failures a,
  length-append (recent now b.failures) (now ∷ []),
)
