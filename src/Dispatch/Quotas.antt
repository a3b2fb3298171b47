-- ===== src/Dispatch/Quotas.antt =====
-- nntp.go: quotas and the timeout of an attempt.
use nntppool.Base.{
  ℕ, ◌+◌, ◌*◌, ◌<◌, ◌^◌, min, max, ◌≡◌, ◌↔◌, Bool, true, false, arith, ltb, leb, ◌&&◌,
  if◌then◌else◌,
}
use nntppool.Base.Int.{ℤ, pos, ◌*ℤ◌, ◌≤ℤ◌}
use nntppool.Dispatch.{
  Quota, is_quota_exceeded, attempt_timeout, min_attempt_timeout, max_attempt_timeout,
}

-- The period of a quota has ended.
abbrev pub is_due : Quota → ℕ → Bool
is_due q now = ltb 0 q.period && ltb 0 q.reset_at && leb q.reset_at now

-- A quota is exceeded exactly if there is one, it has been reached, and its period has not ended. If
-- the period has ended, the count starts over and the next reset lies a period ahead; otherwise
-- nothing changes. Asking again at the same instant gives the same answer and changes nothing.
pub is_quota_exceeded_lem :
    (q : Quota) (now : ℕ)
    → let r = is_quota_exceeded q now in
      ((r.0 ≡ true) ↔ ((0 < q.bytes) × (q.exceeded ≡ true) × (is_due q now ≡ false)))
      × (r.1 ≡ (
          if ltb 0 q.bytes && q.exceeded && is_due q now
          then record q { used = 0; exceeded = false; reset_at = now + q.period }
          else q))
      × (is_quota_exceeded r.1 now ≡ r)
unfolding is_quota_exceeded
is_quota_exceeded_lem q now = ((λ h. ground arith, λ h. ground arith), ground arith, ground arith)

-- Without a timeout of its own a provider gets between 2 and 10 seconds, and four times its mean time
-- to the first byte where that lies between them and does not leave the range of int64.
pub attempt_timeout-bounds :
    (configured ttfb : ℤ)
    → configured ≤ℤ pos 0
    → (min_attempt_timeout ≤ℤ attempt_timeout configured ttfb)
      × (attempt_timeout configured ttfb ≤ℤ max_attempt_timeout)
      × ((n : ℕ)
          → ttfb ≡ pos n
          → n < 2 ^ 61
          → attempt_timeout configured ttfb
            ≡ pos (min (10 * 1000000000) (max (2 * 1000000000) (n * 4))))
unfolding attempt_timeout ◌*ℤ◌
attempt_timeout-bounds configured ttfb h = (ground arith, ground arith, λ n e k. ground arith)
