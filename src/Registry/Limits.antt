-- ===== src/Registry/Limits.antt =====
-- The parameters of a provider, as a group uses them.
use nntppool.Base.{ℕ, ◌+◌, ◌≤◌, ◌<◌, ◌≡◌, arith, leb}
use nntppool.Registry.{Config, resolve_depths, start_quota}

-- Every connection may have at least one body and one ordinary STAT in flight, a body never more than
-- a STAT, and ordinary STATs leave the headroom of priority requests free.
pub resolve_depths-bounds :
    (p : Config)
    → let d = resolve_depths p in
      (1 ≤ d.inflight)
      × (d.inflight ≤ d.stat_inflight)
      × (1 ≤ d.background_stat_inflight)
      × (d.background_stat_inflight + d.priority_headroom ≤ d.stat_inflight)
      × (p.inflight ≤ d.inflight)
unfolding resolve_depths
resolve_depths-bounds p = ground arith

-- A quota that a group starts with is exceeded exactly when the bytes used before reach it, and its
-- period, where it has one, ends after now.
pub start_quota_lem :
    (p : Config) (now : ℕ)
    → 0 < p.quota_bytes
    → ((start_quota p now).exceeded ≡ leb p.quota_bytes p.quota_used)
      × (0 < p.quota_period → now < (start_quota p now).reset_at)
unfolding start_quota
start_quota_lem p now h = (ground arith, λ k. ground arith)
