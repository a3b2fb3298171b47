-- ===== src/Dispatch.antt =====
-- nntp.go: quotas, the timeout of an attempt, and the choice of the first provider of a request. The
-- readings of the clock within one choice are one instant, `now`, in Unix nanoseconds. Floating
-- point is the parameter `fl`. An int64 that is not positive where it disables something is 0.
pub mod Choice
pub mod Range
pub mod Quotas
mod Tests
use nntppool.Base.{
  ℕ, zero, suc, ◌+◌, ◌*◌, max, Bool, true, false, not, ◌&&◌, ◌||◌, List, [], ◌∷◌, ltb, leb, ◌==◌,
  ◌%◌, if◌then◌else◌,
}
use nntppool.Base.Int.{ℤ, pos, negsuc, ◌*ℤ◌, wrap64, ltb_ℤ, leb_ℤ}

pub record Quota : Type 0 where
  pub bytes : ℕ
  pub used : ℕ
  pub exceeded : Bool
  pub period : ℕ
  pub reset_at : ℕ

-- `isQuotaExceeded`, with what it leaves.
unfoldable pub is_quota_exceeded : Quota → ℕ → Bool × Quota
is_quota_exceeded q now =
    if q.bytes == 0
    then (false, q)
    else if not q.exceeded
    then (false, q)
    else if ltb 0 q.period && ltb 0 q.reset_at && leb q.reset_at now
    then (false, record q { used = 0; exceeded = false; reset_at = now + q.period })
    else (true, q)

abbrev pub min_attempt_timeout : ℤ
min_attempt_timeout = pos (2 * 1000000000)

abbrev pub max_attempt_timeout : ℤ
max_attempt_timeout = pos (10 * 1000000000)

-- Durations are int64 nanoseconds; the first argument is the provider's own timeout.
unfoldable pub attempt_timeout : ℤ → ℤ → ℤ
attempt_timeout configured ttfb =
    if ltb_ℤ (pos 0) configured
    then configured
    else if leb_ℤ ttfb (pos 0)
    then min_attempt_timeout
    else if ltb_ℤ (wrap64 (ttfb *ℤ pos 4)) min_attempt_timeout
    then min_attempt_timeout
    else if ltb_ℤ max_attempt_timeout (wrap64 (ttfb *ℤ pos 4))
    then max_attempt_timeout
    else wrap64 (ttfb *ℤ pos 4)

-- What the code does with a float64: comparison, and `int(4*speed/maxSpeed + 0.5)`.
pub record Floats : Type 1 where
  pub F : Type 0
  pub nought : F
  pub less : F → F → Bool
  pub at_most : F → F → Bool
  pub score : F → F → ℤ

module _ (fl : Floats) where
  pub record Group : Type 0 where
    pub quota : Quota
    pub available : ℤ
    pub speed : fl.F

  unfoldable pub speed_score : fl.F → fl.F → ℕ
  speed_score speed max_speed =
      if fl.at_most speed fl.nought then 4 else clamp (fl.score speed max_speed)
    where
      clamp : ℤ → ℕ
      clamp (pos n) = if ltb n 1 then 1 else if ltb 4 n then 4 else n
      clamp (negsuc n) = 1

  pub max_speed_of : fl.F → List Group → fl.F
  max_speed_of best [] = best
  max_speed_of best (g ∷ gs) = max_speed_of (if fl.less best g.speed then g.speed else best) gs

  -- `max(1, int(g.gate.available.Load()))`
  abbrev pub capacity : ℤ → ℕ
  capacity (pos n) = max 1 n
  capacity (negsuc n) = 1

  -- The weight of one provider, and the provider that is left.
  pub weigh : Bool → fl.F → ℕ → Group → ℕ × Group
  unfolding speed_score
  weigh speed_aware top now g =
      let (exceeded, q) = is_quota_exceeded g.quota now in
      let g' : Group = record g { quota = q } in
      if exceeded
      then (0, g')
      else if speed_aware && fl.less fl.nought top
      then (capacity g.available * speed_score g.speed top, g')
      else (capacity g.available, g')

  -- The loop of `dispatchWeights` from a running total: the cumulative weights, and the groups.
  pub cumulate : Bool → fl.F → ℕ → ℕ → List Group → List ℕ × List Group
  unfolding weigh
  cumulate speed_aware top now total [] = ([], [])
  cumulate speed_aware top now total (g ∷ gs) =
      let (w, g') = weigh speed_aware top now g in
      let (cum, gs') = cumulate speed_aware top now (total + w) gs in ((total + w) ∷ cum, g' ∷ gs')

  unfoldable pub dispatch_weights : List Group → Bool → ℕ → List ℕ × List Group
  unfolding cumulate max_speed_of
  dispatch_weights mains speed_aware now =
      cumulate speed_aware (if speed_aware then max_speed_of fl.nought mains else fl.nought) now 0
        mains

  -- The loop of the strategy that keeps the order.
  unfoldable pub first_available : ℕ → List Group → ℕ → ℕ × List Group
  first_available now [] i = (0, [])
  first_available now (g ∷ gs) i =
      let (exceeded, q) = is_quota_exceeded g.quota now in
      let rest = first_available now gs (i + 1) in
      if not (ltb_ℤ (pos 0) g.available)
      then (rest.0, g ∷ rest.1)
      else if exceeded
      then (rest.0, record g { quota = q } ∷ rest.1)
      else (i, record g { quota = q } ∷ gs)

-- `sort.SearchInts` of an ascending list: the first position that is not less.
unfoldable pub search_ints : List ℕ → ℕ → ℕ
search_ints [] x = 0
search_ints (c ∷ cs) x = let rest = search_ints cs x in if leb x c then 0 else suc rest

-- The last cumulative weight, the total.
abbrev pub total_of : ℕ → List ℕ → ℕ
total_of total [] = total
total_of total (c ∷ cs) = total_of c cs

-- The start of the round robin: `counter` is the value of `nextIdx` behind the increment.
unfoldable pub round_robin_start : List ℕ → ℕ → ℕ
unfolding search_ints
round_robin_start cum counter =
    if total_of 0 cum == 0 then 0 else search_ints cum (counter % total_of 0 cum + 1)
