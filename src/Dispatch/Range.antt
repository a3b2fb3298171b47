-- ===== src/Dispatch/Range.antt =====
-- nntp.go: the index that a strategy chooses is that of a provider.
use nntppool.Base.{
  ℕ, ◌+◌, ◌%◌, ◌≤◌, ◌<◌, Bool, List, [], ◌∷◌, ◌≡◌, ◌⊎◌, inl, refl, arith, length, if◌then◌else◌,
}
use native.Mathlib.Nat.{mod-lt}
use nntppool.Dispatch.{
  Floats, Group, weigh, cumulate, max_speed_of, dispatch_weights, first_available, search_ints,
  total_of, round_robin_start,
}

module _ (fl : Floats) where
  pub first_available_range :
      (now : ℕ) (gs : List (Group fl)) (i : ℕ)
      → ((first_available fl now gs i).0 ≡ 0) ⊎ ((first_available fl now gs i).0 < i + length gs)
  unfolding first_available
  first_available_range now [] i = inl refl
  first_available_range now (g ∷ gs) i = ground (arith, first_available_range now gs (i + 1))

  cumulate_range :
      (speed_aware : Bool) (top : fl.F) (now total : ℕ) (gs : List (Group fl)) (x : ℕ)
      → total < x
      → x ≤ total_of total (cumulate fl speed_aware top now total gs).0
      → search_ints (cumulate fl speed_aware top now total gs).0 x < length gs
  unfolding cumulate search_ints
  cumulate_range speed_aware top now total [] x h k = absurd (omega (arith, h, k))
  cumulate_range speed_aware top now total (g ∷ gs) x h k =
      let w = (weigh fl speed_aware top now g).0 in
      ground (arith, cumulate_range speed_aware top now (total + w) gs x)

  pub round_robin_range :
      (speed_aware : Bool) (now counter : ℕ) (gs : List (Group fl))
      → let cum = (dispatch_weights fl gs speed_aware now).0 in
        (round_robin_start cum counter ≡ 0) ⊎ (round_robin_start cum counter < length gs)
  unfolding dispatch_weights round_robin_start
  round_robin_range speed_aware now counter gs =
      let top = if speed_aware then max_speed_of fl fl.nought gs else fl.nought in
      let cum = (cumulate fl speed_aware top now 0 gs).0 in
      ground (
        arith,
        cumulate_range speed_aware top now 0 gs (counter % total_of 0 cum + 1),
        mod-lt counter {m = total_of 0 cum},
      )
