-- ===== src/Dispatch/Choice.antt =====
-- nntp.go: which provider a request starts with.
use nntppool.Base.{
  ℕ, zero, suc, ◌+◌, ◌*◌, ◌%◌, ◌≤◌, ◌<◌, ◌≡◌, refl, ap, ◌∙◌, ◌⊎◌, inl, inr, Bool, true, false, not,
  ◌&&◌, List, [], ◌∷◌, arith, Bool-cases, leb, if◌then◌else◌,
}
use native.Mathlib.Nat.{mod-lt, mod-eq_of_lt}
use nntppool.Base.Int.{pos, ltb_ℤ}
use nntppool.Dispatch.{
  is_quota_exceeded, Floats, Group, speed_score, capacity, weigh, cumulate, max_speed_of,
  dispatch_weights, first_available, search_ints, total_of, round_robin_start,
}

module _ (fl : Floats) where
  -- The provider at position `i` is there and within its quota.
  abbrev pub accepts : ℕ → List (Group fl) → ℕ → Bool
  accepts now [] i = false
  accepts now (g ∷ gs) zero = not (is_quota_exceeded g.quota now).0
  accepts now (g ∷ gs) (suc i) = accepts now gs i

  speed_score_bounds :
      (speed top : fl.F) → (1 ≤ speed_score fl speed top) × (speed_score fl speed top ≤ 4)
  unfolding speed_score
  speed_score_bounds speed top = ground arith

  mul_pos : (a b : ℕ) → 1 ≤ a → 1 ≤ b → 1 ≤ a * b
  mul_pos a b h k = grind arith

  weigh_lem :
      (speed_aware : Bool) (top : fl.F) (now : ℕ) (g : Group fl)
      → ((is_quota_exceeded g.quota now).0 ≡ true → (weigh fl speed_aware top now g).0 ≡ 0)
        × ((is_quota_exceeded g.quota now).0 ≡ false → 1 ≤ (weigh fl speed_aware top now g).0)
  unfolding weigh
  weigh_lem speed_aware top now g = (
    λ e. ground arith,
    λ e.
        let c : 1 ≤ capacity fl g.available = ground arith in
        ground (
          arith,
          mul_pos (capacity fl g.available) (speed_score fl g.speed top) c
              (speed_score_bounds g.speed top).0,
        ),
  )

  module _ (speed_aware : Bool) (top : fl.F) (now : ℕ) where
    abbrev cums : ℕ → List (Group fl) → List ℕ
    cums acc gs = (cumulate fl speed_aware top now acc gs).0

    cums-accepts :
        (gs : List (Group fl)) (acc slot : ℕ)
        → acc ≤ slot
        → slot < total_of acc (cums acc gs)
        → accepts now gs (search_ints (cums acc gs) (slot + 1)) ≡ true
    unfolding cumulate search_ints
    cums-accepts [] acc slot h k = absurd (omega (arith, h, k))
    cums-accepts (g ∷ gs) acc slot h k =
        let w = (weigh fl speed_aware top now g).0 in
        elim (Bool-cases (leb (slot + 1) (acc + w))) [
          | inl e ↦ rw e (ground (arith, weigh_lem speed_aware top now g))
          | inr e ↦ rw e (cums-accepts gs (acc + w) slot (ground arith) k)
        ]

    total_grows : (gs : List (Group fl)) (acc : ℕ) → acc ≤ total_of acc (cums acc gs)
    unfolding cumulate
    total_grows [] acc = omega arith
    total_grows (g ∷ gs) acc =
        omega (arith, total_grows gs (acc + (weigh fl speed_aware top now g).0))

    accepts-cums :
        (gs : List (Group fl)) (acc i : ℕ)
        → accepts now gs i ≡ true
        → (slot : ℕ) × (acc ≤ slot)
          × (slot < total_of acc (cums acc gs))
          × (search_ints (cums acc gs) (slot + 1) ≡ i)
    unfolding cumulate search_ints
    accepts-cums [] acc i h = cc
    accepts-cums (g ∷ gs) acc zero h =
        let w = (weigh fl speed_aware top now g).0 in
        let p : 1 ≤ w = ground (arith, weigh_lem speed_aware top now g) in
        (acc, omega arith, omega (arith, p, total_grows gs (acc + w)), ground (arith, p))
    accepts-cums (g ∷ gs) acc (suc i) h =
        let w = (weigh fl speed_aware top now g).0 in
        let (slot, l, t, q) = accepts-cums gs (acc + w) i h in
        (slot, omega (arith, l), t, ground (arith, q, l))

  start_lem :
      (cum : List ℕ) (counter : ℕ)
      → 0 < total_of 0 cum
      → round_robin_start cum counter ≡ search_ints cum (counter % total_of 0 cum + 1)
  unfolding round_robin_start
  start_lem cum counter h = ground arith

  -- The round robin starts with a provider within its quota, if the weights are not all 0; and every
  -- provider within its quota is the start for some value of the counter.
  pub round_robin_start-accepts :
      (mains : List (Group fl)) (speed_aware : Bool) (now : ℕ)
      → let cum = (dispatch_weights fl mains speed_aware now).0 in
        ((counter : ℕ)
          → 0 < total_of 0 cum
          → accepts now mains (round_robin_start cum counter) ≡ true)
        × ((i : ℕ)
            → accepts now mains i ≡ true
            → (counter : ℕ) × (round_robin_start cum counter ≡ i))
  unfolding dispatch_weights
  round_robin_start-accepts mains speed_aware now =
      let top = if speed_aware then max_speed_of fl fl.nought mains else fl.nought in
      let cum = cums speed_aware top now 0 mains in
      (
        λ counter h.
            ap (accepts now mains) (start_lem cum counter h)
            ∙ cums-accepts speed_aware top now mains 0 (counter % total_of 0 cum) (omega arith)
                (mod-lt counter h),
        λ i h.
            let (slot, l, t, q) = accepts-cums speed_aware top now mains 0 i h in
            (
              slot,
              start_lem cum slot (omega (arith, t))
                  ∙ ap (λ k. search_ints cum (k + 1)) (mod-eq_of_lt t)
                  ∙ q,
            ),
      )

  -- The provider at position `i` has a free connection and is within its quota.
  abbrev pub ready : ℕ → List (Group fl) → ℕ → Bool
  ready now [] i = false
  ready now (g ∷ gs) zero = ltb_ℤ (pos 0) g.available && not (is_quota_exceeded g.quota now).0
  ready now (g ∷ gs) (suc i) = ready now gs i

  first_lem :
      (now : ℕ) (gs : List (Group fl)) (i : ℕ)
      → let start = (first_available fl now gs i).0 in
        ((k : ℕ) × (start ≡ i + k)
          × (ready now gs k ≡ true)
          × ((j : ℕ) → j < k → ready now gs j ≡ false))
        ⊎ ((start ≡ 0) × ((j : ℕ) → ready now gs j ≡ false))
  unfolding first_available
  first_lem now [] i = inr (refl, λ j. refl)
  first_lem now (g ∷ gs) i = elim (Bool-cases (ready now (g ∷ gs) zero)) [
    | inl e ↦ inl (0, ground arith, e, λ j h. absurd (omega (arith, h)))
    | inr e ↦ elim (first_lem now gs (i + 1)) [
      | inl (k, q, r, n) ↦ inl (suc k, ground (arith, q), r, λ j. earlier j k e n)
      | inr (q, n) ↦ inr (ground (arith, q), λ j. never j e n)
    ]
  ]
    where
      earlier :
          (j k : ℕ)
          → ready now (g ∷ gs) zero ≡ false
          → ((j : ℕ) → j < k → ready now gs j ≡ false)
          → j < suc k
          → ready now (g ∷ gs) j ≡ false
      earlier zero k e n h = e
      earlier (suc j) k e n h = n j (omega (arith, h))

      never :
          (j : ℕ)
          → ready now (g ∷ gs) zero ≡ false
          → ((j : ℕ) → ready now gs j ≡ false)
          → ready now (g ∷ gs) j ≡ false
      never zero e n = e
      never (suc j) e n = n j

  -- The strategy that keeps the order starts with the first provider that has a free connection and
  -- is within its quota, and with the first of all if there is none.
  pub first_available-first :
      (mains : List (Group fl)) (now : ℕ)
      → let start = (first_available fl now mains 0).0 in
        ((ready now mains start ≡ true) × ((j : ℕ) → j < start → ready now mains j ≡ false))
        ⊎ ((start ≡ 0) × ((j : ℕ) → ready now mains j ≡ false))
  first_available-first mains now = elim (first_lem now mains 0) [
    | inr r ↦ inr r
    | inl (k, q, r, n) ↦
        let e : (first_available fl now mains 0).0 ≡ k = omega (arith, q) in
        inl (ap (ready now mains) e ∙ r, λ j h. n j (omega (arith, h, e)))
  ]
