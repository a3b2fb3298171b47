-- ===== src/Send/Walk/Racing.antt =====
-- What holds along `raceCandidates`.
use nntppool.Base.{
  ℕ, true, false, not, ◌&&◌, Option, none, some, List, [], ◌∷◌, ◌≡◌, refl, sym, subst, ◌⊎◌, inl,
  inr, Bytes, Option-cases, if_both, option_both,
}
use nntppool.Errors.{Err, success_code}
use nntppool.Attempt.{attempt_committed_resp}
use nntppool.Send.{Provider, Call, World, Tried}
use nntppool.Send.Fuel.{Yields, bind-Yields}
use nntppool.Send.Resilient.{try_group_resilient}
use nntppool.Send.Visit.{judge, Trail, noted, with_error, biased, answer}
use nntppool.Send.Race.{
  End, delivered, cancelled, exhausted, live_of, on_single, probe_all, Poll, tally_one, tally,
  try_winners, after_poll, race_live, race_candidates, with_race, hasty, stat_call,
}
use nntppool.Send.Walk.{
  Keeps, Ends, After, Good, Good-Inv, Trusted, IsAnswer, success_refutes, success-absence,
  expelled-keeps, on_met-Good, test_quota-keeps, pass_over-keeps, biased-keeps, After-met,
}

module _ (𝕎 : World) (Inv Fin : 𝕎.W → Type 0) (k : Keeps 𝕎 Inv Fin) where
  live_of-keeps :
      (call : Call) (gs : List Provider) (s : Trail 𝕎)
      → Inv s.world
      → Inv (live_of 𝕎 call gs s).0.world
  unfolding live_of
  live_of-keeps call [] s i = i
  live_of-keeps call (g ∷ gs) s i =
      let j = test_quota-keeps 𝕎 Inv Fin s.world g k i in
      live_of-keeps call gs _
        (if_both {A = Trail 𝕎} (λ z. Inv z.world) _ (pass_over-keeps 𝕎 Inv Fin call g _ k j) j)

  on_single-Inv :
      (call : Call) (g : Provider) (s : Trail 𝕎) (t : Tried 𝕎.W)
      → Inv s.world
      → Good 𝕎 Inv Fin (on_single 𝕎 call g s t)
  unfolding on_single
  on_single-Inv call g s t i =
      let G = Good 𝕎 Inv Fin in
      let good = Good-Inv 𝕎 Inv Fin in
      if_both G t.cancelled (good s cancelled i) (
        if_both G (not t.ok) (good s exhausted i) (
          option_both G t.resp.err
            (if_both G _ (good _ exhausted (expelled-keeps 𝕎 Inv Fin g s k i))
              (if_both G _ (good _ exhausted (biased-keeps 𝕎 Inv Fin s k i)) (good s _ i)))
            (λ e. if_both G _ (good s _ i) (good (with_error 𝕎 s e) exhausted i))))

  on_single-answer :
      (call : Call) (g : Provider) (s : Trail 𝕎) (t : Tried 𝕎.W)
      → t.cancelled ≡ false
      → t.ok ≡ true
      → IsAnswer call.writer t.resp
      → on_single 𝕎 call g s t ≡ (s, delivered (answer t.resp s.attempts))
  unfolding on_single attempt_committed_resp
  on_single-answer call g s t c o a = elim (Option-cases t.resp.err) [
    | inl p ↦
        let a' : success_code t.resp.status_code ≡ true = rw (p) at a in
        simp (c, o, p, success_refutes t.resp.status_code 502 a' refl, success-absence t.resp a')
    | inr (e, p) ↦
        let a' : (call.writer && attempt_committed_resp t.resp) ≡ true = rw (p) at a in
        simp (c, o, p, a')
  ]

  on_single-Good :
      (call : Call) (g : Provider) (s : Trail 𝕎) (t : Tried 𝕎.W)
      → Inv s.world ⊎ (Fin s.world × Ends 𝕎 Inv Fin call.writer t)
      → Good 𝕎 Inv Fin (on_single 𝕎 call g s t)
  unfolding on_single Good
  on_single-Good call g s t (inl i) = on_single-Inv call g s t i
  on_single-Good call g s t (inr (f, (wr, inl c))) = rw (c) (inr f)
  on_single-Good call g s t (inr (f, (wr, inr (c, o, a)))) =
      subst (Good 𝕎 Inv Fin) (sym (on_single-answer call g s t c o a)) (inr f)

  probe_all-keeps :
      (fuel : ℕ) (call : Call)
      → ((w : 𝕎.W) (g : Provider)
          → Inv w
          → Yields (λ t. Inv t.world) (try_group_resilient 𝕎 fuel w g call false))
      → (gs : List Provider) (w : 𝕎.W) → Inv w
      → Yields (λ r. Inv r.0) (probe_all 𝕎 fuel call gs w)
  unfolding probe_all
  probe_all-keeps fuel call h [] w i = i
  probe_all-keeps fuel call h (g ∷ gs) w i =
      bind-Yields (λ t. Inv t.world) (λ r. Inv r.0) (try_group_resilient 𝕎 fuel w g call false) _
        (h w g i)
        λ t j.
          bind-Yields (λ r. Inv r.0) (λ r. Inv r.0) (probe_all 𝕎 fuel call gs t.world) _
            (probe_all-keeps fuel call h gs t.world j) (λ r l. l)

  tally_one-keeps :
      (r : Provider × Tried 𝕎.W) (p : Poll 𝕎)
      → Inv p.trail.world
      → Inv (tally_one 𝕎 r p).trail.world
  unfolding tally_one noted
  tally_one-keeps (g, t) p i =
      let P : Poll 𝕎 → Type 0 = λ z. Inv z.trail.world in
      let s = noted 𝕎 p.trail (record t { world = p.trail.world }) in
      if_both P t.cancelled i (
        if_both P (not t.ok) i (
          option_both P t.resp.err
            (if_both P _ (expelled-keeps 𝕎 Inv Fin g s k i)
              (if_both P _ (biased-keeps 𝕎 Inv Fin s k i) (if_both P _ i i)))
            (λ e. i)))

  tally-keeps :
      (rs : List (Provider × Tried 𝕎.W)) (p : Poll 𝕎)
      → Inv p.trail.world
      → Inv (tally 𝕎 rs p).trail.world
  unfolding tally
  tally-keeps [] p i = i
  tally-keeps (r ∷ rs) p i = tally-keeps rs (tally_one 𝕎 r p) (tally_one-keeps r p i)

  try_winners-Good :
      (fuel : ℕ) (call : Call)
      → Trusted 𝕎 Inv Fin fuel call
      → (gs : List Provider) (s : Trail 𝕎) → Inv s.world
      → Yields (Good 𝕎 Inv Fin) (try_winners 𝕎 fuel call gs s)
  unfolding try_winners noted Good
  try_winners-Good fuel call h [] s i = i
  try_winners-Good fuel call h (g ∷ gs) s i =
      bind-Yields (After 𝕎 Inv Fin call.writer) (Good 𝕎 Inv Fin)
        (try_group_resilient 𝕎 fuel s.world g call false) _ (h s.world g i)
        λ t j.
          on_met-Good 𝕎 Inv Fin (try_winners 𝕎 fuel call gs)
            (λ z. try_winners 𝕎 fuel call gs (biased 𝕎 z)) g (noted 𝕎 s t) (judge call g t) k
            (try_winners-Good fuel call h gs)
            (λ z l. try_winners-Good fuel call h gs (biased 𝕎 z) (biased-keeps 𝕎 Inv Fin z k l))
            (After-met 𝕎 Inv Fin call g t j)

  after_poll-Good :
      (fuel : ℕ) (call : Call)
      → Trusted 𝕎 Inv Fin fuel call
      → (p : Poll 𝕎) → Inv p.trail.world
      → Yields (Good 𝕎 Inv Fin) (after_poll 𝕎 fuel call p)
  unfolding after_poll Good
  after_poll-Good fuel call h p i =
      elim p.interrupted
        as (λ b. Yields (Good 𝕎 Inv Fin) (elim b [
          | true ↦ some (p.trail, cancelled)
          | false ↦ try_winners 𝕎 fuel call p.winners p.trail
        ])) [ true ↦ inl i | false ↦ try_winners-Good fuel call h p.winners p.trail i ]

  race_live-Good :
      (fuel : ℕ) (stat : Bytes) (call : Call)
      → Trusted 𝕎 Inv Fin fuel call
      → ((w : 𝕎.W) (g : Provider)
          → Inv w
          → Yields (λ t. Inv t.world) (try_group_resilient 𝕎 fuel w g (stat_call stat) false))
      → (gs : List Provider) (s : Trail 𝕎) → Inv s.world
      → Yields (Good 𝕎 Inv Fin) (race_live 𝕎 fuel stat call gs s)
  unfolding race_live noted Good
  race_live-Good fuel stat call h h' [] s i = i
  race_live-Good fuel stat call h h' (g ∷ []) s i =
      bind-Yields (After 𝕎 Inv Fin call.writer) (Good 𝕎 Inv Fin)
        (try_group_resilient 𝕎 fuel s.world g call false) _ (h s.world g i)
        λ t j. on_single-Good call g (noted 𝕎 s t) t j
  race_live-Good fuel stat call h h' (g ∷ g' ∷ gs) s i =
      bind-Yields (λ r. Inv r.0) (Good 𝕎 Inv Fin)
        (probe_all 𝕎 fuel (stat_call stat) (g ∷ g' ∷ gs) s.world) _
        (probe_all-keeps fuel (stat_call stat) h' (g ∷ g' ∷ gs) s.world i)
        λ r j.
          let p : Poll 𝕎 = record {
            trail = record s { world = r.0 };
            interrupted = false;
            winners = [];
          } in
          after_poll-Good fuel call h (tally 𝕎 r.1 p) (tally-keeps r.1 p j)

  pub race_candidates-Good :
      (fuel : ℕ) (stat : Bytes) (call : Call)
      → Trusted 𝕎 Inv Fin fuel (hasty call)
      → ((w : 𝕎.W) (g : Provider)
          → Inv w
          → Yields (λ t. Inv t.world) (try_group_resilient 𝕎 fuel w g (stat_call stat) false))
      → (gs : List Provider) (s : Trail 𝕎) → Inv s.world
      → Yields (Good 𝕎 Inv Fin) (race_candidates 𝕎 fuel stat call gs s)
  unfolding race_candidates
  race_candidates-Good fuel stat call h h' gs s i =
      race_live-Good fuel stat (hasty call) h h' _ _
        (live_of-keeps (hasty call) gs (record s { last_err = none }) i)

  pub with_race-Good :
      (old : Option Err) (r : Trail 𝕎 × End) → Good 𝕎 Inv Fin r → Good 𝕎 Inv Fin (with_race 𝕎 old r)
  unfolding with_race Good
  with_race-Good old (s, delivered reply) i = i
  with_race-Good old (s, cancelled) i = i
  with_race-Good old (s, exhausted) i = i
