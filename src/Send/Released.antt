-- ===== src/Send/Released.antt =====
-- `tryGroupResilient` always gives its lease back to the breaker.
use nntppool.Base.{
  ℕ, zero, suc, ◌+◌, ◌≤◌, Bool, false, ◌||◌, Option, some, List, ◌≡◌, refl, ◌∙◌, ap, subst, arith,
  if_both,
}
use nntppool.Errors.{circuit}
use nntppool.Outcome.{AttemptEvidence}
use nntppool.Breaker.{Breaker, Lease, Acquired, granted, refused, acquire, complete}
use nntppool.Breaker.Release.{given_back, given_back_lem}
use nntppool.Attempt.{Request, classify_circuit_breaker_completion}
use nntppool.Send.{Provider, Call, World, Tried}
use nntppool.Send.Fuel.{Yields-result, Partly, bind-Partly}
use nntppool.Send.Group.{marked, new_request, try_group}
use nntppool.Send.Resilient.{
  Retry, Decision, finish, again, pause, decide, proceed, retry_loop, first_try, release, admitted,
  try_group_resilient,
}
use nntppool.Send.Steady.{Settling, settle_world}
use nntppool.Send.Bounded.{try_group_resilient-After, turned_away-world}
use nntppool.Send.Promise.{always}

-- No other request uses the breaker of `g`.
pub record Quiet (𝕎 : World) (g : Provider) : Type 0 where
  pub breaker_put : (w : 𝕎.W) (b : Breaker) → 𝕎.breaker (𝕎.put_breaker w g b) g ≡ b
  pub breaker_clock : (w : 𝕎.W) → 𝕎.breaker (𝕎.clock w).0 g ≡ 𝕎.breaker w g
  pub breaker_pause : (w : 𝕎.W) → 𝕎.breaker (𝕎.pause w).0 g ≡ 𝕎.breaker w g
  pub breaker_submit :
      (w : 𝕎.W) (req : Request) (writer : Bool)
      → 𝕎.breaker (𝕎.submit w g req writer).0 g ≡ 𝕎.breaker w g

module _ (𝕎 : World) (g : Provider) (Q : Quiet 𝕎 g) where
  try_group-breaker :
      (w : 𝕎.W) (call : Call) (fresh : Bool)
      → 𝕎.breaker (try_group 𝕎 w g call fresh).world g ≡ 𝕎.breaker w g
  unfolding try_group
  try_group-breaker w call fresh =
      let (w1, now) = 𝕎.clock w in
      let req : Request = new_request call g fresh now in
      let r = 𝕎.submit w1 g req call.writer in
      ap (λ v. 𝕎.breaker v g) (settle_world (𝕎.clock r.0).0 (marked req r.1) g (𝕎.clock r.0).1 r.2)
      ∙ Q.breaker_clock r.0
      ∙ Q.breaker_submit w1 req call.writer
      ∙ Q.breaker_clock w

  abbrev Holds : Breaker → Tried 𝕎.W → Type 0
  Holds b t = 𝕎.breaker t.world g ≡ b

  proceed-breaker :
      (b : Breaker) (rest : 𝕎.W → Retry → Option (Tried 𝕎.W)) (t : Tried 𝕎.W)
      (attempts : List AttemptEvidence)
      → ((w : 𝕎.W) (st : Retry) → 𝕎.breaker w g ≡ b → Partly (Holds b) (rest w st))
      → Holds b t
      → (d : Decision) → Partly (Holds b) (proceed 𝕎 rest t attempts d)
  unfolding proceed
  proceed-breaker b rest t attempts h e finish = e
  proceed-breaker b rest t attempts h e (again st) = h t.world _ e
  proceed-breaker b rest t attempts h e (pause st) =
      let p = Q.breaker_pause t.world ∙ e in
      if_both (Partly (Holds b)) (𝕎.pause t.world).1 (h _ _ p) p

  retry_loop-breaker :
      (b : Breaker) (fuel : ℕ) (call : Call) (w : 𝕎.W) (st : Retry)
      → 𝕎.breaker w g ≡ b
      → Partly (Holds b) (retry_loop 𝕎 fuel g call w st)
  unfolding retry_loop
  retry_loop-breaker b zero call w st e = tt
  retry_loop-breaker b (suc fuel) call w st e =
      let t = try_group 𝕎 w g call st.fresh in
      proceed-breaker b (retry_loop 𝕎 fuel g call) t _ (retry_loop-breaker b fuel call)
        (try_group-breaker w call st.fresh ∙ e) (decide call st t.resp t.ok t.cancelled)

  -- What becomes of a breaker from which a lease was asked: the lease is given back, with what the
  -- whole result says of the provider.
  abbrev pub Returned : Breaker → Acquired → Tried 𝕎.W → Type 0
  Returned b a t =
      (now : ℕ) × (at : ℕ) × (𝕎.breaker t.world g
        ≡ given_back b a (classify_circuit_breaker_completion t.resp t.ok t.cancelled) now at)

  release-Returned :
      (b : Breaker) (l : Lease) (t : Tried 𝕎.W)
      → Holds b t
      → Returned b (granted l) (release 𝕎 g l t)
  unfolding release
  release-Returned b l t e =
      let (w1, now) = 𝕎.clock t.world in
      let (w2, at) = 𝕎.clock w1 in
      let c = classify_circuit_breaker_completion t.resp t.ok t.cancelled in
      (
        now,
        at,
        Q.breaker_put w2 _
            ∙ ap (λ z. complete z l c now at) (Q.breaker_clock w1 ∙ Q.breaker_clock t.world ∙ e),
      )

  admitted-Returned :
      (fuel : ℕ) (call : Call) (fresh : Bool) (w : 𝕎.W) (a : Acquired) (now : ℕ)
      → Partly (Returned (𝕎.breaker w g) a) (admitted 𝕎 fuel g call fresh w a now)
  unfolding admitted
  admitted-Returned fuel call fresh w (refused e) now =
      (0, 0, ap (λ v. 𝕎.breaker v g) (turned_away-world 𝕎 w g call (circuit e) now))
  admitted-Returned fuel call fresh w (granted l) now =
      bind-Partly (Holds (𝕎.breaker w g)) (Returned (𝕎.breaker w g) (granted l))
        (retry_loop 𝕎 fuel g call w (first_try 𝕎 (fresh || l.probe))) _
        (retry_loop-breaker (𝕎.breaker w g) fuel call w (first_try 𝕎 (fresh || l.probe)) refl)
        (λ t e. release-Returned (𝕎.breaker w g) l t e)

  resilient-Returned :
      (fuel : ℕ) (w : 𝕎.W) (call : Call) (fresh : Bool)
      → let a = acquire (𝕎.breaker w g) g.id (𝕎.clock w).1 in
        Partly (Returned a.0 a.1) (try_group_resilient 𝕎 fuel w g call fresh)
  unfolding try_group_resilient
  resilient-Returned fuel w call fresh =
      let (w1, now) = 𝕎.clock w in
      let r = acquire (𝕎.breaker w1 g) g.id now in
      let w2 = 𝕎.put_breaker w1 g r.0 in
      let o = try_group_resilient 𝕎 fuel w g call fresh in
      subst (λ z. Partly (Returned (acquire z g.id now).0 (acquire z g.id now).1) o)
        (Q.breaker_clock w)
        (subst (λ z. Partly (Returned z r.1) o) (Q.breaker_put w1 r.0)
          (admitted-Returned fuel call fresh w2 r.1 now))

  -- If no other request uses the breaker of a provider, and each answer that asks for a fresh transport
  -- spends one of finitely many old connections, then the attempts at the provider end, with fuel for
  -- four of them and one for each old connection. The breaker is then the one that results when the
  -- lease that it granted, if it did, is completed with what the result says of the provider; and a
  -- breaker that had no probe in flight has none, so the half-open probe of a request never stays.
  pub try_group_resilient-Returned :
      (S : Settling 𝕎) (fuel : ℕ) (w : 𝕎.W) (call : Call)
      → 4 + S.stale w ≤ fuel
      → let a = acquire (𝕎.breaker w g) g.id (𝕎.clock w).1 in
        (t : Tried 𝕎.W) × (try_group_resilient 𝕎 fuel w g call false ≡ some t)
        × Returned a.0 a.1 t
        × ((𝕎.breaker w g).probe_in_flight ≡ false → (𝕎.breaker t.world g).probe_in_flight ≡ false)
  try_group_resilient-Returned S fuel w call l =
      let b = 𝕎.breaker w g in
      let a = acquire b g.id (𝕎.clock w).1 in
      let (t, e, x) = Yields-result _ (try_group_resilient 𝕎 fuel w g call false) (
        try_group_resilient-After 𝕎 (λ v. Unit {0}) (λ v. Unit {0}) S (always 𝕎) (S.stale w) fuel
          call (omega arith) w g ((omega arith), tt)) in
      let y : Returned a.0 a.1 t =
        subst (Partly (Returned a.0 a.1)) e (resilient-Returned fuel w call false) in
      let c = classify_circuit_breaker_completion t.resp t.ok t.cancelled in
      (
        t,
        e,
        y,
        λ p. ap (λ z. z.probe_in_flight) y.2 ∙ given_back_lem b g.id (𝕎.clock w).1 c y.0 y.1 p,
      )
