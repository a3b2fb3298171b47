-- ===== src/Send/Bounded.antt =====
-- The attempts of `tryGroupResilient` are bounded: two more for connections that died, one for a
-- temporary failure, and one for each connection that predates a fresh transport.
use nntppool.Base.{
  ℕ, zero, suc, ◌+◌, ◌-◌, ◌≤◌, ◌<◌, Bool, true, false, not, ◌&&◌, ◌||◌, Option, List, ◌++◌, ◌≡◌,
  refl, sym, ◌∙◌, subst, ◌⊎◌, inl, inr, arith, ltb, if_both, option_both, if_split, Option-cases,
  if◌then◌else◌,
}
use nntppool.Errors.{Err, is_some, is_code, is_connection_death_error, circuit, success_code}
use nntppool.Outcome.{AttemptEvidence}
use nntppool.Breaker.{Lease, Acquired, granted, refused}
use nntppool.Attempt.{Response, attempt_committed_resp}
use nntppool.Send.{Provider, Call, World, Tried}
use nntppool.Send.Fuel.{Yields, bind-Yields, Yields-weaken}
use nntppool.Send.Group.{try_group}
use nntppool.Send.Resilient.{
  max_conn_died_retries, Retry, Decision, finish, again, pause, decide, proceed, retry_loop,
  first_try, ineligible, turned_away, release, admitted, try_group_resilient,
}
use nntppool.Send.Walk.{After, Trusted}
use nntppool.Send.Steady.{
  is_stale, Closed, Aside, read_clock, wait, breaker_put, Settling, Steady, try_group-Closed,
  try_group-stale, try_group-spent,
}

-- The attempts that the loop may still add by its own counters.
abbrev pub left : Retry → ℕ
left st = (max_conn_died_retries - st.conn_retries) + (if st.temporary_retried then 0 else 1)

Allowed : Retry → Response → Bool → Decision → Type 0
Allowed st resp ok finish = Unit {0}
Allowed st resp ok (again st') =
    ((left st' ≡ left st) × (ok ≡ true) × (is_stale resp ≡ true)) ⊎ (left st' < left st)
Allowed st resp ok (pause st') = left st' < left st

decide-Allowed :
    (call : Call) (st : Retry) (resp : Response) (ok cancelled : Bool)
    → Allowed st resp ok (decide call st resp ok cancelled)
unfolding decide Allowed
decide-Allowed call st resp ok cancelled =
    let P = Allowed st resp ok in
    if_split P (cancelled || not ok) (λ h. tt)
      λ h. if_both P (call.writer && attempt_committed_resp resp) tt (
        if_split P (is_stale resp) (λ s. inl (refl, (ground arith), s))
          λ s.
            if_split P
              (not st.temporary_retried && not (is_some resp.err) && is_code resp.status_code 451)
              (λ u. ground arith)
              λ u. if_both P (st.mapped451 && is_connection_death_error resp.err) tt (
                if_split P
                  (ltb st.conn_retries max_conn_died_retries && is_connection_death_error resp.err)
                  (λ v. inr (ground arith)) (λ v. tt)))

decide-Closed :
    {W : Type 0} (call : Call) (st : Retry) (t : Tried W)
    → call.writer ≡ true
    → Closed t
    → decide call st t.resp t.ok t.cancelled ≡ finish
unfolding decide
decide-Closed call st t wr (inl c) = rw (c)
decide-Closed call st t wr (inr (c, o, k, a)) = rw (c, o, wr, k)

module _ (𝕎 : World) where
  pub turned_away-world :
      (w : 𝕎.W) (g : Provider) (call : Call) (e : Err) (now : ℕ)
      → (turned_away 𝕎 w g call e now).world ≡ w
  unfolding turned_away ineligible
  turned_away-world w g call e now =
      let P : Tried 𝕎.W → Type 0 = λ t. t.world ≡ w in
      option_both P (𝕎.ctx_err w) (option_both P (𝕎.client_err w) refl (λ c. refl)) (λ c. refl)

module _ (𝕎 : World) (Safe Spent : 𝕎.W → Type 0) (S : Settling 𝕎) (D : Steady 𝕎 Safe Spent)
    (n : ℕ) where
  abbrev pub Inv : 𝕎.W → Type 0
  Inv w = (S.stale w ≤ n) × Safe w

  Inv-Aside : (w w' : 𝕎.W) → Aside 𝕎 w w' → Inv w → Inv w'
  Inv-Aside w w' a (l, s) = let h = S.stale_aside w w' a in ((omega arith), D.safe_aside w w' a s)

  Closed-After :
      (call : Call) (t : Tried 𝕎.W)
      → Spent t.world
      → call.writer ≡ true
      → Closed t
      → After 𝕎 Inv Spent call.writer t
  unfolding attempt_committed_resp
  Closed-After call t f wr (inl c) = inr (f, (wr, inl c))
  Closed-After call t f wr (inr (c, o, k, a)) = inr (
    f,
    (
      wr,
      inr (
        c,
        o,
        elim (Option-cases t.resp.err) [
          | inl p ↦ let a' : success_code t.resp.status_code ≡ true = rw (p) at a in rw (p) a'
          | inr (e, p) ↦ rw (p) (rw (wr) k)
        ],
      ),
    ),
  )

  -- Behind one attempt: `m` bounds the attempts of the rest.
  proceed-After :
      (writer : Bool) (m : ℕ) (rest : 𝕎.W → Retry → Option (Tried 𝕎.W)) (st : Retry) (t : Tried 𝕎.W)
      (attempts : List AttemptEvidence)
      → ((w : 𝕎.W) (st' : Retry)
          → left st' + S.stale w < m
          → Inv w
          → Yields (After 𝕎 Inv Spent writer) (rest w st'))
      → Inv t.world
      → left st + S.stale t.world ≤ m
      → (t.ok ≡ true → is_stale t.resp ≡ true → left st + S.stale t.world < m)
      → (d : Decision) → Allowed st t.resp t.ok d
      → Yields (After 𝕎 Inv Spent writer) (proceed 𝕎 rest t attempts d)
  unfolding proceed Allowed
  proceed-After writer m rest st t attempts h i l s finish a = inl i
  proceed-After writer m rest st t attempts h i l s (again st') (inl (e, o, f)) =
      let s' = s o f in h t.world (record st' { attempts = attempts }) (omega arith) i
  proceed-After writer m rest st t attempts h i l s (again st') (inr a) =
      h t.world (record st' { attempts = attempts }) (omega arith) i
  proceed-After writer m rest st t attempts h i l s (pause st') a =
      let w = (𝕎.pause t.world).0 in
      let j = Inv-Aside t.world w (wait t.world) i in
      let b = S.stale_aside t.world w (wait t.world) in
      if_both (Yields (After 𝕎 Inv Spent writer)) (𝕎.pause t.world).1
        (h w (record st' { attempts = attempts }) (omega arith) j) (inl j)

  finished-After :
      (writer : Bool) (rest : 𝕎.W → Retry → Option (Tried 𝕎.W)) (t : Tried 𝕎.W)
      (attempts : List AttemptEvidence) (d : Decision)
      → d ≡ finish
      → After 𝕎 Inv Spent writer t
      → Yields (After 𝕎 Inv Spent writer) (proceed 𝕎 rest t attempts d)
  unfolding proceed attempt_committed_resp
  finished-After writer rest t attempts d e a =
      subst (λ z. Yields (After 𝕎 Inv Spent writer) (proceed 𝕎 rest t attempts z)) (sym e) a

  retry_loop-After :
      (fuel : ℕ) (g : Provider) (call : Call) (w : 𝕎.W) (st : Retry)
      → left st + S.stale w < fuel
      → Inv w
      → Yields (After 𝕎 Inv Spent call.writer) (retry_loop 𝕎 fuel g call w st)
  unfolding retry_loop
  retry_loop-After zero g call w st l i = omega arith
  retry_loop-After (suc fuel) g call w st l (i, s) =
      let t = try_group 𝕎 w g call st.fresh in
      let b = try_group-stale 𝕎 S w g call st.fresh in
      elim (try_group-Closed 𝕎 Safe Spent D w g call st.fresh s) [
        | inl s' ↦
            proceed-After call.writer fuel (retry_loop 𝕎 fuel g call) st t
              (st.attempts ++ t.resp.attempts) (retry_loop-After fuel g call) ((omega arith), s')
              (omega arith)
              (λ o f. let b' = try_group-spent 𝕎 S w g call st.fresh o f in omega arith)
              (decide call st t.resp t.ok t.cancelled)
              (decide-Allowed call st t.resp t.ok t.cancelled)
        | inr (f, wr, c) ↦
            finished-After call.writer (retry_loop 𝕎 fuel g call) t (st.attempts ++ t.resp.attempts)
              (decide call st t.resp t.ok t.cancelled) (decide-Closed call st t wr c)
              (Closed-After call t f wr c)
      ]

  release-After :
      (writer : Bool) (g : Provider) (l : Lease) (t : Tried 𝕎.W)
      → After 𝕎 Inv Spent writer t
      → After 𝕎 Inv Spent writer (release 𝕎 g l t)
  unfolding release
  release-After writer g l t a =
      let (w1, now) = 𝕎.clock t.world in
      let w2 = (𝕎.clock w1).0 in
      elim a [
        | inl i ↦ inl (
            Inv-Aside _ _ (breaker_put w2 g _)
              (Inv-Aside w1 w2 (read_clock w1) (Inv-Aside _ w1 (read_clock _) i)))
        | inr (f, e) ↦ inr (
          D.spent_aside _ _ (breaker_put w2 g _)
              (D.spent_aside w1 w2 (read_clock w1) (D.spent_aside _ w1 (read_clock _) f)),
          e,
        )
      ]

  admitted-After :
      (fuel : ℕ) (g : Provider) (call : Call) (fresh : Bool) (w : 𝕎.W) (a : Acquired) (now : ℕ)
      → 3 + n < fuel
      → Inv w
      → Yields (After 𝕎 Inv Spent call.writer) (admitted 𝕎 fuel g call fresh w a now)
  unfolding admitted
  admitted-After fuel g call fresh w (refused e) now l i =
      inl (subst Inv (sym (turned_away-world 𝕎 w g call (circuit e) now)) i)
  admitted-After fuel g call fresh w (granted ls) now l (b, s) =
      bind-Yields (After 𝕎 Inv Spent call.writer) (After 𝕎 Inv Spent call.writer)
        (retry_loop 𝕎 fuel g call w (first_try 𝕎 (fresh || ls.probe))) _
        (retry_loop-After fuel g call w (first_try 𝕎 (fresh || ls.probe)) (omega arith) (b, s))
        (release-After call.writer g ls)

  pub try_group_resilient-After :
      (fuel : ℕ) (call : Call) → 3 + n < fuel → Trusted 𝕎 Inv Spent fuel call
  unfolding try_group_resilient
  try_group_resilient-After fuel call l w g i =
      let w1 = (𝕎.clock w).0 in
      admitted-After fuel g call false _ _ _ l
        (Inv-Aside w1 _ (breaker_put w1 g _) (Inv-Aside w w1 (read_clock w) i))

  -- A request without a writer, such as a probe.
  pub try_group_resilient-Inv :
      (fuel : ℕ) (call : Call)
      → 3 + n < fuel
      → call.writer ≡ false
      → (w : 𝕎.W) (g : Provider) → Inv w
      → Yields (λ t. Inv t.world) (try_group_resilient 𝕎 fuel w g call false)
  try_group_resilient-Inv fuel call l e w g i =
      Yields-weaken (After 𝕎 Inv Spent call.writer) (λ t. Inv t.world)
        (try_group_resilient 𝕎 fuel w g call false)
        (λ t a. elim a [ inl j ↦ j | inr (f, (wr, x)) ↦ absurd t (sym e ∙ wr) ])
        (try_group_resilient-After fuel call l w g i)
    where
      absurd : (t : Tried 𝕎.W) → false ≡ true → Inv t.world
      absurd t h = ground arith
