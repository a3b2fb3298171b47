-- ===== src/Send/Steady.antt =====
-- What the attempts at one provider keep of a condition on worlds, from what one submission and the
-- other steps keep of it.
use nntppool.Base.{
  ℕ, ◌≤◌, ◌<◌, Bool, true, false, Option-cases, Bool-cases, not, ◌&&◌, ◌||◌, List, ◌∷◌, Option,
  none, some, [], ◌≡◌, refl, sym, subst, ◌⊎◌, inl, inr, arith, if_both, length, ◌==◌,
}
use Prim.Native.String.{String}
use nntppool.Breaker.{Breaker}
use nntppool.Dispatch.{Quota}
use nntppool.Errors.{Err, the, fresh_transport_required, is?, success_code}
use nntppool.Outcome.{AttemptEvidence}
use nntppool.Attempt.{Request, Response, attempt_committed_resp}
use nntppool.Send.{
  Provider, Call, Marks, Fate, delivered, channel_closed, group_done, client_done, request_done,
  World, Tried,
}
use nntppool.Send.Group.{marked, new_request, attributed, fail_attempt, settle, try_group}

abbrev pub is_stale : Response → Bool
is_stale resp = is? resp.err (the fresh_transport_required)

abbrev pub Conclusive : Response → Type 0
Conclusive resp = elim resp.err [
  | some e ↦ is_stale resp ≡ false
  | none ↦ success_code resp.status_code ≡ true
]

-- After bytes for the caller's writer: an answer that brings them, whose request is marked so or is the
-- attempt's own, with an error of its own or a code of success; or the caller's cancellation.
abbrev pub Closing : Marks → Fate → Type 0
Closing m (delivered resp) =
    (m.decoded_committed ≡ true)
    × ((resp.attempts ≡ []) ⊎ (attempt_committed_resp resp ≡ true))
    × Conclusive resp
Closing m (client_done e) = Unit {0}
Closing m (request_done e caller) = caller ≡ true
Closing m _ = ⊥

abbrev is_conclusive : Response → Bool
is_conclusive resp = elim resp.err [
  | some e ↦ not (is_stale resp)
  | none ↦ success_code resp.status_code
]

-- The same as a test.
unfoldable pub is_closing : Marks → Fate → Bool
is_closing m (delivered resp) =
    m.decoded_committed
    && (length resp.attempts == 0 || attempt_committed_resp resp)
    && is_conclusive resp
is_closing m (client_done e) = true
is_closing m (request_done e caller) = caller
is_closing m _ = false

is_conclusive-Conclusive : (resp : Response) → is_conclusive resp ≡ true → Conclusive resp
is_conclusive-Conclusive resp h =
    by_cases resp.err (is_stale resp) (success_code resp.status_code) h
  where
    by_cases :
        (o : Option Err) (stale ok : Bool)
        → (elim o as (λ x. Bool) [ some e ↦ not stale | none ↦ ok ]) ≡ true
        → elim o as (λ x. Type 0) [ some e ↦ stale ≡ false | none ↦ ok ≡ true ]
    by_cases (some e) false ok h = refl
    by_cases (some e) true ok h = ground (arith, h)
    by_cases none stale ok h = h

none_attempted : (attempts : List AttemptEvidence) → (length attempts == 0) ≡ true → attempts ≡ []
none_attempted [] h = refl
none_attempted (a ∷ attempts) h = ground (arith, h)

pub is_closing-Closing : (m : Marks) (fate : Fate) → is_closing m fate ≡ true → Closing m fate
unfolding is_closing
is_closing-Closing m (delivered resp) h = (
  ground (arith, h),
  elim (Bool-cases (length resp.attempts == 0)) [
    | inl p ↦ inl (none_attempted resp.attempts p)
    | inr p ↦ inr (ground (arith, h, p))
  ],
  is_conclusive-Conclusive resp (ground (arith, h)),
)
is_closing-Closing m (client_done e) h = tt
is_closing-Closing m (request_done e caller) h = h
is_closing-Closing m channel_closed h = ground (arith, h)
is_closing-Closing m group_done h = ground (arith, h)

-- The same of what `tryGroup` returns.
abbrev pub Closed : {W : Type 0} → Tried W → Type 0
Closed t =
    (t.cancelled ≡ true)
    ⊎ ((t.cancelled ≡ false)
        × (t.ok ≡ true)
        × (attempt_committed_resp t.resp ≡ true)
        × Conclusive t.resp)

-- The steps of a world that submit nothing.
pub data Aside (𝕎 : World) : 𝕎.W → 𝕎.W → Type 0 where
  read_clock : (w : 𝕎.W) → Aside 𝕎 w (𝕎.clock w).0
  wait : (w : 𝕎.W) → Aside 𝕎 w (𝕎.pause w).0
  breaker_put : (w : 𝕎.W) (g : Provider) (b : Breaker) → Aside 𝕎 w (𝕎.put_breaker w g b)
  quota_put : (w : 𝕎.W) (g : Provider) (q : Quota) → Aside 𝕎 w (𝕎.put_quota w g q)
  removed : (w : 𝕎.W) (name : String) → Aside 𝕎 w (𝕎.remove w name)
  reconnected : (w : 𝕎.W) (g : Provider) → Aside 𝕎 w (𝕎.reconnect w g)
  bumped : (w : 𝕎.W) → Aside 𝕎 w (𝕎.bump w).0

-- The connections that predate a fresh transport are finitely many: each answer that asks for one
-- spends one of them, and no step brings one back.
pub record Settling (𝕎 : World) : Type 0 where
  pub stale : 𝕎.W → ℕ
  pub stale_aside : (w w' : 𝕎.W) → Aside 𝕎 w w' → stale w' ≤ stale w
  pub stale_submit :
      (w : 𝕎.W) (g : Provider) (req : Request) (writer : Bool)
      → stale (𝕎.submit w g req writer).0 ≤ stale w
  pub stale_spent :
      (w : 𝕎.W) (g : Provider) (req : Request) (writer : Bool) (resp : Response)
      → (𝕎.submit w g req writer).2 ≡ delivered resp
      → is_stale resp ≡ true
      → stale (𝕎.submit w g req writer).0 < stale w

-- `Safe` is a condition that every step keeps, but a submission with the writer may end it, for `Spent`,
-- if it is the last one.
pub record Steady (𝕎 : World) (Safe Spent : 𝕎.W → Type 0) : Type 0 where
  pub safe_aside : (w w' : 𝕎.W) → Aside 𝕎 w w' → Safe w → Safe w'
  pub spent_aside : (w w' : 𝕎.W) → Aside 𝕎 w w' → Spent w → Spent w'
  pub safe_submit :
      (w : 𝕎.W) (g : Provider) (req : Request) (writer : Bool)
      → Safe w
      → Safe (𝕎.submit w g req writer).0
        ⊎ (Spent (𝕎.submit w g req writer).0
            × (writer ≡ true)
            × Closing (𝕎.submit w g req writer).1 (𝕎.submit w g req writer).2)

settle-Closed :
    {W : Type 0} (w : W) (req : Request) (m : Marks) (g : Provider) (now : ℕ) (fate : Fate)
    → Closing m fate
    → Closed (settle w (marked req m) g now fate)
unfolding settle fail_attempt attributed attempt_committed_resp
settle-Closed w req m g now (delivered resp) (c, a, e) = inr (refl, refl, committed, conclusive)
  where
    unstale : is_stale resp ≡ false
    unstale = elim (Option-cases resp.err) [ inl p ↦ rw (p) | inr (e', p) ↦ rw (p) (rw (p) at e) ]

    committed : attempt_committed_resp (attributed (marked req m) g resp now) ≡ true
    committed = elim a [
      | inl p ↦ rw (p, unstale, c)
      | inr p ↦
          if_both (λ r. attempt_committed_resp r ≡ true)
            (length resp.attempts == 0 && not (is_stale resp)) c p
    ]

    conclusive : Conclusive (attributed (marked req m) g resp now)
    conclusive = if_both Conclusive (length resp.attempts == 0 && not (is_stale resp)) e e
settle-Closed w req m g now (client_done e) c = inl refl
settle-Closed w req m g now (request_done e caller) c = inl c
settle-Closed w req m g now channel_closed c = elim c [ ]
settle-Closed w req m g now group_done c = elim c [ ]

pub settle_world :
    {W : Type 0} (w : W) (req : Request) (g : Provider) (now : ℕ) (fate : Fate)
    → (settle w req g now fate).world ≡ w
unfolding settle
settle_world w req g now (delivered resp) = refl
settle_world w req g now channel_closed = refl
settle_world w req g now group_done = refl
settle_world w req g now (client_done e) = refl
settle_world w req g now (request_done e caller) = refl

settle_stale :
    {W : Type 0} (w : W) (req : Request) (g : Provider) (now : ℕ) (fate : Fate)
    → (settle w req g now fate).ok ≡ true
    → is_stale (settle w req g now fate).resp ≡ true
    → (resp : Response) × (fate ≡ delivered resp) × (is_stale resp ≡ true)
unfolding settle attributed
settle_stale w req g now (delivered resp) o s = (
  resp,
  refl,
  if_both {A = Response} (λ r. is_stale r ≡ true → is_stale resp ≡ true)
      (length resp.attempts == 0 && not (is_stale resp)) (λ e. e) (λ e. e) s,
)
settle_stale w req g now channel_closed o s = ground arith
settle_stale w req g now group_done o s = ground arith
settle_stale w req g now (client_done e) o s = ground arith
settle_stale w req g now (request_done e caller) o s = ground arith

module _ (𝕎 : World) (Safe Spent : 𝕎.W → Type 0) (S : Steady 𝕎 Safe Spent) where
  pub try_group-Closed :
      (w : 𝕎.W) (g : Provider) (call : Call) (fresh : Bool)
      → Safe w
      → Safe (try_group 𝕎 w g call fresh).world
        ⊎ (Spent (try_group 𝕎 w g call fresh).world
            × (call.writer ≡ true)
            × Closed (try_group 𝕎 w g call fresh))
  unfolding try_group
  try_group-Closed w g call fresh s =
      let (w1, now) = 𝕎.clock w in
      let req : Request = new_request call g fresh now in
      let r = 𝕎.submit w1 g req call.writer in
      let at = (𝕎.clock r.0).1 in
      elim (S.safe_submit w1 g req call.writer (S.safe_aside w w1 (read_clock w) s)) [
        | inl s' ↦ inl (
            subst Safe (sym (settle_world _ (marked req r.1) g at r.2))
              (S.safe_aside _ _ (read_clock r.0) s'))
        | inr (s', wr, c) ↦ inr (
          subst Spent (sym (settle_world _ (marked req r.1) g at r.2))
              (S.spent_aside _ _ (read_clock r.0) s'),
          wr,
          settle-Closed _ req r.1 g at r.2 c,
        )
      ]

module _ (𝕎 : World) (S : Settling 𝕎) where
  pub try_group-stale :
      (w : 𝕎.W) (g : Provider) (call : Call) (fresh : Bool)
      → S.stale (try_group 𝕎 w g call fresh).world ≤ S.stale w
  unfolding try_group
  try_group-stale w g call fresh =
      let (w1, now) = 𝕎.clock w in
      let req : Request = new_request call g fresh now in
      let r = 𝕎.submit w1 g req call.writer in
      let e = settle_world (𝕎.clock r.0).0 (marked req r.1) g (𝕎.clock r.0).1 r.2 in
      let h1 = S.stale_aside w w1 (read_clock w) in
      let h2 = S.stale_submit w1 g req call.writer in
      let h3 = S.stale_aside _ _ (read_clock r.0) in rw (e) (omega arith)

  pub try_group-spent :
      (w : 𝕎.W) (g : Provider) (call : Call) (fresh : Bool)
      → (try_group 𝕎 w g call fresh).ok ≡ true
      → is_stale (try_group 𝕎 w g call fresh).resp ≡ true
      → S.stale (try_group 𝕎 w g call fresh).world < S.stale w
  unfolding try_group
  try_group-spent w g call fresh o s =
      let (w1, now) = 𝕎.clock w in
      let req : Request = new_request call g fresh now in
      let r = 𝕎.submit w1 g req call.writer in
      let at = (𝕎.clock r.0).1 in
      let e = settle_world (𝕎.clock r.0).0 (marked req r.1) g at r.2 in
      let (resp, d, t) = settle_stale (𝕎.clock r.0).0 (marked req r.1) g at r.2 o s in
      let h1 = S.stale_aside w w1 (read_clock w) in
      let h2 = S.stale_spent w1 g req call.writer resp d t in
      let h3 = S.stale_aside _ _ (read_clock r.0) in rw (e) (omega arith)
