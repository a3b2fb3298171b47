-- ===== src/Send/Resilient.antt =====
-- nntp.go: `tryGroupResilient`, the attempts at one provider under its circuit breaker. The loop takes
-- fuel, one unit for each attempt; `none` is a loop that has no fuel.
use nntppool.Base.{
  ℕ, zero, suc, ◌+◌, Bool, true, false, not, ◌&&◌, ◌||◌, Option, none, some, List, [], ◌∷◌, ◌++◌,
  ltb, if◌then◌else◌,
}
use nntppool.Errors.{
  Err, the, circuit, fresh_transport_required, is?, is_some, is_code, is_connection_death_error,
}
use nntppool.Outcome.{AttemptEvidence}
use nntppool.Breaker.{Lease, Acquired, granted, refused, acquire, complete}
use nntppool.Attempt.{
  Request, Response, error_response, request_maps_451_to_absence, attempt_committed_resp,
  build_eligibility_evidence, classify_circuit_breaker_completion,
}
use nntppool.Send.{Provider, Call, World, Tried}
use nntppool.Send.Fuel.{◌>>=◌}
use nntppool.Send.Group.{try_group}

abbrev pub max_conn_died_retries : ℕ
max_conn_died_retries = 2

-- The variables of the loop.
pub record Retry : Type 0 where
  pub attempts : List AttemptEvidence
  pub conn_retries : ℕ
  pub temporary_retried : Bool
  pub mapped451 : Bool
  pub fresh : Bool

-- What the loop does with the answer of an attempt: it returns, goes round again, or pauses first.
pub data Decision : Type 0 where
  finish : Decision
  again pause : Retry → Decision

abbrev maps : Option Request → Response → Bool
maps none resp = false
maps (some req) resp = request_maps_451_to_absence req resp.status_code

unfoldable pub decide : Call → Retry → Response → Bool → Bool → Decision
decide call st resp ok cancelled =
    if cancelled || not ok
    then finish
    else if call.writer && attempt_committed_resp resp
    then finish
    else if is? resp.err (the fresh_transport_required)
    then again st
    else if not st.temporary_retried && not (is_some resp.err) && is_code resp.status_code 451
    then pause
        (record st { temporary_retried = true; mapped451 = maps resp.request resp; fresh = true })
    else if st.mapped451 && is_connection_death_error resp.err
    then finish
    else if ltb st.conn_retries max_conn_died_retries && is_connection_death_error resp.err
    then again (record st { conn_retries = st.conn_retries + 1 })
    else finish

module _ (𝕎 : World) where
  abbrev with_attempts : Tried 𝕎.W → List AttemptEvidence → Tried 𝕎.W
  with_attempts t attempts = record t { resp = record t.resp { attempts = attempts } }

  -- Behind one attempt, before the rest of the loop.
  unfoldable pub proceed :
      (𝕎.W → Retry → Option (Tried 𝕎.W))
      → Tried 𝕎.W
      → List AttemptEvidence
      → Decision
      → Option (Tried 𝕎.W)
  proceed rest t attempts finish = some (with_attempts t attempts)
  proceed rest t attempts (again st) = rest t.world (record st { attempts = attempts })
  proceed rest t attempts (pause st) =
      let (w, passed) = 𝕎.pause t.world in
      let next = rest w (record st { attempts = attempts }) in
      if passed
      then next
      else some (record (with_attempts t attempts) { world = w; ok = true; cancelled = true })

  unfoldable pub retry_loop : ℕ → Provider → Call → 𝕎.W → Retry → Option (Tried 𝕎.W)
  unfolding proceed decide
  retry_loop zero g call w st = none
  retry_loop (suc fuel) g call w st =
      let t : Tried 𝕎.W = try_group 𝕎 w g call st.fresh in
      proceed (retry_loop fuel g call) t (st.attempts ++ t.resp.attempts)
        (decide call st t.resp t.ok t.cancelled)

  abbrev pub first_try : Bool → Retry
  first_try fresh = record {
    attempts = [];
    conn_retries = 0;
    temporary_retried = false;
    mapped451 = false;
    fresh = fresh;
  }

  -- An attempt that was not made, with the reason.
  unfoldable pub ineligible : 𝕎.W → Provider → Call → Err → ℕ → Bool → Bool → Tried 𝕎.W
  ineligible w g call e now ok cancelled = record {
    world = w;
    resp = record (error_response (some e)) {
      provider_id = g.id;
      attempts = build_eligibility_evidence call.payload g.id e call.validate_body now ∷ [];
    };
    ok = ok;
    cancelled = cancelled;
  }

  -- Cancellation comes before an open breaker.
  unfoldable pub turned_away : 𝕎.W → Provider → Call → Err → ℕ → Tried 𝕎.W
  unfolding ineligible
  turned_away w g call e now = elim (𝕎.ctx_err w) [
    | some c ↦ ineligible w g call c now false true
    | none ↦ elim (𝕎.client_err w) [
      | some c ↦ ineligible w g call c now false true
      | none ↦ ineligible w g call e now true false
    ]
  ]

  -- The deferred completion of the lease.
  unfoldable pub release : Provider → Lease → Tried 𝕎.W → Tried 𝕎.W
  release g l t =
      let (w1, now) = 𝕎.clock t.world in
      let (w2, at) = 𝕎.clock w1 in
      record t {
        world = 𝕎.put_breaker w2 g (
            complete (𝕎.breaker w2 g) l
              (classify_circuit_breaker_completion t.resp t.ok t.cancelled) now at);
      }

  unfoldable pub admitted : ℕ → Provider → Call → Bool → 𝕎.W → Acquired → ℕ → Option (Tried 𝕎.W)
  unfolding release turned_away
  admitted fuel g call fresh w (refused e) now = some (turned_away w g call (circuit e) now)
  admitted fuel g call fresh w (granted l) now =
      retry_loop fuel g call w (first_try (fresh || l.probe)) >>= λ t. some (release g l t)

  unfoldable pub try_group_resilient : ℕ → 𝕎.W → Provider → Call → Bool → Option (Tried 𝕎.W)
  unfolding admitted
  try_group_resilient fuel w g call fresh =
      let (w1, now) = 𝕎.clock w in
      let r = acquire (𝕎.breaker w1 g) g.id now in
      admitted fuel g call fresh (𝕎.put_breaker w1 g r.0) r.1 now
