-- ===== src/Send/Group.antt =====
-- nntp.go: `tryGroup`, one attempt at one provider.
use nntppool.Base.{
  ℕ, Bool, true, false, not, ◌&&◌, none, some, [], ◌∷◌, length, ◌==◌, if◌then◌else◌,
}
use nntppool.Errors.{Err, the, sentinel, fresh_transport_required, connection_died, is?}
use nntppool.Attempt.{Request, Response, error_response, build_attempt_evidence}
use nntppool.Send.{
  Provider, Call, Marks, Fate, delivered, channel_closed, group_done, client_done, request_done,
  World, Tried,
}

unfoldable pub new_request : Call → Provider → Bool → ℕ → Request
new_request call g fresh now = record {
  payload = call.payload;
  validate_body = call.validate_body;
  fresh_transport = fresh;
  response451_policy = g.policy;
  priority = call.priority;
  submitted_at = some now;
  written_at = 0;
  response_head_at = 0;
  decoded_committed = false;
  ctx_err = none;
}

abbrev pub marked : Request → Marks → Request
marked req m = record req {
  written_at = m.written_at;
  response_head_at = m.response_head_at;
  decoded_committed = m.decoded_committed;
  ctx_err = m.ctx_err;
}

-- `failAttempt`
unfoldable pub fail_attempt : Request → Provider → Err → ℕ → Response
fail_attempt req g cause now =
    let r : Response = record (error_response (some cause)) {
      provider_id = g.id;
      request = some req;
    } in
    record r { attempts = build_attempt_evidence req g.id r now ∷ [] }

-- The evidence of a response that brings none.
unfoldable pub attributed : Request → Provider → Response → ℕ → Response
attributed req g resp now =
    let r : Response = record resp { provider_id = g.id; request = some req } in
    if length resp.attempts == 0 && not (is? resp.err (the fresh_transport_required))
    then record r { attempts = build_attempt_evidence req g.id r now ∷ [] }
    else resp

module _ {W : Type 0} where
  unfoldable pub settle : W → Request → Provider → ℕ → Fate → Tried W
  unfolding fail_attempt attributed
  settle w req g now (delivered resp) = record {
    world = w;
    resp = attributed req g resp now;
    ok = true;
    cancelled = false;
  }
  settle w req g now channel_closed = record {
    world = w;
    resp = error_response none;
    ok = false;
    cancelled = false;
  }
  settle w req g now group_done = record {
    world = w;
    resp = fail_attempt req g (sentinel connection_died) now;
    ok = false;
    cancelled = false;
  }
  settle w req g now (client_done e) = record {
    world = w;
    resp = fail_attempt req g e now;
    ok = false;
    cancelled = true;
  }
  settle w req g now (request_done e caller) = record {
    world = w;
    resp = fail_attempt req g e now;
    ok = false;
    cancelled = caller;
  }

module _ (𝕎 : World) where
  unfoldable pub try_group : 𝕎.W → Provider → Call → Bool → Tried 𝕎.W
  unfolding new_request settle
  try_group w g call fresh =
      let (w1, now) = 𝕎.clock w in
      let req : Request = new_request call g fresh now in
      let (w2, m, fate) = 𝕎.submit w1 g req call.writer in
      let (w3, at) = 𝕎.clock w2 in settle w3 (marked req m) g at fate
