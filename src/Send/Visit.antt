-- ===== src/Send/Visit.antt =====
-- nntp.go: what `doSendWithRetry` and `raceCandidates` do at one provider: the test of its quota, the
-- reading of its answer, its removal, and what they keep from one provider to the next.
use nntppool.Base.{Bool, not, ◌&&◌, Option, none, some, List, [], ◌∷◌, ◌++◌, if◌then◌else◌}
use nntppool.Base.Int.{pos}
use nntppool.Errors.{
  Err, sentinel, text, wrap, quota_exceeded, status, is_code, success_code, to_error,
}
use nntppool.Outcome.{AttemptEvidence}
use nntppool.Attempt.{
  Response, Reply, replied, attempt_committed_resp, response_is_hard_article_absence,
  build_eligibility_evidence,
}
use nntppool.Dispatch.{is_quota_exceeded}
use nntppool.Send.{Provider, Call, World, Tried}

-- What an answer means for the request. `settled` is an answer for the caller.
pub data Met : Type 0 where
  called_off unreachable gone missing : Met
  erred refused : Err → Met
  settled : Response → Met

-- `fmt.Errorf("%s: %w", g.name, toError(…))`; the last case is a nil error.
unfoldable pub refusal : Provider → Option Err → Err
refusal g (some e) = wrap g.name e
refusal g none = wrap g.name (text "%!w(<nil>)")

-- The error of a provider that answered 502, `ErrServiceUnavailable`.
abbrev pub unavailable : Provider → Err
unavailable g = wrap g.name (status (pos 502) [])

abbrev pub over_quota : Provider → Err
over_quota g = wrap g.name (sentinel quota_exceeded)

-- The order of the tests for 502 and for absence differs between the loops; no answer passes both.
unfoldable pub judge : {W : Type 0} → Call → Provider → Tried W → Met
judge call g t =
    if t.cancelled then called_off else if not t.ok then unreachable else elim t.resp.err [
      | some e ↦ if call.writer && attempt_committed_resp t.resp then settled t.resp else erred e
      | none ↦
          if is_code t.resp.status_code 502
          then gone
          else if response_is_hard_article_absence t.resp
          then missing
          else if success_code t.resp.status_code
          then settled t.resp
          else refused (refusal g (to_error t.resp.status_code t.resp.status))
    ]

-- The answer with the attempts of all providers.
abbrev pub answer : Response → List AttemptEvidence → Reply
answer resp attempts = replied (record resp { attempts = attempts })

-- The caller's error if there is one, otherwise what was there.
abbrev pub newer : Option Err → Option Err → Option Err
newer (some e) old = some e
newer none old = old

module _ (𝕎 : World) where
  -- `post430` and `last_resp` belong to `doSendWithRetry`.
  pub record Trail : Type 0 where
    pub world : 𝕎.W
    pub attempts : List AttemptEvidence
    pub last_err : Option Err
    pub last_resp : Option Response
    pub post430 : Bool

  -- `g.isQuotaExceeded()`, which may reset the quota.
  unfoldable pub test_quota : 𝕎.W → Provider → Bool × 𝕎.W
  test_quota w g =
      let (w1, now) = 𝕎.clock w in
      let r = is_quota_exceeded (𝕎.quota w1 g) now in (r.0, 𝕎.put_quota w1 g r.1)

  -- A provider that is passed over for its quota.
  unfoldable pub pass_over : Call → Provider → Trail → Trail
  pass_over call g s =
      let (w, now) = 𝕎.clock s.world in
      record s {
        world = w;
        attempts =
            s.attempts
            ++ build_eligibility_evidence call.payload g.id (over_quota g) call.validate_body now
              ∷ [];
        last_err = some (over_quota g);
      }

  -- `RemoveProvider`, and `scheduleReconnect` where the provider asks for it.
  unfoldable pub expel : Provider → 𝕎.W → 𝕎.W
  expel g w = let w1 = 𝕎.remove w g.name in if g.reconnects then 𝕎.reconnect w1 g else w1

  unfoldable pub noted : Trail → Tried 𝕎.W → Trail
  noted s t = record s { world = t.world; attempts = s.attempts ++ t.resp.attempts }

  abbrev pub with_error : Trail → Err → Trail
  with_error s e = record s { last_err = some e }

  -- A provider that answered 502.
  unfoldable pub expelled : Provider → Trail → Trail
  unfolding expel
  expelled g s = record s { world = expel g s.world; last_err = some (unavailable g) }

  -- `c.nextIdx.Add(1)`, which biases the next request away from this provider.
  unfoldable pub biased : Trail → Trail
  biased s = record s { world = (𝕎.bump s.world).0 }
