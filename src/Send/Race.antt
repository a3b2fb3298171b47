-- ===== src/Send/Race.antt =====
-- nntp.go: `raceCandidates`, which asks several providers for the article by STAT on the priority lane
-- and sends the request to the first one that has it. The parallel probes are made in the configured
-- order, the order in which the code reads their results: a world may answer them in any way.
use nntppool.Base.{
  ℕ, Bool, true, false, not, ◌&&◌, Option, none, some, List, [], ◌∷◌, ◌++◌, if◌then◌else◌, Bytes,
}
use nntppool.Errors.{Err, is_code, to_error}
use nntppool.Attempt.{Reply, attempt_committed_resp, response_is_hard_article_absence}
use nntppool.Send.{Provider, Call, World, Tried}
use nntppool.Send.Fuel.{◌>>=◌}
use nntppool.Send.Resilient.{try_group_resilient}
use nntppool.Send.Visit.{
  Met, called_off, unreachable, gone, missing, erred, refused, settled, refusal, judge, answer,
  newer, Trail, test_quota, pass_over, noted, with_error, expelled, biased,
}

-- How a loop over providers ends.
pub data End : Type 0 where
  delivered : Reply → End
  cancelled exhausted : End

-- `priority` is `true` for all requests of a race.
abbrev pub hasty : Call → Call
hasty call = record call { priority = true }

-- The probe of the article: no writer, no validation.
abbrev pub stat_call : Bytes → Call
stat_call stat = record { payload = stat; writer = false; validate_body = false; priority = true }

module _ (𝕎 : World) where
  abbrev pub Verdict : Type 0
  Verdict = Option (Trail 𝕎 × End)

  -- Behind an answer: the loop goes on with `rest`, or with `miss` where the article is missing.
  unfoldable pub on_met :
      (Trail 𝕎 → Verdict) → (Trail 𝕎 → Verdict) → Provider → Trail 𝕎 → Met → Verdict
  on_met rest miss g s called_off = some (s, cancelled)
  on_met rest miss g s unreachable = rest s
  on_met rest miss g s gone = rest (expelled 𝕎 g s)
  on_met rest miss g s missing = miss s
  on_met rest miss g s (erred e) = rest (with_error 𝕎 s e)
  on_met rest miss g s (refused e) = rest (with_error 𝕎 s e)
  on_met rest miss g s (settled resp) = some (s, delivered (answer resp s.attempts))

  -- The candidates within their quota.
  unfoldable pub live_of : Call → List Provider → Trail 𝕎 → Trail 𝕎 × List Provider
  live_of call [] s = (s, [])
  live_of call (g ∷ gs) s =
      let (over, w) = test_quota 𝕎 s.world g in
      let s1 : Trail 𝕎 = record s { world = w } in
      let (s2, live) = live_of call gs (if over then pass_over 𝕎 call g s1 else s1) in
      (s2, if over then live else g ∷ live)

  -- The answer of the only candidate; its code is tested for 502 and absence alone.
  unfoldable pub on_single : Call → Provider → Trail 𝕎 → Tried 𝕎.W → Trail 𝕎 × End
  on_single call g s t =
      if t.cancelled then (s, cancelled) else if not t.ok then (s, exhausted) else elim t.resp.err [
        | some e ↦
            if call.writer && attempt_committed_resp t.resp
            then (s, delivered (answer t.resp s.attempts))
            else (with_error 𝕎 s e, exhausted)
        | none ↦
            if is_code t.resp.status_code 502
            then (expelled 𝕎 g s, exhausted)
            else if response_is_hard_article_absence t.resp
            then (biased 𝕎 s, exhausted)
            else (s, delivered (answer t.resp s.attempts))
      ]

  unfoldable pub probe_all :
      ℕ → Call → List Provider → 𝕎.W → Option (𝕎.W × List (Provider × Tried 𝕎.W))
  probe_all fuel call [] w = some (w, [])
  probe_all fuel call (g ∷ gs) w = do
    t ← try_group_resilient 𝕎 fuel w g call false
    r ← probe_all fuel call gs t.world
    some (r.0, (g, t) ∷ r.1)

  -- The variables of the loop over the results.
  pub record Poll : Type 0 where
    pub trail : Trail 𝕎
    pub interrupted : Bool
    pub winners : List Provider

  unfoldable pub tally_one : Provider × Tried 𝕎.W → Poll → Poll
  tally_one (g, t) p =
      let s = noted 𝕎 p.trail (record t { world = p.trail.world }) in
      let p1 : Poll = record p { trail = s } in
      if t.cancelled
      then record p1 { interrupted = true }
      else if not t.ok
      then p1
      else elim t.resp.err [
        | some e ↦ record p { trail = with_error 𝕎 s e }
        | none ↦
            if is_code t.resp.status_code 502
            then record p { trail = expelled 𝕎 g s }
            else if response_is_hard_article_absence t.resp
            then record p { trail = biased 𝕎 s }
            else if is_code t.resp.status_code 223
            then record p1 { winners = p.winners ++ g ∷ [] }
            else record p {
              trail = with_error 𝕎 s (refusal g (to_error t.resp.status_code t.resp.status));
            }
      ]

  unfoldable pub tally : List (Provider × Tried 𝕎.W) → Poll → Poll
  tally [] p = p
  tally (r ∷ rs) p = tally rs (tally_one r p)

  unfoldable pub try_winners : ℕ → Call → List Provider → Trail 𝕎 → Verdict
  unfolding on_met
  try_winners fuel call [] s = some (s, exhausted)
  try_winners fuel call (g ∷ gs) s = do
    t ← try_group_resilient 𝕎 fuel s.world g call false
    on_met (try_winners fuel call gs) (λ z. try_winners fuel call gs (biased 𝕎 z)) g (noted 𝕎 s t)
        (judge call g t)

  unfoldable pub after_poll : ℕ → Call → Poll → Verdict
  after_poll fuel call p = elim p.interrupted [
    | true ↦ some (p.trail, cancelled)
    | false ↦ try_winners fuel call p.winners p.trail
  ]

  unfoldable pub race_live : ℕ → Bytes → Call → List Provider → Trail 𝕎 → Verdict
  race_live fuel stat call [] s = some (s, exhausted)
  race_live fuel stat call (g ∷ []) s = do
    t ← try_group_resilient 𝕎 fuel s.world g call false
    some (on_single call g (noted 𝕎 s t) t)
  race_live fuel stat call (g ∷ h ∷ gs) s = do
    r ← probe_all fuel (stat_call stat) (g ∷ h ∷ gs) s.world
    after_poll fuel call
        (tally r.1 (record { trail = record s { world = r.0 }; interrupted = false; winners = [] }))

  -- The race keeps its own `lastErr`.
  unfoldable pub race_candidates : ℕ → Bytes → Call → List Provider → Trail 𝕎 → Verdict
  race_candidates fuel stat call candidates s =
      let (s1, live) = live_of (hasty call) candidates (record s { last_err = none }) in
      race_live fuel stat (hasty call) live s1

  -- What the caller of the race makes of that.
  unfoldable pub with_race : Option Err → Trail 𝕎 × End → Trail 𝕎 × End
  with_race old (s, end) = (record s { last_err = newer s.last_err old }, end)
