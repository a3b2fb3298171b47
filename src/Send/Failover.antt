-- ===== src/Send/Failover.antt =====
-- nntp.go: `doSendWithRetry`, the way of a request from one provider to the next.
use nntppool.Base.{ℕ, true, false, ◌||◌, Option, none, some, List, [], ◌∷◌, Bytes}
use nntppool.Errors.{Err, text}
use nntppool.Outcome.{plain, transport, new_transport_error, or_cause}
use nntppool.Attempt.{Response, Reply, failed, cancellation_response}
use nntppool.Send.{Provider, Call, Settings, World}
use nntppool.Send.Fuel.{◌>>=◌}
use nntppool.Send.Resilient.{try_group_resilient}
use nntppool.Send.Visit.{judge, answer, Trail, test_quota, pass_over, noted, biased}
use nntppool.Send.Race.{
  End, delivered, cancelled, exhausted, Verdict, on_met, race_candidates, with_race,
}
use nntppool.Send.Start.{raceable, choose_start, rotated}

module _ (𝕎 : World) where
  -- `priority || post430`
  abbrev pub urgent : Call → Trail 𝕎 → Call
  urgent call s = record call { priority = call.priority || s.post430 }

  unfoldable pub attend :
      ℕ
      → (Trail 𝕎 → Verdict 𝕎)
      → (Response → Trail 𝕎 → Verdict 𝕎)
      → Call
      → Provider
      → Trail 𝕎
      → Verdict 𝕎
  unfolding on_met
  attend fuel rest miss call g s = do
    t ← try_group_resilient 𝕎 fuel s.world g (urgent call s) false
    on_met 𝕎 rest (miss t.resp) g (noted 𝕎 s t) (judge call g t)

  -- One turn of the loop over the mains or the backups: `rest` is the next turn.
  unfoldable pub visit :
      ℕ
      → (Trail 𝕎 → Verdict 𝕎)
      → (Response → Trail 𝕎 → Verdict 𝕎)
      → Call
      → Provider
      → Trail 𝕎
      → Verdict 𝕎
  unfolding attend
  visit fuel rest miss call g s =
      let (over, w) = test_quota 𝕎 s.world g in
      let s1 : Trail 𝕎 = record s { world = w } in
      elim over [ true ↦ rest (pass_over 𝕎 call g s1) | false ↦ attend fuel rest miss call g s1 ]

  abbrev pub absent : Response → Trail 𝕎 → Trail 𝕎
  absent resp s = record s { last_resp = some resp }

  -- The answer of a provider within the race, and its error with the one before.
  abbrev raced : Option Err → Verdict 𝕎 → Verdict 𝕎
  raced old v = v >>= λ r. some (with_race 𝕎 old r)

  -- A main provider does not have the article: the others are raced, or asked in turn.
  unfoldable pub main_miss :
      ℕ
      → Option Bytes
      → Call
      → List Provider
      → (Trail 𝕎 → Verdict 𝕎)
      → Response
      → Trail 𝕎
      → Verdict 𝕎
  main_miss fuel none call others rest resp s =
      rest (record (absent resp (biased 𝕎 s)) { post430 = true })
  main_miss fuel (some stat) call others rest resp s =
      let s1 : Trail 𝕎 = record (absent resp (biased 𝕎 s)) { post430 = true } in
      raced s1.last_err (race_candidates 𝕎 fuel stat call others s1)

  unfoldable pub main_loop : ℕ → Option Bytes → Call → List Provider → Trail 𝕎 → Verdict 𝕎
  unfolding main_miss
  main_loop fuel stat call [] s = some (s, exhausted)
  main_loop fuel stat call (g ∷ gs) s =
      visit fuel (main_loop fuel stat call gs)
        (main_miss fuel stat call gs (main_loop fuel stat call gs)) call g s

  unfoldable pub backup_loop : ℕ → Call → List Provider → Trail 𝕎 → Verdict 𝕎
  backup_loop fuel call [] s = some (s, exhausted)
  backup_loop fuel call (g ∷ gs) s =
      visit fuel (backup_loop fuel call gs) (λ resp z. backup_loop fuel call gs (absent resp z))
        call g s

  unfoldable pub try_backups : ℕ → Option Bytes → Call → Trail 𝕎 → Verdict 𝕎
  unfolding backup_loop
  try_backups fuel none call s = backup_loop fuel call (𝕎.backups s.world) s
  try_backups fuel (some stat) call s = elim s.post430 [
    | true ↦ raced s.last_err (race_candidates 𝕎 fuel stat call (𝕎.backups s.world) s)
    | false ↦ backup_loop fuel call (𝕎.backups s.world) s
  ]

  -- All providers are exhausted.
  unfoldable pub conclude : Trail 𝕎 → Reply
  conclude s = elim s.last_err [
    | some e ↦ failed (transport (new_transport_error s.attempts (some e))) s.attempts
    | none ↦ elim s.last_resp [
      | some resp ↦ answer resp s.attempts
      | none ↦ failed (plain (text "nntp: all providers exhausted")) []
    ]
  ]

  unfoldable pub reply_of : Trail 𝕎 → End → Reply
  unfolding conclude
  reply_of s (delivered reply) = reply
  reply_of s cancelled =
      cancellation_response s.attempts (or_cause (𝕎.ctx_err s.world) (𝕎.client_err s.world))
  reply_of s exhausted = conclude s

  -- The backups come behind mains that are exhausted.
  unfoldable pub after_mains : ℕ → Option Bytes → Call → Trail 𝕎 → End → Verdict 𝕎
  unfolding try_backups
  after_mains fuel stat call s exhausted = try_backups fuel stat call s
  after_mains fuel stat call s (delivered reply) = some (s, delivered reply)
  after_mains fuel stat call s cancelled = some (s, cancelled)

  unfoldable pub ask_all : ℕ → Option Bytes → Call → List Provider → 𝕎.W → Verdict 𝕎
  unfolding main_loop after_mains
  ask_all fuel stat call mains w = do
    r ←
        main_loop fuel stat call mains
          (record { world = w; attempts = []; last_err = none; last_resp = none; post430 = false })
    after_mains fuel stat call r.0 r.1

  unfoldable pub do_send : ℕ → Settings → Call → 𝕎.W → Option (𝕎.W × Reply)
  do_send fuel settings call w = elim (𝕎.mains w) [
    | [] ↦ some (w, failed (plain (text "nntp: no main providers")) [])
    | g ∷ gs ↦
        let (start, w1) = choose_start 𝕎 settings (g ∷ gs) w in
        ask_all fuel (raceable settings call.payload) call (rotated start (g ∷ gs)) w1 >>= λ r.
        some (r.0.world, reply_of r.0 r.1)
  ]
