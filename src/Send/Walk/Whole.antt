-- ===== src/Send/Walk/Whole.antt =====
-- What holds along `doSendWithRetry`.
use nntppool.Base.{
  ℕ, Bool, true, false, Option, none, some, List, [], ◌∷◌, ◌⊎◌, inl, Bytes, if_both, ◌||◌,
}
use nntppool.Errors.{Err, text}
use nntppool.Outcome.{plain}
use nntppool.Dispatch.{Group}
use nntppool.Attempt.{Response, Reply, failed}
use nntppool.Send.{Provider, Call, Settings, World}
use nntppool.Send.Fuel.{◌>>=◌, Yields, bind-Yields}
use nntppool.Send.Resilient.{try_group_resilient}
use nntppool.Send.Visit.{judge, Trail, test_quota, pass_over, noted}
use nntppool.Send.Race.{
  End, delivered, cancelled, exhausted, Verdict, race_candidates, with_race, stat_call,
}
use nntppool.Send.Start.{choose_start, put_quotas, rotated, raceable}
use nntppool.Send.Failover.{
  urgent, attend, visit, absent, main_miss, main_loop, backup_loop, try_backups, after_mains,
  ask_all, do_send, reply_of,
}
use nntppool.Send.Walk.{
  Keeps, After, Good, Good-Inv, Trusted, on_met-Good, test_quota-keeps, pass_over-keeps,
  biased-keeps, After-met,
}
use nntppool.Send.Walk.Racing.{race_candidates-Good, with_race-Good}

module _ (𝕎 : World) (Inv Fin : 𝕎.W → Type 0) (k : Keeps 𝕎 Inv Fin) (fuel : ℕ) (call : Call)
    (h : (priority : Bool) → Trusted 𝕎 Inv Fin fuel (record call { priority = priority }))
    (h' : (stat : Bytes) (w : 𝕎.W) (g : Provider)
      → Inv w
      → Yields (λ t. Inv t.world) (try_group_resilient 𝕎 fuel w g (stat_call stat) false)) where
  visit-Good :
      (rest : Trail 𝕎 → Verdict 𝕎) (miss : Response → Trail 𝕎 → Verdict 𝕎)
      → ((z : Trail 𝕎) → Inv z.world → Yields (Good 𝕎 Inv Fin) (rest z))
      → ((r : Response) (z : Trail 𝕎) → Inv z.world → Yields (Good 𝕎 Inv Fin) (miss r z))
      → (g : Provider) (s : Trail 𝕎) → Inv s.world
      → Yields (Good 𝕎 Inv Fin) (visit 𝕎 fuel rest miss call g s)
  unfolding visit attend noted
  visit-Good rest miss hr hm g s i =
      let w = test_quota 𝕎 s.world g in
      let s1 : Trail 𝕎 = record s { world = w.1 } in
      let j = test_quota-keeps 𝕎 Inv Fin s.world g k i in
      elim w.0
        as (λ b. Yields (Good 𝕎 Inv Fin) (elim b [
          | true ↦ rest (pass_over 𝕎 call g s1)
          | false ↦ attend 𝕎 fuel rest miss call g s1
        ])) [
          | true ↦ hr (pass_over 𝕎 call g s1) (pass_over-keeps 𝕎 Inv Fin call g s1 k j)
          | false ↦
              bind-Yields (After 𝕎 Inv Fin call.writer) (Good 𝕎 Inv Fin)
                (try_group_resilient 𝕎 fuel s1.world g (urgent 𝕎 call s1) false) _
                (h (call.priority || s.post430) s1.world g j)
                λ t l.
                  on_met-Good 𝕎 Inv Fin rest (miss t.resp) g (noted 𝕎 s1 t) (judge call g t) k hr
                    (hm t.resp) (After-met 𝕎 Inv Fin call g t l)
        ]

  race-Good :
      (stat : Bytes) (gs : List Provider) (old : Option Err) (s : Trail 𝕎)
      → Inv s.world
      → Yields
          (Good 𝕎 Inv Fin)
          (race_candidates 𝕎 fuel stat call gs s >>= λ r. some (with_race 𝕎 old r))
  race-Good stat gs old s i =
      bind-Yields (Good 𝕎 Inv Fin) (Good 𝕎 Inv Fin) (race_candidates 𝕎 fuel stat call gs s) _
        (race_candidates-Good 𝕎 Inv Fin k fuel stat call (h true) (h' stat) gs s i)
        (with_race-Good 𝕎 Inv Fin k old)

  main_loop-Good :
      (stat : Option Bytes) (gs : List Provider) (s : Trail 𝕎)
      → Inv s.world
      → Yields (Good 𝕎 Inv Fin) (main_loop 𝕎 fuel stat call gs s)
  unfolding main_loop main_miss
  main_loop-Good stat [] s i = Good-Inv 𝕎 Inv Fin s exhausted i
  main_loop-Good none (g ∷ gs) s i =
      visit-Good (main_loop 𝕎 fuel none call gs) _ (main_loop-Good none gs)
        (λ r z j. main_loop-Good none gs _ (biased-keeps 𝕎 Inv Fin z k j)) g s i
  main_loop-Good (some stat) (g ∷ gs) s i =
      visit-Good (main_loop 𝕎 fuel (some stat) call gs) _ (main_loop-Good (some stat) gs)
        (λ r z j. race-Good stat gs _ _ (biased-keeps 𝕎 Inv Fin z k j)) g s i

  backup_loop-Good :
      (gs : List Provider) (s : Trail 𝕎)
      → Inv s.world
      → Yields (Good 𝕎 Inv Fin) (backup_loop 𝕎 fuel call gs s)
  unfolding backup_loop
  backup_loop-Good [] s i = Good-Inv 𝕎 Inv Fin s exhausted i
  backup_loop-Good (g ∷ gs) s i =
      visit-Good (backup_loop 𝕎 fuel call gs) _ (backup_loop-Good gs)
        (λ r z. backup_loop-Good gs (absent 𝕎 r z)) g s i

  try_backups-Good :
      (stat : Option Bytes) (s : Trail 𝕎)
      → Inv s.world
      → Yields (Good 𝕎 Inv Fin) (try_backups 𝕎 fuel stat call s)
  unfolding try_backups
  try_backups-Good none s i = backup_loop-Good (𝕎.backups s.world) s i
  try_backups-Good (some stat) s i =
      elim s.post430
        as (λ b. Yields (Good 𝕎 Inv Fin) (elim b [
          | true ↦ race_candidates 𝕎 fuel stat call (𝕎.backups s.world) s >>= λ r.
              some (with_race 𝕎 s.last_err r)
          | false ↦ backup_loop 𝕎 fuel call (𝕎.backups s.world) s
        ])) [
          | true ↦ race-Good stat (𝕎.backups s.world) s.last_err s i
          | false ↦ backup_loop-Good (𝕎.backups s.world) s i
        ]

  after_mains-Good :
      (stat : Option Bytes) (r : Trail 𝕎 × End)
      → Good 𝕎 Inv Fin r
      → Yields (Good 𝕎 Inv Fin) (after_mains 𝕎 fuel stat call r.0 r.1)
  unfolding after_mains Good
  after_mains-Good stat (s, exhausted) i = try_backups-Good stat s i
  after_mains-Good stat (s, delivered reply) i = i
  after_mains-Good stat (s, cancelled) i = i

  ask_all-Good :
      (stat : Option Bytes) (gs : List Provider) (w : 𝕎.W)
      → Inv w
      → Yields (Good 𝕎 Inv Fin) (ask_all 𝕎 fuel stat call gs w)
  unfolding ask_all
  ask_all-Good stat gs w i =
      bind-Yields (Good 𝕎 Inv Fin) (Good 𝕎 Inv Fin) (main_loop 𝕎 fuel stat call gs _) _
        (main_loop-Good stat gs _ i) (after_mains-Good stat)

  put_quotas-keeps :
      (gs : List Provider) (qs : List (Group 𝕎.floats)) (w : 𝕎.W)
      → Inv w
      → Inv (put_quotas 𝕎 w gs qs)
  unfolding put_quotas
  put_quotas-keeps [] qs w i = i
  put_quotas-keeps (g ∷ gs) [] w i = i
  put_quotas-keeps (g ∷ gs) (q ∷ qs) w i = put_quotas-keeps gs qs _ (k.keep_quota w g q.quota i)

  choose_start-keeps :
      (settings : Settings) (gs : List Provider) (w : 𝕎.W)
      → Inv w
      → Inv (choose_start 𝕎 settings gs w).1
  unfolding choose_start
  choose_start-keeps settings gs w i =
      let j = k.keep_clock w i in
      let P : ℕ × 𝕎.W → Type 0 = λ z. Inv z.1 in
      if_both P settings.fifo (put_quotas-keeps gs _ _ j)
        (if_both P _ (put_quotas-keeps gs _ _ j) (k.keep_bump _ (put_quotas-keeps gs _ _ j)))

  Good-either : (r : Trail 𝕎 × End) → Good 𝕎 Inv Fin r → Inv r.0.world ⊎ Fin r.0.world
  unfolding Good
  Good-either (s, exhausted) i = inl i
  Good-either (s, delivered reply) i = i
  Good-either (s, cancelled) i = i

  abbrev pub Reached : 𝕎.W × Reply → Type 0
  Reached (w, reply) = Inv w ⊎ Fin w

  pub do_send-Good :
      (settings : Settings) (w : 𝕎.W) → Inv w → Yields Reached (do_send 𝕎 fuel settings call w)
  unfolding do_send
  do_send-Good settings w i =
      elim (𝕎.mains w)
        as (λ ms. Yields Reached (elim ms [
          | [] ↦ some (w, failed (plain (text "nntp: no main providers")) [])
          | g ∷ gs ↦
              let (start, w1) = choose_start 𝕎 settings (g ∷ gs) w in
              ask_all 𝕎 fuel (raceable settings call.payload) call (rotated start (g ∷ gs)) w1
              >>= λ r. some (r.0.world, reply_of 𝕎 r.0 r.1)
        ])) [
          | [] ↦ inl i
          | g ∷ gs ↦
              bind-Yields (Good 𝕎 Inv Fin) Reached
                (ask_all 𝕎 fuel (raceable settings call.payload) call _ _) _
                (ask_all-Good (raceable settings call.payload) _ _
                  (choose_start-keeps settings (g ∷ gs) w i))
                Good-either
        ]
