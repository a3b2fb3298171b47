-- ===== src/Connection/Slots/Steps.antt =====
-- nntp.go: the steps of a connection keep the slots of its pipeline counted.
use nntppool.Base.{
  ℕ, ◌≡◌, ◌⊎◌, inl, refl, subst, Bool, true, false, not, ◌&&◌, ◌||◌, Option, none, some, [], ◌∷◌,
  ◌++◌, arith, if◌then◌else◌, if_both, option_both,
}
use mathlib.Core.List.{append_assoc}
use nntppool.Errors.{sentinel, background_stat_window_full}
use nntppool.Connection.{
  Outcome, PipeRequest, Pipe, settle, release_inflight, release_body, fail_request, break_down,
  is_background, is_cheap_command, acquire_background_stat, push_pending, enqueue,
  release_background_stat,
}
use nntppool.Connection.Writer.{
  Writer, top, seeking, parked, claimed, wanting, draining, Side, Arrival, shut, came, Wake, urgent,
  normal, done, idle, alarm, Offers, Io, failing, leave, takes, goes_on, takes_normal, keep_alive,
  wakes, select_normal, seek, screen, admit, transmit, blocked_deferred_stat, or_then,
  take_priority, put_off,
}
use nntppool.Connection.Slots.{
  bit, at_head, outstanding, Caps, Load, IsBounded, settle-keeps, release_inflight-IsBounded,
  push_pending-IsBounded, enqueue-IsBounded,
}
use nntppool.Connection.Slots.Breakdown.{unloaded, fail_outstanding-IsBounded}
use nntppool.Connection.Tidy.{is_new, offers_apt, wake_apt}

-- The slots that the writer holds where it can wait.
unfoldable pub slots_held : Writer → ℕ
slots_held seeking = 1
slots_held parked = 1
slots_held (claimed req) = 1
slots_held (wanting boot req) = 1
slots_held (draining n) = n
slots_held _ = 0

abbrev pub slots_of : ℕ → Load
slots_of k = record { slots = k; bodies = 0; stats = 0 }

abbrev pub Counted : Caps → Load → Pipe → Type 0
Counted caps l p = IsBounded caps l (outstanding p) p

abbrev pub Balanced : Caps → Side → Type 0
Balanced caps s = Counted caps (slots_of (slots_held s.writer)) s.pipe

module _ {caps : Caps} where
  pub settle-Counted :
      {l : Load} (id : ℕ) (o : Outcome) (p : Pipe)
      → Counted caps l p
      → Counted caps l (settle id o p)
  settle-Counted {l = l} id o p h = settle-keeps (Counted caps l) id o p (λ s. ground arith)

  failing-Counted :
      {l : Load} (o : Option PipeRequest) (p : Pipe)
      → Counted caps l p
      → Counted caps l (failing o p)
  failing-Counted none p h = h
  failing-Counted (some req) p h = settle-Counted req.id _ p h

  pub break_down-Counted :
      {l : Load} (p : Pipe) → Counted caps l p → Counted caps unloaded (break_down p)
  unfolding break_down
  break_down-Counted {l = l} p h =
      fail_outstanding-IsBounded {l = unloaded} (record p { live = false }) refl (ground (arith, h))

  -- The writer keeps what it holds when the reader closes the connection.
  pub break_down-kept : {l : Load} (p : Pipe) → Counted caps l p → Counted caps l (break_down p)
  unfolding break_down
  break_down-kept p h =
      fail_outstanding-IsBounded (record p { live = false }) refl (ground (arith, h))

  pub leave-Balanced :
      {l : Load} (unsent : Option PipeRequest) (p : Pipe) (s : Side)
      → Counted caps l p
      → Balanced caps (leave unsent p s)
  unfolding leave slots_held
  leave-Balanced unsent p s h =
      break_down-Counted _ (failing-Counted s.deferred_normal _ (failing-Counted unsent p h))

  pub given_back :
      (p : Pipe) → Counted caps (slots_of 1) p → Counted caps unloaded (release_inflight p)
  given_back p h = release_inflight-IsBounded {k = 0} h

  push_pending-Counted :
      (req : PipeRequest) (p : Pipe)
      → Counted caps
          (record { slots = 1; bodies = bit req.held_body; stats = bit req.held_background_stat })
          p
      → Counted caps unloaded (push_pending req p)
  unfolding push_pending
  push_pending-Counted req p h =
      subst (λ out. IsBounded caps unloaded out (push_pending req p))
        (append_assoc (at_head p.head) p.pending _) (push_pending-IsBounded req h)

  enqueue-Counted :
      (req : PipeRequest) (p : Pipe)
      → is_new req ≡ true
      → Counted caps (slots_of 1) p
      → Counted caps unloaded (enqueue req p)
  enqueue-Counted req p n h =
      subst (λ out. IsBounded caps unloaded out (enqueue req p))
        (append_assoc (at_head p.head) p.pending _)
        (enqueue-IsBounded req (ground (arith, n)) (ground (arith, n)) (ground (arith, n)) h)

  pub takes-Balanced :
      (a : Arrival) (s : Side) → Counted caps (slots_of 1) s.pipe → Balanced caps (takes a s)
  unfolding takes slots_held
  takes-Balanced shut s h = leave-Balanced none _ s (given_back s.pipe h)
  takes-Balanced (came req) s h = h

  takes_normal-Balanced :
      (o : Offers) (a : Arrival) (s : Side)
      → Counted caps (slots_of 1) s.pipe
      → Balanced caps (takes_normal o a s)
  unfolding takes_normal
  takes_normal-Balanced o a s h =
      option_both (Balanced caps) (take_priority o.hot_prio_again o.prio_again)
        (takes-Balanced a s h) (λ p. takes-Balanced p (record s { deferred_normal = put_off a }) h)

  wired :
      {l : Load} (id : ℕ) (p : Pipe)
      → Counted caps l p
      → Counted caps l (record p { wire = p.wire ++ id ∷ [] })
  wired id p h = ground arith

  wakes-Balanced :
      (o : Offers) (io : Io) (w : Wake) (s : Side)
      → offers_apt o ≡ true
      → wake_apt w ≡ true
      → Counted caps (slots_of 1) s.pipe
      → Balanced caps (wakes o io w s)
  unfolding wakes keep_alive slots_held
  wakes-Balanced o io (urgent a) s ho hw h = takes-Balanced a s h
  wakes-Balanced o io (normal a) s ho hw h = takes_normal-Balanced o a s h
  wakes-Balanced o io done s ho hw h = leave-Balanced none _ s (given_back s.pipe h)
  wakes-Balanced o io idle s ho hw h = given_back s.pipe h
  wakes-Balanced o io (alarm ka) s ho hw h =
      if_both (Balanced caps) (io.write && io.flush)
        (enqueue-Counted ka _ hw (wired ka.id s.pipe h))
        (leave-Balanced none _ s (break_down-Counted s.pipe h))

  pub select_normal-Balanced :
      (o : Offers) (io : Io) (s : Side)
      → offers_apt o ≡ true
      → Counted caps (slots_of 1) s.pipe
      → Balanced caps (select_normal o io s)
  unfolding select_normal
  select_normal-Balanced o io s ho h =
      option_both (Balanced caps) s.deferred_normal
        (option_both (Balanced caps) (or_then o.hot_req o.req)
          (wakes-Balanced o io o.wake s ho (ground arith) h) (λ a. takes_normal-Balanced o a s h))
        (λ req. takes_normal-Balanced o (came req) (record s { deferred_normal = none }) h)

  pub seek-Balanced :
      (o : Offers) (io : Io) (s : Side)
      → offers_apt o ≡ true
      → Counted caps (slots_of 1) s.pipe
      → Balanced caps (seek o io s)
  unfolding seek slots_held
  seek-Balanced o io s ho h =
      option_both (Balanced caps) (take_priority o.hot_prio o.prio)
        (if_both (Balanced caps) (blocked_deferred_stat s) h (select_normal-Balanced o io s ho h))
        (λ a. takes-Balanced a s h)

  both_given_back :
      {b : ℕ} (req : PipeRequest) (p : Pipe)
      → Counted caps (record { slots = 1; bodies = b; stats = bit req.held_background_stat }) p
      → Counted caps
          (record { slots = 0; bodies = b; stats = 0 })
          (release_background_stat req (release_inflight p))
  unfolding release_background_stat
  both_given_back req p h = ground (arith, h)

  transmit-Balanced :
      (io : Io) (req : PipeRequest) (p : Pipe) (s : Side)
      → Counted caps
          (record { slots = 1; bodies = bit req.held_body; stats = bit req.held_background_stat })
          p
      → Balanced caps (transmit io req p s)
  unfolding transmit slots_held
  transmit-Balanced io req p s h =
      if_both (Balanced caps) (not io.write)
        (leave-Balanced none _ s
          (break_down-Counted _ (settle-Counted req.id _ _ (both_given_back req p h))))
        (if_both (Balanced caps) (req.post_mode && not io.flush || not req.post_mode && not io.copy)
          (leave-Balanced none _ s (
            break_down-Counted _ (
              settle-Counted req.id _ _
                (release_inflight-IsBounded {k = 0} {b = bit req.held_body} h))))
          (if_both (Balanced caps) req.post_mode (push_pending-Counted req _ (wired req.id p h))
            (push_pending-Counted req _ (wired req.id p h))))

  admitted-Counted :
      {held : PipeRequest} {q : Pipe} (req : PipeRequest) (p : Pipe)
      → req.held_background_stat ≡ false
      → acquire_background_stat req p ≡ some (held, q)
      → Counted caps (record { slots = 1; bodies = bit req.held_body; stats = 0 }) p
      → Counted caps
          (record { slots = 1; bodies = bit held.held_body; stats = bit held.held_background_stat })
          q
  unfolding acquire_background_stat
  admitted-Counted req p g e h = ground (arith, g, e, h)

  -- Only a background STAT finds the window full, and that has no slot of `bodySem`.
  refused-Counted :
      (req : PipeRequest) (p : Pipe)
      → (req.held_body ≡ false) ⊎ (is_background req ≡ false)
      → acquire_background_stat req p ≡ none
      → Counted caps (record { slots = 1; bodies = bit req.held_body; stats = 0 }) p
      → Counted caps unloaded (release_body req (release_inflight p))
  unfolding acquire_background_stat is_cheap_command
  refused-Counted req p b e h = ground (arith, b, e, h)

  -- With the slot of `bodySem` that it needs.
  pub admit-Balanced :
      (io : Io) (boot : Bool) (req : PipeRequest) (p : Pipe) (s : Side)
      → req.held_background_stat ≡ false
      → (req.held_body ≡ false) ⊎ (is_background req ≡ false)
      → Counted caps (record { slots = 1; bodies = bit req.held_body; stats = 0 }) p
      → Balanced caps (admit io boot req p s)
  unfolding admit slots_held
  admit-Balanced io boot req p s g b h = by_cases (acquire_background_stat req p) refl
    where
      by_cases :
          (a : Option (PipeRequest × Pipe))
          → acquire_background_stat req p ≡ a
          → Balanced caps (elim a [
            | some (held, q) ↦ transmit io held q s
            | none ↦
                let q = release_body req (release_inflight p) in
                if boot
                then goes_on (fail_request req (sentinel background_stat_window_full) q) s
                else record s { pipe = q; writer = top; deferred_normal = some req }
          ])
      by_cases (some (held, q)) e = transmit-Balanced io held q s (admitted-Counted req p g e h)
      by_cases none e =
          let k = refused-Counted req p b e h in
          if_both (Balanced caps) boot (settle-Counted req.id _ _ k) k

  pub screen-Balanced :
      (io : Io) (boot : Bool) (req : PipeRequest) (s : Side)
      → is_new req ≡ true
      → Counted caps (slots_of 1) s.pipe
      → Balanced caps (screen io boot req s)
  unfolding screen slots_held
  screen-Balanced io boot req s n h =
      if_both (Balanced caps) (is_cheap_command req.request.payload)
        (admit-Balanced io boot req s.pipe s (ground arith) (inl (ground arith))
          (ground (arith, n, h)))
        h
