-- ===== src/Connection/Settled/Kept.antt =====
-- nntp.go: what the writer of a connection does to a request that it has taken.
use nntppool.Base.{
  ℕ, ◌+◌, ◌≡◌, ◌⊎◌, inl, inr, refl, ap, Bool, true, false, not, ◌&&◌, ◌||◌, Option, none, some, [],
  ◌∷◌, ◌++◌, arith, if◌then◌else◌, ◌==◌, if_both, if_split, option_both, Bool-cases, elem,
}
use nntppool.Errors.{Err, sentinel, background_stat_window_full}
use nntppool.Connection.{
  PipeRequest, Pipe, fail_request, acquire_background_stat, release_inflight, release_body,
  release_background_stat, is_background, failed_with, enqueue, push_pending, break_down,
  is_cheap_command,
}
use nntppool.Connection.Writer.{
  top, claimed, Side, Arrival, shut, came, Wake, urgent, normal, done, idle, alarm, Offers, Io,
  leave, goes_on, takes, takes_normal, keep_alive, wakes, select_normal, seek, screen, admit,
  transmit, blocked_deferred_stat, or_then, take_priority, put_off,
}
use nntppool.Connection.Settled.{
  has, is_id, hand, owns, elem-append, settle-has, break_down-has, leave-has,
}
use nntppool.Connection.Order.{ids, ids-append, waiting}
use nntppool.Connection.Tidy.{clash}

-- What is not in the writer's hand.
abbrev pub rest : Bool → ℕ → Side → Bool
rest past id s = is_id id s.deferred_normal || has past id s.pipe

enqueue-has :
    (past : Bool) (id : ℕ) (req : PipeRequest) (p : Pipe)
    → (((req.id == id) || has past id p) ≡ true)
    → has past id (enqueue req p) ≡ true
enqueue-has past id req p h = ground (
  arith,
  h,
  ap (elem id) (ids-append (waiting past p.head) p.pending),
  elem-append id (ids (waiting past p.head)) (ids p.pending),
  ap (elem id) (ids-append (waiting past p.head) (p.pending ++ req ∷ [])),
  elem-append id (ids (waiting past p.head)) (ids (p.pending ++ req ∷ [])),
  ap (elem id) (ids-append p.pending (req ∷ [])),
  elem-append id (ids p.pending) (req.id ∷ []),
)

module _ (past : Bool) (id : ℕ) where
  pub takes-owns :
      (a : Arrival) (s : Side) → rest past id s ≡ true → owns past id (takes a s) ≡ true
  unfolding takes hand
  takes-owns shut s h = leave-has past id none (release_inflight s.pipe) s h
  takes-owns (came req) s h = ground (arith, h)

  takes_normal-owns :
      (o : Offers) (a : Arrival) (s : Side)
      → s.deferred_normal ≡ none
      → ((is_id id (put_off a) || has past id s.pipe) ≡ true)
      → owns past id (takes_normal o a s) ≡ true
  unfolding takes_normal takes hand
  takes_normal-owns o a s n h =
      option_both (λ t. owns past id t ≡ true) (take_priority o.hot_prio_again o.prio_again)
        (at_arrival a h) (λ p. takes-owns p (record s { deferred_normal = put_off a }) h)
    where
      at_arrival :
          (a : Arrival)
          → ((is_id id (put_off a) || has past id s.pipe) ≡ true)
          → owns past id (takes a s) ≡ true
      at_arrival shut h = leave-has past id none (release_inflight s.pipe) s (ground (arith, h))
      at_arrival (came req) h = ground (arith, h)

  wakes-owns :
      (o : Offers) (io : Io) (w : Wake) (s : Side)
      → s.deferred_normal ≡ none
      → has past id s.pipe ≡ true
      → owns past id (wakes o io w s) ≡ true
  unfolding wakes keep_alive hand
  wakes-owns o io (urgent a) s n h = takes-owns a s (ground (arith, h))
  wakes-owns o io (normal a) s n h = takes_normal-owns o a s n (ground (arith, h))
  wakes-owns o io done s n h =
      leave-has past id none (release_inflight s.pipe) s (ground (arith, h))
  wakes-owns o io idle s n h = ground (arith, h)
  wakes-owns o io (alarm ka) s n h =
      if_both (λ t. owns past id t ≡ true) (io.write && io.flush)
        (ground (arith, enqueue-has past id ka s.pipe (ground (arith, h))))
        (leave-has past id none (break_down s.pipe) s
          (ground (arith, break_down-has past id s.pipe h)))

  pub select_normal-owns :
      (o : Offers) (io : Io) (s : Side)
      → rest past id s ≡ true
      → owns past id (select_normal o io s) ≡ true
  unfolding select_normal
  select_normal-owns o io s h = by_cases s.deferred_normal (or_then o.hot_req o.req) refl
    where
      by_cases :
          (d : Option PipeRequest) (a : Option Arrival)
          → s.deferred_normal ≡ d
          → owns past id (elim d [
            | some req ↦ takes_normal o (came req) (record s { deferred_normal = none })
            | none ↦ elim a [ some b ↦ takes_normal o b s | none ↦ wakes o io o.wake s ]
          ])
            ≡ true
      by_cases (some req) a e =
          takes_normal-owns o (came req) (record s { deferred_normal = none }) refl
            (ground (arith, h, e))
      by_cases none (some a) e = takes_normal-owns o a s e (ground (arith, h, e))
      by_cases none none e = wakes-owns o io o.wake s e (ground (arith, h, e))

  pub seek-owns :
      (o : Offers) (io : Io) (s : Side) → rest past id s ≡ true → owns past id (seek o io s) ≡ true
  unfolding seek hand
  seek-owns o io s h =
      option_both (λ t. owns past id t ≡ true) (take_priority o.hot_prio o.prio)
        (if_both (λ t. owns past id t ≡ true) (blocked_deferred_stat s) h
          (select_normal-owns o io s h))
        (λ a. takes-owns a s h)

  -- The connection breaks down, and the writer leaves.
  pub broken-owns :
      (p : Pipe) (s : Side)
      → ((is_id id s.deferred_normal || has past id p) ≡ true)
      → owns past id (leave none (break_down p) s) ≡ true
  broken-owns p s h =
      leave-has past id none (break_down p) s (elim (Bool-cases (is_id id s.deferred_normal)) [
        | inl e ↦ ground (arith, e)
        | inr e ↦ ground (arith, e, break_down-has past id p (ground (arith, h, e)))
      ])

  pub failed-rest :
      (req : PipeRequest) (e : Err) (p : Pipe) (b : Bool)
      → (((req.id == id) || (b || has past id p)) ≡ true)
      → ((b || has past id (fail_request req e p)) ≡ true)
  failed-rest req e p true h = refl
  failed-rest req e p false h = settle-has past id req.id (failed_with e) p h

  queued-rest :
      (req : PipeRequest) (p : Pipe) (b : Bool)
      → (((req.id == id) || (b || has past id p)) ≡ true)
      → ((b || has past id (push_pending req p)) ≡ true)
  unfolding push_pending
  queued-rest req p true h = refl
  queued-rest req p false h =
      enqueue-has past id (record req { held_pipeline = true })
        (record p { pipeline_in_use = p.pipeline_in_use + 1 }) h

  released-has :
      (req : PipeRequest) (p : Pipe) → has past id (release_background_stat req p) ≡ has past id p
  unfolding release_background_stat
  released-has req p =
      if_both (λ q. has past id q ≡ has past id p) req.held_background_stat refl refl

  transmit-owns :
      (io : Io) (req : PipeRequest) (p : Pipe) (s : Side)
      → (((req.id == id) || (is_id id s.deferred_normal || has past id p)) ≡ true)
      → owns past id (transmit io req p s) ≡ true
  unfolding transmit hand
  transmit-owns io req p s h =
      let P : Side → Type 0 = λ t. owns past id t ≡ true in
      let queued =
        queued-rest req (record p { wire = p.wire ++ req.id ∷ [] }) (is_id id s.deferred_normal)
          h in
      if_both P (not io.write)
        (broken-owns _ s (
          failed-rest req io.cause (release_background_stat req (release_inflight p))
            (is_id id s.deferred_normal)
            (ground (arith, h, released-has req (release_inflight p)))))
        (if_both P (req.post_mode && not io.flush || not req.post_mode && not io.copy)
          (broken-owns _ s
            (failed-rest req io.cause (release_inflight p) (is_id id s.deferred_normal) h))
          (if_both P req.post_mode queued queued))

  held-owns :
      (req : PipeRequest) {held : PipeRequest} (p : Pipe) {q : Pipe} (b : Bool)
      → acquire_background_stat req p ≡ some (held, q)
      → (((req.id == id) || (b || has past id p)) ≡ true)
      → (((held.id == id) || (b || has past id q)) ≡ true)
  unfolding acquire_background_stat
  held-owns req p b e h = ground (arith, e, h)

  -- A request that is put off was in hand while none was.
  refused-rest :
      (req : PipeRequest) (p : Pipe) (d : Option PipeRequest)
      → (d ≡ none) ⊎ (is_background req ≡ false)
      → acquire_background_stat req p ≡ none
      → (((req.id == id) || (is_id id d || has past id p)) ≡ true)
      → (((req.id == id) || has past id (release_body req (release_inflight p))) ≡ true)
  unfolding acquire_background_stat
  refused-rest req p d c e h = ground (arith, c, e, h)

  refused-kept :
      (req : PipeRequest) (p : Pipe) (b : Bool)
      → (((req.id == id) || (b || has past id p)) ≡ true)
      → (((req.id == id) || (b || has past id (release_body req (release_inflight p)))) ≡ true)
  refused-kept req p b h = ground (arith, h)

  pub admit-owns :
      (io : Io) (boot : Bool) (req : PipeRequest) (p : Pipe) (s : Side)
      → (boot ≡ true) ⊎ ((s.deferred_normal ≡ none) ⊎ (is_background req ≡ false))
      → (((req.id == id) || (is_id id s.deferred_normal || has past id p)) ≡ true)
      → owns past id (admit io boot req p s) ≡ true
  unfolding admit hand
  admit-owns io boot req p s c h = by_cases (acquire_background_stat req p) refl
    where
      by_cases :
          (a : Option (PipeRequest × Pipe))
          → acquire_background_stat req p ≡ a
          → owns past id (elim a [
            | some (held, q) ↦ transmit io held q s
            | none ↦
                let q = release_body req (release_inflight p) in
                if boot
                then goes_on (fail_request req (sentinel background_stat_window_full) q) s
                else record s { pipe = q; writer = top; deferred_normal = some req }
          ])
            ≡ true
      by_cases (some (held, q)) e =
          transmit-owns io held q s (held-owns req p (is_id id s.deferred_normal) e h)
      by_cases none e =
          if_split (λ t. owns past id t ≡ true) boot
            (λ f.
              failed-rest req _ _ (is_id id s.deferred_normal)
                (refused-kept req p (is_id id s.deferred_normal) h))
            (λ f. refused-rest req p s.deferred_normal (ground (arith, c, f)) e h)

  pub screen-owns :
      (io : Io) (boot : Bool) (req : PipeRequest) (s : Side)
      → (boot ≡ true) ⊎ (clash (claimed req) s.deferred_normal ≡ false)
      → (((req.id == id) || rest past id s) ≡ true)
      → owns past id (screen io boot req s) ≡ true
  unfolding screen hand clash
  screen-owns io boot req s c h =
      if_both (λ t. owns past id t ≡ true) (is_cheap_command req.request.payload)
        (admit-owns io boot req s.pipe s (ground (arith, c)) h) h
