-- ===== src/Connection/Order.antt =====
-- nntp.go: responses are matched to requests in the order in which these were written.
pub mod Steps
pub mod Pairing
use Prim.Native.String.{String}
use mathlib.Core.List.{append_assoc, append-nil}
use nntppool.Base.{
  ℕ, ◌+◌, ◌≡◌, refl, sym, ap, ◌∙◌, subst, Bool, true, false, not, ◌&&◌, ◌||◌, Option, none, some,
  List, [], ◌∷◌, ◌++◌, map, arith, if◌then◌else◌, if_both, option_both, Bool-cases,
}
use nntppool.Errors.{Err, is_code}
use nntppool.Connection.{
  PipeRequest, Pipe, Outcome, answered, closed, new_pipe, settle, fail_request, acquire_inflight,
  acquire_body, acquire_background_stat, release_inflight, release_body, release_background_stat,
  release_request_pending, enqueue, push_pending, fail_outstanding, break_down, is_cheap_command,
  outcome_of,
}
use nntppool.Connection.Writer.{
  Writer, booting, entering, top, seeking, parked, claimed, wanting, posting, probing, gone, Side,
  Arrival, shut, came, Wake, urgent, normal, done, idle, alarm, Offers, Io, failing, leave, goes_on,
  takes, takes_normal, keep_alive, wakes, select_normal, seek, seek_alone, screen, admit, transmit,
  check_claimed, check_first, is_stale, post_article, hear_probe, blocked_deferred_stat, or_then,
  take_priority, put_off, is_expected,
}
use nntppool.Connection.Replies.{
  Reader, running, confirming, stopped, delivered, slot_free, stat_free, Connection, Event, checks,
  takes_slot, seeks, wakes_freed, wakes_urgent, takes_body, hears, gives_up, is_done, receives,
  confirms, quits, cancels, finishes, take_slot, take_body, stop_writer, check, seek_from,
  wake_urgent, wake_freed, give_up, hear, step, receives_next, confirm, sided, begin, run,
  finish_one, quit, finish, rejecting, receive, Reading, with_pipe, retires, deliver_response,
}
use nntppool.Connection.Slots.{at_head, outstanding, settle-keeps}
use nntppool.Connection.Slots.Breakdown.{IsAlike, fail_all-IsAlike}
use nntppool.Connection.Tidy.Steps.{Then, Then-some, Then-bind}

abbrev pub ids : List PipeRequest → List ℕ
ids reqs = map (λ r. r.id) reqs

-- Whether the reader is past the request at the head.
abbrev pub is_past : Reader → Bool
is_past (delivered r) = true
is_past (slot_free r) = true
is_past (stat_free r) = true
is_past _ = false

abbrev pub waiting : Bool → Option PipeRequest → List PipeRequest
waiting true head = []
waiting false head = at_head head

-- Sent, and not answered, where the reader is past the one at the head or not.
abbrev pub unread : Bool → Pipe → List PipeRequest
unread past p = waiting past p.head ++ p.pending

-- While the connection lives and every response was read whole, what is written is what is answered,
-- and then what is not.
abbrev pub Fifo : Bool → Pipe → Type 0
Fifo past p = p.live ≡ true → p.in_order ≡ true → p.wire ≡ p.replies ++ ids (unread past p)

abbrev pub Kept : Bool → Side → Type 0
Kept past s = Fifo past s.pipe

pub fail_outstanding-dead : (p : Pipe) → p.live ≡ false → (fail_outstanding p).live ≡ false
unfolding fail_outstanding
fail_outstanding-dead p d = (fail_all-IsAlike p.pending (record p { pending = [] })).live ∙ d

pub ids-append : (xs ys : List PipeRequest) → ids (xs ++ ys) ≡ ids xs ++ ids ys
ids-append [] ys = refl
ids-append (x ∷ xs) ys = ap (λ l. x.id ∷ l) (ids-append xs ys)

module _ (past : Bool) where
  pub settle-Fifo : (id : ℕ) (o : Outcome) (p : Pipe) → (Fifo past) p → (Fifo past) (settle id o p)
  settle-Fifo id o p h = settle-keeps (Fifo past) id o p (λ s. h)

  pub dead-Fifo : (p : Pipe) → p.live ≡ false → (Fifo past) p
  dead-Fifo p d = λ l o. ground (arith, d, l)

  pub break_down-Fifo : (p : Pipe) → (Fifo past) (break_down p)
  unfolding break_down
  break_down-Fifo p =
      dead-Fifo (break_down p) (fail_outstanding-dead (record p { live = false }) refl)

  pub leave-Kept :
      (unsent : Option PipeRequest) (p : Pipe) (s : Side) → (Kept past) (leave unsent p s)
  unfolding leave
  leave-Kept unsent p s = break_down-Fifo (failing s.deferred_normal (failing unsent p))

  -- Written, and queued.
  enqueue-Fifo :
      (req : PipeRequest) (p : Pipe)
      → (Fifo past) p
      → (Fifo past) (enqueue req (record p { wire = p.wire ++ req.id ∷ [] }))
  enqueue-Fifo req p h l o =
      ap (λ w. w ++ req.id ∷ []) (h l o)
      ∙ append_assoc p.replies (ids (unread past p)) (req.id ∷ [])
      ∙ ap (λ w. p.replies ++ w)
          (sym (ids-append (unread past p) (req ∷ []))
            ∙ ap ids (append_assoc (waiting past p.head) p.pending (req ∷ [])))

  pub takes-Kept : (a : Arrival) (s : Side) → (Kept past) s → (Kept past) (takes a s)
  unfolding takes
  takes-Kept shut s h = leave-Kept none _ s
  takes-Kept (came req) s h = h

  takes_normal-Kept :
      (o : Offers) (a : Arrival) (s : Side) → (Kept past) s → (Kept past) (takes_normal o a s)
  unfolding takes_normal
  takes_normal-Kept o a s h =
      option_both (Kept past) (take_priority o.hot_prio_again o.prio_again) (takes-Kept a s h)
        (λ p. takes-Kept p (record s { deferred_normal = put_off a }) h)

  wakes-Kept :
      (o : Offers) (io : Io) (w : Wake) (s : Side) → (Kept past) s → (Kept past) (wakes o io w s)
  unfolding wakes keep_alive
  wakes-Kept o io (urgent a) s h = takes-Kept a s h
  wakes-Kept o io (normal a) s h = takes_normal-Kept o a s h
  wakes-Kept o io done s h = leave-Kept none _ s
  wakes-Kept o io idle s h = h
  wakes-Kept o io (alarm ka) s h =
      if_both (Kept past) (io.write && io.flush) (enqueue-Fifo ka s.pipe h) (leave-Kept none _ s)

  pub select_normal-Kept :
      (o : Offers) (io : Io) (s : Side) → (Kept past) s → (Kept past) (select_normal o io s)
  unfolding select_normal
  select_normal-Kept o io s h =
      option_both (Kept past) s.deferred_normal
        (option_both (Kept past) (or_then o.hot_req o.req) (wakes-Kept o io o.wake s h)
          (λ a. takes_normal-Kept o a s h))
        (λ req. takes_normal-Kept o (came req) (record s { deferred_normal = none }) h)

  pub seek-Kept : (o : Offers) (io : Io) (s : Side) → (Kept past) s → (Kept past) (seek o io s)
  unfolding seek
  seek-Kept o io s h =
      option_both (Kept past) (take_priority o.hot_prio o.prio)
        (if_both (Kept past) (blocked_deferred_stat s) h (select_normal-Kept o io s h))
        (λ a. takes-Kept a s h)

  pub seek_alone-Kept :
      (io : Io) (w : Wake) (s : Side) → (Kept past) s → (Kept past) (seek_alone io w s)
  unfolding seek_alone keep_alive
  seek_alone-Kept io (urgent a) s h = h
  seek_alone-Kept io (normal a) s h = takes-Kept a s h
  seek_alone-Kept io done s h = leave-Kept none _ s
  seek_alone-Kept io idle s h = h
  seek_alone-Kept io (alarm ka) s h =
      if_both (Kept past) (io.write && io.flush) (enqueue-Fifo ka s.pipe h) (leave-Kept none _ s)

  pub transmit-Kept :
      (io : Io) (req : PipeRequest) (p : Pipe) (s : Side)
      → (Fifo past) p
      → (Kept past) (transmit io req p s)
  unfolding transmit push_pending
  transmit-Kept io req p s h =
      let queued =
        enqueue-Fifo (record req { held_pipeline = true })
          (record p { pipeline_in_use = p.pipeline_in_use + 1 }) h in
      if_both (Kept past) (not io.write) (leave-Kept none _ s) (
        if_both (Kept past) (req.post_mode && not io.flush || not req.post_mode && not io.copy)
          (leave-Kept none _ s) (if_both (Kept past) req.post_mode queued queued))
