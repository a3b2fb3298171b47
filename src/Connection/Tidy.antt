-- ===== src/Connection/Tidy.antt =====
-- nntp.go: the requests that the writer of a connection has in hand: not marked yet, and no second
-- one is put off while one is.
pub mod Steps
use nntppool.Base.{
  ℕ, ◌≡◌, ◌⊎◌, inl, inr, refl, Bool, true, false, not, ◌&&◌, ◌||◌, Option, none, some, arith,
  if◌then◌else◌, Bool-cases, Option-cases, if_both, option_both,
}
use nntppool.Errors.{Err}
use nntppool.Connection.{
  PipeRequest, Pipe, is_background, is_cheap_command, acquire_background_stat, acquire_inflight,
  acquire_body, outcome_of, release_inflight, release_body, fail_request, break_down, enqueue,
  push_pending, release_background_stat,
}
use nntppool.Connection.Writer.{
  Writer, booting, entering, top, seeking, parked, claimed, wanting, posting, probing, gone, Side,
  Arrival, shut, came, Wake, urgent, normal, done, idle, alarm, Offers, Io, leave, takes,
  takes_normal, keep_alive, wakes, select_normal, seek, screen, admit, transmit, check_claimed,
  check_first, post_article, hear_probe, blocked_deferred_stat, or_then,
}
use nntppool.Connection.Replies.{
  Connection, Event, checks, takes_slot, seeks, seeks_alone, wakes_freed, wakes_urgent, takes_body,
  hears, gives_up, is_done, receives, confirms, quits, cancels, finishes, take_slot, take_body,
  stop_writer, check, seek_from, wake_urgent, wake_freed, give_up, hear, step, Reader,
  receives_next, confirm, finish_one, quit, finish, rejecting, receive,
}

abbrev pub is_new : PipeRequest → Bool
is_new req = not req.held_body && not req.held_background_stat && not req.held_pipeline

-- What a channel gives: a new request, of priority if the channel is one of priority.
abbrev pub is_apt : Bool → Arrival → Bool
is_apt prio shut = true
is_apt prio (came req) = is_new req && (not prio || req.request.priority)

abbrev pub is_apt? : Bool → Option Arrival → Bool
is_apt? prio none = true
is_apt? prio (some a) = is_apt prio a

abbrev pub wake_apt : Wake → Bool
wake_apt (urgent a) = is_apt true a
wake_apt (normal a) = is_apt false a
wake_apt done = true
wake_apt idle = true
wake_apt (alarm ka) = is_new ka

abbrev pub offers_apt : Offers → Bool
offers_apt o =
    is_apt? true o.hot_prio
    && is_apt? true o.prio
    && is_apt? false o.hot_req
    && is_apt? false o.req
    && wake_apt o.wake
    && is_apt? true o.hot_prio_again
    && is_apt? true o.prio_again

-- The events of a connection of a pool, which has the channels of priority.
unfoldable pub event_apt : Event → Bool
event_apt (seeks o io) = offers_apt o
event_apt (wakes_freed o io) = offers_apt o
event_apt (wakes_urgent a) = is_apt true a
event_apt (seeks_alone w io) = false
event_apt _ = true

-- The request in hand is not marked, and needs `bodySem` where it waits for it.
unfoldable pub in_hand : Writer → Bool
in_hand (booting req) = is_new req
in_hand (entering req) = is_new req
in_hand (claimed req) = is_new req
in_hand (wanting boot req) = is_new req && not (is_cheap_command req.request.payload)
in_hand _ = true

abbrev pub is_new? : Option PipeRequest → Bool
is_new? none = true
is_new? (some req) = is_new req

-- A request in hand that could be put off while another is.
unfoldable pub clash : Writer → Option PipeRequest → Bool
clash (claimed req) (some d) = is_background req
clash (wanting boot req) (some d) = is_background req
clash w d = false

pub record IsTidy (s : Side) : Type 0 where
  pub hand : in_hand s.writer ≡ true
  pub put_off : is_new? s.deferred_normal ≡ true
  pub apart : clash s.writer s.deferred_normal ≡ false

pub leave-IsTidy : (unsent : Option PipeRequest) (p : Pipe) (s : Side) → IsTidy (leave unsent p s)
unfolding leave in_hand clash
leave-IsTidy unsent p s = record { hand = refl; put_off = refl; apart = refl }

-- With a request put off, only one of priority is taken.
pub takes-IsTidy :
    (a : Arrival) (s : Side)
    → is_apt false a ≡ true
    → is_new? s.deferred_normal ≡ true
    → (is_apt true a ≡ true) ⊎ (s.deferred_normal ≡ none)
    → IsTidy (takes a s)
unfolding takes in_hand clash is_cheap_command
takes-IsTidy shut s h d e = leave-IsTidy none (release_inflight s.pipe) s
takes-IsTidy (came req) s h d e = ground arith

takes_normal-IsTidy :
    (o : Offers) (a : Arrival) (s : Side)
    → offers_apt o ≡ true
    → is_apt false a ≡ true
    → s.deferred_normal ≡ none
    → IsTidy (takes_normal o a s)
unfolding takes_normal takes leave in_hand clash
takes_normal-IsTidy o a s ho ha e = ground arith

wakes-IsTidy :
    (o : Offers) (io : Io) (w : Wake) (s : Side)
    → offers_apt o ≡ true
    → wake_apt w ≡ true
    → s.deferred_normal ≡ none
    → IsTidy (wakes o io w s)
unfolding wakes keep_alive leave in_hand clash
wakes-IsTidy o io (urgent a) s ho hw e = takes-IsTidy a s (ground arith) (ground arith) (inr e)
wakes-IsTidy o io (normal a) s ho hw e = takes_normal-IsTidy o a s ho hw e
wakes-IsTidy o io done s ho hw e = ground arith
wakes-IsTidy o io idle s ho hw e = ground arith
wakes-IsTidy o io (alarm ka) s ho hw e = ground arith

pub select_normal-IsTidy :
    (o : Offers) (io : Io) (s : Side)
    → offers_apt o ≡ true
    → is_new? s.deferred_normal ≡ true
    → IsTidy (select_normal o io s)
unfolding select_normal
select_normal-IsTidy o io s ho h = by_cases s.deferred_normal (or_then o.hot_req o.req) refl refl
  where
    by_cases :
        (d : Option PipeRequest) (a : Option Arrival)
        → s.deferred_normal ≡ d
        → or_then o.hot_req o.req ≡ a
        → IsTidy (elim d [
          | some req ↦ takes_normal o (came req) (record s { deferred_normal = none })
          | none ↦ elim a [ some b ↦ takes_normal o b s | none ↦ wakes o io o.wake s ]
        ])
    by_cases (some req) a e f =
        takes_normal-IsTidy o (came req) (record s { deferred_normal = none }) ho (ground arith)
          refl
    by_cases none (some a) e f = takes_normal-IsTidy o a s ho (ground arith) e
    by_cases none none e f = wakes-IsTidy o io o.wake s ho (ground arith) e

pub seek-IsTidy :
    (o : Offers) (io : Io) (s : Side)
    → offers_apt o ≡ true
    → is_new? s.deferred_normal ≡ true
    → IsTidy (seek o io s)
unfolding seek takes leave in_hand clash
seek-IsTidy o io s ho d = ground (arith, select_normal-IsTidy o io s)

transmit-IsTidy :
    (io : Io) (req : PipeRequest) (p : Pipe) (s : Side)
    → is_new? s.deferred_normal ≡ true
    → IsTidy (transmit io req p s)
unfolding transmit in_hand clash leave
transmit-IsTidy io req p s d = ground arith

-- A request that is put off is new, and none was.
pub admit-IsTidy :
    (io : Io) (boot : Bool) (req : PipeRequest) (p : Pipe) (s : Side)
    → is_new? s.deferred_normal ≡ true
    → (is_new req ≡ true) ⊎ (is_background req ≡ false)
    → IsTidy (admit io boot req p s)
unfolding admit transmit leave acquire_background_stat is_cheap_command in_hand clash
admit-IsTidy io boot req p s d e = ground (arith, d, e)
