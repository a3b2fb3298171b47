-- ===== src/Connection/Writer.antt =====
-- nntp.go: `Run`, the goroutine of a connection that writes. It is at one of the places of `Writer`
-- where it can wait; between two of them it runs as one of the functions below. What the clock, the
-- channels, the contexts and the socket answer on the way are arguments. The buffered writer is the
-- socket: `io` tells which of the writes, the flush and the copy of the article succeed.
use nntppool.Base.{
  ℕ, Bool, true, false, not, ◌&&◌, ◌||◌, Option, none, some, [], ◌∷◌, ◌++◌, ltb, leb, if◌then◌else◌,
}
use nntppool.Errors.{
  Err, sentinel, canceled, connection_died, fresh_transport_required, background_stat_window_full,
  is_code,
}
use nntppool.Errors
use nntppool.Connection.{
  Outcome, answered, failed_with, closed, PipeRequest, Pipe, is_cheap_command, fail_request,
  release_inflight, release_body, is_background, acquire_background_stat, release_background_stat,
  enqueue, push_pending, break_down,
}

-- `booting` and `entering` are before the loop, with the request of `firstReq`; `wanting` waits for
-- `bodySem`, before the loop where its mark is true; `draining` takes every slot, as responses give
-- them back, and holds so many.
pub data Writer : Type 0 where
  booting entering : PipeRequest → Writer
  top seeking parked : Writer
  claimed : PipeRequest → Writer
  wanting : Bool → PipeRequest → Writer
  posting probing : PipeRequest → Writer
  draining : ℕ → Writer
  gone : Writer

-- `post_ready` is the channel of the request that is posted.
pub record Side : Type 0 where
  pub pipe : Pipe
  pub writer : Writer
  pub deferred_normal : Option PipeRequest
  pub post_ready : Option Bool
  pub created_at : ℕ

-- What a receive gives: nothing for a closed channel.
pub data Arrival : Type 0 where
  shut : Arrival
  came : PipeRequest → Arrival

abbrev pub or_then {ℓ} : {A : Type ℓ} → Option A → Option A → Option A
or_then (some a) o = some a
or_then none o = o

-- `takePriority`, from what it finds in the two channels.
abbrev pub take_priority : Option Arrival → Option Arrival → Option Arrival
take_priority hot_prio prio = or_then hot_prio prio

-- How the last `select` for a request ends.
pub data Wake : Type 0 where
  urgent normal : Arrival → Wake
  done idle : Wake
  alarm : PipeRequest → Wake

-- What the channels hold when they are polled, and how the `select` that waits ends.
pub record Offers : Type 0 where
  pub hot_prio : Option Arrival
  pub prio : Option Arrival
  pub hot_req : Option Arrival
  pub req : Option Arrival
  pub wake : Wake
  pub hot_prio_again : Option Arrival
  pub prio_again : Option Arrival

-- Which of the writes succeed.
pub record Io : Type 0 where
  pub write : Bool
  pub flush : Bool
  pub copy : Bool
  pub cause : Err

abbrev pub failing : Option PipeRequest → Pipe → Pipe
failing none p = p
failing (some req) p = fail_request req (sentinel connection_died) p

-- `return`, with what `Run` defers.
unfoldable pub leave : Option PipeRequest → Pipe → Side → Side
leave unsent p s = record s {
  pipe = break_down (failing s.deferred_normal (failing unsent p));
  writer = gone;
  deferred_normal = none;
}

abbrev pub goes_on : Pipe → Side → Side
goes_on p s = record s { pipe = p; writer = top }

-- `len(c.backgroundStatSem) == cap(c.backgroundStatSem)` and the deferred request is one of those.
unfoldable pub blocked_deferred_stat : Side → Bool
blocked_deferred_stat s = elim s.deferred_normal [
  | none ↦ false
  | some req ↦ is_background req && leb s.pipe.background s.pipe.background_stat_sem
]

unfoldable pub takes : Arrival → Side → Side
unfolding leave
takes shut s = leave none (release_inflight s.pipe) s
takes (came req) s = record s { writer = claimed req }

abbrev pub put_off : Arrival → Option PipeRequest
put_off shut = none
put_off (came req) = some req

-- After a normal request is selected.
unfoldable pub takes_normal : Offers → Arrival → Side → Side
unfolding takes
takes_normal o a s = elim (take_priority o.hot_prio_again o.prio_again) [
  | none ↦ takes a s
  | some p ↦ takes p (record s { deferred_normal = put_off a })
]

-- The keepalive command, written and flushed at once.
unfoldable pub keep_alive : Io → PipeRequest → Side → Side
unfolding leave
keep_alive io ka s =
    if io.write && io.flush
    then record s {
      pipe = enqueue ka (record s.pipe { wire = s.pipe.wire ++ ka.id ∷ [] });
      writer = probing ka;
    }
    else leave none (break_down s.pipe) s

-- On idling, `waitForInflightDrain` comes first.
unfoldable pub wakes : Offers → Io → Wake → Side → Side
unfolding takes takes_normal keep_alive leave
wakes o io (urgent a) s = takes a s
wakes o io (normal a) s = takes_normal o a s
wakes o io done s = leave none (release_inflight s.pipe) s
wakes o io idle s = record s { pipe = release_inflight s.pipe; writer = draining 0 }
wakes o io (alarm ka) s = keep_alive io ka s

-- Without a priority request: the deferred one, then the channels.
unfoldable pub select_normal : Offers → Io → Side → Side
unfolding takes_normal wakes
select_normal o io s = elim s.deferred_normal [
  | some req ↦ takes_normal o (came req) (record s { deferred_normal = none })
  | none ↦ elim (or_then o.hot_req o.req) [
    | some a ↦ takes_normal o a s
    | none ↦ wakes o io o.wake s
  ]
]

unfoldable pub seek : Offers → Io → Side → Side
unfolding takes select_normal blocked_deferred_stat
seek o io s = elim (take_priority o.hot_prio o.prio) [
  | some a ↦ takes a s
  | none ↦ if blocked_deferred_stat s then record s { writer = parked } else select_normal o io s
]

-- The same of a connection with no channels of priority, which are nil in the source, so that nothing
-- urgent comes: `NewNNTPConnection`. It takes from one channel, and never what is put off.
unfoldable pub seek_alone : Io → Wake → Side → Side
unfolding takes keep_alive leave
seek_alone io (urgent a) s = s
seek_alone io (normal a) s = takes a s
seek_alone io done s = leave none (release_inflight s.pipe) s
seek_alone io idle s = record s { pipe = release_inflight s.pipe; writer = draining 0 }
seek_alone io (alarm ka) s = keep_alive io ka s

-- Once it has a slot, and a slot of `bodySem` if it needs one. The request is written and queued.
unfoldable pub transmit : Io → PipeRequest → Pipe → Side → Side
unfolding leave
transmit io req p s =
    if not io.write
    then leave none
        (break_down (fail_request req io.cause (release_background_stat req (release_inflight p))))
        s
    else if req.post_mode && not io.flush || not req.post_mode && not io.copy
    then leave none (break_down (fail_request req io.cause (release_inflight p))) s
    else if req.post_mode
    then record s {
      pipe = push_pending req (record p { wire = p.wire ++ req.id ∷ [] });
      writer = posting req;
      post_ready = none;
    }
    else goes_on (push_pending req (record p { wire = p.wire ++ req.id ∷ [] })) s

-- `boot` is whether it is before the loop.
unfoldable pub admit : Io → Bool → PipeRequest → Pipe → Side → Side
unfolding transmit
admit io boot req p s = elim (acquire_background_stat req p) [
  | some (held, q) ↦ transmit io held q s
  | none ↦
      let q = release_body req (release_inflight p) in
      if boot
      then goes_on (fail_request req (sentinel background_stat_window_full) q) s
      else record s { pipe = q; writer = top; deferred_normal = some req }
]

abbrev pub is_stale : ℕ → PipeRequest → Bool
is_stale created_at req =
    req.request.fresh_transport
    && elim req.request.submitted_at [ none ↦ false | some at ↦ ltb created_at at ]

-- The request needs a slot of `bodySem`, or is admitted at once.
unfoldable pub screen : Io → Bool → PipeRequest → Side → Side
unfolding admit
screen io boot req s =
    if is_cheap_command req.request.payload
    then admit io boot req s.pipe s
    else record s { writer = wanting boot req }

-- The checks of a request of the loop.
unfoldable pub check_claimed : Io → Option Err → PipeRequest → Side → Side
unfolding screen leave
check_claimed io (some e) req s = goes_on (fail_request req e (release_inflight s.pipe)) s
check_claimed io none req s =
    if is_stale s.created_at req
    then leave none (fail_request req (sentinel fresh_transport_required) (release_inflight s.pipe))
        s
    else screen io false req s

-- The checks of `firstReq`, in the other order.
unfoldable pub check_first : Option Err → PipeRequest → Side → Side
unfolding leave
check_first cancelled req s =
    if is_stale s.created_at req
    then leave none (fail_request req (sentinel fresh_transport_required) s.pipe) s
    else elim cancelled [
      | some e ↦ goes_on (fail_request req e s.pipe) s
      | none ↦ record s { writer = entering req }
    ]

-- The article, once the reader has told whether the server takes it.
unfoldable pub post_article : Io → Bool → Side → Side
unfolding leave
post_article io false s = record s { writer = top }
post_article io true s =
    if io.copy then record s { writer = top } else leave none (break_down s.pipe) s

abbrev pub is_expected : ℕ → Outcome → Bool
is_expected code (answered resp) = not (Errors.is_some resp.err) && is_code resp.status_code code
is_expected code (failed_with e) = false
is_expected code closed = false

-- The response to the keepalive command.
unfoldable pub hear_probe : ℕ → Outcome → Side → Side
unfolding leave
hear_probe code o s =
    if is_expected code o then record s { writer = top } else leave none (break_down s.pipe) s
