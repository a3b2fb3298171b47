-- ===== src/Connection/Replies.antt =====
-- nntp.go: `readerLoop`, the goroutine of a connection that reads, and the steps of a connection:
-- any interleaving of the two goroutines, with the cancellation of their context at any time. A step
-- that is not enabled gives `none`: the goroutine waits. The response to a request is an argument,
-- as the decoder and the read buffer leave it; `code` is the status of the first of the two responses
-- of a POST, and of the only one else.
use nntppool.Base.{
  ℕ, ◌+◌, leb, Bool, true, false, not, ◌&&◌, ◌||◌, Option, none, some, List, [], ◌∷◌, ◌++◌,
  if◌then◌else◌,
}
use nntppool.Base.Int.{ℤ}
use nntppool.Errors.{Err, the, is?, is_some, is_code, canceled, sentinel, protocol_desync}
use nntppool.Attempt.{Response, timed_out}
use nntppool.Connection.{
  answered, closed, PipeRequest, Pipe, is_body_command, outcome_of, settle, fail_request,
  acquire_inflight, release_inflight, acquire_body, release_body, release_request_pending,
  fail_outstanding, break_down,
}
use nntppool.Connection.Writer.{
  Writer, booting, entering, top, seeking, parked, claimed, wanting, posting, probing, Side,
  Arrival, Offers, Io, leave, goes_on, takes, select_normal, seek, seek_alone, Wake, draining,
  screen, admit, check_claimed, check_first, post_article, hear_probe,
}

-- What is read for a request: `deliver` is whether its context is still good, `whole`
-- whether its response was read to its end.
pub record Reading : Type 0 where
  pub code : ℤ
  pub response : Response
  pub deliver : Bool
  pub whole : Bool

-- It reads a response where the pipe has a head. `confirming` has told the writer to send the article,
-- and reads the second response. After it has handed the response over, it gives back what the
-- request holds, one after the other.
pub data Reader : Type 0 where
  running confirming stopped : Reader
  delivered slot_free stat_free : Reading → Reader

pub record Connection : Type 0 where
  pub side : Side
  pub reader : Reader
  pub keepalive_code : ℕ

-- What makes the connection one not to use again.
unfoldable pub retires : PipeRequest → Reading → Bool
retires req r =
    is_some r.response.err
      && (is_body_command req.request.payload
          || timed_out r.response.err
          || is? r.response.err (the protocol_desync))
    || is_code r.code 502
    || is_code r.code 451

-- The response is delivered, and the channel closed. What remains of one that is not read whole is
-- read for the next request, if the connection is not closed.
unfoldable pub deliver_response : PipeRequest → Reading → Pipe → Pipe
deliver_response req r p =
    let q = settle req.id (if r.deliver then answered r.response else closed) p in
    record q {
      replies = if r.whole then p.replies ++ req.id ∷ [] else p.replies;
      in_order = p.in_order && r.whole;
    }

unfoldable pub finish : PipeRequest → Reading → Connection → Connection
unfolding deliver_response
finish req r c = record c {
  side = record c.side { pipe = deliver_response req r c.side.pipe };
  reader = delivered r;
}

-- `releaseRequestPending` also takes the marks off the request.
unfoldable pub free_stat : PipeRequest → Pipe → Pipe
free_stat req p = record (release_request_pending req p) {
  head = some (record req { held_background_stat = false; held_pipeline = false });
}

unfoldable pub free_body : PipeRequest → Pipe → Pipe
free_body req p = record (release_body req p) { head = none }

-- What is left to do once everything is given back: to close the connection, or to read on.
unfoldable pub read_on : PipeRequest → Reading → Pipe → Connection → Connection
unfolding retires
read_on req r p c =
    if retires req r
    then record c { side = record c.side { pipe = break_down p }; reader = stopped }
    else record c { side = record c.side { pipe = p }; reader = running }

unfoldable pub release : Connection → Option PipeRequest → Reader → Option Connection
unfolding free_stat free_body read_on
release c (some req) (delivered r) = some (record c {
  side = record c.side { pipe = release_inflight c.side.pipe };
  reader = slot_free r;
})
release c (some req) (slot_free r) =
    some
      (record c { side = record c.side { pipe = free_stat req c.side.pipe }; reader = stat_free r })
release c (some req) (stat_free r) = some (read_on req r (free_body req c.side.pipe) c)
release c _ _ = none

abbrev pub with_pipe : Pipe → Connection → Connection
with_pipe p c = record c { side = record c.side { pipe = p } }

-- A POST that is refused, or whose response is broken, tells the writer not to send the article.
unfoldable pub rejecting : PipeRequest → Connection → Connection
rejecting req c =
    if req.post_mode then record c { side = record c.side { post_ready = some false } } else c

-- The next request of `pending`, at the head of the pipeline.
unfoldable pub receive : Pipe → Option Pipe
receive p = elim p.pending [
  | [] ↦ none
  | req ∷ reqs ↦ some (record p { head = some req; pending = reqs })
]

-- What happens next, with what the code is told then.
pub data Event : Type 0 where
  checks : Io → Option Err → Event
  takes_slot : Io → Bool → Event
  seeks wakes_freed : Offers → Io → Event
  wakes_urgent : Arrival → Event
  takes_body hears : Io → Event
  gives_up : Err → Event
  seeks_alone : Wake → Io → Event
  drains expires : Event
  is_done receives confirms releases cancels : Event
  quits : Bool → Event
  finishes : Reading → Event

-- A slot of the pipeline, by where the writer is. `flushed` is of the flushes before it blocks,
-- which leave the same behind.
unfoldable pub take_slot : Io → Bool → Side → Writer → Option Side
take_slot io flushed s top =
    if not flushed then some (leave none s.pipe s) else elim (acquire_inflight s.pipe) [
      | none ↦ none
      | some p ↦ some (record s { pipe = p; writer = seeking })
    ]
take_slot io flushed s (entering req) = elim (acquire_inflight s.pipe) [
  | none ↦ none
  | some p ↦ some (screen io true req (record s { pipe = p }))
]
take_slot io flushed s _ = none

unfoldable pub take_body : Io → Side → Writer → Option Side
take_body io s (wanting boot req) = elim (acquire_body s.pipe) [
  | none ↦ none
  | some p ↦ some (admit io boot (record req { held_body = true }) p s)
]
take_body io s _ = none

-- The context of the connection is done where the writer waits.
unfoldable pub stop_writer : Side → Writer → Option Side
stop_writer s top = some (leave none s.pipe s)
stop_writer s parked = some (leave none (release_inflight s.pipe) s)
stop_writer s (entering req) = some (leave none (fail_request req (sentinel canceled) s.pipe) s)
stop_writer s (wanting true req) =
    some (leave none (fail_request req (sentinel canceled) (release_inflight s.pipe)) s)
stop_writer s (wanting false req) = some (leave (some req) (release_inflight s.pipe) s)
stop_writer s (posting req) = some (leave none s.pipe s)
stop_writer s (probing req) = some (leave none s.pipe s)
stop_writer s (draining n) = some (leave none s.pipe s)
stop_writer s _ = none

unfoldable pub check : Io → Option Err → Side → Writer → Option Side
check io cancelled s (booting req) = some (check_first cancelled req s)
check io cancelled s (claimed req) = some (check_claimed io cancelled req s)
check io cancelled s _ = none

unfoldable pub seek_from : Offers → Io → Side → Writer → Option Side
seek_from o io s seeking = some (seek o io s)
seek_from o io s _ = none

unfoldable pub seek_from_alone : Wake → Io → Side → Writer → Option Side
seek_from_alone w io s seeking = some (seek_alone io w s)
seek_from_alone w io s _ = none

-- `waitForInflightDrain`: `n` of the slots are taken. It ends when all are, or when its time is over.
unfoldable pub drain : Side → Writer → Option Side
drain s (draining n) =
    if leb s.pipe.depth n then some (leave none s.pipe s) else elim (acquire_inflight s.pipe) [
      | none ↦ none
      | some p ↦ some (record s { pipe = p; writer = draining (n + 1) })
    ]
drain s _ = none

unfoldable pub expire : Side → Writer → Option Side
expire s (draining n) = some (leave none s.pipe s)
expire s _ = none

unfoldable pub wake_urgent : Arrival → Side → Writer → Option Side
wake_urgent a s parked = some (takes a s)
wake_urgent a s _ = none

unfoldable pub wake_freed : Offers → Io → Side → Writer → Option Side
wake_freed o io s parked =
    if s.pipe.background_stat_freed
    then some
        (select_normal o io (record s { pipe = record s.pipe { background_stat_freed = false } }))
    else none
wake_freed o io s _ = none

unfoldable pub give_up : Err → Side → Writer → Option Side
give_up e s (wanting boot req) = some (goes_on (fail_request req e (release_inflight s.pipe)) s)
give_up e s _ = none

unfoldable pub hear : ℕ → Io → Side → Writer → Option Side
hear code io s (posting req) = elim s.post_ready [
  | none ↦ none
  | some ok ↦ some (post_article io ok s)
]
hear code io s (probing ka) = elim (outcome_of ka.id s.pipe.settled) [
  | none ↦ none
  | some o ↦ some (hear_probe code o s)
]
hear code io s _ = none

abbrev pub sided : Connection → Option Side → Option Connection
sided c none = none
sided c (some s) = some (record c { side = s })

unfoldable pub receives_next : Connection → Option PipeRequest → Reader → Option Connection
receives_next c none running = elim (receive c.side.pipe) [
  | none ↦ none
  | some p ↦ some (with_pipe p c)
]
receives_next c _ _ = none

-- The first response to a POST asks for the article: 340.
unfoldable pub confirm : Connection → Option PipeRequest → Reader → Option Connection
confirm c (some req) running =
    if req.post_mode
    then some (record c { side = record c.side { post_ready = some true }; reader = confirming })
    else none
confirm c _ _ = none

unfoldable pub finish_one : Reading → Connection → Option PipeRequest → Reader → Option Connection
finish_one r c (some req) running =
    if req.post_mode && is_code r.code 340 then none else some (finish req r (rejecting req c))
finish_one r c (some req) confirming = if is_code r.code 340 then some (finish req r c) else none
finish_one r c _ _ = none

-- One of its two selects fails what is outstanding: `swept`.
unfoldable pub quit : Bool → Connection → Option PipeRequest → Reader → Option Connection
quit swept c none running =
    if c.side.pipe.live
    then none
    else some (record (with_pipe (if swept then fail_outstanding c.side.pipe else c.side.pipe) c) {
      reader = stopped;
    })
quit swept c _ _ = none

unfoldable pub step : Event → Connection → Option Connection
unfolding take_slot take_body stop_writer check seek_from wake_urgent wake_freed give_up hear
    receives_next confirm finish_one quit release seek_from_alone drain expire
step (checks io cancelled) c = sided c (check io cancelled c.side c.side.writer)
step (takes_slot io flushed) c = sided c (take_slot io flushed c.side c.side.writer)
step (seeks o io) c = sided c (seek_from o io c.side c.side.writer)
step (wakes_urgent a) c = sided c (wake_urgent a c.side c.side.writer)
step (wakes_freed o io) c = sided c (wake_freed o io c.side c.side.writer)
step (takes_body io) c = sided c (take_body io c.side c.side.writer)
step (gives_up e) c = sided c (give_up e c.side c.side.writer)
step is_done c = if c.side.pipe.live then none else sided c (stop_writer c.side c.side.writer)
step (hears io) c = sided c (hear c.keepalive_code io c.side c.side.writer)
step receives c = receives_next c c.side.pipe.head c.reader
step confirms c = confirm c c.side.pipe.head c.reader
step (finishes r) c = finish_one r c c.side.pipe.head c.reader
step (quits swept) c = quit swept c c.side.pipe.head c.reader
step releases c = release c c.side.pipe.head c.reader
step (seeks_alone w io) c = sided c (seek_from_alone w io c.side c.side.writer)
step drains c = sided c (drain c.side c.side.writer)
step expires c = sided c (expire c.side c.side.writer)
step cancels c = some (with_pipe (record c.side.pipe { live = false }) c)

-- A connection at the start of `Run`, with the requests that `runConnSlot` hands it.
unfoldable pub begin : Pipe → Option PipeRequest → Option PipeRequest → ℕ → ℕ → Connection
begin p first second created_at keepalive_code = record {
  side = record {
    pipe = p;
    writer = elim first [ none ↦ top | some req ↦ booting req ];
    deferred_normal = second;
    post_ready = none;
    created_at = created_at;
  };
  reader = running;
  keepalive_code = keepalive_code;
}

-- A run, one step after the other.
unfoldable pub run : List Event → Connection → Option Connection
run [] c = some c
run (ev ∷ evs) c = elim (step ev c) [ none ↦ none | some d ↦ run evs d ]
