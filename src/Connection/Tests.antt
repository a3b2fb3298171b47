-- ===== src/Connection/Tests.antt =====
-- A connection with room for three requests, one body and one background STAT: a STAT and a BODY are
-- sent, and the response to the STAT is read; a lap of a slot; and the start of a connection.
use nntppool.Base.{
  ℕ, ◌+◌, ◌==◌, ◌≡◌, ◌⊎◌, inl, refl, Bool, true, false, not, Option, none, some, List, [], ◌∷◌,
  ◌++◌, ascii, Bytes, if◌then◌else◌,
}
use nntppool.Base.Int.{pos}
use nntppool.Errors.{Err, sentinel, eof, is_some, greeting, is_code}
use nntppool.Outcome.{operation_from_payload}
use nntppool.Gate.{new_conn_gate, enter}
use nntppool.Attempt.{temporary, error_response}
use nntppool.Connection.{
  PipeRequest, new_pipe, acquire_inflight, acquire_body, acquire_background_stat,
  release_background_stat, release_request_pending, settle, outcome_of, push_pending,
  is_cheap_command, is_body_command,
}
use nntppool.Connection.Writer.{
  Side, came, take_priority, Offers, Io, idle, claimed, seeking, parked, seek, takes, takes_normal,
  select_normal, blocked_deferred_stat, check_claimed, screen, admit, transmit,
}
use nntppool.Connection.Replies.{
  Connection, Event, takes_slot, seeks, checks, takes_body, receives, finishes, releases, release,
  free_stat, free_body, read_on, Reading, begin, run, step, take_slot, take_body, stop_writer,
  check, seek_from, receives_next, finish_one, finish, deliver_response, retires, rejecting,
  receive,
}
use nntppool.Connection.Slots.{outstanding, Caps, IsBounded}
use nntppool.Connection.Slots.Steps.{slots_held, slots_of}
use nntppool.Connection.Safety.{run-IsBounded, NeverBlocks, run-NeverBlocks, Reached}
use nntppool.Connection.Tidy.{event_apt}
use nntppool.Connection.Bounds.{all_apt, framed}
use nntppool.Connection.Order.{ids, unread, is_past}
use nntppool.Connection.Order.Pairing.{run-Fifo}
use nntppool.Connection.Settled.{hand}
use nntppool.Connection.Settled.Conserved.{run-owns, holds}
use nntppool.Connection.Choice.{seek-priority}
use nntppool.Connection.Watch.{Bounds, Watch}
use nntppool.Connection.Watch.Drain.{Call}
use nntppool.Connection.Handshake.{Auth, Answer, said, greet}
use nntppool.Connection.Handshake.Admission.{is_admitted, asks_user, greet-admits}
use nntppool.Connection.Laps.{
  Slot, Answers, stopping, lap, pick, serve, pass_gate, connect, greet_failed,
}
use nntppool.Connection.Laps.Balance.{
  slot_of, picked, is_waiting, is_throttled, IsBalanced, IsAccounted, lap-IsAccounted,
}

abbrev request : ℕ → Bytes → Bool → PipeRequest
request id payload priority = record {
  id = id;
  request = record {
    payload = payload;
    validate_body = false;
    fresh_transport = false;
    response451_policy = temporary;
    priority = priority;
    submitted_at = none;
    written_at = 0;
    response_head_at = 0;
    decoded_committed = false;
    ctx_err = none;
  };
  post_mode = false;
  probe = false;
  held_body = false;
  held_background_stat = false;
  held_pipeline = false;
}

abbrev a_stat : PipeRequest
a_stat = request 1 (ascii "STAT <a>") false

abbrev a_body : PipeRequest
a_body = request 2 (ascii "BODY <a>") false

abbrev nothing : Offers
nothing = record {
  hot_prio = none;
  prio = none;
  hot_req = none;
  req = none;
  wake = idle;
  hot_prio_again = none;
  prio_again = none;
}

abbrev offering : PipeRequest → Offers
offering req = record nothing { hot_req = some (came req) }

abbrev fine : Io
fine = record { write = true; flush = true; copy = true; cause = sentinel eof }

abbrev caps : Caps
caps = record { depth = 3; bodies = 1; background = 1; given_back = 0; marks_off = false }

abbrev a_reading : Reading
a_reading = record {
  code = pos 223;
  response = record (error_response none) { status_code = pos 223 };
  deliver = true;
  whole = true;
}

abbrev events : List Event
events =
    takes_slot fine true
    ∷ seeks (offering a_stat) fine
    ∷ checks fine none
    ∷ takes_slot fine true
    ∷ seeks (offering a_body) fine
    ∷ checks fine none
    ∷ takes_body fine
    ∷ receives
    ∷ finishes a_reading
    ∷ releases
    ∷ releases
    ∷ releases
    ∷ takes_slot fine true
    ∷ []

abbrev started : Connection
started = begin (new_pipe 3 1 1 none) none none 0 111

-- The first two events, and the others.
abbrev sooner : List Event
sooner = takes_slot fine true ∷ seeks (offering a_stat) fine ∷ []

abbrev later : List Event
later =
    checks fine none
    ∷ takes_slot fine true
    ∷ seeks (offering a_body) fine
    ∷ checks fine none
    ∷ takes_body fine
    ∷ receives
    ∷ finishes a_reading
    ∷ releases
    ∷ releases
    ∷ releases
    ∷ takes_slot fine true
    ∷ []

unfoldable before : Connection
before = elim (run sooner started) [ some c ↦ c | none ↦ started ]

unfoldable after : Connection
after = elim (run events started) [ some c ↦ c | none ↦ started ]

to_after : Reached caps none none none 0 111 events after
unfolding after run begin new_pipe step take_slot take_body stop_writer check seek_from
    receives_next finish_one finish deliver_response retires rejecting receive release free_stat
    free_body read_on acquire_inflight acquire_body acquire_background_stat release_background_stat
    release_request_pending settle outcome_of push_pending is_cheap_command is_body_command seek
    takes takes_normal select_normal blocked_deferred_stat check_claimed screen admit transmit
    operation_from_payload
to_after = refl

all_new : all_apt events ≡ true
unfolding event_apt
all_new = refl

lives : after.side.pipe.live ≡ true
unfolding after run begin new_pipe step take_slot take_body stop_writer check seek_from
    receives_next finish_one finish deliver_response retires rejecting receive release free_stat
    free_body read_on acquire_inflight acquire_body acquire_background_stat release_background_stat
    release_request_pending settle outcome_of push_pending is_cheap_command is_body_command seek
    takes takes_normal select_normal blocked_deferred_stat check_claimed screen admit transmit
    operation_from_payload
lives = refl

orderly : after.side.pipe.in_order ≡ true
unfolding after run begin new_pipe step take_slot take_body stop_writer check seek_from
    receives_next finish_one finish deliver_response retires rejecting receive release free_stat
    free_body read_on acquire_inflight acquire_body acquire_background_stat release_background_stat
    release_request_pending settle outcome_of push_pending is_cheap_command is_body_command seek
    takes takes_normal select_normal blocked_deferred_stat check_claimed screen admit transmit
    operation_from_payload
orderly = refl

to_before : Reached caps none none none 0 111 sooner before
unfolding before run begin new_pipe step take_slot take_body stop_writer check seek_from
    receives_next finish_one finish deliver_response retires rejecting receive release free_stat
    free_body read_on acquire_inflight acquire_body acquire_background_stat release_background_stat
    release_request_pending settle outcome_of push_pending is_cheap_command is_body_command seek
    takes takes_normal select_normal blocked_deferred_stat check_claimed screen admit transmit
    operation_from_payload
to_before = refl

from_before : run later before ≡ some after
unfolding after before run begin new_pipe step take_slot take_body stop_writer check seek_from
    receives_next finish_one finish deliver_response retires rejecting receive release free_stat
    free_body read_on acquire_inflight acquire_body acquire_background_stat release_background_stat
    release_request_pending settle outcome_of push_pending is_cheap_command is_body_command seek
    takes takes_normal select_normal blocked_deferred_stat check_claimed screen admit transmit
    operation_from_payload
from_before = refl

owned : holds 1 before ≡ true
unfolding before hand run begin new_pipe step take_slot take_body stop_writer check seek_from
    receives_next finish_one finish deliver_response retires rejecting receive release free_stat
    free_body read_on acquire_inflight acquire_body acquire_background_stat release_background_stat
    release_request_pending settle outcome_of push_pending is_cheap_command is_body_command seek
    takes takes_normal select_normal blocked_deferred_stat check_claimed screen admit transmit
    operation_from_payload
owned = refl

sooner_new : all_apt sooner ≡ true
unfolding event_apt
sooner_new = refl

later_new : all_apt later ≡ true
unfolding event_apt
later_new = refl

run-owns_example : holds 1 after ≡ true
run-owns_example =
    run-owns caps none none none 0 111 1 sooner later before after refl refl sooner_new later_new
      to_before owned from_before

run-IsBounded_example :
    IsBounded
      (framed caps after.reader)
      (slots_of (slots_held after.side.writer))
      (outstanding after.side.pipe)
      after.side.pipe
run-IsBounded_example =
    run-IsBounded caps none none none 0 111 events after refl refl all_new to_after

run-NeverBlocks_example : NeverBlocks caps after
run-NeverBlocks_example =
    run-NeverBlocks caps none none none 0 111 events after refl refl all_new to_after

run-Fifo_example :
    after.side.pipe.wire
    ≡ after.side.pipe.replies ++ ids (unread (is_past after.reader) after.side.pipe)
run-Fifo_example = run-Fifo caps none none none 0 111 events after to_after lives orderly

abbrev seeker : Side
seeker = record started.side { writer = seeking; deferred_normal = some a_body }

taken :
    seek_from nothing fine seeker seeker.writer
    ≡ some (record seeker { deferred_normal = none; writer = claimed a_body })
unfolding seek_from seek select_normal takes_normal takes blocked_deferred_stat begin new_pipe
    is_cheap_command operation_from_payload
taken = refl

seek-priority_example :
    ((seeker.writer ≡ parked) ⊎ (take_priority nothing.hot_prio nothing.prio ≡ none))
    × (take_priority nothing.hot_prio_again nothing.prio_again ≡ none)
    × ((d : PipeRequest) → seeker.deferred_normal ≡ some d → a_body ≡ d)
seek-priority_example =
    seek-priority nothing fine seeker
      (record seeker { deferred_normal = none; writer = claimed a_body }) a_body refl refl
      (inl taken) refl refl

-- A server that asks for the password; the state of its socket is the number of steps taken.
abbrev a_auth : Auth
a_auth = record { username = ascii "me"; password = ascii "it" }

abbrev writes : Bytes → ℕ → Option Err × ℕ
writes command n = (none, n + 1)

abbrev answers : ℕ → Answer
answers n =
    if n == 0 then said (pos 200) [] else if n == 2 then said (pos 381) [] else said (pos 281) []

abbrev reads : ℕ → Answer × ℕ
reads n = (answers n, n + 1)

greet-admits_example :
    (is_some (greet writes reads a_auth 0).0
      ≡ not (is_admitted a_auth (pos 200) (pos 381) (pos 281)))
    × ((greet writes reads a_auth 0).1
        ≡ (if not (asks_user a_auth (pos 200)) then 1 else if is_code (pos 381) 381 then 5 else 3))
greet-admits_example =
    greet-admits writes reads a_auth (pos 200) (pos 381) (pos 281) [] [] [] 0 1 2 3 4 5 refl refl
      refl refl refl

-- A lap that carries a STAT, is overtaken by a request of priority, and is refused for too many
-- connections.
abbrev a_slot : Slot
a_slot = record {
  gate = new_conn_gate 2;
  carried = some a_stat;
  failed = [];
  ran = [];
  dropped = [];
}

abbrev a_lap : Answers
a_lap = record {
  prio = none;
  wait = stopping;
  prio_again = some (came (request 3 (ascii "BODY <b>") true));
  ctx_err = none;
  cancelled = none;
  gate_cancelled = false;
  dialed = none;
  greeted = some (greeting (pos 502) []);
  interrupted = false;
  timer = 0;
}

goes_on : is_waiting (lap "a" a_lap a_slot) ≡ false
unfolding lap serve pick pass_gate connect greet_failed enter new_conn_gate
goes_on = refl

lap-IsAccounted_example :
    IsBalanced (is_throttled a_lap.greeted) a_slot (slot_of (lap "a" a_lap a_slot))
    × IsAccounted a_lap.interrupted
        (picked (pick a_lap a_slot.carried))
        a_slot
        (slot_of (lap "a" a_lap a_slot))
lap-IsAccounted_example = lap-IsAccounted "a" a_lap a_slot goes_on

-- A body whose request is cancelled with 100 bytes consumed, 30 more and then another 30.
abbrev bounds : Bounds
bounds = record {
  is_body = true;
  abandoned_drain_bytes = 64;
  abandoned_drain_timeout = 1000;
  stall = 0;
  response_deadline = none;
  parent = none;
}

abbrev delivering : Watch
delivering = record {
  deliver = true;
  last_bytes = 100;
  last_consumed = 100;
  stall_deadline = none;
  first_byte_at = some 5;
  drain_started = none;
  drain_start_consumed = 0;
}

abbrev at : ℕ → ℕ → Call
at now consumed = record { is_done = true; now = now; wire = consumed; consumed = consumed }
