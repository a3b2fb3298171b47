-- ===== src/Connection/Laps.antt =====
-- nntp.go: `runConnSlot`, the goroutine of a slot, one lap of its loop at a time: it picks a request,
-- enters the gate, connects, and runs the connection with the request. What the channels, the gate's
-- wait, the dial and the start of the connection answer are arguments; so is the run of the connection,
-- which only hands over the requests. Other slots and timers act on the gate only between its calls.
pub mod Balance
use Prim.Native.String.{String}
use nntppool.Base.{ℕ, Bool, true, false, Option, none, some, List, [], ◌∷◌, ◌++◌, if◌then◌else◌}
use nntppool.Errors.{Err, sentinel, canceled, wrap, the, is, max_connections}
use nntppool.Gate.{
  Gate, Entry, entered, gave_up, waits, enter, exit, mark_running, mark_not_running, throttle,
}
use nntppool.Connection.{PipeRequest}
use nntppool.Connection.Writer.{Arrival, shut, came}

-- `failed` are the requests whose channel got an error, a nil one where it is `none`; `ran` those that
-- a connection was given, `dropped` those that a slot that returned had in hand.
pub record Slot : Type 0 where
  pub gate : Gate
  pub carried : Option PipeRequest
  pub failed : List (PipeRequest × Option Err)
  pub ran : List PipeRequest
  pub dropped : List PipeRequest

-- How the wait for a request ends.
pub data Wait : Type 0 where
  urgent normal : Arrival → Wait
  stopping : Wait

-- What a lap is told. `interrupted` is whether the context is done before the backoff is over.
pub record Answers : Type 0 where
  pub prio : Option Arrival
  pub wait : Wait
  pub prio_again : Option Arrival
  pub ctx_err : Option Err
  pub cancelled : Option Err
  pub gate_cancelled : Bool
  pub dialed : Option Err
  pub greeted : Option Err
  pub interrupted : Bool
  pub timer : ℕ

pub data Pick : Type 0 where
  serves : PipeRequest → Option PipeRequest → Pick
  turns_away : PipeRequest → Pick
  ends : Pick

-- A lap that goes on, one that returns, and one that waits at the gate.
pub data Lap : Type 0 where
  goes_round returns : Slot → Lap
  waits_at_gate : Slot → Lap

-- The poll for a request of priority, once a normal one is there.
abbrev pub overtaken : Option Arrival → PipeRequest → Pick
overtaken none req = serves req none
overtaken (some shut) req = turns_away req
overtaken (some (came first)) req = serves first (some req)

abbrev pub waited : Answers → Wait → Pick
waited a (urgent shut) = ends
waited a (urgent (came req)) = serves req none
waited a (normal shut) = ends
waited a (normal (came req)) = overtaken a.prio_again req
waited a stopping = ends

abbrev pub polled : Answers → Option Arrival → Pick
polled a none = waited a a.wait
polled a (some shut) = ends
polled a (some (came req)) = serves req none

unfoldable pub pick : Answers → Option PipeRequest → Pick
pick a (some req) = overtaken a.prio_again req
pick a none = polled a a.prio

abbrev fail : PipeRequest → Option Err → Slot → Slot
fail req e s = record s { failed = s.failed ++ (req, e) ∷ [] }

abbrev pub of_option : Option PipeRequest → List PipeRequest
of_option none = []
of_option (some req) = req ∷ []

-- The backoff, after which the next lap starts. A slot that returns in it keeps what it carries to
-- itself: nothing tells the caller.
abbrev pub backs_off : Answers → Slot → Lap
backs_off a s =
    if a.interrupted
    then returns (record s { carried = none; dropped = s.dropped ++ of_option s.carried })
    else goes_round s

-- `nc.Run()`, between the marks.
unfoldable pub run_connection : PipeRequest → Option PipeRequest → Slot → Slot
run_connection first second s = record s {
  gate = exit (mark_not_running (mark_running s.gate));
  carried = none;
  ran = s.ran ++ first ∷ of_option second;
}

unfoldable pub greet_failed : String → Answers → Err → PipeRequest → Option PipeRequest → Slot → Lap
greet_failed name a e first second s = backs_off a (
    fail first (some (wrap name e)) (record s {
      gate = if is e (the max_connections) then exit (throttle s.gate a.timer) else exit s.gate;
      carried = second;
    }))

unfoldable pub connect : String → Answers → PipeRequest → Option PipeRequest → Slot → Lap
unfolding greet_failed run_connection
connect name a first second s = elim a.dialed [
  | some e ↦
      backs_off a
        (fail first (some (wrap name e)) (record s { gate = exit s.gate; carried = second }))
  | none ↦ elim a.greeted [
    | some e ↦ greet_failed name a e first second s
    | none ↦ goes_round (run_connection first second s)
  ]
]

unfoldable pub pass_gate : String → Answers → PipeRequest → Option PipeRequest → Slot → Lap
unfolding connect
pass_gate name a first second s = elim (enter s.gate a.gate_cancelled) [
  | entered g ↦ connect name a first second (record s { gate = g })
  | gave_up ↦ goes_round (fail first (some (sentinel canceled)) (record s { carried = second }))
  | waits ↦ waits_at_gate s
]

unfoldable pub serve : String → Answers → Pick → Slot → Lap
unfolding pass_gate
serve name a ends s = returns s
serve name a (turns_away req) s = returns (fail req a.ctx_err (record s { carried = none }))
serve name a (serves first second) s = elim a.cancelled [
  | some e ↦ goes_round (fail first (some e) (record s { carried = second }))
  | none ↦ pass_gate name a first second s
]

unfoldable pub lap : String → Answers → Slot → Lap
unfolding serve pick
lap name a s = serve name a (pick a s.carried) s
