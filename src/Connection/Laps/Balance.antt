-- ===== src/Connection/Laps/Balance.antt =====
-- nntp.go: what a lap of a slot does to the gate, and to the requests it takes.
use nntppool.Base.{
  ◌≡◌, refl, ap, sym, Bool, true, false, Option, none, some, List, [], ◌∷◌, ◌++◌, map, arith,
  option_both, if_split, subst, ◌∙◌,
}
use mathlib.Core.List.{append-nil}
use Prim.Native.String.{String}
use nntppool.Errors.{Err, sentinel, canceled, is, the, max_connections}
use nntppool.Gate.{
  Gate, Entry, entered, gave_up, waits, enter, exit, mark_running, mark_not_running, throttle,
}
use nntppool.Connection.{PipeRequest}
use nntppool.Connection.Laps.{
  Slot, Answers, Pick, serves, turns_away, ends, Lap, backs_off, goes_round, returns, waits_at_gate,
  of_option, pick, run_connection, greet_failed, connect, pass_gate, serve, lap,
}

abbrev pub slot_of : Lap → Slot
slot_of (goes_round s) = s
slot_of (returns s) = s
slot_of (waits_at_gate s) = s

-- The requests that a pick holds.
abbrev pub picked : Pick → List PipeRequest
picked (serves first second) = first ∷ of_option second
picked (turns_away req) = req ∷ []
picked ends = []

-- The gate after a lap: as many slots inside and running as before, and a lower limit only after a
-- refusal for too many connections.
pub record IsBalanced (throttled : Bool) (s t : Slot) : Type 0 where
  pub held : t.gate.held ≡ s.gate.held
  pub running : t.gate.running ≡ s.gate.running
  pub slots : t.gate.max_slots ≡ s.gate.max_slots
  pub limit : throttled ≡ false → t.gate.allowed ≡ s.gate.allowed

abbrev pub is_throttled : Option Err → Bool
is_throttled none = false
is_throttled (some e) = is e (the max_connections)

abbrev pub is_waiting : Lap → Bool
is_waiting (waits_at_gate s) = true
is_waiting _ = false

-- What a lap makes of the requests `reqs`: some fail, some are given to a connection, and one may be
-- carried to the next lap, or dropped in a backoff that is interrupted.
pub record IsAccounted (interrupted : Bool) (reqs : List PipeRequest) (s t : Slot) : Type 0 where
  pub failing : List (PipeRequest × Option Err)
  pub running : List PipeRequest
  pub failed : t.failed ≡ s.failed ++ failing
  pub ran : t.ran ≡ s.ran ++ running
  pub dropping : List PipeRequest
  pub dropped : t.dropped ≡ s.dropped ++ dropping
  pub patient : interrupted ≡ false → dropping ≡ []
  pub all : map (λ f. f.0) failing ++ (running ++ (of_option t.carried ++ dropping)) ≡ reqs

connect-IsBalanced :
    (name : String) (a : Answers) (first : PipeRequest) (second : Option PipeRequest) (s : Slot)
    (g : Gate)
    → enter s.gate a.gate_cancelled ≡ entered g
    → IsBalanced
        (is_throttled a.greeted)
        s
        (slot_of (connect name a first second (record s { gate = g })))
unfolding connect greet_failed run_connection enter exit throttle mark_running mark_not_running
connect-IsBalanced name a first second s g e = ground (arith, e)

serve-IsBalanced :
    (name : String) (a : Answers) (p : Pick) (s : Slot)
    → IsBalanced (is_throttled a.greeted) s (slot_of (serve name a p s))
unfolding serve pass_gate
serve-IsBalanced name a ends s = ground arith
serve-IsBalanced name a (turns_away req) s = ground arith
serve-IsBalanced name a (serves first second) s =
    option_both (λ l. IsBalanced (is_throttled a.greeted) s (slot_of l)) a.cancelled
      (at_gate (enter s.gate a.gate_cancelled) refl) (λ e. ground arith)
  where
    at_gate :
        (n : Entry)
        → enter s.gate a.gate_cancelled ≡ n
        → IsBalanced (is_throttled a.greeted) s (
            slot_of (elim n [
              | entered g ↦ connect name a first second (record s { gate = g })
              | gave_up ↦ goes_round (record s {
                carried = second;
                failed = s.failed ++ (first, some (sentinel canceled)) ∷ [];
              })
              | waits ↦ waits_at_gate s
            ]))
    at_gate (entered g) e = connect-IsBalanced name a first second s g e
    at_gate gave_up e = ground arith
    at_gate waits e = ground arith

-- The branches: one that fails the first request, and one that runs both.
fails_first :
    {b : Bool} (first : PipeRequest) (second : Option PipeRequest) (e : Option Err) (s : Slot)
    (g : Gate)
    → IsAccounted b
        (first ∷ of_option second)
        s
        (record s { gate = g; failed = s.failed ++ (first, e) ∷ []; carried = second })
fails_first first second e s g = record {
  failing = (first, e) ∷ [];
  running = [];
  failed = refl;
  ran = sym (append-nil s.ran);
  dropping = [];
  dropped = sym (append-nil s.dropped);
  patient = λ i. refl;
  all = ap (λ l. first ∷ l) (append-nil (of_option second));
}

drops_second :
    (first : PipeRequest) (second : Option PipeRequest) (e : Option Err) (s : Slot) (g : Gate)
    → IsAccounted true (first ∷ of_option second) s (record s {
      gate = g;
      failed = s.failed ++ (first, e) ∷ [];
      carried = none;
      dropped = s.dropped ++ of_option second;
    })
drops_second first second e s g = record {
  failing = (first, e) ∷ [];
  running = [];
  failed = refl;
  ran = sym (append-nil s.ran);
  dropping = of_option second;
  dropped = refl;
  patient = λ i. ground (arith, i);
  all = refl;
}

backs_off-IsAccounted :
    (a : Answers) (first : PipeRequest) (second : Option PipeRequest) (s : Slot) (e : Option Err)
    (g : Gate)
    → IsAccounted a.interrupted (first ∷ of_option second) s (
        slot_of (
          backs_off a
            (record s { gate = g; failed = s.failed ++ (first, e) ∷ []; carried = second })))
backs_off-IsAccounted a first second s e g =
    if_split (λ l. IsAccounted a.interrupted (first ∷ of_option second) s (slot_of l)) a.interrupted
      (λ i.
        subst
          (λ b. IsAccounted b (first ∷ of_option second) s (record s {
            gate = g;
            failed = s.failed ++ (first, e) ∷ [];
            carried = none;
            dropped = s.dropped ++ of_option second;
          }))
          (sym i) (drops_second first second e s g))
      (λ i. fails_first first second e s g)

connect-IsAccounted :
    (name : String) (a : Answers) (first : PipeRequest) (second : Option PipeRequest) (s : Slot)
    (g : Gate)
    → IsAccounted a.interrupted
        (first ∷ of_option second)
        s
        (slot_of (connect name a first second (record s { gate = g })))
unfolding connect greet_failed run_connection
connect-IsAccounted name a first second s g =
    let P : Lap → Type 0 =
      λ l. IsAccounted a.interrupted (first ∷ of_option second) s (slot_of l) in
    option_both P a.dialed
      (option_both P a.greeted
        (record {
          failing = [];
          running = first ∷ of_option second;
          failed = sym (append-nil s.failed);
          ran = refl;
          dropping = [];
          dropped = sym (append-nil s.dropped);
          patient = λ i. refl;
          all = append-nil (first ∷ of_option second);
        })
        (λ e. backs_off-IsAccounted a first second s _ _))
      (λ e. backs_off-IsAccounted a first second s _ _)

serve-IsAccounted :
    (name : String) (a : Answers) (p : Pick) (s : Slot)
    → is_waiting (serve name a p s) ≡ false
    → (p ≡ ends → s.carried ≡ none)
    → IsAccounted a.interrupted (picked p) s (slot_of (serve name a p s))
unfolding serve pass_gate
serve-IsAccounted name a ends s w h = record {
  failing = [];
  running = [];
  failed = sym (append-nil s.failed);
  ran = sym (append-nil s.ran);
  dropping = [];
  dropped = sym (append-nil s.dropped);
  patient = λ i. refl;
  all = append-nil (of_option s.carried) ∙ ap of_option (h refl);
}
serve-IsAccounted name a (turns_away req) s w h = fails_first req none a.ctx_err s s.gate
serve-IsAccounted name a (serves first second) s w h = at_cancelled a.cancelled w
  where
    Goal : Lap → Type 0
    Goal l =
        is_waiting l ≡ false → IsAccounted a.interrupted (first ∷ of_option second) s (slot_of l)

    at_gate :
        (n : Entry)
        → Goal (elim n [
          | entered g ↦ connect name a first second (record s { gate = g })
          | gave_up ↦ goes_round (record s {
            carried = second;
            failed = s.failed ++ (first, some (sentinel canceled)) ∷ [];
          })
          | waits ↦ waits_at_gate s
        ])
    at_gate (entered g) w = connect-IsAccounted name a first second s g
    at_gate gave_up w = fails_first first second _ s s.gate
    at_gate waits w = ground (arith, w)

    at_cancelled :
        (o : Option Err)
        → Goal (elim o [
          | some e ↦
              goes_round (record s { carried = second; failed = s.failed ++ (first, some e) ∷ [] })
          | none ↦ pass_gate name a first second s
        ])
    at_cancelled none w = at_gate (enter s.gate a.gate_cancelled) w
    at_cancelled (some e) w = fails_first first second (some e) s s.gate

pick-ends : (a : Answers) (carried : Option PipeRequest) → pick a carried ≡ ends → carried ≡ none
unfolding pick
pick-ends a none e = refl
pick-ends a (some req) e = ground (arith, e)

-- A lap of a slot that does not wait at the gate leaves the gate as it was, with as many connections
-- counted inside and running, on every branch, and its limit too unless the server refused the
-- connection for having too many; and the requests it had, the one it carried and the ones it took,
-- are those it failed, then those it gave to a connection, then the one it carries on, and then the
-- one that it drops, neither failed nor given to a connection; it drops one only where its context is
-- done during a backoff.
pub lap-IsAccounted :
    (name : String) (a : Answers) (s : Slot)
    → is_waiting (lap name a s) ≡ false
    → IsBalanced (is_throttled a.greeted) s (slot_of (lap name a s))
      × IsAccounted a.interrupted (picked (pick a s.carried)) s (slot_of (lap name a s))
unfolding lap
lap-IsAccounted name a s w = (
  serve-IsBalanced name a (pick a s.carried) s,
  serve-IsAccounted name a (pick a s.carried) s w (pick-ends a s.carried),
)
