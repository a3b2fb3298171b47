-- ===== src/Gate/Tests.antt =====
-- A gate of two slots: one enters and runs, the provider is throttled, and the timer fires.
use nntppool.Base.{refl, false, arith, [], ◌∷◌}
use nntppool.Base.Int.{pos}
use nntppool.Gate.{new_conn_gate, enter, mark_running, throttle}
use nntppool.Gate.Bounds.{
  disarm, System, start, Reach, here, next, enters, runs, throttles, IsBounded, Reach-IsBounded,
}

abbrev one_entered : System
one_entered = record (start 2) {
  gate = record (new_conn_gate 2) { held = 1; available = pos 1 };
  connecting = 1;
}

enters_one : Reach 2 one_entered
unfolding enter new_conn_gate
enters_one = next here (enters (start 2) false one_entered.gate refl)

abbrev one_running : System
one_running = record one_entered { gate = mark_running one_entered.gate; connecting = 0 }

abbrev throttled : System
throttled = record one_running { gate = throttle one_running.gate 5; armed = 5 ∷ [] }

system_throttled : Reach 2 throttled
unfolding mark_running new_conn_gate disarm
system_throttled = next (next enters_one (runs one_entered (omega arith))) (throttles one_running 5)

Reach-IsBounded_example : IsBounded 2 throttled
Reach-IsBounded_example = Reach-IsBounded 2 (omega arith) system_throttled
