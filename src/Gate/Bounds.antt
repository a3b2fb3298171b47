-- ===== src/Gate/Bounds.antt =====
-- nntp.go: one gate under any interleaving of its slots and timers.
use nntppool.Base.{
  ℕ, ◌+◌, ◌-◌, ◌≤◌, ◌<◌, ◌≡◌, ◌⊎◌, Bool, true, false, Option, none, some, List, [], ◌∷◌, ◌++◌,
  arith, ◌==◌, if◌then◌else◌, length,
}
use nntppool.Base.Int.{sub_ℕ}
use nntppool.Gate.{
  Gate, new_conn_gate, store_available, entered, waits, enter, exit, mark_running, mark_not_running,
  throttle, restore, stop,
}

-- The gate, the slots that have entered and do not run, the timers that tick, the calls of `restore`
-- that a timer has begun and that wait for the lock, and whether the provider has been removed.
pub record System : Type 0 where
  pub gate : Gate
  pub connecting : ℕ
  pub armed : List ℕ
  pub late : ℕ
  pub stopped : Bool

-- `restoreTimer.Stop()`: a timer that ticks no more is not stopped.
unfoldable pub disarm : Option ℕ → List ℕ → List ℕ
disarm none ts = ts
disarm (some t) [] = []
disarm (some t) (u ∷ ts) = let rest = disarm (some t) ts in if t == u then rest else u ∷ rest

-- What `runConnSlot` and the client do to the gate: a slot enters, runs once its connection stands,
-- and exits when it runs no more; timers fire at any time, also those of an earlier throttle.
pub data Step : System → System → Type 0 where
  enters :
      (s : System) (cancelled : Bool) (g : Gate)
      → enter s.gate cancelled ≡ entered g
      → Step s (record s { gate = g; connecting = s.connecting + 1 })
  exits :
      (s : System)
      → 0 < s.connecting
      → Step s (record s { gate = exit s.gate; connecting = s.connecting - 1 })
  runs :
      (s : System)
      → 0 < s.connecting
      → Step s (record s { gate = mark_running s.gate; connecting = s.connecting - 1 })
  ends :
      (s : System)
      → 0 < s.gate.running
      → Step s (record s { gate = mark_not_running s.gate; connecting = s.connecting + 1 })
  throttles :
      (s : System) (timer : ℕ)
      → Step s (record s {
        gate = throttle s.gate timer;
        armed = timer ∷ disarm s.gate.restore_timer s.armed;
      })
  fires :
      (s : System) (before : List ℕ) (timer : ℕ) (after : List ℕ)
      → s.armed ≡ before ++ timer ∷ after
      → Step s (record s { armed = before ++ after; late = s.late + 1 })
  restores :
      (s : System) → 0 < s.late → Step s (record s { gate = restore s.gate; late = s.late - 1 })
  stops :
      (s : System)
      → Step s (record s {
        gate = stop s.gate;
        armed = disarm s.gate.restore_timer s.armed;
        stopped = true;
      })

abbrev pub start : ℕ → System
start n = record { gate = new_conn_gate n; connecting = 0; armed = []; late = 0; stopped = false }

pub data Reach (n : ℕ) : System → Type 0 where
  here : Reach n (start n)
  next : {s t : System} → Reach n s → Step s t → Reach n t

-- The bounds of a gate: the limit is between 1 and the number of slots, the slots
-- past `enter` are those that connect and those that run, never more than there are, the number that
-- is read without the lock is the limit less the slots that are held, and a limit that is lowered is
-- going to be restored, unless the provider was removed.
pub record IsBounded (n : ℕ) (s : System) : Type 0 where
  pub slots : s.gate.max_slots ≡ n
  pub limits : (1 ≤ s.gate.allowed) × (s.gate.allowed ≤ n)
  pub counted : s.gate.held ≡ s.connecting + s.gate.running
  pub fits : s.gate.held ≤ n
  pub cached : s.gate.available ≡ sub_ℕ s.gate.allowed s.gate.held
  pub recovers : s.stopped ≡ false → s.gate.allowed < n → (0 < length s.armed) ⊎ (0 < s.late)

enter_lem :
    (g g' : Gate) (cancelled : Bool)
    → enter g cancelled ≡ entered g'
    → (g.held < g.allowed) × (g' ≡ store_available (record g { held = g.held + 1 }))
unfolding enter
enter_lem g g' cancelled h = ground arith

Step-IsBounded : (n : ℕ) {s t : System} → Step s t → IsBounded n s → IsBounded n t
unfolding exit mark_running mark_not_running throttle restore stop
Step-IsBounded n (enters s cancelled g e) v =
    let (l, q) = enter_lem s.gate g cancelled e in ground arith
Step-IsBounded n (exits s h) v = ground arith
Step-IsBounded n (runs s h) v = ground arith
Step-IsBounded n (ends s h) v = ground arith
Step-IsBounded n (throttles s timer) v = ground arith
Step-IsBounded n (fires s before timer after e) v = ground arith
Step-IsBounded n (restores s h) v = ground arith
Step-IsBounded n (stops s) v = ground arith

-- However slots and timers interleave, a gate that began with `n` slots, one at least, has a limit
-- between 1 and `n`, holds as many slots as connect and run, never more than `n`, publishes its limit
-- less the slots it holds, and, while its limit is below `n` and the provider is not removed, has a
-- timer that ticks or a restore that is under way.
pub Reach-IsBounded : (n : ℕ) {s : System} → 1 ≤ n → Reach n s → IsBounded n s
unfolding new_conn_gate
Reach-IsBounded n h here = ground arith
Reach-IsBounded n h (next r st) = Step-IsBounded n st (Reach-IsBounded n h r)

-- A throttle never admits anyone who would have waited, and keeps room for every slot that runs.
pub throttle-tightens :
    (g : Gate) (timer : ℕ)
    → ((throttle g timer).allowed ≤ g.allowed)
      × (g.running ≤ g.allowed → g.running ≤ (throttle g timer).allowed)
      × (enter g false ≡ waits → enter (throttle g timer) false ≡ waits)
unfolding throttle enter
throttle-tightens g timer = ground arith
