-- ===== src/Gate.antt =====
-- nntp.go: `connGate`, which bounds the connections of one provider that connect or run at once, and
-- throttles them when the server reports too many. `max_slots` is in the range of an int32, and a
-- slot exits and stops running as often as it entered and ran, so that the counts are natural
-- numbers. A timer of `time.AfterFunc` is its identity.
pub mod Bounds
mod Tests
use nntppool.Base.{ℕ, ◌+◌, ◌-◌, max, Bool, Option, none, some, leb, ltb, if◌then◌else◌}
use nntppool.Base.Int.{ℤ, pos, sub_ℕ}

pub record Gate : Type 0 where
  pub max_slots : ℕ
  pub allowed : ℕ
  pub held : ℕ
  pub running : ℕ
  pub restore_timer : Option ℕ
  pub available : ℤ

unfoldable pub new_conn_gate : ℕ → Gate
new_conn_gate max_slots = record {
  max_slots = max_slots;
  allowed = max_slots;
  held = 0;
  running = 0;
  restore_timer = none;
  available = pos max_slots;
}

-- `g.available.Store(int32(g.allowed - g.held))`
abbrev pub store_available : Gate → Gate
store_available g = record g { available = sub_ℕ g.allowed g.held }

-- What one pass of the loop of `enter` comes to.
pub data Entry : Type 0 where
  entered : Gate → Entry
  gave_up waits : Entry

unfoldable pub enter : Gate → Bool → Entry
enter g cancelled =
    if leb g.allowed g.held
    then (if cancelled then gave_up else waits)
    else entered (store_available (record g { held = g.held + 1 }))

unfoldable pub exit : Gate → Gate
exit g = store_available (record g { held = g.held - 1 })

unfoldable pub mark_running : Gate → Gate
mark_running g = record g { running = g.running + 1 }

unfoldable pub mark_not_running : Gate → Gate
mark_not_running g = record g { running = g.running - 1 }

-- `timer` is the one that is started here.
unfoldable pub throttle : Gate → ℕ → Gate
throttle g timer = store_available (record g {
  allowed = if ltb (max 1 g.running) g.allowed then max 1 g.running else g.allowed;
  restore_timer = some timer;
})

unfoldable pub restore : Gate → Gate
restore g = store_available (record g { allowed = g.max_slots; restore_timer = none })

unfoldable pub stop : Gate → Gate
stop g = record g { restore_timer = none }

unfoldable pub snapshot : Gate → ℕ × ℕ
snapshot g = (g.max_slots, g.running)
