-- ===== src/Connection/Watch/Drain.antt =====
-- nntp.go: how much of an abandoned body is read.
use nntppool.Base.{ℕ, ◌≡◌, ◌⊎◌, Bool, true, false, none, some, List, [], ◌∷◌}
use nntppool.Connection.Watch.{Bounds, Watch, Verdict, control}

-- One call of the function, at an instant, with what came and what was consumed by then.
pub record Call : Type 0 where
  pub is_done : Bool
  pub now : ℕ
  pub wire : ℕ
  pub consumed : ℕ

abbrev pub called : Bounds → Call → Watch → Watch × Verdict
called b c w = control b c.is_done c.now c.wire c.consumed w

-- What is left by some calls, one after the other.
unfoldable pub controls : Bounds → List Call → Watch → Watch
controls b [] w = w
controls b (c ∷ cs) w = controls b cs (called b c w).0

-- The body is abandoned by a call: its request is done by then, or was before the response came.
abbrev pub Abandons : Call → Watch → Type 0
Abandons c w =
    ((w.deliver ≡ true) × (c.is_done ≡ true)) ⊎ ((w.deliver ≡ false) × (w.drain_started ≡ none))

-- A drain begins where and when the body is abandoned.
record Begun (c : Call) (w : Watch) : Type 0 where
  stops_delivery : w.deliver ≡ false
  started : w.drain_started ≡ some c.now
  from : w.drain_start_consumed ≡ c.consumed
