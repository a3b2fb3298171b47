-- ===== src/ReadBuffer/Feed.antt =====
-- readBuffer.go: the loop that feeds a decoder from the socket. The decoder is `feeder` on a state of
-- its own; the writer it writes to is part of that state. `control` is the caller's function of the
-- bytes read and consumed, on a state of its own for what it reads of the clock; a limit of 0 is none.
-- The loop takes fuel, one unit for each turn.
pub mod Delivered
use nntppool.Base.{
  ℕ, zero, suc, ◌+◌, Bool, true, false, ◌&&◌, Option, none, some, ltb, ◌==◌, if◌then◌else◌, length,
  take, Bytes,
}
use nntppool.Errors.{Err}
use nntppool.ReadBuffer.{
  ReadBuffer, Conn, init, window, advance, compact, Read, got, blocks, read_more,
}

-- What a call of the feeder returns, and of `control`.
pub record Feeding (F : Type 0) : Type 0 where
  pub consumed : ℕ
  pub done : Bool
  pub err : Option Err
  pub feeder : F

pub record Answer (C : Type 0) : Type 0 where
  pub deadline : Option ℕ
  pub has_deadline : Bool
  pub max_feed : ℕ
  pub err : Option Err
  pub control : C

pub record Loop (F C : Type 0) : Type 0 where
  pub rb : ReadBuffer
  pub conn : Conn
  pub feeder : F
  pub control : C
  pub wire_bytes : ℕ
  pub consumed_bytes : ℕ

-- A part of a turn goes on, returns, or waits for the socket for ever; `starved` is a loop that has
-- no fuel.
pub data Turn (F C : Type 0) : Type 0 where
  goes : Loop F C → Turn F C
  returns : Option Err → Loop F C → Turn F C
  hangs : Loop F C → Turn F C
  starved : Turn F C

pub and_then : {F C : Type 0} → Turn F C → (Loop F C → Turn F C) → Turn F C
and_then (goes s) k = k s
and_then (returns e s) k = returns e s
and_then (hangs s) k = hangs s
and_then starved k = starved

module _ {F C : Type 0} (feed : F → Bytes → Feeding F) (control : C → ℕ → ℕ → Answer C) where
  absorb : Loop F C → Read → Turn F C
  absorb s (got n (some e) rb c) =
      returns (some e) (record s { rb = rb; conn = c; wire_bytes = s.wire_bytes + n })
  absorb s (got n none rb c) = goes (record s { rb = rb; conn = c; wire_bytes = s.wire_bytes + n })
  absorb s blocks = hangs s

  asked : Loop F C → Answer C → Turn F C
  unfolding absorb
  asked s a =
      let s' : Loop F C = record s { control = a.control } in
      elim a.err [
        | some e ↦ returns (some e) s'
        | none ↦ absorb s' (read_more s.rb s.conn a.deadline a.has_deadline)
      ]

  -- `control`, and a read with its deadline.
  pub refill : Loop F C → Turn F C
  unfolding asked
  refill s = asked s (control s.control s.wire_bytes s.consumed_bytes)

  -- The first read, if nothing is buffered.
  pub prime : Loop F C → Turn F C
  prime s =
      if s.rb.start == s.rb.end
      then refill (record s { rb = record s.rb { start = 0; end = 0 } })
      else goes s

  limited : ℕ → Bytes → Bytes
  limited max_feed w = if ltb 0 max_feed && ltb max_feed (length w) then take max_feed w else w

  -- Behind the call of the feeder and the third call of `control`.
  settle : Loop F C → Feeding F → Answer C → Turn F C
  settle s f a =
      let s' : Loop F C = record s { control = a.control } in
      elim a.err [
        | some e ↦ returns (some e) s'
        | none ↦
            (if f.done
              then returns none s'
              else if f.consumed == 0 && ltb s.rb.start s.rb.end
              then goes (record s' { rb = compact s.rb })
              else goes s')
      ]

  took : Loop F C → Feeding F → Turn F C
  unfolding settle
  took s f =
      let s' : Loop F C = record s {
        rb = advance s.rb f.consumed;
        feeder = f.feeder;
        consumed_bytes = s.consumed_bytes + f.consumed;
      } in
      elim f.err [
        | some e ↦ returns (some e) s'
        | none ↦ settle s' f (control s'.control s'.wire_bytes s'.consumed_bytes)
      ]

  allowed : Loop F C → Answer C → Turn F C
  unfolding took limited
  allowed s a =
      let s' : Loop F C = record s { control = a.control } in
      elim a.err [
        | some e ↦ returns (some e) s'
        | none ↦ took s' (feed s.feeder (limited a.max_feed (window s.rb)))
      ]

  pub feed_once : Loop F C → Turn F C
  unfolding allowed
  feed_once s = allowed s (control s.control s.wire_bytes s.consumed_bytes)

  pub turns : ℕ → Loop F C → Turn F C
  turns zero s = starved
  turns (suc fuel) s =
      and_then (prime s) (λ s1. and_then (feed_once s1) (λ s2. and_then (refill s2) (turns fuel)))

  unfoldable pub feed_until_done_controlled : ℕ → ReadBuffer → Conn → F → C → Turn F C
  feed_until_done_controlled fuel rb c f k = turns fuel (record {
    rb = init rb;
    conn = c;
    feeder = f;
    control = k;
    wire_bytes = 0;
    consumed_bytes = 0;
  })

-- `feedUntilDone`: a control function that asks for a deadline only.
unfoldable pub feed_until_done :
    {F C : Type 0}
    → (F → Bytes → Feeding F)
    → (C → ℕ → Option ℕ × Bool × C)
    → ℕ
    → ReadBuffer
    → Conn
    → F
    → C
    → Turn F C
feed_until_done feed deadline = feed_until_done_controlled feed (λ k wire_bytes consumed_bytes.
    let d = deadline k wire_bytes in
    record { deadline = d.0; has_deadline = d.1; max_feed = 0; err = none; control = d.2 })
