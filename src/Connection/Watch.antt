-- ===== src/Connection/Watch.antt =====
-- nntp.go: the function that `readerLoop` gives to the loop that feeds its decoder: until when to wait
-- for more, and how much of an abandoned body to read. Instants are nanoseconds; durations of 0 and
-- counts of 0 are no bound, as in the source. The clock is read once in a call. `is_done` is whether the
-- context of the request is done, `parent` its deadline.
pub mod Drain
use nntppool.Base.{
  ℕ, ◌+◌, ◌-◌, ◌*◌, ◌^◌, ◌≤◌, ◌<◌, ◌≡◌, Bool, true, false, not, ◌&&◌, ◌||◌, Option, none, some,
  arith, ltb, leb, ◌==◌, if◌then◌else◌,
}

pub record Bounds : Type 0 where
  pub is_body : Bool
  pub abandoned_drain_bytes : ℕ
  pub abandoned_drain_timeout : ℕ
  pub stall : ℕ
  pub response_deadline : Option ℕ
  pub parent : Option ℕ

pub record Watch : Type 0 where
  pub deliver : Bool
  pub last_bytes : ℕ
  pub last_consumed : ℕ
  pub stall_deadline : Option ℕ
  pub first_byte_at : Option ℕ
  pub drain_started : Option ℕ
  pub drain_start_consumed : ℕ

-- `stops` is `errAbandonedBodyDrainLimit`, `feeds` a deadline, if any, and the most to feed.
pub data Verdict : Type 0 where
  stops : Verdict
  feeds : Option ℕ → ℕ → Verdict

abbrev stall_deadline_quantum : ℕ
stall_deadline_quantum = 250 * 10 ^ 6

abbrev min_deadline : ℕ → Option ℕ → ℕ
min_deadline deadline none = deadline
min_deadline deadline (some parent) = if ltb parent deadline then parent else deadline

abbrev pub begin_drain : ℕ → ℕ → Watch → Watch
begin_drain now consumed w = record w { drain_started = some now; drain_start_consumed = consumed }

unfoldable pub abandon : Bool → ℕ → ℕ → Watch → Watch
abandon is_done now consumed w =
    if w.deliver && is_done then begin_drain now consumed (record w { deliver = false }) else w

unfoldable pub drain_for : Bounds → ℕ → ℕ → ℕ → ℕ → Verdict
drain_for b now consumed started start_consumed =
    let remaining = b.abandoned_drain_bytes - (consumed - start_consumed) in
    if ltb 0 b.abandoned_drain_timeout && leb (started + b.abandoned_drain_timeout) now
    then stops
    else if ltb 0 b.abandoned_drain_bytes && remaining == 0
    then stops
    else if ltb 0 b.abandoned_drain_timeout
    then feeds (some (started + b.abandoned_drain_timeout)) remaining
    else feeds none remaining

unfoldable pub drain : Bounds → ℕ → ℕ → Watch → Watch × Verdict
unfolding drain_for
drain b now consumed w = elim w.drain_started [
  | some at ↦ (w, drain_for b now consumed at w.drain_start_consumed)
  | none ↦ (begin_drain now consumed w, drain_for b now consumed now consumed)
]

abbrev is_extended : ℕ → ℕ → Option ℕ → Bool
is_extended now deadline none = true
is_extended now deadline (some at) = leb at now || leb stall_deadline_quantum (deadline - at)

unfoldable pub progress : Bounds → ℕ → ℕ → ℕ → Watch → Watch
progress b now wire consumed w =
    if ltb w.last_bytes wire || ltb w.last_consumed consumed
    then record w {
      first_byte_at = elim w.first_byte_at [ none ↦ some now | some at ↦ some at ];
      last_bytes = wire;
      last_consumed = consumed;
      stall_deadline =
          if ltb 0 b.stall && is_extended now (now + b.stall) w.stall_deadline
          then some (now + b.stall)
          else w.stall_deadline;
    }
    else w

unfoldable pub deadline_of : Bounds → Watch → Option ℕ
deadline_of b w =
    let otherwise : Option ℕ =
      if ltb 0 w.last_bytes && ltb 0 b.stall
      then elim w.stall_deadline [ some at ↦ some (min_deadline at b.parent) | none ↦ none ]
      else b.parent in
    elim b.response_deadline [
      | some at ↦ if w.last_bytes == 0 then some (min_deadline at b.parent) else otherwise
      | none ↦ otherwise
    ]

unfoldable pub control : Bounds → Bool → ℕ → ℕ → ℕ → Watch → Watch × Verdict
unfolding abandon drain progress deadline_of
control b is_done now wire consumed w =
    let v = abandon is_done now consumed w in
    if not v.deliver && b.is_body
    then drain b now consumed v
    else (progress b now wire consumed v, feeds (deadline_of b (progress b now wire consumed v)) 0)
