-- ===== src/Connection/Slots.antt =====
-- nntp.go: the slots of a pipeline, counted: what the operations on the pipe do to the counts.
pub mod Breakdown
pub mod Steps
pub mod Reach
use nntppool.Base.{
  ℕ, ◌+◌, ◌-◌, ◌≤◌, ◌<◌, ◌≡◌, ◌⊎◌, refl, ap, Bool, true, false, Option, none, some, List, [], ◌∷◌,
  ◌++◌, ◌&&◌, ◌||◌, arith, if◌then◌else◌, length, length-append, option_both, if_both,
}
use nntppool.Errors.{Err}
use nntppool.Connection.{
  Outcome, PipeRequest, Pipe, settle, outcome_of, acquire_inflight, release_inflight, acquire_body,
  release_body, is_background, acquire_background_stat, release_background_stat, enqueue,
  push_pending, release_request_pending, fail_all, fail_outstanding, break_down, died, fail_request,
}

abbrev pub bit : Bool → ℕ
bit true = 1
bit false = 0

unfoldable pub count : (PipeRequest → Bool) → List PipeRequest → ℕ
count f [] = 0
count f (req ∷ reqs) = bit (f req) + count f reqs

pub count-append :
    (f : PipeRequest → Bool) (xs ys : List PipeRequest)
    → count f (xs ++ ys) ≡ count f xs + count f ys
unfolding count
count-append f [] ys = omega arith
count-append f (x ∷ xs) ys = omega (arith, count-append f xs ys)

abbrev pub at_head : Option PipeRequest → List PipeRequest
at_head none = []
at_head (some req) = req ∷ []

-- Sent, and not yet answered.
abbrev pub outstanding : Pipe → List PipeRequest
outstanding p = at_head p.head ++ p.pending

-- What the writer holds, of the three semaphores.
pub record Load : Type 0 where
  pub slots : ℕ
  pub bodies : ℕ
  pub stats : ℕ

-- The capacities, which do not change; how many slots the request at the head has given back, and
-- whether its marks are off.
pub record Caps : Type 0 where
  pub depth : ℕ
  pub bodies : ℕ
  pub background : ℕ
  pub given_back : ℕ
  pub marks_off : Bool

abbrev pub has_marks : Option PipeRequest → Bool
has_marks none = false
has_marks (some req) = req.held_background_stat || req.held_pipeline

-- The semaphores within their capacities, and at least what the writer and `out` hold, exactly that
-- while the connection lives; the gauges are exact.
pub record IsBounded (c : Caps) (own : Load) (out : List PipeRequest) (p : Pipe) : Type 0 where
  pub depth : p.depth ≡ c.depth
  pub max_bodies : p.bodies ≡ c.bodies
  pub background : p.background ≡ c.background
  pub in_depth : p.inflight_sem ≤ p.depth
  pub in_bodies : p.body_sem ≤ p.bodies
  pub in_background : p.background_stat_sem ≤ p.background
  pub slots : own.slots + length out ≤ p.inflight_sem + c.given_back
  pub bodies : own.bodies + count (λ r. r.held_body) out ≤ p.body_sem
  pub stats : own.stats + count (λ r. r.held_background_stat) out ≤ p.background_stat_sem
  pub exact_slots : p.live ≡ true → p.inflight_sem + c.given_back ≡ own.slots + length out
  pub exact_bodies : p.live ≡ true → p.body_sem ≡ own.bodies + count (λ r. r.held_body) out
  pub exact_stats :
      p.live ≡ true → p.background_stat_sem ≡ own.stats + count (λ r. r.held_background_stat) out
  pub headed : c.given_back ≤ length (at_head p.head)
  pub listed : c.given_back ≤ length out
  pub cleared : (c.marks_off && has_marks p.head) ≡ false
  pub gauged : p.background_stat_in_use ≡ p.background_stat_sem
  pub marked : p.pipeline_in_use ≡ count (λ r. r.held_pipeline) out

-- A settled request changes nothing else.
pub settle-keeps :
    (P : Pipe → Type 0) (id : ℕ) (o : Outcome) (p : Pipe)
    → ((s : List (ℕ × Outcome)) → P (record p { settled = s }))
    → P (settle id o p)
unfolding settle
settle-keeps P id o p h =
    elim (outcome_of id p.settled)
      as (λ e.
        P (elim e [ some _ ↦ p | none ↦ record p { settled = p.settled ++ (id, o) ∷ [] } ])) [
          | some _ ↦ h p.settled
          | none ↦ h (p.settled ++ (id, o) ∷ [])
        ]

-- What each operation does to the bounds.
module _ {c : Caps} {out : List PipeRequest} {p : Pipe} where
  pub release_inflight-IsBounded :
      {k b g : ℕ}
      → IsBounded c (record { slots = k + 1; bodies = b; stats = g }) out p
      → IsBounded c (record { slots = k; bodies = b; stats = g }) out (release_inflight p)
  release_inflight-IsBounded h = ground arith

  pub acquire_inflight-IsBounded :
      {k b g : ℕ} {q : Pipe}
      → acquire_inflight p ≡ some q
      → IsBounded c (record { slots = k; bodies = b; stats = g }) out p
      → IsBounded c (record { slots = k + 1; bodies = b; stats = g }) out q
  unfolding acquire_inflight
  acquire_inflight-IsBounded e h = ground arith

  pub acquire_body-IsBounded :
      {k b g : ℕ} {q : Pipe}
      → acquire_body p ≡ some q
      → IsBounded c (record { slots = k; bodies = b; stats = g }) out p
      → IsBounded c (record { slots = k; bodies = b + 1; stats = g }) out q
  unfolding acquire_body
  acquire_body-IsBounded e h = ground arith

  pub acquire_background_stat-IsBounded :
      {k b : ℕ} {q : Pipe} (req : PipeRequest) {held : PipeRequest}
      → req.held_background_stat ≡ false
      → acquire_background_stat req p ≡ some (held, q)
      → IsBounded c (record { slots = k; bodies = b; stats = 0 }) out p
      → IsBounded c (record { slots = k; bodies = b; stats = bit held.held_background_stat }) out q
  unfolding acquire_background_stat
  acquire_background_stat-IsBounded req r e h = ground arith

  pub push_pending-IsBounded :
      (req : PipeRequest)
      → IsBounded c
          (record { slots = 1; bodies = bit req.held_body; stats = bit req.held_background_stat })
          out
          p
      → IsBounded c
          (record { slots = 0; bodies = 0; stats = 0 })
          (out ++ record req { held_pipeline = true } ∷ [])
          (push_pending req p)
  unfolding push_pending count
  push_pending-IsBounded req h =
      let held = record req { held_pipeline = true } in
      ground (
        arith,
        h,
        length-append out (held ∷ []),
        count-append (λ r. r.held_body) out (held ∷ []),
        count-append (λ r. r.held_background_stat) out (held ∷ []),
        count-append (λ r. r.held_pipeline) out (held ∷ []),
      )

  pub enqueue-IsBounded :
      {k b g : ℕ} (req : PipeRequest)
      → req.held_body ≡ false
      → req.held_background_stat ≡ false
      → req.held_pipeline ≡ false
      → IsBounded c (record { slots = k + 1; bodies = b; stats = g }) out p
      → IsBounded c (record { slots = k; bodies = b; stats = g }) (out ++ req ∷ []) (enqueue req p)
  unfolding count
  enqueue-IsBounded req e f g h = ground (
    arith,
    e,
    f,
    g,
    h,
    length-append out (req ∷ []),
    count-append (λ r. r.held_body) out (req ∷ []),
    count-append (λ r. r.held_background_stat) out (req ∷ []),
    count-append (λ r. r.held_pipeline) out (req ∷ []),
  )

  -- What a request in the pipeline holds, without the slot of `bodySem`, given back on a connection that is closed.
  pub drop_pending-IsBounded :
      {l : Load} (req : PipeRequest)
      → p.live ≡ false
      → c.given_back ≤ length out
      → IsBounded c l (req ∷ out) p
      → IsBounded c l out (release_inflight (release_request_pending req p))
  unfolding release_request_pending release_background_stat count
  drop_pending-IsBounded req d b h = ground (arith, d, b, h)
