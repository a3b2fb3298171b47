-- ===== src/Connection/Settled.antt =====
-- nntp.go: the requests that a connection has taken: in the writer's hand, put off, in the pipeline, or
-- settled.
pub mod Kept
pub mod Steps
pub mod Conserved
use nntppool.Base.{
  ℕ, ◌≡◌, ◌⊎◌, inl, inr, refl, sym, ap, ◌∙◌, Bool, true, false, not, ◌&&◌, ◌||◌, Option, none, some,
  List, [], ◌∷◌, ◌++◌, arith, if◌then◌else◌, ◌==◌, if_both, option_both, subst, elem, Bool-cases,
}
use nntppool.Errors.{Err}
use nntppool.Connection.{
  PipeRequest, Pipe, Outcome, failed_with, settle, outcome_of, release_inflight,
  release_background_stat, release_request_pending, fail_all, fail_outstanding, break_down, died,
  fail_request,
}
use nntppool.Connection.Writer.{
  Writer, booting, entering, claimed, wanting, gone, Side, failing, leave,
}
use nntppool.Connection.Slots.{at_head, outstanding}
use nntppool.Connection.Order.{ids, ids-append, waiting, unread}
use nntppool.Connection.Slots.Breakdown.{fail_all-IsAlike}

abbrev pub is_given : Option Outcome → Bool
is_given none = false
is_given (some o) = true

-- Sent and not answered, where the reader is past the head or not, or settled.
abbrev pub has : Bool → ℕ → Pipe → Bool
has past id p = elem id (ids (unread past p)) || is_given (outcome_of id p.settled)

abbrev pub is_id : ℕ → Option PipeRequest → Bool
is_id id none = false
is_id id (some req) = req.id == id

unfoldable pub hand : Writer → Option PipeRequest
hand (booting req) = some req
hand (entering req) = some req
hand (claimed req) = some req
hand (wanting boot req) = some req
hand _ = none

abbrev pub owns : Bool → ℕ → Side → Bool
owns past id s = is_id id (hand s.writer) || (is_id id s.deferred_normal || has past id s.pipe)

pub elem-append : (id : ℕ) (xs ys : List ℕ) → elem id (xs ++ ys) ≡ (elem id xs || elem id ys)
elem-append id [] ys = refl
elem-append id (x ∷ xs) ys = ground (arith, elem-append id xs ys)

pub outcome_of-append :
    (id : ℕ) (xs ys : List (ℕ × Outcome))
    → is_given (outcome_of id (xs ++ ys))
      ≡ (is_given (outcome_of id xs) || is_given (outcome_of id ys))
unfolding outcome_of
outcome_of-append id [] ys = refl
outcome_of-append id ((i, o) ∷ xs) ys = ground (arith, outcome_of-append id xs ys)

-- A request that is settled stays so.
pub settle-has :
    (past : Bool) (id i : ℕ) (o : Outcome) (p : Pipe)
    → (((i == id) || has past id p) ≡ true)
    → has past id (settle i o p) ≡ true
unfolding settle outcome_of
settle-has past id i o p h = ground (arith, h, outcome_of-append id p.settled ((i, o) ∷ []))

pub settle-has_old :
    (past : Bool) (id i : ℕ) (o : Outcome) (p : Pipe)
    → has past id p ≡ true
    → has past id (settle i o p) ≡ true
settle-has_old past id i o p h = settle-has past id i o p (ground (arith, h))

-- A request that breaks off with its connection is settled.
drop-has :
    (past : Bool) (id : ℕ) (req : PipeRequest) (e : Err) (p : Pipe)
    → (((req.id == id) || has past id p) ≡ true)
    → has past id (release_inflight (fail_request req e (release_request_pending req p))) ≡ true
unfolding release_request_pending release_background_stat
drop-has past id req e p h =
    settle-has past id req.id (failed_with e) (release_request_pending req p) (ground (arith, h))

fail_all-has :
    (past : Bool) (id : ℕ) (reqs : List PipeRequest) (p : Pipe)
    → ((elem id (ids reqs) || has past id p) ≡ true)
    → has past id (fail_all reqs p) ≡ true
unfolding fail_all
fail_all-has past id [] p h = h
fail_all-has past id (req ∷ reqs) p h =
    fail_all-has past id reqs
      (release_inflight (fail_request req (died p) (release_request_pending req p)))
      (elim (Bool-cases (elem id (ids reqs))) [
        | inl e ↦ ground (arith, e)
        | inr e ↦ ground (arith, e, drop-has past id req (died p) p (ground (arith, h, e)))
      ])

pub fail_outstanding-has :
    (past : Bool) (id : ℕ) (p : Pipe)
    → has past id p ≡ true
    → has past id (fail_outstanding p) ≡ true
unfolding fail_outstanding
fail_outstanding-has past id p h =
    fail_all-has past id p.pending (record p { pending = [] })
      (ground (
        arith,
        h,
        ap (elem id) (ids-append (waiting past p.head) p.pending),
        elem-append id (ids (waiting past p.head)) (ids p.pending),
        ap (elem id) (ids-append (waiting past p.head) []),
        elem-append id (ids (waiting past p.head)) [],
      ))

pub break_down-has :
    (past : Bool) (id : ℕ) (p : Pipe) → has past id p ≡ true → has past id (break_down p) ≡ true
unfolding break_down
break_down-has past id p h = fail_outstanding-has past id (record p { live = false }) h

failing-has :
    (past : Bool) (id : ℕ) (o : Option PipeRequest) (p : Pipe)
    → ((is_id id o || has past id p) ≡ true)
    → has past id (failing o p) ≡ true
failing-has past id none p h = h
failing-has past id (some req) p h = settle-has past id req.id _ p h

-- A writer that leaves settles what it has in hand and what is put off.
pub leave-has :
    (past : Bool) (id : ℕ) (unsent : Option PipeRequest) (p : Pipe) (s : Side)
    → ((is_id id unsent || (is_id id s.deferred_normal || has past id p)) ≡ true)
    → owns past id (leave unsent p s) ≡ true
unfolding leave hand
leave-has past id unsent p s h =
    break_down-has past id (failing s.deferred_normal (failing unsent p)) (
      failing-has past id s.deferred_normal (failing unsent p)
        (elim (Bool-cases (is_id id s.deferred_normal)) [
          | inl e ↦ ground (arith, e)
          | inr e ↦ ground (arith, e, failing-has past id unsent p (ground (arith, h, e)))
        ]))
