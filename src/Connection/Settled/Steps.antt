-- ===== src/Connection/Settled/Steps.antt =====
-- nntp.go: no step of the writer of a connection loses a request.
use nntppool.Base.{
  ℕ, ◌≡◌, inl, inr, refl, subst, Bool, true, false, not, ◌||◌, Option, none, some, arith, leb, ◌==◌,
  if_both, option_both,
}
use nntppool.Errors.{Err, sentinel, canceled, fresh_transport_required}
use nntppool.Connection.{
  PipeRequest, Pipe, fail_request, acquire_inflight, acquire_body, release_inflight,
  is_cheap_command, outcome_of,
}
use nntppool.Connection.Writer.{
  Writer, booting, entering, top, seeking, parked, claimed, wanting, posting, probing, draining,
  Side, Arrival, Offers, Io, check_claimed, check_first, is_stale, post_article, hear_probe,
  is_expected,
}
use nntppool.Connection.Replies.{
  take_slot, take_body, stop_writer, check, seek_from, wake_urgent, wake_freed, give_up, hear,
  drain, expire,
}
use nntppool.Connection.Tidy.Steps.{Then, Then-some}
use nntppool.Connection.Settled.{has, is_id, hand, owns, leave-has}
use nntppool.Connection.Tidy.{in_hand, clash, IsTidy}
use nntppool.Connection.Settled.Kept.{
  rest, takes-owns, select_normal-owns, seek-owns, broken-owns, failed-rest, admit-owns,
  screen-owns,
}

-- The steps of the writer.
module _ (past : Bool) (id : ℕ) (s : Side) (t : IsTidy s) (h : owns past id s ≡ true) where
  -- What it owns, by where it is.
  at_writer : (w : Writer) → s.writer ≡ w → (is_id id (hand w) || rest past id s) ≡ true
  at_writer w e = subst (λ v. (is_id id (hand v) || rest past id s) ≡ true) e h

  pub take_slot-owns :
      (io : Io) (flushed : Bool) (w : Writer)
      → s.writer ≡ w
      → Then (λ u. owns past id u ≡ true) (take_slot io flushed s w)
  unfolding take_slot Then acquire_inflight hand
  take_slot-owns io flushed top e =
      if_both (Then (λ u. owns past id u ≡ true)) (not flushed)
        (leave-has past id none s.pipe s (at_writer top e))
        (Then-some (λ u. owns past id u ≡ true) (acquire_inflight s.pipe) _
          (λ p f. ground (arith, at_writer top e, f)))
  take_slot-owns io flushed (entering req) e =
      Then-some (λ u. owns past id u ≡ true) (acquire_inflight s.pipe) _
        (λ p f.
          screen-owns past id io true req (record s { pipe = p }) (inl refl)
            (ground (arith, at_writer (entering req) e, f)))
  take_slot-owns io flushed _ e = tt

  pub take_body-owns :
      (io : Io) (w : Writer) → s.writer ≡ w → Then (λ u. owns past id u ≡ true) (take_body io s w)
  unfolding take_body Then acquire_body hand in_hand clash is_cheap_command
  take_body-owns io (wanting boot req) e =
      Then-some (λ u. owns past id u ≡ true) (acquire_body s.pipe) _
        (λ p f.
          admit-owns past id io boot (record req { held_body = true }) p s
            (inr (inr (ground (arith, t, e)))) (ground (arith, at_writer (wanting boot req) e, f)))
  take_body-owns io _ e = tt

  -- A request that fails in hand.
  fails-owns :
      (req : PipeRequest) (e : Err) (p : Pipe)
      → (((req.id == id) || (is_id id s.deferred_normal || has past id p)) ≡ true)
      → ((is_id id s.deferred_normal || has past id (fail_request req e p)) ≡ true)
  fails-owns req e p k = failed-rest past id req e p (is_id id s.deferred_normal) k

  pub stop_writer-owns :
      (w : Writer) → s.writer ≡ w → Then (λ u. owns past id u ≡ true) (stop_writer s w)
  unfolding stop_writer Then hand
  stop_writer-owns top e = leave-has past id none s.pipe s (at_writer top e)
  stop_writer-owns parked e =
      leave-has past id none (release_inflight s.pipe) s (at_writer parked e)
  stop_writer-owns (entering req) e =
      leave-has past id none _ s
        (fails-owns req (sentinel canceled) s.pipe (at_writer (entering req) e))
  stop_writer-owns (wanting true req) e = leave-has past id none _ s (
      fails-owns req (sentinel canceled) (release_inflight s.pipe) (at_writer (wanting true req) e))
  stop_writer-owns (wanting false req) e =
      leave-has past id (some req) (release_inflight s.pipe) s (at_writer (wanting false req) e)
  stop_writer-owns (posting req) e = leave-has past id none s.pipe s (at_writer (posting req) e)
  stop_writer-owns (probing req) e = leave-has past id none s.pipe s (at_writer (probing req) e)
  stop_writer-owns (draining n) e = leave-has past id none s.pipe s (at_writer (draining n) e)
  stop_writer-owns _ e = tt

  pub drain-owns : (w : Writer) → s.writer ≡ w → Then (λ u. owns past id u ≡ true) (drain s w)
  unfolding drain Then acquire_inflight hand
  drain-owns (draining n) e =
      if_both (Then (λ u. owns past id u ≡ true)) (leb s.pipe.depth n)
        (leave-has past id none s.pipe s (at_writer (draining n) e))
        (Then-some (λ u. owns past id u ≡ true) (acquire_inflight s.pipe) _
          (λ p f. ground (arith, at_writer (draining n) e, f)))
  drain-owns _ e = tt

  pub expire-owns : (w : Writer) → s.writer ≡ w → Then (λ u. owns past id u ≡ true) (expire s w)
  unfolding expire Then hand
  expire-owns (draining n) e = leave-has past id none s.pipe s (at_writer (draining n) e)
  expire-owns _ e = tt

  pub check-owns :
      (io : Io) (cancelled : Option Err) (w : Writer)
      → s.writer ≡ w
      → Then (λ u. owns past id u ≡ true) (check io cancelled s w)
  unfolding check Then check_first check_claimed hand
  check-owns io cancelled (booting req) e =
      if_both (λ u. owns past id u ≡ true) (is_stale s.created_at req)
        (leave-has past id none _ s
          (fails-owns req (sentinel fresh_transport_required) s.pipe (at_writer (booting req) e)))
        (option_both (λ u. owns past id u ≡ true) cancelled (at_writer (booting req) e)
          (λ c. fails-owns req c s.pipe (at_writer (booting req) e)))
  check-owns io (some c) (claimed req) e =
      fails-owns req c (release_inflight s.pipe) (at_writer (claimed req) e)
  check-owns io none (claimed req) e =
      if_both (λ u. owns past id u ≡ true) (is_stale s.created_at req)
        (leave-has past id none _ s (
          fails-owns req (sentinel fresh_transport_required) (release_inflight s.pipe)
            (at_writer (claimed req) e)))
        (screen-owns past id io false req s
          (inr (subst (λ w. clash w s.deferred_normal ≡ false) e t.apart))
          (at_writer (claimed req) e))
  check-owns io cancelled _ e = tt

  pub seek_from-owns :
      (o : Offers) (io : Io) (w : Writer)
      → s.writer ≡ w
      → Then (λ u. owns past id u ≡ true) (seek_from o io s w)
  unfolding seek_from Then hand
  seek_from-owns o io seeking e = seek-owns past id o io s (at_writer seeking e)
  seek_from-owns o io _ e = tt

  pub wake_urgent-owns :
      (a : Arrival) (w : Writer)
      → s.writer ≡ w
      → Then (λ u. owns past id u ≡ true) (wake_urgent a s w)
  unfolding wake_urgent Then hand
  wake_urgent-owns a parked e = takes-owns past id a s (at_writer parked e)
  wake_urgent-owns a _ e = tt

  pub wake_freed-owns :
      (o : Offers) (io : Io) (w : Writer)
      → s.writer ≡ w
      → Then (λ u. owns past id u ≡ true) (wake_freed o io s w)
  unfolding wake_freed Then hand
  wake_freed-owns o io parked e =
      if_both (Then (λ u. owns past id u ≡ true)) s.pipe.background_stat_freed
        (select_normal-owns past id o io
          (record s { pipe = record s.pipe { background_stat_freed = false } })
          (at_writer parked e))
        tt
  wake_freed-owns o io _ e = tt

  pub give_up-owns :
      (c : Err) (w : Writer) → s.writer ≡ w → Then (λ u. owns past id u ≡ true) (give_up c s w)
  unfolding give_up Then hand
  give_up-owns c (wanting boot req) e =
      fails-owns req c (release_inflight s.pipe) (at_writer (wanting boot req) e)
  give_up-owns c _ e = tt

  pub hear-owns :
      (code : ℕ) (io : Io) (w : Writer)
      → s.writer ≡ w
      → Then (λ u. owns past id u ≡ true) (hear code io s w)
  unfolding hear hear_probe post_article Then hand
  hear-owns code io (posting req) e =
      option_both (Then (λ u. owns past id u ≡ true)) s.post_ready tt (λ ok. ready ok)
    where
      ready : (ok : Bool) → owns past id (post_article io ok s) ≡ true
      ready false = at_writer (posting req) e
      ready true =
          if_both (λ u. owns past id u ≡ true) io.copy (at_writer (posting req) e)
            (broken-owns past id s.pipe s (at_writer (posting req) e))
  hear-owns code io (probing ka) e =
      option_both (Then (λ u. owns past id u ≡ true)) (outcome_of ka.id s.pipe.settled) tt (λ o.
        if_both (λ u. owns past id u ≡ true) (is_expected code o) (at_writer (probing ka) e)
          (broken-owns past id s.pipe s (at_writer (probing ka) e)))
  hear-owns code io _ e = tt
