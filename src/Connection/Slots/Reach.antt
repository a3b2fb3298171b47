-- ===== src/Connection/Slots/Reach.antt =====
-- nntp.go: every step of a connection keeps its slots counted.
use nntppool.Base.{
  ℕ, ◌+◌, ◌≡◌, inr, subst, Bool, true, false, not, Option, none, some, List, arith, leb,
  if◌then◌else◌, if_both, option_both,
}
use nntppool.Errors.{Err}
use nntppool.Connection.{
  answered, closed, settle, PipeRequest, Pipe, release_inflight, acquire_inflight,
  release_request_pending, release_background_stat, acquire_body, outcome_of,
}
use nntppool.Connection.Writer.{
  Writer, booting, entering, top, seeking, parked, claimed, wanting, posting, probing, draining,
  Side, Arrival, Offers, Io, is_stale, check_first, check_claimed, post_article, hear_probe,
  is_expected,
}
use nntppool.Connection.Replies.{
  take_slot, take_body, stop_writer, check, seek_from, wake_urgent, wake_freed, give_up, hear,
  drain, expire, free_stat, free_body, receive, Reading, deliver_response,
}
use nntppool.Connection.Slots.{count, Caps, Load}
use nntppool.Connection.Slots.Breakdown.{unloaded}
use nntppool.Connection.Slots.Steps.{
  slots_held, slots_of, Counted, Balanced, settle-Counted, break_down-Counted, leave-Balanced,
  given_back, takes-Balanced, select_normal-Balanced, seek-Balanced, admit-Balanced,
  screen-Balanced,
}
use nntppool.Connection.Tidy.{offers_apt, in_hand, IsTidy}
use nntppool.Connection.Tidy.Steps.{Then, Then-some}

module _ {caps : Caps} where
  acquired :
      {k : ℕ} (p q : Pipe)
      → acquire_inflight p ≡ some q
      → Counted caps (slots_of k) p
      → Counted caps (slots_of (k + 1)) q
  unfolding acquire_inflight
  acquired p q e h = ground (arith, e, h)

  acquired_body :
      (p q : Pipe)
      → acquire_body p ≡ some q
      → Counted caps (slots_of 1) p
      → Counted caps (record { slots = 1; bodies = 1; stats = 0 }) q
  unfolding acquire_body
  acquired_body p q e h = ground (arith, e, h)

  freed :
      {l : Load} (p : Pipe)
      → Counted caps l p
      → Counted caps l (record p { background_stat_freed = false })
  freed p h = ground (arith, h)

  post_article-Balanced :
      (io : Io) (ok : Bool) (s : Side)
      → Counted caps unloaded s.pipe
      → Balanced caps (post_article io ok s)
  unfolding post_article slots_held
  post_article-Balanced io false s h = h
  post_article-Balanced io true s h =
      if_both (Balanced caps) io.copy h (leave-Balanced none _ s (break_down-Counted s.pipe h))

  module _ (s : Side) (t : IsTidy s) (h : Balanced caps s) where
    -- What the writer holds, where it is.
    at_writer : (w : Writer) → s.writer ≡ w → Counted caps (slots_of (slots_held w)) s.pipe
    at_writer w e = subst (λ v. Counted caps (slots_of (slots_held v)) s.pipe) e h

    pub take_slot-Balanced :
        (io : Io) (flushed : Bool) (w : Writer)
        → s.writer ≡ w
        → Then (Balanced caps) (take_slot io flushed s w)
    unfolding take_slot Then slots_held in_hand
    take_slot-Balanced io flushed top e =
        if_both (Then (Balanced caps)) (not flushed)
          (leave-Balanced none s.pipe s (at_writer top e))
          (Then-some (Balanced caps) (acquire_inflight s.pipe) _
            (λ p f. acquired {k = 0} s.pipe p f (at_writer top e)))
    take_slot-Balanced io flushed (entering req) e =
        Then-some (Balanced caps) (acquire_inflight s.pipe) _ (λ p f.
          screen-Balanced io true req (record s { pipe = p }) (ground (arith, t))
            (acquired {k = 0} s.pipe p f (at_writer (entering req) e)))
    take_slot-Balanced io flushed _ e = tt

    pub take_body-Balanced :
        (io : Io) (w : Writer) → s.writer ≡ w → Then (Balanced caps) (take_body io s w)
    unfolding take_body Then in_hand slots_held
    take_body-Balanced io (wanting boot req) e =
        Then-some (Balanced caps) (acquire_body s.pipe) _ (λ p f.
          admit-Balanced io boot (record req { held_body = true }) p s (ground (arith, t))
            (inr (ground (arith, t))) (acquired_body s.pipe p f (at_writer (wanting boot req) e)))
    take_body-Balanced io _ e = tt

    pub stop_writer-Balanced : (w : Writer) → s.writer ≡ w → Then (Balanced caps) (stop_writer s w)
    unfolding stop_writer Then slots_held
    stop_writer-Balanced top e = leave-Balanced none s.pipe s h
    stop_writer-Balanced parked e = leave-Balanced none _ s (given_back s.pipe (at_writer parked e))
    stop_writer-Balanced (entering req) e =
        leave-Balanced none _ s (settle-Counted req.id _ s.pipe h)
    stop_writer-Balanced (wanting true req) e =
        leave-Balanced none _ s
          (settle-Counted req.id _ _ (given_back s.pipe (at_writer (wanting true req) e)))
    stop_writer-Balanced (wanting false req) e =
        leave-Balanced (some req) _ s (given_back s.pipe (at_writer (wanting false req) e))
    stop_writer-Balanced (posting req) e = leave-Balanced none s.pipe s h
    stop_writer-Balanced (probing req) e = leave-Balanced none s.pipe s h
    stop_writer-Balanced (draining n) e = leave-Balanced none s.pipe s h
    stop_writer-Balanced _ e = tt

    pub drain-Balanced : (w : Writer) → s.writer ≡ w → Then (Balanced caps) (drain s w)
    unfolding drain Then slots_held
    drain-Balanced (draining n) e =
        if_both (Then (Balanced caps)) (leb s.pipe.depth n) (leave-Balanced none s.pipe s h) (
          Then-some (Balanced caps) (acquire_inflight s.pipe) _
            (λ p f. acquired {k = n} s.pipe p f (at_writer (draining n) e)))
    drain-Balanced _ e = tt

    pub expire-Balanced : (w : Writer) → Then (Balanced caps) (expire s w)
    unfolding expire Then
    expire-Balanced (draining n) = leave-Balanced none s.pipe s h
    expire-Balanced _ = tt

    pub check-Balanced :
        (io : Io) (cancelled : Option Err) (w : Writer)
        → s.writer ≡ w
        → Then (Balanced caps) (check io cancelled s w)
    unfolding check Then check_first check_claimed slots_held in_hand
    check-Balanced io cancelled (booting req) e =
        if_both (Balanced caps) (is_stale s.created_at req)
          (leave-Balanced none _ s (settle-Counted req.id _ s.pipe h))
          (option_both (Balanced caps) cancelled (at_writer (booting req) e)
            (λ err. settle-Counted req.id _ s.pipe (at_writer (booting req) e)))
    check-Balanced io (some c) (claimed req) e =
        settle-Counted req.id _ _ (given_back s.pipe (at_writer (claimed req) e))
    check-Balanced io none (claimed req) e =
        let k = given_back s.pipe (at_writer (claimed req) e) in
        if_both (Balanced caps) (is_stale s.created_at req)
          (leave-Balanced none _ s (settle-Counted req.id _ _ k))
          (screen-Balanced io false req s (ground (arith, t)) (at_writer (claimed req) e))
    check-Balanced io cancelled _ e = tt

    pub seek_from-Balanced :
        (o : Offers) (io : Io) (w : Writer)
        → offers_apt o ≡ true
        → s.writer ≡ w
        → Then (Balanced caps) (seek_from o io s w)
    unfolding seek_from Then slots_held
    seek_from-Balanced o io seeking a e = seek-Balanced o io s a (at_writer seeking e)
    seek_from-Balanced o io _ a e = tt

    pub wake_urgent-Balanced :
        (a : Arrival) (w : Writer) → s.writer ≡ w → Then (Balanced caps) (wake_urgent a s w)
    unfolding wake_urgent Then slots_held
    wake_urgent-Balanced a parked e = takes-Balanced a s (at_writer parked e)
    wake_urgent-Balanced a _ e = tt

    pub wake_freed-Balanced :
        (o : Offers) (io : Io) (w : Writer)
        → offers_apt o ≡ true
        → s.writer ≡ w
        → Then (Balanced caps) (wake_freed o io s w)
    unfolding wake_freed Then slots_held
    wake_freed-Balanced o io parked a e =
        if_both (Then (Balanced caps)) s.pipe.background_stat_freed
          (select_normal-Balanced o io _ a (freed s.pipe (at_writer parked e))) tt
    wake_freed-Balanced o io _ a e = tt

    pub give_up-Balanced :
        (c : Err) (w : Writer) → s.writer ≡ w → Then (Balanced caps) (give_up c s w)
    unfolding give_up Then slots_held
    give_up-Balanced c (wanting boot req) e =
        settle-Counted req.id _ _ (given_back s.pipe (at_writer (wanting boot req) e))
    give_up-Balanced c _ e = tt

    pub hear-Balanced :
        (code : ℕ) (io : Io) (w : Writer) → s.writer ≡ w → Then (Balanced caps) (hear code io s w)
    unfolding hear hear_probe Then slots_held
    hear-Balanced code io (posting req) e =
        option_both (Then (Balanced caps)) s.post_ready tt
          (λ ok. post_article-Balanced io ok s (at_writer (posting req) e))
    hear-Balanced code io (probing ka) e =
        option_both (Then (Balanced caps)) (outcome_of ka.id s.pipe.settled) tt (λ o.
          if_both (Balanced caps) (is_expected code o) (at_writer (probing ka) e)
            (leave-Balanced none _ s (break_down-Counted s.pipe (at_writer (probing ka) e))))
    hear-Balanced code io _ e = tt

  -- Nothing that is outstanding moves when the next response is awaited.
  pub receive-Counted :
      {l : Load} (p q : Pipe)
      → caps.marks_off ≡ false
      → p.head ≡ none
      → receive p ≡ some q
      → Counted caps l p
      → Counted caps l q
  unfolding receive
  receive-Counted p q m n e h = ground (arith, m, n, e, h)

  pub deliver-Counted :
      {l : Load} (req : PipeRequest) (r : Reading) (p : Pipe)
      → Counted caps l p
      → Counted caps l (deliver_response req r p)
  unfolding deliver_response
  deliver-Counted {l = l} req r p h =
      let q = settle req.id (if r.deliver then answered r.response else closed) p in
      tallied q (settle-Counted req.id _ p h)
    where
      tallied :
          {ids : List ℕ} {b : Bool} (q : Pipe)
          → Counted caps l q
          → Counted caps l (record q { replies = ids; in_order = b })
      tallied q k = ground (arith, k)

-- What the reader gives back for the request at the head, one after the other.
module _ (caps : Caps) {l : Load} (req : PipeRequest) (p : Pipe) (e : p.head ≡ some req) where
  pub free_slot-Counted :
      Counted (record caps { given_back = 0; marks_off = false }) l p
      → Counted (record caps { given_back = 1; marks_off = false }) l (release_inflight p)
  unfolding count
  free_slot-Counted h = ground (arith, e, h)

  pub free_stat-Counted :
      Counted (record caps { given_back = 1; marks_off = false }) l p
      → Counted (record caps { given_back = 1; marks_off = true }) l (free_stat req p)
  unfolding free_stat release_request_pending release_background_stat count
  free_stat-Counted h = ground (arith, e, h)

  pub free_body-Counted :
      Counted (record caps { given_back = 1; marks_off = true }) l p
      → Counted (record caps { given_back = 0; marks_off = false }) l (free_body req p)
  unfolding free_body count
  free_body-Counted h = ground (arith, e, h)
