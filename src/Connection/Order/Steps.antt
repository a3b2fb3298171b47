-- ===== src/Connection/Order/Steps.antt =====
-- nntp.go: every step of the writer of a connection keeps the order of its requests.
use nntppool.Base.{
  ℕ, ◌≡◌, refl, Bool, true, false, not, Option, none, some, arith, leb, if◌then◌else◌, if_both,
  option_both,
}
use nntppool.Errors.{Err, sentinel, background_stat_window_full}
use nntppool.Connection.{
  PipeRequest, Pipe, fail_request, acquire_inflight, acquire_body, acquire_background_stat,
  release_inflight, release_body, is_cheap_command, outcome_of,
}
use nntppool.Connection.Writer.{
  Writer, booting, entering, top, seeking, parked, claimed, wanting, posting, probing, draining,
  Wake, Side, Arrival, Offers, Io, goes_on, screen, admit, transmit, check_claimed, check_first,
  is_stale, post_article, hear_probe, is_expected,
}
use nntppool.Connection.Replies.{
  take_slot, take_body, stop_writer, check, seek_from, wake_urgent, wake_freed, give_up, hear,
  drain, expire, seek_from_alone,
}
use nntppool.Connection.Tidy.Steps.{Then, Then-some}
use nntppool.Connection.Order.{
  Fifo, Kept, settle-Fifo, leave-Kept, takes-Kept, select_normal-Kept, seek-Kept, seek_alone-Kept,
  transmit-Kept,
}

module _ (past : Bool) where
  background-Fifo :
      (req : PipeRequest) {held : PipeRequest} (p : Pipe) {q : Pipe}
      → acquire_background_stat req p ≡ some (held, q)
      → (Fifo past) p
      → (Fifo past) q
  unfolding acquire_background_stat
  background-Fifo req p e h = ground (arith, e, h)

  release_body-Fifo :
      (req : PipeRequest) (p : Pipe) → (Fifo past) p → (Fifo past) (release_body req p)
  release_body-Fifo req p h = ground (arith, h)

  admit-Kept :
      (io : Io) (boot : Bool) (req : PipeRequest) (p : Pipe) (s : Side)
      → (Fifo past) p
      → (Kept past) (admit io boot req p s)
  unfolding admit
  admit-Kept io boot req p s h = by_cases (acquire_background_stat req p) refl
    where
      by_cases :
          (a : Option (PipeRequest × Pipe))
          → acquire_background_stat req p ≡ a
          → (Kept past) (elim a [
            | some (held, q) ↦ transmit io held q s
            | none ↦
                let q = release_body req (release_inflight p) in
                if boot
                then goes_on (fail_request req (sentinel background_stat_window_full) q) s
                else record s { pipe = q; writer = top; deferred_normal = some req }
          ])
      by_cases (some (held, q)) e = transmit-Kept past io held q s (background-Fifo req p e h)
      by_cases none e =
          let k = release_body-Fifo req (release_inflight p) h in
          if_both (Kept past) boot (settle-Fifo past req.id _ _ k) k

  screen-Kept :
      (io : Io) (boot : Bool) (req : PipeRequest) (s : Side)
      → (Kept past) s
      → (Kept past) (screen io boot req s)
  unfolding screen
  screen-Kept io boot req s h =
      if_both (Kept past) (is_cheap_command req.request.payload) (admit-Kept io boot req s.pipe s h)
        h

  inflight-Fifo : (p q : Pipe) → acquire_inflight p ≡ some q → (Fifo past) p → (Fifo past) q
  unfolding acquire_inflight
  inflight-Fifo p q e h = ground (arith, e, h)

  body-Fifo : (p q : Pipe) → acquire_body p ≡ some q → (Fifo past) p → (Fifo past) q
  unfolding acquire_body
  body-Fifo p q e h = ground (arith, e, h)

  -- The steps of the writer.
  module _ (s : Side) (h : (Kept past) s) where
    pub take_slot-Kept :
        (io : Io) (flushed : Bool) (w : Writer) → Then (Kept past) (take_slot io flushed s w)
    unfolding take_slot Then
    take_slot-Kept io flushed top =
        if_both (Then (Kept past)) (not flushed) (leave-Kept past none s.pipe s)
          (Then-some (Kept past) (acquire_inflight s.pipe) _ (λ p f. inflight-Fifo s.pipe p f h))
    take_slot-Kept io flushed (entering req) =
        Then-some (Kept past) (acquire_inflight s.pipe) _
          (λ p f. screen-Kept io true req (record s { pipe = p }) (inflight-Fifo s.pipe p f h))
    take_slot-Kept io flushed _ = tt

    pub take_body-Kept : (io : Io) (w : Writer) → Then (Kept past) (take_body io s w)
    unfolding take_body Then
    take_body-Kept io (wanting boot req) =
        Then-some (Kept past) (acquire_body s.pipe) _
          (λ p f. admit-Kept io boot (record req { held_body = true }) p s (body-Fifo s.pipe p f h))
    take_body-Kept io _ = tt

    pub stop_writer-Kept : (w : Writer) → Then (Kept past) (stop_writer s w)
    unfolding stop_writer Then
    stop_writer-Kept top = leave-Kept past none _ s
    stop_writer-Kept parked = leave-Kept past none _ s
    stop_writer-Kept (entering req) = leave-Kept past none _ s
    stop_writer-Kept (wanting true req) = leave-Kept past none _ s
    stop_writer-Kept (wanting false req) = leave-Kept past (some req) _ s
    stop_writer-Kept (posting req) = leave-Kept past none _ s
    stop_writer-Kept (probing req) = leave-Kept past none _ s
    stop_writer-Kept (draining n) = leave-Kept past none _ s
    stop_writer-Kept _ = tt

    pub drain-Kept : (w : Writer) → Then (Kept past) (drain s w)
    unfolding drain Then
    drain-Kept (draining n) =
        if_both (Then (Kept past)) (leb s.pipe.depth n) (leave-Kept past none _ s)
          (Then-some (Kept past) (acquire_inflight s.pipe) _ (λ p f. inflight-Fifo s.pipe p f h))
    drain-Kept _ = tt

    pub expire-Kept : (w : Writer) → Then (Kept past) (expire s w)
    unfolding expire Then
    expire-Kept (draining n) = leave-Kept past none _ s
    expire-Kept _ = tt

    pub seek_from_alone-Kept :
        (a : Wake) (io : Io) (w : Writer) → Then (Kept past) (seek_from_alone a io s w)
    unfolding seek_from_alone Then
    seek_from_alone-Kept a io seeking = seek_alone-Kept past io a s h
    seek_from_alone-Kept a io _ = tt

    pub check-Kept :
        (io : Io) (cancelled : Option Err) (w : Writer) → Then (Kept past) (check io cancelled s w)
    unfolding check Then check_first check_claimed
    check-Kept io cancelled (booting req) =
        if_both (Kept past) (is_stale s.created_at req) (leave-Kept past none _ s)
          (option_both (Kept past) cancelled h (λ err. settle-Fifo past req.id _ s.pipe h))
    check-Kept io (some c) (claimed req) = settle-Fifo past req.id _ _ h
    check-Kept io none (claimed req) =
        if_both (Kept past) (is_stale s.created_at req) (leave-Kept past none _ s)
          (screen-Kept io false req s h)
    check-Kept io cancelled _ = tt

    pub seek_from-Kept : (o : Offers) (io : Io) (w : Writer) → Then (Kept past) (seek_from o io s w)
    unfolding seek_from Then
    seek_from-Kept o io seeking = seek-Kept past o io s h
    seek_from-Kept o io _ = tt

    pub wake_urgent-Kept : (a : Arrival) (w : Writer) → Then (Kept past) (wake_urgent a s w)
    unfolding wake_urgent Then
    wake_urgent-Kept a parked = takes-Kept past a s h
    wake_urgent-Kept a _ = tt

    pub wake_freed-Kept :
        (o : Offers) (io : Io) (w : Writer) → Then (Kept past) (wake_freed o io s w)
    unfolding wake_freed Then
    wake_freed-Kept o io parked =
        if_both (Then (Kept past)) s.pipe.background_stat_freed (select_normal-Kept past o io _ h)
          tt
    wake_freed-Kept o io _ = tt

    pub give_up-Kept : (c : Err) (w : Writer) → Then (Kept past) (give_up c s w)
    unfolding give_up Then
    give_up-Kept c (wanting boot req) = settle-Fifo past req.id _ _ h
    give_up-Kept c _ = tt

    pub hear-Kept : (code : ℕ) (io : Io) (w : Writer) → Then (Kept past) (hear code io s w)
    unfolding hear hear_probe post_article Then
    hear-Kept code io (posting req) =
        option_both (Then (Kept past)) s.post_ready tt (λ ok. ready_kept ok)
      where
        ready_kept : (ok : Bool) → (Kept past) (post_article io ok s)
        ready_kept false = h
        ready_kept true = if_both (Kept past) io.copy h (leave-Kept past none _ s)
    hear-Kept code io (probing ka) =
        option_both (Then (Kept past)) (outcome_of ka.id s.pipe.settled) tt
          (λ o. if_both (Kept past) (is_expected code o) h (leave-Kept past none _ s))
    hear-Kept code io _ = tt
