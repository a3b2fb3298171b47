-- ===== src/Connection/Bounds.antt =====
-- nntp.go: the bounds of a connection's pipeline under any interleaving of its two goroutines.
use nntppool.Base.{
  ℕ, ◌≡◌, refl, sym, subst, Bool, true, false, ◌&&◌, Option, none, some, List, [], ◌∷◌, arith,
  if_both, if_split,
}
use Prim.Native.String.{String}
use nntppool.Errors.{is_code}
use nntppool.Connection.{PipeRequest, Pipe, new_pipe}
use nntppool.Connection.Writer.{Side}
use nntppool.Connection.Replies.{
  Reader, running, confirming, stopped, Connection, Event, checks, takes_slot, seeks, wakes_freed,
  wakes_urgent, takes_body, hears, gives_up, is_done, receives, confirms, quits, cancels, finishes,
  seeks_alone, drains, expires, releases, delivered, slot_free, stat_free, release, read_on, step,
  receives_next, confirm, finish_one, quit, finish, rejecting, receive, Reading, with_pipe, retires,
  begin, run, sided,
}
use nntppool.Connection.Slots.{count, Caps, Load}
use nntppool.Connection.Slots.Breakdown.{fail_outstanding-IsBounded}
use nntppool.Connection.Slots.Steps.{slots_held, slots_of, Counted, Balanced, break_down-kept}
use nntppool.Connection.Slots.Reach.{
  take_slot-Balanced, take_body-Balanced, stop_writer-Balanced, check-Balanced, seek_from-Balanced,
  wake_urgent-Balanced, wake_freed-Balanced, give_up-Balanced, hear-Balanced, receive-Counted,
  deliver-Counted, drain-Balanced, expire-Balanced, free_slot-Counted, free_stat-Counted,
  free_body-Counted,
}
use nntppool.Connection.Tidy.{event_apt, in_hand, clash, is_new?, IsTidy}
use nntppool.Connection.Tidy.Steps.{
  Then, Then-some, Then-bind, take_slot-IsTidy, take_body-IsTidy, stop_writer-IsTidy, check-IsTidy,
  seek_from-IsTidy, wake_urgent-IsTidy, wake_freed-IsTidy, give_up-IsTidy, hear-IsTidy,
  drain-IsTidy, expire-IsTidy,
}

-- What the request at the head has given back, by where the reader is.
abbrev pub framed : Caps → Reader → Caps
framed caps (slot_free r) = record caps { given_back = 1; marks_off = false }
framed caps (stat_free r) = record caps { given_back = 1; marks_off = true }
framed caps _ = record caps { given_back = 0; marks_off = false }

pub record IsSound (caps : Caps) (c : Connection) : Type 0 where
  pub tidy : IsTidy c.side
  pub balanced : Balanced (framed caps c.reader) c.side

abbrev pub all_apt : List Event → Bool
all_apt [] = true
all_apt (ev ∷ evs) = event_apt ev && all_apt evs

module _ (caps : Caps) where
  -- A step of the writer, as a step of the connection.
  sided-IsSound :
      (c : Connection) (o : Option Side)
      → Then IsTidy o
      → Then (Balanced (framed caps c.reader)) o
      → Then (IsSound caps) (sided c o)
  unfolding Then
  sided-IsSound c none t b = tt
  sided-IsSound c (some s) t b = record { tidy = t; balanced = b }

  -- A step of the reader leaves the writer's requests alone.
  with_pipe-IsSound :
      (c : Connection) (p : Pipe) (r : Reader) (post_ready : Option Bool)
      → IsTidy c.side
      → Counted (framed caps r) (slots_of (slots_held c.side.writer)) p
      → IsSound caps
          (record c { side = record c.side { pipe = p; post_ready = post_ready }; reader = r })
  with_pipe-IsSound c p r post_ready t b = record {
    tidy = record { hand = t.hand; put_off = t.put_off; apart = t.apart };
    balanced = b;
  }

  -- The bounds where the reader is at another place.
  at_reader :
      {r : Reader} (c : Connection)
      → c.reader ≡ r
      → IsSound caps c
      → Counted (framed caps r) (slots_of (slots_held c.side.writer)) c.side.pipe
  at_reader c e h =
      subst (λ x. Counted (framed caps x) (slots_of (slots_held c.side.writer)) c.side.pipe) e
        h.balanced

  back :
      {r : Reader} {p : Pipe} (c : Connection)
      → c.reader ≡ r
      → Counted (framed caps r) (slots_of (slots_held c.side.writer)) p
      → Counted (framed caps c.reader) (slots_of (slots_held c.side.writer)) p
  back {p = p} c e h =
      subst (λ x. Counted (framed caps x) (slots_of (slots_held c.side.writer)) p) (sym e) h

  finish-IsSound :
      (req : PipeRequest) (r : Reading) (c : Connection)
      → IsTidy c.side
      → Counted (framed caps running) (slots_of (slots_held c.side.writer)) c.side.pipe
      → IsSound caps (finish req r c)
  unfolding finish
  finish-IsSound req r c t h =
      with_pipe-IsSound c _ (delivered r) c.side.post_ready t (deliver-Counted req r c.side.pipe h)

  read_on-IsSound :
      (req : PipeRequest) (r : Reading) (p : Pipe) (c : Connection)
      → IsTidy c.side
      → Counted (framed caps running) (slots_of (slots_held c.side.writer)) p
      → IsSound caps (read_on req r p c)
  unfolding read_on
  read_on-IsSound req r p c t k =
      if_both (IsSound caps) (retires req r)
        (with_pipe-IsSound c _ stopped c.side.post_ready t (break_down-kept _ k))
        (with_pipe-IsSound c _ running c.side.post_ready t k)

  release-IsSound :
      (c : Connection) (head : Option PipeRequest) (reader : Reader)
      → c.side.pipe.head ≡ head
      → c.reader ≡ reader
      → IsSound caps c
      → Then (IsSound caps) (release c head reader)
  unfolding release Then
  release-IsSound c (some req) (delivered r) e f h =
      with_pipe-IsSound c _ (slot_free r) c.side.post_ready h.tidy
        (free_slot-Counted caps req c.side.pipe e (at_reader c f h))
  release-IsSound c (some req) (slot_free r) e f h =
      with_pipe-IsSound c _ (stat_free r) c.side.post_ready h.tidy
        (free_stat-Counted caps req c.side.pipe e (at_reader c f h))
  release-IsSound c (some req) (stat_free r) e f h =
      read_on-IsSound req r _ c h.tidy (free_body-Counted caps req c.side.pipe e (at_reader c f h))
  release-IsSound c _ _ e f h = tt

  rejecting-Counted :
      (req : PipeRequest) (r : Reading) (c : Connection)
      → IsTidy c.side
      → Counted (framed caps running) (slots_of (slots_held c.side.writer)) c.side.pipe
      → IsSound caps (finish req r (rejecting req c))
  unfolding rejecting
  rejecting-Counted req r c t h =
      if_both (λ d. IsSound caps (finish req r d)) req.post_mode
        (finish-IsSound req r (record c { side = record c.side { post_ready = some false } })
          (record { hand = t.hand; put_off = t.put_off; apart = t.apart }) h)
        (finish-IsSound req r c t h)

  reads-IsSound :
      (r : Reading) (c : Connection) (head : Option PipeRequest) (reader : Reader)
      → c.reader ≡ reader
      → IsSound caps c
      → Then (IsSound caps) (finish_one r c head reader)
  unfolding finish_one Then
  reads-IsSound r c (some req) running e h =
      if_both (Then (IsSound caps)) (req.post_mode && is_code r.code 340) tt
        (rejecting-Counted req r c h.tidy (at_reader c e h))
  reads-IsSound r c (some req) confirming e h =
      if_both (Then (IsSound caps)) (is_code r.code 340)
        (finish-IsSound req r c h.tidy (at_reader c e h)) tt
  reads-IsSound r c _ _ e h = tt

  receives-IsSound :
      (c : Connection) (head : Option PipeRequest) (reader : Reader)
      → c.side.pipe.head ≡ head
      → c.reader ≡ reader
      → IsSound caps c
      → Then (IsSound caps) (receives_next c head reader)
  unfolding receives_next Then
  receives-IsSound c none running e f h =
      Then-some (IsSound caps) (receive c.side.pipe) (λ p. with_pipe p c)
        (λ p g.
          with_pipe-IsSound c p c.reader c.side.post_ready h.tidy
            (back c f (receive-Counted c.side.pipe p refl e g (at_reader c f h))))
  receives-IsSound c _ _ e f h = tt

  confirm-IsSound :
      (c : Connection) (head : Option PipeRequest) (reader : Reader)
      → c.reader ≡ reader
      → IsSound caps c
      → Then (IsSound caps) (confirm c head reader)
  unfolding confirm Then
  confirm-IsSound c (some req) running e h =
      if_both (Then (IsSound caps)) req.post_mode
        (with_pipe-IsSound c c.side.pipe confirming (some true) h.tidy (at_reader c e h)) tt
  confirm-IsSound c _ _ e h = tt

  quit-IsSound :
      (swept : Bool) (c : Connection) (head : Option PipeRequest) (reader : Reader)
      → c.reader ≡ reader
      → IsSound caps c
      → Then (IsSound caps) (quit swept c head reader)
  unfolding quit Then
  quit-IsSound swept c none running e h =
      if_split (Then (IsSound caps)) c.side.pipe.live (λ l. tt)
        (λ d.
          let k = at_reader c e h in
          with_pipe-IsSound c _ stopped c.side.post_ready h.tidy (
            if_both (Counted (framed caps stopped) (slots_of (slots_held c.side.writer))) swept
              (fail_outstanding-IsBounded c.side.pipe d k) k))
  quit-IsSound swept c _ _ e h = tt

  cancelled-Counted :
      {held : Caps} {l : Load} (p : Pipe)
      → Counted held l p
      → Counted held l (record p { live = false })
  cancelled-Counted p h = ground (arith, h)

  pub step-IsSound :
      (ev : Event) (c : Connection)
      → event_apt ev ≡ true
      → IsSound caps c
      → Then (IsSound caps) (step ev c)
  unfolding step Then event_apt
  step-IsSound (checks io cancelled) c a h =
      sided-IsSound c _ (check-IsTidy c.side h.tidy io cancelled c.side.writer refl)
        (check-Balanced c.side h.tidy h.balanced io cancelled c.side.writer refl)
  step-IsSound (takes_slot io flushed) c a h =
      sided-IsSound c _ (take_slot-IsTidy c.side h.tidy io flushed c.side.writer refl)
        (take_slot-Balanced c.side h.tidy h.balanced io flushed c.side.writer refl)
  step-IsSound (seeks o io) c a h =
      sided-IsSound c _ (seek_from-IsTidy c.side h.tidy o io c.side.writer a)
        (seek_from-Balanced c.side h.tidy h.balanced o io c.side.writer a refl)
  step-IsSound (wakes_urgent x) c a h =
      sided-IsSound c _ (wake_urgent-IsTidy c.side h.tidy x c.side.writer a)
        (wake_urgent-Balanced c.side h.tidy h.balanced x c.side.writer refl)
  step-IsSound (wakes_freed o io) c a h =
      sided-IsSound c _ (wake_freed-IsTidy c.side h.tidy o io c.side.writer a)
        (wake_freed-Balanced c.side h.tidy h.balanced o io c.side.writer a refl)
  step-IsSound (takes_body io) c a h =
      sided-IsSound c _ (take_body-IsTidy c.side h.tidy io c.side.writer refl)
        (take_body-Balanced c.side h.tidy h.balanced io c.side.writer refl)
  step-IsSound (gives_up e) c a h =
      sided-IsSound c _ (give_up-IsTidy c.side h.tidy e c.side.writer)
        (give_up-Balanced c.side h.tidy h.balanced e c.side.writer refl)
  step-IsSound (hears io) c a h =
      sided-IsSound c _ (hear-IsTidy c.side h.tidy c.keepalive_code io c.side.writer)
        (hear-Balanced c.side h.tidy h.balanced c.keepalive_code io c.side.writer refl)
  step-IsSound is_done c a h = if_both (Then (IsSound caps)) c.side.pipe.live tt (
      sided-IsSound c _ (stop_writer-IsTidy c.side h.tidy c.side.writer)
        (stop_writer-Balanced c.side h.tidy h.balanced c.side.writer refl))
  step-IsSound drains c a h =
      sided-IsSound c _ (drain-IsTidy c.side h.tidy c.side.writer)
        (drain-Balanced c.side h.tidy h.balanced c.side.writer refl)
  step-IsSound expires c a h =
      sided-IsSound c _ (expire-IsTidy c.side h.tidy c.side.writer)
        (expire-Balanced c.side h.tidy h.balanced c.side.writer)
  step-IsSound releases c a h = release-IsSound c c.side.pipe.head c.reader refl refl h
  step-IsSound (seeks_alone w io) c a h = ground (arith, a)
  step-IsSound receives c a h = receives-IsSound c c.side.pipe.head c.reader refl refl h
  step-IsSound confirms c a h = confirm-IsSound c c.side.pipe.head c.reader refl h
  step-IsSound (finishes r) c a h = reads-IsSound r c c.side.pipe.head c.reader refl h
  step-IsSound (quits swept) c a h = quit-IsSound swept c c.side.pipe.head c.reader refl h
  step-IsSound cancels c a h =
      with_pipe-IsSound c _ c.reader c.side.post_ready h.tidy
        (cancelled-Counted c.side.pipe h.balanced)

  pub run-IsSound :
      (evs : List Event) (c : Connection)
      → all_apt evs ≡ true
      → IsSound caps c
      → Then (IsSound caps) (run evs c)
  unfolding run Then
  run-IsSound [] c a h = h
  run-IsSound (ev ∷ evs) c a h =
      Then-bind (IsSound caps) (IsSound caps) (step ev c) (λ d. run evs d)
        (step-IsSound ev c (ground arith) h) (λ d k. run-IsSound evs d (ground arith) k)

  pub begin-IsSound :
      (name : Option String) (first second : Option PipeRequest) (created_at code : ℕ)
      → is_new? first ≡ true
      → is_new? second ≡ true
      → IsSound caps (
          begin (new_pipe caps.depth caps.bodies caps.background name) first second created_at code)
  unfolding begin new_pipe in_hand clash slots_held count
  begin-IsSound name none second created_at code f s = record {
    tidy = record { hand = refl; put_off = s; apart = refl };
    balanced = ground arith;
  }
  begin-IsSound name (some req) second created_at code f s = record {
    tidy = record { hand = f; put_off = s; apart = refl };
    balanced = ground arith;
  }
