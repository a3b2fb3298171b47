-- ===== src/Connection/Order/Pairing.antt =====
-- nntp.go: which response goes to which request.
use Prim.Native.String.{String}
use mathlib.Core.List.{append_assoc}
use nntppool.Base.{
  ℕ, ◌≡◌, refl, sym, ap, ◌∙◌, subst, Bool, true, false, ◌&&◌, Option, none, some, List, [], ◌∷◌,
  ◌++◌, arith, if◌then◌else◌, if_both, if_split,
}
use nntppool.Errors.{is_code}
use nntppool.Connection.{
  PipeRequest, Pipe, Outcome, answered, closed, new_pipe, release_background_stat,
  release_request_pending, fail_outstanding,
}
use nntppool.Connection.Writer.{Side}
use nntppool.Connection.Replies.{
  Reader, running, confirming, Connection, Event, checks, takes_slot, seeks, wakes_freed,
  wakes_urgent, takes_body, hears, gives_up, is_done, receives, confirms, quits, cancels, finishes,
  releases, drains, expires, seeks_alone, delivered, slot_free, stat_free, free_stat, free_body,
  read_on, release, step, receives_next, confirm, sided, begin, run, finish_one, quit, finish,
  rejecting, receive, Reading, with_pipe, retires, deliver_response,
}
use nntppool.Connection.Slots.{settle-keeps}
use nntppool.Connection.Tidy.Steps.{Then, Then-some, Then-bind}
use nntppool.Connection.Order.{
  ids, waiting, unread, is_past, Fifo, Kept, fail_outstanding-dead, dead-Fifo, break_down-Fifo,
}
use nntppool.Connection.Slots.{Caps}
use nntppool.Connection.Safety.{Reached}
use nntppool.Connection.Order.Steps.{
  take_slot-Kept, take_body-Kept, stop_writer-Kept, check-Kept, seek_from-Kept, wake_urgent-Kept,
  wake_freed-Kept, give_up-Kept, hear-Kept, drain-Kept, expire-Kept, seek_from_alone-Kept,
}

-- The steps of the reader.
receive-Fifo : (p q : Pipe) → p.head ≡ none → receive p ≡ some q → Fifo false p → Fifo false q
unfolding receive
receive-Fifo p q n e h = ground (arith, n, e, h)

popped :
    (req : PipeRequest) (p : Pipe)
    → p.head ≡ some req
    → Fifo false p
    → p.live ≡ true
    → p.in_order ≡ true
    → p.wire ≡ (p.replies ++ req.id ∷ []) ++ ids p.pending
popped req p e h l o =
    h l o
    ∙ ap (λ x. p.replies ++ ids (waiting false x ++ p.pending)) e
    ∙ sym (append_assoc p.replies (req.id ∷ []) (ids p.pending))

-- The head is the first of those that are not answered.
deliver-Fifo :
    (req : PipeRequest) (r : Reading) (p : Pipe)
    → p.head ≡ some req
    → Fifo false p
    → Fifo true (deliver_response req r p)
unfolding deliver_response
deliver-Fifo req r p e h =
    settle-keeps
      (λ q. Fifo true (record q {
        replies = if r.whole then p.replies ++ req.id ∷ [] else p.replies;
        in_order = p.in_order && r.whole;
      }))
      req.id (if r.deliver then answered r.response else closed) p (λ s. by_cases r.whole s)
  where
    by_cases :
        (w : Bool) (s : List (ℕ × Outcome))
        → Fifo true (record p {
          settled = s;
          replies = if w then p.replies ++ req.id ∷ [] else p.replies;
          in_order = p.in_order && w;
        })
    by_cases true s l o = popped req p e h l (ground (arith, o))
    by_cases false s l o = ground (arith, o)

free_stat-Fifo : (req : PipeRequest) (p : Pipe) → Fifo true p → Fifo true (free_stat req p)
unfolding free_stat release_request_pending release_background_stat
free_stat-Fifo req p h = ground (arith, h)

free_body-Fifo : (req : PipeRequest) (p : Pipe) → Fifo true p → Fifo false (free_body req p)
unfolding free_body
free_body-Fifo req p h = ground (arith, h)

abbrev Paired : Connection → Type 0
Paired c = Kept (is_past c.reader) c.side

at_reader : {r : Reader} (c : Connection) → c.reader ≡ r → Paired c → Kept (is_past r) c.side
at_reader c e h = subst (λ x. Kept (is_past x) c.side) e h

read_on-Paired :
    (req : PipeRequest) (r : Reading) (p : Pipe) (c : Connection)
    → Fifo false p
    → Paired (read_on req r p c)
unfolding read_on
read_on-Paired req r p c h = if_both Paired (retires req r) (break_down-Fifo false p) h

release-Paired :
    (c : Connection) (head : Option PipeRequest) (reader : Reader)
    → c.reader ≡ reader
    → Paired c
    → Then Paired (release c head reader)
unfolding release Then
release-Paired c (some req) (delivered r) e h = at_reader c e h
release-Paired c (some req) (slot_free r) e h = free_stat-Fifo req c.side.pipe (at_reader c e h)
release-Paired c (some req) (stat_free r) e h =
    read_on-Paired req r _ c (free_body-Fifo req c.side.pipe (at_reader c e h))
release-Paired c _ _ e h = tt

finish-Paired :
    (req : PipeRequest) (r : Reading) (c : Connection)
    → c.side.pipe.head ≡ some req
    → Kept false c.side
    → Paired (finish req r c)
unfolding finish
finish-Paired req r c e h = deliver-Fifo req r c.side.pipe e h

reads-Paired :
    (r : Reading) (c : Connection) (head : Option PipeRequest) (reader : Reader)
    → c.side.pipe.head ≡ head
    → c.reader ≡ reader
    → Paired c
    → Then Paired (finish_one r c head reader)
unfolding finish_one rejecting Then
reads-Paired r c (some req) running e f h =
    if_both (Then Paired) (req.post_mode && is_code r.code 340) tt (
      if_both (λ d. Paired (finish req r d)) req.post_mode
        (finish-Paired req r (record c { side = record c.side { post_ready = some false } }) e
          (at_reader c f h))
        (finish-Paired req r c e (at_reader c f h)))
reads-Paired r c (some req) confirming e f h =
    if_both (Then Paired) (is_code r.code 340) (finish-Paired req r c e (at_reader c f h)) tt
reads-Paired r c _ _ e f h = tt

receives-Paired :
    (c : Connection) (head : Option PipeRequest) (reader : Reader)
    → c.side.pipe.head ≡ head
    → c.reader ≡ reader
    → Paired c
    → Then Paired (receives_next c head reader)
unfolding receives_next Then
receives-Paired c none running e f h =
    Then-some Paired (receive c.side.pipe) (λ p. with_pipe p c)
      (λ p g.
        subst (λ x. Fifo (is_past x) p) (sym f) (receive-Fifo c.side.pipe p e g (at_reader c f h)))
receives-Paired c _ _ e f h = tt

confirm-Paired :
    (c : Connection) (head : Option PipeRequest) (reader : Reader)
    → c.reader ≡ reader
    → Paired c
    → Then Paired (confirm c head reader)
unfolding confirm Then
confirm-Paired c (some req) running f h = if_both (Then Paired) req.post_mode (at_reader c f h) tt
confirm-Paired c _ _ f h = tt

quit-Paired :
    (swept : Bool) (c : Connection) (head : Option PipeRequest) (reader : Reader)
    → Then Paired (quit swept c head reader)
unfolding quit Then
quit-Paired swept c none running =
    if_split (Then Paired) c.side.pipe.live (λ l. tt)
      (λ d.
        if_both (Fifo false) swept
          (dead-Fifo false (fail_outstanding c.side.pipe) (fail_outstanding-dead c.side.pipe d))
          (dead-Fifo false c.side.pipe d))
quit-Paired swept c _ _ = tt

sided-Paired :
    (c : Connection) (o : Option Side) → Then (Kept (is_past c.reader)) o → Then Paired (sided c o)
unfolding Then
sided-Paired c none k = tt
sided-Paired c (some s) k = k

step-Paired : (ev : Event) (c : Connection) → Paired c → Then Paired (step ev c)
unfolding step Then
step-Paired (checks io cancelled) c h =
    sided-Paired c _ (check-Kept (is_past c.reader) c.side h io cancelled c.side.writer)
step-Paired (takes_slot io flushed) c h =
    sided-Paired c _ (take_slot-Kept (is_past c.reader) c.side h io flushed c.side.writer)
step-Paired (seeks o io) c h =
    sided-Paired c _ (seek_from-Kept (is_past c.reader) c.side h o io c.side.writer)
step-Paired (wakes_urgent a) c h =
    sided-Paired c _ (wake_urgent-Kept (is_past c.reader) c.side h a c.side.writer)
step-Paired (wakes_freed o io) c h =
    sided-Paired c _ (wake_freed-Kept (is_past c.reader) c.side h o io c.side.writer)
step-Paired (takes_body io) c h =
    sided-Paired c _ (take_body-Kept (is_past c.reader) c.side h io c.side.writer)
step-Paired (gives_up e) c h =
    sided-Paired c _ (give_up-Kept (is_past c.reader) c.side h e c.side.writer)
step-Paired (hears io) c h =
    sided-Paired c _ (hear-Kept (is_past c.reader) c.side h c.keepalive_code io c.side.writer)
step-Paired is_done c h =
    if_both (Then Paired) c.side.pipe.live tt
      (sided-Paired c _ (stop_writer-Kept (is_past c.reader) c.side h c.side.writer))
step-Paired drains c h = sided-Paired c _ (drain-Kept (is_past c.reader) c.side h c.side.writer)
step-Paired expires c h = sided-Paired c _ (expire-Kept (is_past c.reader) c.side h c.side.writer)
step-Paired (seeks_alone w io) c h =
    sided-Paired c _ (seek_from_alone-Kept (is_past c.reader) c.side h w io c.side.writer)
step-Paired releases c h = release-Paired c c.side.pipe.head c.reader refl h
step-Paired receives c h = receives-Paired c c.side.pipe.head c.reader refl refl h
step-Paired confirms c h = confirm-Paired c c.side.pipe.head c.reader refl h
step-Paired (finishes r) c h = reads-Paired r c c.side.pipe.head c.reader refl refl h
step-Paired (quits swept) c h = quit-Paired swept c c.side.pipe.head c.reader
step-Paired cancels c h = dead-Fifo (is_past c.reader) (record c.side.pipe { live = false }) refl

run-Paired : (evs : List Event) (c : Connection) → Paired c → Then Paired (run evs c)
unfolding run Then
run-Paired [] c h = h
run-Paired (ev ∷ evs) c h =
    Then-bind Paired Paired (step ev c) (λ d. run evs d) (step-Paired ev c h)
      (λ d k. run-Paired evs d k)

-- Whatever the order in which the two goroutines of a connection run and whatever they are told, as
-- long as the connection lives and every response was read whole, the requests that were written are,
-- in the order in which they were, those whose responses were read, then the one whose response is
-- being read, and then those in `pending`: the n-th response is matched to the n-th request.
pub run-Fifo :
    (caps : Caps) (name : Option String) (first second : Option PipeRequest) (created_at code : ℕ)
    (evs : List Event) (c : Connection)
    → Reached caps name first second created_at code evs c
    → c.side.pipe.live ≡ true
    → c.side.pipe.in_order ≡ true
    → c.side.pipe.wire ≡ c.side.pipe.replies ++ ids (unread (is_past c.reader) c.side.pipe)
unfolding Then begin new_pipe
run-Fifo caps name first second created_at code evs c e = subst (Then Paired) e (
    run-Paired evs
      (begin (new_pipe caps.depth caps.bodies caps.background name) first second created_at code)
      (λ l o. refl))
