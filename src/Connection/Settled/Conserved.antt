-- ===== src/Connection/Settled/Conserved.antt =====
-- nntp.go: no step of a connection loses a request.
use Prim.Native.String.{String}
use nntppool.Base.{
  ℕ, ◌≡◌, inl, inr, refl, sym, subst, Bool, true, false, ◌&&◌, Option, none, some, List, [], ◌∷◌,
  arith, if◌then◌else◌, if_both, Bool-cases,
}
use nntppool.Errors.{is_code}
use nntppool.Connection.{
  PipeRequest, Pipe, Outcome, answered, closed, settle, release_inflight, release_background_stat,
  release_request_pending, fail_outstanding, break_down, outcome_of,
}
use nntppool.Connection.Writer.{Side}
use nntppool.Connection.Replies.{
  Reader, running, confirming, Connection, Event, checks, takes_slot, seeks, wakes_freed,
  wakes_urgent, takes_body, hears, gives_up, is_done, receives, confirms, quits, cancels, finishes,
  releases, drains, expires, seeks_alone, delivered, slot_free, stat_free, free_stat, free_body,
  read_on, release, step, receives_next, confirm, sided, run, finish_one, quit, finish, rejecting,
  receive, Reading, with_pipe, retires, deliver_response,
}
use nntppool.Connection.Tidy.Steps.{Then, Then-some, Then-bind}
use nntppool.Connection.Settled.{is_given, has, owns, settle-has_old, break_down-has}
use nntppool.Connection.Tidy.{IsTidy}
use nntppool.Connection.Order.{is_past}
use nntppool.Connection.Settled.{outcome_of-append, fail_outstanding-has}
use nntppool.Connection.Settled.Steps.{
  take_slot-owns, take_body-owns, stop_writer-owns, check-owns, seek_from-owns, wake_urgent-owns,
  wake_freed-owns, give_up-owns, hear-owns, drain-owns, expire-owns,
}
use nntppool.Connection.Slots.{Caps, settle-keeps}
use nntppool.Connection.Bounds.{all_apt, IsSound, step-IsSound}
use nntppool.Connection.Safety.{Reached, sound}
use nntppool.Connection.Tidy.{is_new?, event_apt}
use nntppool.Connection.Tidy.Steps.{Then-and}

-- The reader.
given-settled :
    (id : ℕ) (o : Outcome) (p : Pipe) → is_given (outcome_of id (settle id o p).settled) ≡ true
unfolding settle outcome_of
given-settled id o p = ground (arith, outcome_of-append id p.settled ((id, o) ∷ []))

-- The request at the head is settled once its response is delivered.
deliver-has :
    (id : ℕ) (req : PipeRequest) (r : Reading) (p : Pipe)
    → p.head ≡ some req
    → has false id p ≡ true
    → has true id (deliver_response req r p) ≡ true
unfolding deliver_response
deliver-has id req r p e h =
    let o = if r.deliver then answered r.response else closed in
    passed-has (settle req.id o p) (settle-keeps (λ q. q.head ≡ some req) req.id o p (λ s. e))
      (given-settled req.id o p) (settle-has_old false id req.id o p h)
  where
    passed-has :
        (q : Pipe)
        → q.head ≡ some req
        → is_given (outcome_of req.id q.settled) ≡ true
        → has false id q ≡ true
        → has true id q ≡ true
    passed-has q e g h = ground (arith, e, g, h)

free_stat-has :
    (id : ℕ) (req : PipeRequest) (p : Pipe)
    → has true id p ≡ true
    → has true id (free_stat req p) ≡ true
unfolding free_stat release_request_pending release_background_stat
free_stat-has id req p h = ground (arith, h)

free_body-has :
    (id : ℕ) (req : PipeRequest) (p : Pipe)
    → has true id p ≡ true
    → has false id (free_body req p) ≡ true
unfolding free_body
free_body-has id req p h = ground (arith, h)

receive-has :
    (id : ℕ) (p q : Pipe)
    → p.head ≡ none
    → receive p ≡ some q
    → has false id p ≡ true
    → has false id q ≡ true
unfolding receive
receive-has id p q n e h = ground (arith, n, e, h)

-- Where the connection has a request that it has taken.
abbrev pub holds : ℕ → Connection → Bool
holds id c = owns (is_past c.reader) id c.side

abbrev Holds : ℕ → Connection → Type 0
Holds id c = (holds id c ≡ true)

-- A change of the pipe that loses nothing, where the reader goes from one place to another.
lifted :
    (from to : Bool) (id : ℕ) (s : Side) (p : Pipe)
    → owns from id s ≡ true
    → (has from id s.pipe ≡ true → has to id p ≡ true)
    → owns to id (record s { pipe = p }) ≡ true
lifted from to id s p h k = elim (Bool-cases (has from id s.pipe)) [
  | inl e ↦ ground (arith, k e)
  | inr e ↦ ground (arith, h, e)
]

at_reader :
    {r : Reader} (id : ℕ) (c : Connection)
    → c.reader ≡ r
    → Holds id c
    → owns (is_past r) id c.side ≡ true
at_reader id c e h = subst (λ x. owns (is_past x) id c.side ≡ true) e h

read_on-Holds :
    (id : ℕ) (req : PipeRequest) (r : Reading) (c : Connection)
    → owns true id c.side ≡ true
    → Holds id (read_on req r (free_body req c.side.pipe) c)
unfolding read_on
read_on-Holds id req r c h =
    let p = free_body req c.side.pipe in
    if_both (Holds id) (retires req r)
      (lifted true false id c.side (break_down p) h
        (λ k. break_down-has false id p (free_body-has id req c.side.pipe k)))
      (lifted true false id c.side p h (free_body-has id req c.side.pipe))

release-Holds :
    (id : ℕ) (c : Connection) (head : Option PipeRequest) (reader : Reader)
    → c.reader ≡ reader
    → Holds id c
    → Then (Holds id) (release c head reader)
unfolding release Then
release-Holds id c (some req) (delivered r) e h =
    lifted true true id c.side (release_inflight c.side.pipe) (at_reader id c e h) (λ k. k)
release-Holds id c (some req) (slot_free r) e h =
    lifted true true id c.side (free_stat req c.side.pipe) (at_reader id c e h)
      (free_stat-has id req c.side.pipe)
release-Holds id c (some req) (stat_free r) e h = read_on-Holds id req r c (at_reader id c e h)
release-Holds id c _ _ e h = tt

receives-Holds :
    (id : ℕ) (c : Connection) (head : Option PipeRequest) (reader : Reader)
    → c.side.pipe.head ≡ head
    → c.reader ≡ reader
    → Holds id c
    → Then (Holds id) (receives_next c head reader)
unfolding receives_next Then
receives-Holds id c none running e f h =
    Then-some (Holds id) (receive c.side.pipe) (λ p. with_pipe p c)
      (λ p g.
        subst (λ x. owns (is_past x) id (record c.side { pipe = p }) ≡ true) (sym f)
          (lifted false false id c.side p (at_reader id c f h)
            (λ k. receive-has id c.side.pipe p e g k)))
receives-Holds id c _ _ e f h = tt

confirm-Holds :
    (id : ℕ) (c : Connection) (head : Option PipeRequest) (reader : Reader)
    → c.reader ≡ reader
    → Holds id c
    → Then (Holds id) (confirm c head reader)
unfolding confirm Then
confirm-Holds id c (some req) running f h =
    if_both (Then (Holds id)) req.post_mode (at_reader id c f h) tt
confirm-Holds id c _ _ f h = tt

quit-Holds :
    (id : ℕ) (swept : Bool) (c : Connection) (head : Option PipeRequest) (reader : Reader)
    → c.reader ≡ reader
    → Holds id c
    → Then (Holds id) (quit swept c head reader)
unfolding quit Then
quit-Holds id swept c none running f h = if_both (Then (Holds id)) c.side.pipe.live tt (
    if_both (λ p. owns false id (record c.side { pipe = p }) ≡ true) swept
      (lifted false false id c.side (fail_outstanding c.side.pipe) (at_reader id c f h)
        (fail_outstanding-has false id c.side.pipe))
      (at_reader id c f h))
quit-Holds id swept c _ _ f h = tt

finish-Holds :
    (id : ℕ) (req : PipeRequest) (r : Reading) (c : Connection)
    → c.side.pipe.head ≡ some req
    → owns false id c.side ≡ true
    → Holds id (finish req r c)
unfolding finish
finish-Holds id req r c e h =
    lifted false true id c.side (deliver_response req r c.side.pipe) h
      (deliver-has id req r c.side.pipe e)

reads-Holds :
    (id : ℕ) (r : Reading) (c : Connection) (head : Option PipeRequest) (reader : Reader)
    → c.reader ≡ reader
    → Holds id c
    → c.side.pipe.head ≡ head
    → Then (Holds id) (finish_one r c head reader)
unfolding finish_one rejecting Then
reads-Holds id r c (some req) running f h e =
    if_both (Then (Holds id)) (req.post_mode && is_code r.code 340) tt (
      if_both (λ d. Holds id (finish req r d)) req.post_mode
        (finish-Holds id req r (record c { side = record c.side { post_ready = some false } }) e
          (at_reader id c f h))
        (finish-Holds id req r c e (at_reader id c f h)))
reads-Holds id r c (some req) confirming f h e =
    if_both (Then (Holds id)) (is_code r.code 340) (finish-Holds id req r c e (at_reader id c f h))
      tt
reads-Holds id r c _ _ f h e = tt

sided-Holds :
    (id : ℕ) (c : Connection) (o : Option Side)
    → Then (λ s. owns (is_past c.reader) id s ≡ true) o
    → Then (Holds id) (sided c o)
unfolding Then
sided-Holds id c none k = tt
sided-Holds id c (some s) k = k

step-Holds :
    (id : ℕ) (ev : Event) (c : Connection)
    → event_apt ev ≡ true
    → IsTidy c.side
    → Holds id c
    → Then (Holds id) (step ev c)
unfolding step Then event_apt
step-Holds id (checks io x) c apt t h =
    sided-Holds id c _ (check-owns (is_past c.reader) id c.side t h io x c.side.writer refl)
step-Holds id (takes_slot io f) c apt t h =
    sided-Holds id c _ (take_slot-owns (is_past c.reader) id c.side t h io f c.side.writer refl)
step-Holds id (seeks o io) c apt t h =
    sided-Holds id c _ (seek_from-owns (is_past c.reader) id c.side t h o io c.side.writer refl)
step-Holds id (wakes_urgent a) c apt t h =
    sided-Holds id c _ (wake_urgent-owns (is_past c.reader) id c.side t h a c.side.writer refl)
step-Holds id (wakes_freed o io) c apt t h =
    sided-Holds id c _ (wake_freed-owns (is_past c.reader) id c.side t h o io c.side.writer refl)
step-Holds id (takes_body io) c apt t h =
    sided-Holds id c _ (take_body-owns (is_past c.reader) id c.side t h io c.side.writer refl)
step-Holds id (gives_up e) c apt t h =
    sided-Holds id c _ (give_up-owns (is_past c.reader) id c.side t h e c.side.writer refl)
step-Holds id (hears io) c apt t h =
    sided-Holds id c _
      (hear-owns (is_past c.reader) id c.side t h c.keepalive_code io c.side.writer refl)
step-Holds id is_done c apt t h =
    if_both (Then (Holds id)) c.side.pipe.live tt
      (sided-Holds id c _ (stop_writer-owns (is_past c.reader) id c.side t h c.side.writer refl))
step-Holds id receives c apt t h = receives-Holds id c c.side.pipe.head c.reader refl refl h
step-Holds id confirms c apt t h = confirm-Holds id c c.side.pipe.head c.reader refl h
step-Holds id drains c apt t h =
    sided-Holds id c _ (drain-owns (is_past c.reader) id c.side t h c.side.writer refl)
step-Holds id expires c apt t h =
    sided-Holds id c _ (expire-owns (is_past c.reader) id c.side t h c.side.writer refl)
step-Holds id releases c apt t h = release-Holds id c c.side.pipe.head c.reader refl h
step-Holds id (seeks_alone w io) c apt t h = ground (arith, apt)
step-Holds id (finishes r) c apt t h = reads-Holds id r c c.side.pipe.head c.reader refl h refl
step-Holds id (quits swept) c apt t h = quit-Holds id swept c c.side.pipe.head c.reader refl h
step-Holds id cancels c apt t h = h

run-both :
    (caps : Caps) (id : ℕ) (evs : List Event) (c : Connection)
    → all_apt evs ≡ true
    → IsSound caps c
    → Holds id c
    → Then (Holds id) (run evs c)
unfolding run Then
run-both caps id [] c a s h = h
run-both caps id (ev ∷ evs) c a s h =
    Then-bind (λ d. IsSound caps d × Holds id d) (Holds id) (step ev c) (λ d. run evs d)
      (Then-and (IsSound caps) (Holds id) (step ev c) (step-IsSound caps ev c (ground (arith, a)) s)
        (step-Holds id ev c (ground (arith, a)) s.tidy h))
      (λ d k. run-both caps id evs d (ground (arith, a)) k.0 k.1)

-- For a connection of a pool, whatever the order in which its two goroutines run and whatever they are
-- told, when all requests come unmarked and those of the priority channels are of priority: a request
-- that the connection has taken at some time is at any later time in the writer's hand, put off, sent
-- and not answered, or its channel is closed; none is lost, also where the connection breaks down.
pub run-owns :
    (caps : Caps) (name : Option String) (first second : Option PipeRequest)
    (created_at code id : ℕ) (evs later : List Event) (c d : Connection)
    → is_new? first ≡ true
    → is_new? second ≡ true
    → all_apt evs ≡ true
    → all_apt later ≡ true
    → Reached caps name first second created_at code evs c
    → holds id c ≡ true
    → run later c ≡ some d
    → holds id d ≡ true
unfolding Then
run-owns caps name first second created_at code id evs later c d f s a b e h r =
    subst (Then (Holds id)) r
      (run-both caps id later c b (sound caps name first second created_at code evs c f s a e) h)
