-- ===== src/Connection/Safety.antt =====
-- nntp.go: what the counts of a connection's pipeline come to.
use Prim.Native.String.{String}
use nntppool.Base.{ℕ, ◌<◌, ◌≡◌, subst, true, Option, some, List, arith, length, length-append}
use nntppool.Connection.{PipeRequest, new_pipe}
use nntppool.Connection.Replies.{Connection, Event, begin, run}
use nntppool.Connection.Slots.{count, at_head, outstanding, Caps, IsBounded}
use nntppool.Connection.Slots.Steps.{slots_held, slots_of}
use nntppool.Connection.Tidy.{is_new?}
use nntppool.Connection.Tidy.Steps.{Then}
use nntppool.Connection.Bounds.{all_apt, framed, IsSound, run-IsSound, begin-IsSound}

-- The connection after some events, with its first requests and the capacities of its channels.
abbrev pub Reached :
    Caps
    → Option String
    → Option PipeRequest
    → Option PipeRequest
    → ℕ
    → ℕ
    → List Event
    → Connection
    → Type 0
Reached caps name first second created_at code evs c =
    run evs
      (begin (new_pipe caps.depth caps.bodies caps.background name) first second created_at code)
    ≡ some c

pub sound :
    (caps : Caps) (name : Option String) (first second : Option PipeRequest) (created_at code : ℕ)
    (evs : List Event) (c : Connection)
    → is_new? first ≡ true
    → is_new? second ≡ true
    → all_apt evs ≡ true
    → Reached caps name first second created_at code evs c
    → IsSound caps c
unfolding Then
sound caps name first second created_at code evs c f s a e =
    subst (Then (IsSound caps)) e
      (run-IsSound caps evs _ a (begin-IsSound caps name first second created_at code f s))

-- For a connection of a pool, whatever the order in which its two goroutines run, and whatever the
-- channels, the socket and the contexts answer, when all requests come unmarked and those of the
-- priority channels are of priority: the three semaphores stay within their capacities. While the
-- connection lives, that of the pipeline counts exactly the requests outstanding and the slots that the
-- writer holds, one for its next request or those that it has drained, less the slot of the request at
-- the head where the reader has given that back and not yet the rest; those of the bodies and of the
-- background STATs count the marks of the requests outstanding. At any time they count no less; and the
-- gauges of the statistics are those counts.
pub run-IsBounded :
    (caps : Caps) (name : Option String) (first second : Option PipeRequest) (created_at code : ℕ)
    (evs : List Event) (c : Connection)
    → is_new? first ≡ true
    → is_new? second ≡ true
    → all_apt evs ≡ true
    → Reached caps name first second created_at code evs c
    → IsBounded
        (framed caps c.reader)
        (slots_of (slots_held c.side.writer))
        (outstanding c.side.pipe)
        c.side.pipe
run-IsBounded caps name first second created_at code evs c f s a e =
    (sound caps name first second created_at code evs c f s a e).balanced

-- What a goroutine does without waiting: the channel `pending` has room whenever the writer holds a
-- slot, and what a request at the head holds is there to be released.
pub record NeverBlocks (caps : Caps) (c : Connection) : Type 0 where
  pub has_room : 0 < slots_held c.side.writer → length c.side.pipe.pending < caps.depth
  pub releases_slot :
      (req : PipeRequest)
      → c.side.pipe.head ≡ some req
      → (framed caps c.reader).given_back ≡ 0
      → 0 < c.side.pipe.inflight_sem
  pub releases_body :
      (req : PipeRequest)
      → c.side.pipe.head ≡ some req
      → req.held_body ≡ true
      → 0 < c.side.pipe.body_sem
  pub releases_stat :
      (req : PipeRequest)
      → c.side.pipe.head ≡ some req
      → req.held_background_stat ≡ true
      → 0 < c.side.pipe.background_stat_sem

-- For a connection of a pool, whatever the order in which its two goroutines run and whatever they are
-- told, when all requests come unmarked and those of the priority channels are of priority, also where
-- the connection breaks down: a writer that holds slots finds room in `pending`, whose capacity is
-- `depth`, and the reader finds in the semaphores the tokens that it has still to take out for the
-- request at the head, so that neither blocks there for ever.
pub run-NeverBlocks :
    (caps : Caps) (name : Option String) (first second : Option PipeRequest) (created_at code : ℕ)
    (evs : List Event) (c : Connection)
    → is_new? first ≡ true
    → is_new? second ≡ true
    → all_apt evs ≡ true
    → Reached caps name first second created_at code evs c
    → NeverBlocks caps c
unfolding count
run-NeverBlocks caps name first second created_at code evs c f s a e =
    let h = run-IsBounded caps name first second created_at code evs c f s a e in
    let p = c.side.pipe in
    record {
      has_room = λ w. ground (arith, h, w, length-append (at_head p.head) p.pending);
      releases_slot = λ req k g. ground (arith, h, k, g);
      releases_body = λ req k b. ground (arith, h, k, b);
      releases_stat = λ req k b. ground (arith, h, k, b);
    }
