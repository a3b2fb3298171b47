-- ===== src/Connection/Choice.antt =====
-- nntp.go: which request the writer of a connection takes next.
use nntppool.Base.{
  ◌≡◌, ◌⊎◌, inl, inr, refl, Bool, true, false, Option, none, some, arith, if◌then◌else◌,
}
use nntppool.Connection.{PipeRequest}
use nntppool.Connection.Writer.{
  Writer, seeking, claimed, parked, Side, Arrival, came, Wake, urgent, normal, done, idle, alarm,
  Offers, Io, leave, takes, takes_normal, keep_alive, wakes, select_normal, seek,
  blocked_deferred_stat, or_then, take_priority,
}
use nntppool.Connection.Replies.{seek_from, wake_freed}
use nntppool.Connection.Tidy.{wake_apt, offers_apt, is_new?}

-- The polls for requests of priority that come before and after a normal request is selected.
abbrev pub NoneUrgent : Offers → Type 0
NoneUrgent o = (take_priority o.hot_prio_again o.prio_again ≡ none)

takes_normal-NoneUrgent :
    (o : Offers) (a : Arrival) (s : Side) (req : PipeRequest)
    → offers_apt o ≡ true
    → (takes_normal o a s).writer ≡ claimed req
    → req.request.priority ≡ false
    → NoneUrgent o
unfolding takes_normal takes leave
takes_normal-NoneUrgent o a s req ho e n = ground (arith, ho, e, n)

wakes-NoneUrgent :
    (o : Offers) (io : Io) (w : Wake) (s : Side) (req : PipeRequest)
    → offers_apt o ≡ true
    → wake_apt w ≡ true
    → (wakes o io w s).writer ≡ claimed req
    → req.request.priority ≡ false
    → NoneUrgent o
unfolding wakes takes keep_alive leave
wakes-NoneUrgent o io (urgent a) s req ho hw e n = ground (arith, hw, e, n)
wakes-NoneUrgent o io (normal a) s req ho hw e n = takes_normal-NoneUrgent o a s req ho e n
wakes-NoneUrgent o io done s req ho hw e n = ground (arith, e)
wakes-NoneUrgent o io idle s req ho hw e n = ground (arith, e)
wakes-NoneUrgent o io (alarm ka) s req ho hw e n = ground (arith, e)

select_normal-NoneUrgent :
    (o : Offers) (io : Io) (s : Side) (req : PipeRequest)
    → offers_apt o ≡ true
    → is_new? s.deferred_normal ≡ true
    → (select_normal o io s).writer ≡ claimed req
    → req.request.priority ≡ false
    → NoneUrgent o
unfolding select_normal
select_normal-NoneUrgent o io s req ho d e n =
    by_cases s.deferred_normal (or_then o.hot_req o.req) refl refl e
  where
    by_cases :
        (d : Option PipeRequest) (a : Option Arrival)
        → s.deferred_normal ≡ d
        → or_then o.hot_req o.req ≡ a
        → (elim d as (λ x. Side) [
          | some r ↦ takes_normal o (came r) (record s { deferred_normal = none })
          | none ↦ elim a [ some b ↦ takes_normal o b s | none ↦ wakes o io o.wake s ]
        ]).writer
          ≡ claimed req
        → NoneUrgent o
    by_cases (some r) a f g k =
        takes_normal-NoneUrgent o (came r) (record s { deferred_normal = none }) req ho k n
    by_cases none (some b) f g k = takes_normal-NoneUrgent o b s req ho k n
    by_cases none none f g k = wakes-NoneUrgent o io o.wake s req ho (ground arith) k n

-- The one put off is first, if no request of priority is there.
select_normal-deferred :
    (o : Offers) (io : Io) (s : Side) (req d : PipeRequest)
    → offers_apt o ≡ true
    → s.deferred_normal ≡ some d
    → (select_normal o io s).writer ≡ claimed req
    → req.request.priority ≡ false
    → req ≡ d
unfolding select_normal takes_normal takes leave
select_normal-deferred o io s req d ho e w n = ground (arith, ho, e, w, n)

urgent-claimed :
    {P : Type 0} (o : Offers) (a : Arrival) (s : Side) (req : PipeRequest)
    → offers_apt o ≡ true
    → take_priority o.hot_prio o.prio ≡ some a
    → (takes a s).writer ≡ claimed req
    → req.request.priority ≡ false
    → P
unfolding takes leave
urgent-claimed o a s req ho f k n = absurd (contra o a s req ho f k n)
  where
    contra :
        (o : Offers) (a : Arrival) (s : Side) (req : PipeRequest)
        → offers_apt o ≡ true
        → take_priority o.hot_prio o.prio ≡ some a
        → (takes a s).writer ≡ claimed req
        → req.request.priority ≡ false
        → ⊥
    contra o a s req ho f k n = ground (arith, ho, f, k, n)

-- The same where the writer waits for a slot of the background STATs with one put off.
woken-priority :
    (o : Offers) (io : Io) (s t : Side) (w : Writer) (req : PipeRequest)
    → offers_apt o ≡ true
    → is_new? s.deferred_normal ≡ true
    → wake_freed o io s w ≡ some t
    → t.writer ≡ claimed req
    → req.request.priority ≡ false
    → (take_priority o.hot_prio_again o.prio_again ≡ none)
      × ((d : PipeRequest) → s.deferred_normal ≡ some d → req ≡ d)
unfolding wake_freed
woken-priority o io s t parked req ho h e k n =
    let freed = record s { pipe = record s.pipe { background_stat_freed = false } } in
    let g : (select_normal o io freed).writer ≡ claimed req = ground (arith, e, k) in
    (
      select_normal-NoneUrgent o io freed req ho h g n,
      λ d q. select_normal-deferred o io freed req d ho q g n,
    )
woken-priority o io s t _ req ho h e k n = ground (arith, e)

freed-parked :
    (o : Offers) (io : Io) (s t : Side) (w : Writer)
    → s.writer ≡ w
    → wake_freed o io s w ≡ some t
    → s.writer ≡ parked
unfolding wake_freed
freed-parked o io s t parked f e = f
freed-parked o io s t _ f e = ground (arith, e)

sought-priority :
    (o : Offers) (io : Io) (s : Side) (req : PipeRequest)
    → offers_apt o ≡ true
    → is_new? s.deferred_normal ≡ true
    → (seek o io s).writer ≡ claimed req
    → req.request.priority ≡ false
    → (take_priority o.hot_prio o.prio ≡ none)
      × (take_priority o.hot_prio_again o.prio_again ≡ none)
      × ((d : PipeRequest) → s.deferred_normal ≡ some d → req ≡ d)
unfolding seek
sought-priority o io s req ho h e n =
    by_cases (take_priority o.hot_prio o.prio) (blocked_deferred_stat s) refl e
  where
    by_cases :
        (p : Option Arrival) (b : Bool)
        → take_priority o.hot_prio o.prio ≡ p
        → (elim p as (λ x. Side) [
          | some a ↦ takes a s
          | none ↦ if b then record s { writer = parked } else select_normal o io s
        ]).writer
          ≡ claimed req
        → (p ≡ none)
          × (take_priority o.hot_prio_again o.prio_again ≡ none)
          × ((d : PipeRequest) → s.deferred_normal ≡ some d → req ≡ d)
    by_cases (some a) b f k = urgent-claimed o a s req ho f k n
    by_cases none true f k = ground (arith, k)
    by_cases none false f k = (
      refl,
      select_normal-NoneUrgent o io s req ho h k n,
      λ d g. select_normal-deferred o io s req d ho g k n,
    )

-- When the writer of a connection that has channels of priority takes a request in its loop, and it is
-- not of priority, and the channels of priority give only requests of priority, then it found none in
-- these after it selected that request, nor before, unless it was woken as a background STAT gave its
-- slot back; and the request is the one that was put off if there was one.
pub seek-priority :
    (o : Offers) (io : Io) (s t : Side) (req : PipeRequest)
    → offers_apt o ≡ true
    → is_new? s.deferred_normal ≡ true
    → (seek_from o io s s.writer ≡ some t) ⊎ (wake_freed o io s s.writer ≡ some t)
    → t.writer ≡ claimed req
    → req.request.priority ≡ false
    → ((s.writer ≡ parked) ⊎ (take_priority o.hot_prio o.prio ≡ none))
      × (take_priority o.hot_prio_again o.prio_again ≡ none)
      × ((d : PipeRequest) → s.deferred_normal ≡ some d → req ≡ d)
unfolding seek_from
seek-priority o io s t req ho h (inl e) k n = at_writer s.writer e
  where
    at_writer :
        (w : Writer)
        → seek_from o io s w ≡ some t
        → ((s.writer ≡ parked) ⊎ (take_priority o.hot_prio o.prio ≡ none))
          × (take_priority o.hot_prio_again o.prio_again ≡ none)
          × ((d : PipeRequest) → s.deferred_normal ≡ some d → req ≡ d)
    at_writer seeking e =
        let g : (seek o io s).writer ≡ claimed req = ground (arith, e, k) in
        let x = sought-priority o io s req ho h g n in (inr x.0, x.1, x.2)
    at_writer _ e = ground (arith, e)
seek-priority o io s t req ho h (inr e) k n =
    let x = woken-priority o io s t s.writer req ho h e k n in
    (inl (freed-parked o io s t s.writer refl e), x.0, x.1)
