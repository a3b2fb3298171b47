-- ===== src/ReadBuffer/Reading.antt =====
-- readBuffer.go: one read, and the deadline it is made with.
use nntppool.Base.{
  ℕ, ◌+◌, ◌-◌, ◌≤◌, ◌<◌, ◌≡◌, refl, ap, ◌∙◌, inl, inr, Bool, true, Option, none, some, List, [],
  ◌∷◌, ◌++◌, arith, length, take, drop, length-take, length-drop, take-append-drop, Option-cases,
  Bytes, if◌then◌else◌,
}
use mathlib.Core.List.{append_assoc}
use nntppool.Errors.{Err}
use nntppool.ReadBuffer.{
  ReadBuffer, Arrival, Conn, window, ensure_write_space, conn_read, same_deadline, set_deadline,
  Read, got, blocks, received, read_into, read_more,
}
use nntppool.ReadBuffer.Window.{IsValid, ensure_write_space-window, fill-window}

-- The bytes that a socket has still to deliver, and how many reads that takes at most.
abbrev pub pending : List Arrival → Bytes
pending [] = []
pending (a ∷ rest) = a.bytes ++ pending rest

abbrev pub weight : List Arrival → ℕ
weight [] = 0
weight (a ∷ rest) = 1 + length a.bytes + weight rest

conn_read_lem :
    (d : Option ℕ) (todo : List Arrival) (room : ℕ) (c : Conn) (bs : Bytes) (e : Option Err)
    → 0 < room
    → conn_read d todo room ≡ some (c, bs, e)
    → (length bs ≤ room)
      × (bs ++ pending c.arrivals ≡ pending todo)
      × (weight c.arrivals < weight todo)
      × (c.deadline ≡ d)
unfolding conn_read
conn_read_lem d [] room c bs e h q = cc
conn_read_lem d (a ∷ rest) room c bs e h q = ground (
  arith,
  length-take room a.bytes,
  length-drop room a.bytes,
  take-append-drop room a.bytes,
  append_assoc (take room a.bytes) (drop room a.bytes) (pending rest),
)

-- A read keeps the buffer well-formed and appends what it takes off the socket to the window, no
-- byte lost; and a read without error takes something off.
abbrev pub Reads : ReadBuffer → List Arrival → Read → Type 0
Reads rb todo (got n e rb' c) =
    IsValid rb'
    × (window rb' ++ pending c.arrivals ≡ window rb ++ pending todo)
    × (e ≡ none → weight c.arrivals < weight todo)
Reads rb todo blocks = Unit {0}

received-Reads :
    (rb : ReadBuffer) (d : Option ℕ) (todo : List Arrival)
    → IsValid rb
    → rb.end < length rb.buf
    → Reads rb todo (received rb (conn_read d todo (length rb.buf - rb.end)))
unfolding received
received-Reads rb d todo v h = elim (Option-cases (conn_read d todo (length rb.buf - rb.end))) [
  | inl q ↦ rw (q, Reads) tt
  | inr ((c, bs, e), q) ↦
      let (l, p, w, _) =
        conn_read_lem d todo (length rb.buf - rb.end) c bs e (omega (arith, h)) q in
      let (v', f) = fill-window rb bs v (omega (arith, l, h)) in
      rw (q, Reads)
        (
          v',
          ap (λ z. z ++ pending c.arrivals) f
              ∙ append_assoc (window rb) bs (pending c.arrivals)
              ∙ ap (λ z. window rb ++ z) p,
          λ _. w,
        )
]

read_into-Reads :
    (rb : ReadBuffer) (e : Option Err) (c : Conn)
    → IsValid rb
    → (e ≡ none → rb.end < length rb.buf)
    → Reads rb c.arrivals (read_into (rb, e) c)
unfolding read_into
read_into-Reads rb (some e) c v h = (v, refl, λ q. cc)
read_into-Reads rb none c v h = received-Reads rb c.deadline c.arrivals v (h refl)

set_deadline_keeps :
    (rb : ReadBuffer) (c : Conn) (deadline : Option ℕ) (has_deadline : Bool)
    → IsValid rb
    → let s = set_deadline rb c deadline has_deadline in
      IsValid s.0 × (window s.0 ≡ window rb) × (s.1.arrivals ≡ c.arrivals)
unfolding set_deadline window
set_deadline_keeps rb c deadline has_deadline v = ground arith

pub read_more-Reads :
    (rb : ReadBuffer) (c : Conn) (deadline : Option ℕ) (has_deadline : Bool)
    → IsValid rb
    → Reads rb c.arrivals (read_more rb c deadline has_deadline)
unfolding read_more
read_more-Reads rb c deadline has_deadline v =
    let s = set_deadline rb c deadline has_deadline in
    let (v1, q1, a1) = set_deadline_keeps rb c deadline has_deadline v in
    let (v2, q2, r) = ensure_write_space-window s.0 v1 in
    let room : (ensure_write_space s.0).1 ≡ none
        → (ensure_write_space s.0).0.end < length (ensure_write_space s.0).0.buf =
      λ e. elim r [ inl (_, h) ↦ h | inr (n, _) ↦ absurd (n e) ] in
    moved_Reads (ensure_write_space s.0).0 rb s.1.arrivals c.arrivals (q2 ∙ q1) a1
      (read_into (ensure_write_space s.0) s.1)
      (read_into-Reads (ensure_write_space s.0).0 (ensure_write_space s.0).1 s.1 v2 room)
  where
    moved_Reads :
        (rb1 rb2 : ReadBuffer) (l1 l2 : List Arrival)
        → window rb1 ≡ window rb2
        → l1 ≡ l2
        → (r : Read) → Reads rb1 l1 r
        → Reads rb2 l2 r
    moved_Reads rb1 rb2 l1 l2 q a (got n e rb' c') (v', f, w) =
        (v', f ∙ cc (q, a), λ z. omega (arith, w z, ap weight a))
    moved_Reads rb1 rb2 l1 l2 q a blocks h = tt

-- The deadline that `readBuffer` remembers is the one the socket has.
abbrev pub Synced : ReadBuffer → Conn → Type 0
Synced rb c =
    rb.deadline_set ≡ true → c.deadline ≡ (if rb.last_has_deadline then rb.last_deadline else none)

same_deadline_eq : (a b : Option ℕ) → same_deadline a b ≡ true → a ≡ b
same_deadline_eq none none h = refl
same_deadline_eq none (some b) h = cc
same_deadline_eq (some a) none h = cc
same_deadline_eq (some a) (some b) h = ground arith

-- If the remembered deadline is the socket's, then after `SetReadDeadline` has been called or saved the
-- socket has the deadline that was asked for, and the two are still the same.
pub set_deadline-Synced :
    (rb : ReadBuffer) (c : Conn) (deadline : Option ℕ) (has_deadline : Bool)
    → Synced rb c
    → let s = set_deadline rb c deadline has_deadline in
      Synced s.0 s.1 × (s.1.deadline ≡ (if has_deadline then deadline else none))
unfolding set_deadline
set_deadline-Synced rb c deadline has_deadline h =
    ground (arith, same_deadline_eq deadline rb.last_deadline)
