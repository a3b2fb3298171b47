-- ===== src/ReadBuffer/Feed/Delivered.antt =====
-- readBuffer.go: what the loop delivers to the decoder, and that it ends.
use nntppool.Base.{
  ℕ, zero, suc, ◌+◌, ◌≤◌, ◌<◌, ◌≡◌, refl, sym, ap, subst, ◌∙◌, inl, inr, true, ◌&&◌, none, some, [],
  ◌∷◌, ◌++◌, arith, length, take, drop, length-take, take-append-drop, Bool-cases, Option-cases,
  Bytes, ltb, ◌==◌,
}
use mathlib.Core.List.{append_assoc}
use nntppool.ReadBuffer.{ReadBuffer, Conn, init, window, advance, Read, got, blocks, read_more}
use nntppool.ReadBuffer.Window.{IsValid, init-window, advance-window, compact-window}
use nntppool.ReadBuffer.Reading.{pending, weight, Reads, read_more-Reads}
use nntppool.ReadBuffer.Feed.{
  Feeding, Answer, Loop, Turn, goes, returns, hangs, starved, and_then, absorb, asked, refill,
  prime, limited, settle, took, allowed, feed_once, turns, feed_until_done_controlled,
}

-- A decoder that consumes a prefix of what it is given; `seen` is all that it has consumed.
unfoldable pub IsFeeder : {F : Type 0} → (F → Bytes → Feeding F) → (F → Bytes) → Type 0
IsFeeder {F} feed seen =
    (f : F) (w : Bytes)
    → ((feed f w).consumed ≤ length w)
      × (seen (feed f w).feeder ≡ seen f ++ take (feed f w).consumed w)

module _ {F C : Type 0} (feed : F → Bytes → Feeding F) (control : C → ℕ → ℕ → Answer C)
    (seen : F → Bytes) (ok : IsFeeder feed seen) where
  -- All bytes of a connection in the order of arrival: consumed, buffered, and still to come.
  abbrev pub stream : Loop F C → Bytes
  stream s = seen s.feeder ++ (window s.rb ++ pending s.conn.arrivals)

  -- A turn that goes on has less than `n` reads to make, and every turn leaves the buffer well-formed
  -- and the stream as it was.
  abbrev Keeps : Bytes → ℕ → Turn F C → Type 0
  Keeps all n (goes s) = IsValid s.rb × (stream s ≡ all) × (weight s.conn.arrivals < n)
  Keeps all n (returns e s) = IsValid s.rb × (stream s ≡ all)
  Keeps all n (hangs s) = IsValid s.rb × (stream s ≡ all)
  Keeps all n starved = ⊥

  absorb-Keeps :
      (s : Loop F C) (n : ℕ) (r : Read)
      → weight s.conn.arrivals < suc n
      → IsValid s.rb
      → Reads s.rb s.conn.arrivals r
      → Keeps (stream s) n (absorb feed control s r)
  unfolding absorb
  absorb-Keeps s n (got m (some e) rb c) h v (v', q, w) = (v', ap (λ z. seen s.feeder ++ z) q)
  absorb-Keeps s n (got m none rb c) h v (v', q, w) =
      (v', ap (λ z. seen s.feeder ++ z) q, omega (arith, w refl, h))
  absorb-Keeps s n blocks h v r = (v, refl)

  asked-Keeps :
      (s : Loop F C) (n : ℕ) (a : Answer C)
      → weight s.conn.arrivals < suc n
      → IsValid s.rb
      → Keeps (stream s) n (asked feed control s a)
  unfolding asked
  asked-Keeps s n a h v = elim (Option-cases a.err) [
    | inl e ↦
        rw (e, Keeps)
          (absorb-Keeps (record s { control = a.control }) n
            (read_more s.rb s.conn a.deadline a.has_deadline) h v
            (read_more-Reads s.rb s.conn a.deadline a.has_deadline v))
    | inr (c, e) ↦ rw (e, Keeps) (v, refl)
  ]

  refill-Keeps :
      (s : Loop F C) (n : ℕ)
      → weight s.conn.arrivals < suc n
      → IsValid s.rb
      → Keeps (stream s) n (refill feed control s)
  unfolding refill
  refill-Keeps s n h v = asked-Keeps s n (control s.control s.wire_bytes s.consumed_bytes) h v

  emptied :
      (rb : ReadBuffer)
      → (rb.start == rb.end) ≡ true
      → IsValid rb
      → record rb { start = 0; end = 0 } ≡ rb
  emptied rb e v = let z : rb.start ≡ rb.end = ground arith in cc (v.reset z, z)

  prime-Keeps :
      (s : Loop F C) (n : ℕ)
      → weight s.conn.arrivals < n
      → IsValid s.rb
      → Keeps (stream s) n (prime feed control s)
  unfolding prime
  prime-Keeps s n h v = elim (Bool-cases (s.rb.start == s.rb.end)) [
    | inl e ↦ rw (e, Keeps, emptied s.rb e v) (refill-Keeps s n (omega (arith, h)) v)
    | inr e ↦ rw (e, Keeps) (v, refl, h)
  ]

  settle-Keeps :
      (s : Loop F C) (f : Feeding F) (a : Answer C) (all : Bytes) (n : ℕ)
      → weight s.conn.arrivals < n
      → IsValid s.rb
      → stream s ≡ all
      → Keeps all n (settle feed control s f a)
  unfolding settle
  settle-Keeps s f a all n h v q =
      let (w, c, _) = compact-window s.rb v in
      elim (Option-cases a.err) [
        | inr (x, e) ↦ rw (e, Keeps) (v, q)
        | inl e ↦ elim (Bool-cases f.done) [
          | inl d ↦ rw (e, d, Keeps) (v, q)
          | inr d ↦ elim (Bool-cases (f.consumed == 0 && ltb s.rb.start s.rb.end)) [
            | inl z ↦
                rw (e, d, z, Keeps)
                  (w, ap (λ x. seen s.feeder ++ (x ++ pending s.conn.arrivals)) c ∙ q, h)
            | inr z ↦ rw (e, d, z, Keeps) (v, q, h)
          ]
        ]
      ]

  advanced :
      (s : Loop F C) (f : Feeding F)
      → IsValid s.rb
      → seen f.feeder ≡ seen s.feeder ++ take f.consumed (window s.rb)
      → seen f.feeder ++ (window (advance s.rb f.consumed) ++ pending s.conn.arrivals) ≡ stream s
  advanced s f v q =
      ap (λ z. z ++ (window (advance s.rb f.consumed) ++ pending s.conn.arrivals)) q
      ∙ ap (λ z. (seen s.feeder ++ take f.consumed (window s.rb)) ++ (z ++ pending s.conn.arrivals))
          (advance-window s.rb f.consumed v).1
      ∙ append_assoc (seen s.feeder) (take f.consumed (window s.rb))
          (drop f.consumed (window s.rb) ++ pending s.conn.arrivals)
      ∙ ap (λ z. seen s.feeder ++ z)
          (sym (
              append_assoc (take f.consumed (window s.rb)) (drop f.consumed (window s.rb))
                (pending s.conn.arrivals))
            ∙ ap (λ z. z ++ pending s.conn.arrivals) (take-append-drop f.consumed (window s.rb)))

  took-Keeps :
      (s : Loop F C) (f : Feeding F) (n : ℕ)
      → weight s.conn.arrivals < n
      → IsValid s.rb
      → seen f.feeder ≡ seen s.feeder ++ take f.consumed (window s.rb)
      → Keeps (stream s) n (took feed control s f)
  unfolding took
  took-Keeps s f n h v q =
      let s' : Loop F C = record s {
        rb = advance s.rb f.consumed;
        feeder = f.feeder;
        consumed_bytes = s.consumed_bytes + f.consumed;
      } in
      let v' = (advance-window s.rb f.consumed v).0 in
      let q' = advanced s f v q in
      elim (Option-cases f.err) [
        | inr (x, e) ↦ rw (e, Keeps) (v', q')
        | inl e ↦
            rw (e, Keeps)
              (settle-Keeps s' f (control s'.control s'.wire_bytes s'.consumed_bytes) (stream s) n h
                v' q')
      ]

  take-take : (k m : ℕ) (xs : Bytes) → k ≤ m → take k (take m xs) ≡ take k xs
  take-take zero m xs h = refl
  take-take (suc k) zero xs h = absurd (omega (arith, h))
  take-take (suc k) (suc m) [] h = refl
  take-take (suc k) (suc m) (x ∷ xs) h = rw (take-take k m xs (omega (arith, h)))

  take-limited :
      (k m : ℕ) (w : Bytes)
      → k ≤ length (limited feed control m w)
      → take k (limited feed control m w) ≡ take k w
  unfolding limited
  take-limited k m w h = elim (Bool-cases (ltb 0 m && ltb m (length w))) [
    | inl e ↦ rw e (take-take k m w (omega (arith, (rw e at h), length-take m w)))
    | inr e ↦ rw e
  ]

  feed_once-Keeps :
      (s : Loop F C) (n : ℕ)
      → weight s.conn.arrivals < n
      → IsValid s.rb
      → Keeps (stream s) n (feed_once feed control s)
  unfolding feed_once allowed IsFeeder
  feed_once-Keeps s n h v =
      let a = control s.control s.wire_bytes s.consumed_bytes in
      let w = limited feed control a.max_feed (window s.rb) in
      let (l, q) = ok s.feeder w in
      elim (Option-cases a.err) [
        | inr (x, e) ↦ rw (e, Keeps) (v, refl)
        | inl e ↦
            rw (e, Keeps)
              (took-Keeps (record s { control = a.control }) (feed s.feeder w) n h v
                (q
                  ∙ ap (λ z. seen s.feeder ++ z)
                      (take-limited (feed s.feeder w).consumed a.max_feed (window s.rb) l)))
      ]

  and_then-Keeps :
      (all : Bytes) (n m : ℕ) (t : Turn F C) (k : Loop F C → Turn F C)
      → Keeps all n t
      → ((s : Loop F C)
          → IsValid s.rb
          → stream s ≡ all
          → weight s.conn.arrivals < n
          → Keeps all m (k s))
      → Keeps all m (and_then t k)
  unfolding and_then
  and_then-Keeps all n m (goes s) k (v, q, w) h = h s v q w
  and_then-Keeps all n m (returns e s) k r h = r
  and_then-Keeps all n m (hangs s) k r h = r
  and_then-Keeps all n m starved k r h = absurd r

  turns-Keeps :
      (fuel : ℕ) (s : Loop F C)
      → weight s.conn.arrivals < fuel
      → IsValid s.rb
      → Keeps (stream s) 0 (turns feed control fuel s)
  unfolding turns
  turns-Keeps zero s h v = absurd (omega (arith, h))
  turns-Keeps (suc fuel) s h v =
      let all = stream s in
      and_then-Keeps all (suc fuel) 0 (prime feed control s) _ (prime-Keeps s (suc fuel) h v)
        (λ s1 v1 q1 w1.
          and_then-Keeps all (suc fuel) 0 (feed_once feed control s1) _
            (subst (λ z. Keeps z (suc fuel) (feed_once feed control s1)) q1
              (feed_once-Keeps s1 (suc fuel) w1 v1))
            (λ s2 v2 q2 w2.
              and_then-Keeps all fuel 0 (refill feed control s2) (turns feed control fuel)
                (subst (λ z. Keeps z fuel (refill feed control s2)) q2 (refill-Keeps s2 fuel w2 v2))
                (λ s3 v3 q3 w3.
                  subst (λ z. Keeps z 0 (turns feed control fuel s3)) q3
                    (turns-Keeps fuel s3 w3 v3))))

  -- Where a loop has ended: it returned, or waits for the socket.
  abbrev pub EndsWith : Turn F C → (Loop F C → Type 0) → Type 0
  EndsWith (returns e s) p = p s
  EndsWith (hangs s) p = p s
  EndsWith (goes s) p = ⊥
  EndsWith starved p = ⊥

  -- For a decoder that consumes a prefix of what it is given, and with fuel for each byte and each
  -- arrival, the loop ends, by a result or waiting on the socket; and then what the decoder has consumed, what is buffered and what the socket still has to deliver
  -- are, in this order, the bytes that there were: none is lost, repeated or taken out of order.
  pub feed_until_done_controlled-delivers :
      (fuel : ℕ) (rb : ReadBuffer) (c : Conn) (f : F) (k : C)
      → IsValid rb
      → weight c.arrivals < fuel
      → EndsWith (feed_until_done_controlled feed control fuel rb c f k) (λ s.
        IsValid s.rb
        × (seen s.feeder ++ (window s.rb ++ pending s.conn.arrivals)
            ≡ seen f ++ (window rb ++ pending c.arrivals)))
  unfolding feed_until_done_controlled
  feed_until_done_controlled-delivers fuel rb c f k v h =
      let s : Loop F C = record {
        rb = init rb;
        conn = c;
        feeder = f;
        control = k;
        wire_bytes = 0;
        consumed_bytes = 0;
      } in
      let (v', q) = init-window rb v in
      ended (turns feed control fuel s) (stream s) (seen f ++ (window rb ++ pending c.arrivals))
        (ap (λ z. seen f ++ (z ++ pending c.arrivals)) q) (turns-Keeps fuel s h v')
    where
      ended :
          (t : Turn F C) (all all' : Bytes)
          → all ≡ all'
          → Keeps all 0 t
          → EndsWith t (λ s. IsValid s.rb × (stream s ≡ all'))
      ended (goes s) all all' e h = omega (arith, h.2)
      ended (returns x s) all all' e (v, q) = (v, q ∙ e)
      ended (hangs s) all all' e (v, q) = (v, q ∙ e)
      ended starved all all' e h = h
