-- ===== src/Breaker/Exclusive.antt =====
-- circuit_breaker.go: any number of requests that share one breaker, interleaved in any order.
use nntppool.Base.{
  ℕ, ◌+◌, ◌^◌, ◌≤◌, ◌<◌, ◌≡◌, refl, sym, ◌∙◌, subst, ◌⊎◌, inl, inr, Bool, true, false, not, ◌&&◌,
  List, [], ◌∷◌, ◌++◌, arith, leb, ◌==◌, if◌then◌else◌,
}
use Prim.Native.String.{String}
use nntppool.Breaker.{
  opened, half_open, Completion, Lease, Breaker, Acquired, granted, refused, is_owner, new_breaker,
  acquire, open_locked, reset_locked, complete_probe, count_failure, complete, snapshot,
}
use nntppool.Breaker.Invariant.{
  IsValid, acquire-IsValid, complete-IsValid, new_breaker-IsValid, snapshot-IsValid,
}

-- The breaker and the leases that are granted and not completed. `tryGroupResilient` completes each
-- lease once, in a deferred call.
pub record System : Type 0 where
  pub breaker : Breaker
  pub leases : List Lease

abbrev add_lease : Acquired → List Lease → List Lease
add_lease (granted l) ls = l ∷ ls
add_lease (refused e) ls = ls

-- A completion is taken while the generation counter is below its last value, so it does not wrap.
pub data Step : System → System → Type 0 where
  acquires :
      (s : System) (id : String) (now : ℕ)
      → Step s (record {
        breaker = (acquire s.breaker id now).0;
        leases = add_lease (acquire s.breaker id now).1 s.leases;
      })
  completes :
      (s : System) (before : List Lease) (l : Lease) (after : List Lease) (c : Completion)
      (now at : ℕ)
      → s.leases ≡ before ++ l ∷ after
      → s.breaker.generation + 1 < 2 ^ 64
      → Step s (record { breaker = complete s.breaker l c now at; leases = before ++ after })
  observes :
      (s : System) (now : ℕ)
      → Step s (record { breaker = (snapshot s.breaker now).0; leases = s.leases })

abbrev pub start : ℕ → System
start address = record { breaker = new_breaker address true; leases = [] }

pub data Reach (address : ℕ) : System → Type 0 where
  here : Reach address (start address)
  next : {s t : System} → Reach address s → Step s t → Reach address t

-- The outstanding leases that are probes of generation `g`.
abbrev pub probes : ℕ → List Lease → ℕ
probes g [] = 0
probes g (l ∷ ls) = (if l.probe && l.generation == g then 1 else 0) + probes g ls

probes-append : (g : ℕ) (xs ys : List Lease) → probes g (xs ++ ys) ≡ probes g xs + probes g ys
probes-append g [] ys = omega arith
probes-append g (x ∷ xs) ys = omega (arith, probes-append g xs ys)

abbrev pub bit : Bool → ℕ
bit true = 1
bit false = 0

-- Every outstanding lease is an enabled one of this breaker, of a generation not in the future.
abbrev pub Issued : Breaker → List Lease → Type 0
Issued b [] = Unit {0}
Issued b (l ∷ ls) =
    ((l.enabled ≡ true) × (is_owner l.breaker b ≡ true) × (l.generation ≤ b.generation))
    × Issued b ls

pub record Inv (s : System) : Type 0 where
  pub valid : IsValid s.breaker
  pub on : s.breaker.enabled ≡ true
  pub issued : Issued s.breaker s.leases
  pub counted : probes s.breaker.generation s.leases ≡ bit s.breaker.probe_in_flight

Issued-mono :
    (b b' : Breaker) (ls : List Lease)
    → b'.address ≡ b.address
    → b.generation ≤ b'.generation
    → Issued b ls
    → Issued b' ls
Issued-mono b b' [] a g h = tt
Issued-mono b b' (l ∷ ls) a g h = (ground arith, Issued-mono b b' ls a g h.1)

Issued-append : (b : Breaker) (xs ys : List Lease) → Issued b (xs ++ ys) → Issued b xs × Issued b ys
Issued-append b [] ys h = (tt, h)
Issued-append b (x ∷ xs) ys h = let r = Issued-append b xs ys h.1 in ((h.0, r.0), r.1)

append-Issued : (b : Breaker) (xs ys : List Lease) → Issued b xs → Issued b ys → Issued b (xs ++ ys)
append-Issued b [] ys h k = k
append-Issued b (x ∷ xs) ys h k = (h.0, append-Issued b xs ys h.1 k)

probes_of_Issued :
    (b : Breaker) (g : ℕ) (ls : List Lease) → b.generation < g → Issued b ls → probes g ls ≡ 0
probes_of_Issued b g [] h i = refl
probes_of_Issued b g (l ∷ ls) h i = ground (arith, probes_of_Issued b g ls h i.1)

-- What `complete` does to the fields that the count of probes depends on.
complete_counts :
    (b : Breaker) (l : Lease) (c : Completion) (now at : ℕ)
    → IsValid b
    → l.enabled ≡ true
    → is_owner l.breaker b ≡ true
    → b.generation + 1 < 2 ^ 64
    → let b' = complete b l c now at in
      (b'.address ≡ b.address)
      × (b'.enabled ≡ b.enabled)
      × (((b'.generation ≡ b.generation + 1) × (b'.probe_in_flight ≡ false))
          ⊎ ((b'.generation ≡ b.generation)
              × (b'.probe_in_flight
                  ≡ (b.probe_in_flight && not (l.probe && l.generation == b.generation)))))
unfolding complete complete_probe count_failure open_locked reset_locked
complete_counts b l c now at v e o w = ground arith

start-Inv : (address : ℕ) → Inv (start address)
unfolding new_breaker
start-Inv address = record {
  valid = new_breaker-IsValid address true;
  on = refl;
  issued = tt;
  counted = refl;
}

acquire_counts :
    (b : Breaker) (id : String) (now : ℕ) (ls : List Lease)
    → b.enabled ≡ true
    → let r = acquire b id now in
      (r.0.address ≡ b.address)
      × (r.0.enabled ≡ true)
      × (r.0.generation ≡ b.generation)
      × (probes b.generation (add_lease r.1 ls) + bit b.probe_in_flight
          ≡ probes b.generation ls + bit r.0.probe_in_flight)
unfolding acquire
acquire_counts b id now ls e = ground arith

acquire-Issued :
    (b : Breaker) (id : String) (now : ℕ) (ls : List Lease)
    → b.enabled ≡ true
    → Issued b ls
    → Issued (acquire b id now).0 (add_lease (acquire b id now).1 ls)
unfolding acquire
acquire-Issued b id now ls e h =
    ground (arith, Issued-mono b (record b { probe_in_flight = true }) ls refl (omega arith) h)

completed-Inv :
    (b b' : Breaker) (before : List Lease) (l : Lease) (after : List Lease)
    → IsValid b'
    → b.enabled ≡ true
    → Issued b (before ++ l ∷ after)
    → probes b.generation (before ++ l ∷ after) ≡ bit b.probe_in_flight
    → (b'.address ≡ b.address)
      × (b'.enabled ≡ b.enabled)
      × (((b'.generation ≡ b.generation + 1) × (b'.probe_in_flight ≡ false))
          ⊎ ((b'.generation ≡ b.generation)
              × (b'.probe_in_flight
                  ≡ (b.probe_in_flight && not (l.probe && l.generation == b.generation)))))
    → Inv (record { breaker = b'; leases = before ++ after })
completed-Inv b b' before l after v e i p (a, n, inl (g, f)) =
    let (ib, ia) = Issued-append b before (l ∷ after) i in
    let rest = append-Issued b before after ib ia.1 in
    record {
      valid = v;
      on = ground arith;
      issued = Issued-mono b b' (before ++ after) a (omega arith) rest;
      counted =
          ground (arith, probes_of_Issued b b'.generation (before ++ after) (omega arith) rest);
    }
completed-Inv b b' before l after v e i p (a, n, inr (g, f)) =
    let (ib, ia) = Issued-append b before (l ∷ after) i in
    let rest = append-Issued b before after ib ia.1 in
    record {
      valid = v;
      on = ground arith;
      issued = Issued-mono b b' (before ++ after) a (omega arith) rest;
      counted = ground (
        arith,
        probes-append b.generation before (l ∷ after),
        probes-append b.generation before after,
      );
    }

snapshot_keeps :
    (b : Breaker) (now : ℕ)
    → let b' = (snapshot b now).0 in
      (b'.address ≡ b.address)
      × (b'.enabled ≡ b.enabled)
      × (b'.generation ≡ b.generation)
      × (b'.probe_in_flight ≡ b.probe_in_flight)
unfolding snapshot
snapshot_keeps b now = ground arith

Step-Inv : {s t : System} → Step s t → Inv s → Inv t
Step-Inv (acquires s id now) v = record {
  valid = acquire-IsValid s.breaker id now v.valid;
  on = (acquire_counts s.breaker id now s.leases v.on).1;
  issued = acquire-Issued s.breaker id now s.leases v.on v.issued;
  counted = ground (arith, acquire_counts s.breaker id now s.leases v.on);
}
Step-Inv (completes s before l after c now at e w) v =
    let i = subst (Issued s.breaker) e v.issued in
    let (owned, _) = (Issued-append s.breaker before (l ∷ after) i).1 in
    completed-Inv s.breaker (complete s.breaker l c now at) before l after
      (complete-IsValid s.breaker l c now at v.valid (λ _. owned.0 ∙ sym v.on)) v.on i
      (rw (← e) v.counted) (complete_counts s.breaker l c now at v.valid owned.0 owned.1 w)
Step-Inv (observes s now) v =
    let (a, n, g, f) = snapshot_keeps s.breaker now in
    record {
      valid = snapshot-IsValid s.breaker now v.valid;
      on = n ∙ v.on;
      issued =
          Issued-mono s.breaker (snapshot s.breaker now).0 s.leases a (omega (arith, g)) v.issued;
      counted = ground (arith, v.counted, g, f);
    }

pub Reach-Inv : {address : ℕ} {s : System} → Reach address s → Inv s
Reach-Inv {address} here = start-Inv address
Reach-Inv (next r st) = Step-Inv st (Reach-Inv r)

-- However requests, completions and snapshots interleave, as long as the generation counter does not
-- wrap, the outstanding probes of the current generation number one while `probeInFlight` is set, and
-- none otherwise.
pub probe_exclusive :
    {address : ℕ} {s : System}
    → Reach address s
    → probes s.breaker.generation s.leases ≡ bit s.breaker.probe_in_flight
probe_exclusive r = (Reach-Inv r).counted

-- In a system that is reached so, while a probe of the current generation is outstanding, every
-- further request is refused and changes nothing; the error tells whether the cooldown has ended, and
-- when it does.
pub probe_refuses :
    {address : ℕ} {s : System}
    → Reach address s
    → 0 < probes s.breaker.generation s.leases
    → (id : String) (now : ℕ)
    → acquire s.breaker id now ≡ (
      s.breaker,
      refused (record {
        provider_id = id;
        state = if leb s.breaker.open_until now then half_open else opened;
        retry_at = s.breaker.open_until;
      }),
    )
unfolding acquire
probe_refuses {s = s} r h id now = ground (arith, Reach-Inv r)
