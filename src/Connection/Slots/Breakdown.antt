-- ===== src/Connection/Slots/Breakdown.antt =====
-- nntp.go: a connection that breaks down gives back what its requests hold in the pipeline.
use nntppool.Base.{
  ℕ, ◌≤◌, ◌≡◌, refl, sym, subst, Bool, false, List, [], ◌∷◌, ◌++◌, arith, length, length-append,
  ◌∙◌,
}
use nntppool.Connection.{
  Outcome, failed_with, PipeRequest, Pipe, release_inflight, release_background_stat,
  release_request_pending, fail_all, fail_outstanding, died, fail_request,
}
use nntppool.Connection.Slots.{
  count, count-append, at_head, outstanding, Caps, Load, IsBounded, settle-keeps,
  drop_pending-IsBounded,
}

abbrev pub unloaded : Load
unloaded = record { slots = 0; bodies = 0; stats = 0 }

-- The fields that a request that fails does not change.
pub record IsAlike (p q : Pipe) : Type 0 where
  pub head : q.head ≡ p.head
  pub pending : q.pending ≡ p.pending
  pub live : q.live ≡ p.live
  pub wire : q.wire ≡ p.wire
  pub replies : q.replies ≡ p.replies

abbrev drop : PipeRequest → Pipe → Pipe
drop req p = release_inflight (fail_request req (died p) (release_request_pending req p))

drop-IsAlike : (req : PipeRequest) (p : Pipe) → IsAlike p (drop req p)
unfolding release_request_pending release_background_stat
drop-IsAlike req p =
    settle-keeps (λ q. IsAlike p (release_inflight q)) req.id (failed_with (died p))
      (release_request_pending req p) (λ s. ground arith)

pub fail_all-IsAlike : (reqs : List PipeRequest) (p : Pipe) → IsAlike p (fail_all reqs p)
unfolding fail_all
fail_all-IsAlike [] p = record {
  head = refl;
  pending = refl;
  live = refl;
  wire = refl;
  replies = refl;
}
fail_all-IsAlike (req ∷ reqs) p =
    let h = drop-IsAlike req p in
    let k = fail_all-IsAlike reqs (drop req p) in
    record {
      head = k.head ∙ h.head;
      pending = k.pending ∙ h.pending;
      live = k.live ∙ h.live;
      wire = k.wire ∙ h.wire;
      replies = k.replies ∙ h.replies;
    }

count-swapped :
    (f : PipeRequest → Bool) (xs ys : List PipeRequest)
    → count f (ys ++ (xs ++ [])) ≡ count f (xs ++ ys)
unfolding count
count-swapped f xs ys =
    omega (arith, count-append f ys (xs ++ []), count-append f xs [], count-append f xs ys)

length-swapped : (xs ys : List PipeRequest) → length (ys ++ (xs ++ [])) ≡ length (xs ++ ys)
length-swapped xs ys =
    omega (arith, length-append ys (xs ++ []), length-append xs [], length-append xs ys)

module _ {c : Caps} where
  fail_all-IsBounded :
      {l : Load} {out : List PipeRequest} (reqs : List PipeRequest) (p : Pipe)
      → p.live ≡ false
      → c.given_back ≤ length out
      → IsBounded c l (reqs ++ out) p
      → IsBounded c l out (fail_all reqs p)
  unfolding fail_all
  fail_all-IsBounded [] p d b h = h
  fail_all-IsBounded {l = l} {out = out} (req ∷ reqs) p d b h =
      fail_all-IsBounded reqs (drop req p) ((drop-IsAlike req p).live ∙ d) b (
        settle-keeps (λ q. IsBounded c l (reqs ++ out) (release_inflight q)) req.id
          (failed_with (died p)) (release_request_pending req p)
          (λ s.
            renamed s (drop_pending-IsBounded req d (omega (arith, b, length-append reqs out)) h)))
    where
      renamed :
          (s : List (ℕ × Outcome))
          → IsBounded c l (reqs ++ out) (release_inflight (release_request_pending req p))
          → IsBounded c l
              (reqs ++ out)
              (release_inflight (record (release_request_pending req p) { settled = s }))
      renamed s k = ground (arith, k)

  -- The requests that wait before the one at the head.
  swapped :
      {l : Load} (xs ys : List PipeRequest) (p : Pipe)
      → p.live ≡ false
      → IsBounded c l (xs ++ ys) p
      → IsBounded c l (ys ++ (xs ++ [])) (record p { pending = [] })
  swapped xs ys p d h = ground (
    arith,
    d,
    h,
    length-swapped xs ys,
    count-swapped (λ r. r.held_body) xs ys,
    count-swapped (λ r. r.held_background_stat) xs ys,
    count-swapped (λ r. r.held_pipeline) xs ys,
  )

  pub fail_outstanding-IsBounded :
      {l : Load} (p : Pipe)
      → p.live ≡ false
      → IsBounded c l (outstanding p) p
      → IsBounded c l (outstanding (fail_outstanding p)) (fail_outstanding p)
  unfolding fail_outstanding
  fail_outstanding-IsBounded {l = l} p d h =
      let alike = fail_all-IsAlike p.pending (record p { pending = [] }) in
      subst (λ o. IsBounded c l (at_head o ++ (fail_outstanding p).pending) (fail_outstanding p))
        (sym alike.head)
        (subst (λ ps. IsBounded c l (at_head p.head ++ ps) (fail_outstanding p)) (sym alike.pending)
          (fail_all-IsBounded {out = at_head p.head ++ []} p.pending (record p { pending = [] }) d
            (omega (arith, h.headed, length-append (at_head p.head) []))
            (swapped (at_head p.head) p.pending p d h)))
