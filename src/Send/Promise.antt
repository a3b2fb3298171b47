-- ===== src/Send/Promise.antt =====
-- What `doSendWithRetry` promises of the whole way of a request, given how the connections behave.
use nntppool.Base.{
  ℕ, ◌+◌, ◌≤◌, Bool, true, false, not, ◌&&◌, ◌||◌, Bytes, some, ◌≡◌, refl, ◌∙◌, ◌⊎◌, inl, inr,
  arith, Bool-cases,
}
use nntppool.Attempt.{Request, Reply}
use nntppool.Send.{Provider, Call, Settings, World}
use nntppool.Send.Fuel.{Yields, Yields-result}
use nntppool.Send.Resilient.{try_group_resilient}
use nntppool.Send.Failover.{do_send}
use nntppool.Send.Race.{stat_call}
use nntppool.Send.Walk.{Keeps, Trusted}
use nntppool.Send.Walk.Whole.{Reached, do_send-Good}
use nntppool.Send.Steady.{
  Closing, is_closing, is_closing-Closing, Aside, read_clock, quota_put, removed, reconnected,
  bumped, Settling, Steady,
}
use nntppool.Send.Bounded.{Inv, try_group_resilient-After, try_group_resilient-Inv}

-- The caller's writer in a world: whether bytes of an answer have gone to it, and whether a request
-- has been submitted with it since. It is cut off when bytes went to it and the attempt ended otherwise
-- than with their answer or the caller's cancellation: its provider was removed, or its channel closed.
pub record Watched (𝕎 : World) : Type 0 where
  pub written : 𝕎.W → Bool
  pub mixed : 𝕎.W → Bool
  pub written_aside : (w w' : 𝕎.W) → Aside 𝕎 w w' → written w' ≡ written w
  pub mixed_aside : (w w' : 𝕎.W) → Aside 𝕎 w w' → mixed w' ≡ mixed w
  pub written_submit :
      (w : 𝕎.W) (g : Provider) (req : Request) (writer : Bool)
      → written (𝕎.submit w g req writer).0
        ≡ (written w || (writer && (𝕎.submit w g req writer).1.decoded_committed))
  pub mixed_submit :
      (w : 𝕎.W) (g : Provider) (req : Request) (writer : Bool)
      → mixed (𝕎.submit w g req writer).0 ≡ (mixed w || (writer && written w))
  pub cut_off : 𝕎.W → Bool
  pub cut_off_aside : (w w' : 𝕎.W) → Aside 𝕎 w w' → cut_off w' ≡ cut_off w
  pub cut_off_submit :
      (w : 𝕎.W) (g : Provider) (req : Request) (writer : Bool)
      → cut_off (𝕎.submit w g req writer).0 ≡ (
          cut_off w
          || (writer
              && (𝕎.submit w g req writer).1.decoded_committed
              && not (is_closing (𝕎.submit w g req writer).1 (𝕎.submit w g req writer).2)))

module _ (𝕎 : World) (Safe Spent : 𝕎.W → Type 0) (S : Settling 𝕎) (D : Steady 𝕎 Safe Spent)
    (n : ℕ) where
  Inv-Keeps : Keeps 𝕎 (Inv 𝕎 Safe Spent S D n) Spent
  Inv-Keeps = record {
    keep_clock = λ w. k w _ (read_clock w);
    keep_quota = λ w g q. k w _ (quota_put w g q);
    keep_remove = λ w m. k w _ (removed w m);
    keep_reconnect = λ w g. k w _ (reconnected w g);
    keep_bump = λ w. k w _ (bumped w);
  }
    where
      k : (w w' : 𝕎.W) → Aside 𝕎 w w' → Inv 𝕎 Safe Spent S D n w → Inv 𝕎 Safe Spent S D n w'
      k w w' a (l, s) = let h = S.stale_aside w w' a in ((omega arith), D.safe_aside w w' a s)

  pub do_send-Reached :
      (fuel : ℕ) (settings : Settings) (call : Call) (w : 𝕎.W)
      → 4 + n ≤ fuel
      → S.stale w ≤ n
      → Safe w
      → (r : 𝕎.W × Reply) × (do_send 𝕎 fuel settings call w ≡ some r) × ((Safe r.0) ⊎ (Spent r.0))
  do_send-Reached fuel settings call w l b s =
      let I = Inv 𝕎 Safe Spent S D n in
      let (r, e, g) =
        Yields-result (Reached 𝕎 I Spent Inv-Keeps fuel call h h') (do_send 𝕎 fuel settings call w)
          (do_send-Good 𝕎 I Spent Inv-Keeps fuel call h h' settings w (b, s)) in
      (r, e, elim g [ inl (b', s') ↦ inl s' | inr f ↦ inr f ])
    where
      h :
          (priority : Bool)
          → Trusted 𝕎 (Inv 𝕎 Safe Spent S D n) Spent fuel (record call { priority = priority })
      h priority =
          try_group_resilient-After 𝕎 Safe Spent S D n fuel (record call { priority = priority })
            (omega arith)

      h' :
          (stat : Bytes) (v : 𝕎.W) (g : Provider)
          → Inv 𝕎 Safe Spent S D n v
          → Yields
              (λ t. Inv 𝕎 Safe Spent S D n t.world)
              (try_group_resilient 𝕎 fuel v g (stat_call stat) false)
      h' stat = try_group_resilient-Inv 𝕎 Safe Spent S D n fuel (stat_call stat) (omega arith) refl

pub always : (𝕎 : World) → Steady 𝕎 (λ w. Unit {0}) (λ w. Unit {0})
always 𝕎 = record {
  safe_aside = λ w w' a s. s;
  spent_aside = λ w w' a s. s;
  safe_submit = λ w g req writer s. inl s;
}

-- If each answer that asks for a fresh transport spends one of finitely many old connections, a request
-- is answered, whatever else the world does: fuel for four attempts at a provider, and one for each
-- old connection, is enough.
pub do_send-returns :
    (𝕎 : World) (S : Settling 𝕎) (fuel : ℕ) (settings : Settings) (call : Call) (w : 𝕎.W)
    → 4 + S.stale w ≤ fuel
    → (r : 𝕎.W × Reply) × (do_send 𝕎 fuel settings call w ≡ some r)
do_send-returns 𝕎 S fuel settings call w l =
    let (r, e, s) =
      do_send-Reached 𝕎 (λ v. Unit {0}) (λ v. Unit {0}) S (always 𝕎) (S.stale w) fuel settings call
        w l (omega arith) tt in
    (r, e)

module _ (𝕎 : World) (M : Watched 𝕎) where
  -- No bytes yet, or some that were cut off.
  abbrev Untouched : 𝕎.W → Type 0
  Untouched w = ((M.written w ≡ false) × (M.mixed w ≡ false)) ⊎ (M.cut_off w ≡ true)

  abbrev Unmixed : 𝕎.W → Type 0
  Unmixed w = (M.mixed w ≡ false) ⊎ (M.cut_off w ≡ true)

  watched_submit :
      (w : 𝕎.W) (g : Provider) (req : Request) (writer : Bool)
      → Untouched w
      → Untouched (𝕎.submit w g req writer).0
        ⊎ (Unmixed (𝕎.submit w g req writer).0
            × (writer ≡ true)
            × Closing (𝕎.submit w g req writer).1 (𝕎.submit w g req writer).2)
  watched_submit w g req writer (inr c) = inl (inr (M.cut_off_submit w g req writer ∙ (rw (c))))
  watched_submit w g req false (inl (a, b)) =
      inl (inl (M.written_submit w g req false ∙ (rw (a)), M.mixed_submit w g req false ∙ (rw (b))))
  watched_submit w g req true (inl (a, b)) =
      let unmixed = M.mixed_submit w g req true ∙ (rw (a, b)) in
      let r = 𝕎.submit w g req true in
      elim (Bool-cases r.1.decoded_committed) [
        | inl c ↦ elim (Bool-cases (is_closing r.1 r.2)) [
          | inl d ↦ inr (inl unmixed, refl, is_closing-Closing r.1 r.2 d)
          | inr d ↦ inl (inr (M.cut_off_submit w g req true ∙ or_true (M.cut_off w) c d))
        ]
        | inr c ↦ inl (inl (M.written_submit w g req true ∙ (rw (a, c)), unmixed))
      ]
    where
      or_true : (b : Bool) {x y : Bool} → x ≡ true → y ≡ false → (b || (true && x && not y)) ≡ true
      or_true b h k = ground (arith, h, k)

  watched : Steady 𝕎 Untouched Unmixed
  watched = record {
    safe_aside = λ w w' s h. elim h [
      | inl (a, b) ↦ inl (M.written_aside w w' s ∙ a, M.mixed_aside w w' s ∙ b)
      | inr c ↦ inr (M.cut_off_aside w w' s ∙ c)
    ];
    spent_aside = λ w w' s h. elim h [
      | inl b ↦ inl (M.mixed_aside w w' s ∙ b)
      | inr c ↦ inr (M.cut_off_aside w w' s ∙ c)
    ];
    safe_submit = watched_submit;
  }

  -- A request is answered, and it is never submitted with the caller's writer again once bytes of an
  -- answer have gone to it, so that the output of two attempts is not mixed; unless an attempt that had
  -- given bytes to the writer ended otherwise than with their answer or the caller's cancellation.
  pub do_send-unmixed :
      (S : Settling 𝕎) (fuel : ℕ) (settings : Settings) (call : Call) (w : 𝕎.W)
      → 4 + S.stale w ≤ fuel
      → M.written w ≡ false
      → M.mixed w ≡ false
      → (r : 𝕎.W × Reply) × (do_send 𝕎 fuel settings call w ≡ some r)
        × ((M.mixed r.0 ≡ false) ⊎ (M.cut_off r.0 ≡ true))
  do_send-unmixed S fuel settings call w l a b =
      let (r, e, s) =
        do_send-Reached 𝕎 Untouched Unmixed S watched (S.stale w) fuel settings call w l
          (omega arith) (inl (a, b)) in
      (r, e, elim s [ inl u ↦ untouched r.0 u | inr d ↦ d ])
    where
      untouched : (v : 𝕎.W) → Untouched v → Unmixed v
      untouched v (inl (c, d)) = inl d
      untouched v (inr c) = inr c
