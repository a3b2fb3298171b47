-- ===== src/Send/Walk.antt =====
-- A condition on worlds that every step of `doSendWithRetry` keeps holds along the whole way of a
-- request: `Inv` while it goes on, `Fin` or `Inv` once it is answered. What a caller of these lemmas
-- shows is the condition for the attempts at one provider.
use nntppool.Base.{
  ℕ, ltb, leb, ◌||◌, Bool, true, false, not, ◌&&◌, Option, none, some, List, [], ◌∷◌, ◌++◌, ◌≡◌,
  refl, ◌⊎◌, inl, inr, Bytes, Bool-cases, Option-cases, arith, if_both,
}
pub mod Racing
pub mod Whole
use Prim.Native.String.{String}
use nntppool.Dispatch.{Quota}
use nntppool.Base.Int.{ℤ, pos, negsuc}
use nntppool.Errors.{is_code, success_code}
use nntppool.Attempt.{Response, attempt_committed_resp, response_is_hard_article_absence}
use nntppool.Send.{Provider, Call, Settings, World, Tried}
use nntppool.Send.Fuel.{◌>>=◌, Yields, bind-Yields}
use nntppool.Send.Resilient.{try_group_resilient}
use nntppool.Send.Visit.{
  Met, called_off, unreachable, gone, missing, erred, refused, settled, judge, Trail, test_quota,
  pass_over, noted, with_error, expel, expelled, biased,
}
use nntppool.Send.Race.{
  End, delivered, cancelled, exhausted, Verdict, on_met, live_of, on_single, probe_all, Poll,
  tally_one, tally, try_winners, after_poll, race_live, race_candidates, with_race, hasty,
  stat_call,
}

-- An answer for the caller, as `judge` and the race see it.
abbrev pub IsAnswer : Bool → Response → Type 0
IsAnswer writer resp = elim resp.err [
  | some e ↦ (writer && attempt_committed_resp resp) ≡ true
  | none ↦ success_code resp.status_code ≡ true
]

abbrev pub is_final : Met → Bool
is_final called_off = true
is_final (settled resp) = true
is_final _ = false

pub success_refutes :
    (c : ℤ) (n : ℕ) → success_code c ≡ true → (ltb n 200 || leb 400 n) ≡ true → is_code c n ≡ false
success_refutes (pos c) n h k = ground arith
success_refutes (negsuc c) n h k = ground arith

pub success-absence :
    (resp : Response)
    → success_code resp.status_code ≡ true
    → response_is_hard_article_absence resp ≡ false
unfolding response_is_hard_article_absence
success-absence resp h = rw (
  success_refutes resp.status_code 423 h refl,
  success_refutes resp.status_code 430 h refl,
  success_refutes resp.status_code 451 h refl,
)

module _ (𝕎 : World) (Inv Fin : 𝕎.W → Type 0) where
  pub record Keeps : Type 0 where
    pub keep_clock : (w : 𝕎.W) → Inv w → Inv (𝕎.clock w).0
    pub keep_quota : (w : 𝕎.W) (g : Provider) (q : Quota) → Inv w → Inv (𝕎.put_quota w g q)
    pub keep_remove : (w : 𝕎.W) (name : String) → Inv w → Inv (𝕎.remove w name)
    pub keep_reconnect : (w : 𝕎.W) (g : Provider) → Inv w → Inv (𝕎.reconnect w g)
    pub keep_bump : (w : 𝕎.W) → Inv w → Inv (𝕎.bump w).0

  -- A request with a writer is called off or answered.
  abbrev pub Ends : Bool → Tried 𝕎.W → Type 0
  Ends writer t =
      (writer ≡ true)
      × ((t.cancelled ≡ true) ⊎ ((t.cancelled ≡ false) × (t.ok ≡ true) × IsAnswer writer t.resp))

  abbrev pub After : Bool → Tried 𝕎.W → Type 0
  After writer t = Inv t.world ⊎ (Fin t.world × Ends writer t)

  unfoldable pub Good : Trail 𝕎 × End → Type 0
  Good (s, exhausted) = Inv s.world
  Good (s, delivered reply) = Inv s.world ⊎ Fin s.world
  Good (s, cancelled) = Inv s.world ⊎ Fin s.world

  pub Good-Inv : (s : Trail 𝕎) (end : End) → Inv s.world → Good (s, end)
  unfolding Good
  Good-Inv s exhausted i = i
  Good-Inv s (delivered reply) i = inl i
  Good-Inv s cancelled i = inl i

  -- What is asked of the attempts at one provider with a call.
  abbrev pub Trusted : ℕ → Call → Type 0
  Trusted fuel call =
      (w : 𝕎.W) (g : Provider)
      → Inv w
      → Yields (After call.writer) (try_group_resilient 𝕎 fuel w g call false)

  pub judge_final :
      (call : Call) (g : Provider) (t : Tried 𝕎.W)
      → Ends call.writer t
      → is_final (judge call g t) ≡ true
  unfolding judge attempt_committed_resp
  judge_final call g t (wr, inl c) = rw c
  judge_final call g t (wr, inr (c, k, a)) = elim (Option-cases t.resp.err) [
    | inl p ↦
        let a' : success_code t.resp.status_code ≡ true = rw (p) at a in
        rw (c, k, p, success_refutes t.resp.status_code 502 a' refl, success-absence t.resp a', a')
    | inr (e, p) ↦
        let a' : (call.writer && attempt_committed_resp t.resp) ≡ true = rw (p) at a in
        rw (c, k, p, a')
  ]

  pub expelled-keeps :
      (g : Provider) (s : Trail 𝕎) → Keeps → Inv s.world → Inv (expelled 𝕎 g s).world
  unfolding expelled expel
  expelled-keeps g s k i =
      let r = k.keep_remove s.world g.name i in if_both Inv g.reconnects (k.keep_reconnect _ g r) r

  pub on_met-Good :
      (rest miss : Trail 𝕎 → Verdict 𝕎) (g : Provider) (s : Trail 𝕎) (met : Met)
      → Keeps
      → ((z : Trail 𝕎) → Inv z.world → Yields Good (rest z))
      → ((z : Trail 𝕎) → Inv z.world → Yields Good (miss z))
      → Inv s.world ⊎ (Fin s.world × (is_final met ≡ true))
      → Yields Good (on_met 𝕎 rest miss g s met)
  unfolding on_met Good
  on_met-Good rest miss g s called_off k hr hm (inl i) = inl i
  on_met-Good rest miss g s called_off k hr hm (inr (f, e)) = inr f
  on_met-Good rest miss g s (settled r) k hr hm (inl i) = inl i
  on_met-Good rest miss g s (settled r) k hr hm (inr (f, e)) = inr f
  on_met-Good rest miss g s unreachable k hr hm (inl i) = hr s i
  on_met-Good rest miss g s gone k hr hm (inl i) = hr (expelled 𝕎 g s) (expelled-keeps g s k i)
  on_met-Good rest miss g s missing k hr hm (inl i) = hm s i
  on_met-Good rest miss g s (erred e) k hr hm (inl i) = hr (with_error 𝕎 s e) i
  on_met-Good rest miss g s (refused e) k hr hm (inl i) = hr (with_error 𝕎 s e) i
  on_met-Good rest miss g s unreachable k hr hm (inr (f, e)) = ground arith
  on_met-Good rest miss g s gone k hr hm (inr (f, e)) = ground arith
  on_met-Good rest miss g s missing k hr hm (inr (f, e)) = ground arith
  on_met-Good rest miss g s (erred e1) k hr hm (inr (f, e)) = ground arith
  on_met-Good rest miss g s (refused e1) k hr hm (inr (f, e)) = ground arith

  pub test_quota-keeps : (w : 𝕎.W) (g : Provider) → Keeps → Inv w → Inv (test_quota 𝕎 w g).1
  unfolding test_quota
  test_quota-keeps w g k i = k.keep_quota _ g _ (k.keep_clock w i)

  pub pass_over-keeps :
      (call : Call) (g : Provider) (s : Trail 𝕎)
      → Keeps
      → Inv s.world
      → Inv (pass_over 𝕎 call g s).world
  unfolding pass_over
  pass_over-keeps call g s k i = k.keep_clock s.world i

  pub biased-keeps : (s : Trail 𝕎) → Keeps → Inv s.world → Inv (biased 𝕎 s).world
  unfolding biased
  biased-keeps s k i = k.keep_bump s.world i

  -- What an attempt leaves, as `on_met-Good` takes it.
  pub After-met :
      (call : Call) (g : Provider) (t : Tried 𝕎.W)
      → After call.writer t
      → Inv t.world ⊎ (Fin t.world × (is_final (judge call g t) ≡ true))
  After-met call g t (inl i) = inl i
  After-met call g t (inr (f, e)) = inr (f, judge_final call g t e)
