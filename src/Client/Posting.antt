-- ===== src/Client/Posting.antt =====
-- client.go: `doSendPost` and `finishPost`. `post` is what handing the article to a provider comes to,
-- its answer included; nothing ends the wait for that answer, so that a request which is left in the
-- channel of a removed provider hangs. The code panics where an index is beyond its array of weights.
use nntppool.Base.{
  ℕ, ◌+◌, ◌%◌, ◌≤◌, ◌<◌, true, false, Option, none, some, List, [], ◌∷◌, ◌≡◌, refl, ap, ◌∙◌, ◌⊎◌,
  inl, inr, arith, option_both, leb, if◌then◌else◌, length, length-map, map, Bytes, Bool-cases,
}
use nntppool.Base.Int.{ℤ, pos, ltb_ℤ}
use nntppool.Errors.{Err, text, wrap, to_error}
use nntppool.Outcome.{SendError, plain}
use nntppool.Dispatch.{capacity, search_ints, total_of}
use nntppool.Attempt.{Response, Reply, replied, failed}
use nntppool.Send.{Provider, Settings, World}
use nntppool.Send.Start.{rotated}

-- What comes of handing the article to a provider: the wait for its answer, which nothing but the
-- answer ends, may `never` be over.
pub data Posted : Type 0 where
  client_done request_done : Err → Posted
  group_done channel_closed never : Posted
  posted : Response → Posted

-- `var cumWeights [8]int`: `none` where an index is out of range.
unfoldable pub post_weights : ℕ → ℕ → List ℕ → Option (List ℕ)
post_weights i total [] = some []
post_weights i total (c ∷ cs) =
    let rest : Option (List ℕ) = elim (post_weights (i + 1) (total + c) cs) [
      | none ↦ none
      | some ws ↦ some ((total + c) ∷ ws)
    ] in
    if leb 8 i then none else rest

unfoldable pub first_free : ℕ → List ℤ → ℕ
first_free i [] = 0
first_free i (a ∷ as') = let rest = first_free (i + 1) as' in if ltb_ℤ (pos 0) a then i else rest

pub data Posting (W : Type 0) : Type 0 where
  panics hangs : Posting W
  ends : W → Reply → Posting W

module _ (𝕎 : World) (post : 𝕎.W → Provider → 𝕎.W × Posted) where
  post_end : Option Err → Reply
  post_end (some e) = failed (plain (wrap "nntp: post failed" e)) []
  post_end none = failed (plain (text "nntp: post failed: all providers exhausted")) []

  pub on_posted : (𝕎.W → Option Err → Posting 𝕎.W) → 𝕎.W → Option Err → Posted → Posting 𝕎.W
  on_posted rest w last (client_done e) = ends w (failed (plain e) [])
  on_posted rest w last (request_done e) = ends w (failed (plain e) [])
  on_posted rest w last group_done = rest w last
  on_posted rest w last channel_closed = rest w last
  on_posted rest w last never = hangs
  on_posted rest w last (posted resp) = elim resp.err [
    | some e ↦ rest w (some e)
    | none ↦ ends w (replied resp)
  ]

  unfoldable pub post_loop : List Provider → 𝕎.W → Option Err → Posting 𝕎.W
  unfolding on_posted post_end
  post_loop [] w last = ends w (post_end last)
  post_loop (g ∷ gs) w last = let r = post w g in on_posted (post_loop gs) r.0 last r.1

  -- The index of the first provider to ask; `none` is a panic.
  unfoldable pub post_start : Settings → List Provider → 𝕎.W → Option (ℕ × 𝕎.W)
  unfolding post_weights first_free
  post_start settings mains w =
      let free = map (𝕎.available w) mains in
      let weights = map (capacity 𝕎.floats) free in
      if settings.fifo then some (first_free 0 free, w) else (elim (post_weights 0 0 weights) [
        | none ↦ none
        | some cum ↦
            let (w1, counter) = 𝕎.bump w in
            some (search_ints cum (counter % total_of 0 cum + 1), w1)
      ])

  unfoldable pub do_send_post : Settings → 𝕎.W → Posting 𝕎.W
  unfolding post_start post_loop
  do_send_post settings w = elim (𝕎.mains w) [
    | [] ↦ ends w (failed (plain (text "nntp: no main providers")) [])
    | g ∷ gs ↦ elim (post_start settings (g ∷ gs) w) [
      | none ↦ panics
      | some (start, w1) ↦ post_loop (rotated start (g ∷ gs)) w1 none
    ]
  ]

-- `finishPost`: the error of the reply, or that of its code.
unfoldable pub finish_post : Reply → SendError ⊎ (ℤ × Bytes)
finish_post (failed e attempts) = inl e
finish_post (replied resp) = elim resp.err [
  | some e ↦ inl (plain e)
  | none ↦ elim (to_error resp.status_code resp.status) [
    | some e ↦ inl (plain e)
    | none ↦ inr (resp.status_code, resp.status)
  ]
]

post_weights_fail :
    (i total : ℕ) (cs : List ℕ)
    → i ≤ 8
    → ((post_weights i total cs ≡ none) × (8 < i + length cs))
      ⊎ ((ws : List ℕ) × (post_weights i total cs ≡ some ws) × (i + length cs ≤ 8))
unfolding post_weights
post_weights_fail i total [] h = inr ([], refl, omega (arith, h))
post_weights_fail i total (c ∷ cs) h = elim (Bool-cases (leb 8 i)) [
  | inl e ↦ inl (rw (e), ground arith)
  | inr e ↦ elim (post_weights_fail (i + 1) (total + c) cs (ground arith)) [
    | inl (p, q) ↦ inl (rw (e, p), omega (arith, q))
    | inr (ws, p, q) ↦ inr ((total + c) ∷ ws, rw (e, p), omega (arith, q))
  ]
]

module _ (𝕎 : World) (post : 𝕎.W → Provider → 𝕎.W × Posted) where
  post_start_fail :
      (settings : Settings) (mains : List Provider) (w : 𝕎.W)
      → ((post_start 𝕎 post settings mains w ≡ none) × (settings.fifo ≡ false) × (8 < length mains))
        ⊎ ((r : ℕ × 𝕎.W) × (post_start 𝕎 post settings mains w ≡ some r)
            × ((settings.fifo ≡ true) ⊎ (length mains ≤ 8)))
  unfolding post_start
  post_start_fail settings mains w =
      let free = map (𝕎.available w) mains in
      let weights = map (capacity 𝕎.floats) free in
      let l = length-map free (capacity 𝕎.floats) ∙ length-map mains (𝕎.available w) in
      elim (Bool-cases settings.fifo) [
        | inl e ↦ inr ((first_free 0 free, w), rw (e), inl e)
        | inr e ↦ elim (post_weights_fail 0 0 weights (omega arith)) [
          | inl (p, q) ↦ inl (rw (e, p), e, omega (arith, q, l))
          | inr (cum, p, q) ↦ inr (
            (search_ints cum ((𝕎.bump w).1 % total_of 0 cum + 1), (𝕎.bump w).0),
            rw (e, p),
            inr (omega (arith, q, l)),
          )
        ]
      ]

  abbrev sent : List Provider → Option (ℕ × 𝕎.W) → Posting 𝕎.W
  sent mains none = panics
  sent mains (some (start, w1)) = post_loop 𝕎 post (rotated start mains) w1 none

  abbrev Prompt : Type 0
  Prompt = (w : 𝕎.W) (g : Provider) → (post w g).1 ≡ never → ⊥

  abbrev Ends : Posting 𝕎.W → Type 0
  Ends p = (v : 𝕎.W) × (reply : Reply) × (p ≡ ends v reply)

  on_posted-Ends :
      (rest : 𝕎.W → Option Err → Posting 𝕎.W) (w : 𝕎.W) (last : Option Err) (p : Posted)
      → (p ≡ never → ⊥)
      → ((v : 𝕎.W) (l : Option Err) → Ends (rest v l))
      → Ends (on_posted 𝕎 post rest w last p)
  unfolding on_posted
  on_posted-Ends rest w last (client_done e) n h = (_, _, refl)
  on_posted-Ends rest w last (request_done e) n h = (_, _, refl)
  on_posted-Ends rest w last group_done n h = h w last
  on_posted-Ends rest w last channel_closed n h = h w last
  on_posted-Ends rest w last never n h = absurd (n refl)
  on_posted-Ends rest w last (posted resp) n h =
      option_both Ends resp.err (w, replied resp, refl) (λ e. h w (some e))

  -- Every provider's answer comes, so the loop over them ends.
  post_loop-Ends :
      (gs : List Provider) (w : 𝕎.W) (last : Option Err)
      → Prompt
      → Ends (post_loop 𝕎 post gs w last)
  unfolding post_loop
  post_loop-Ends [] w last h = (_, _, refl)
  post_loop-Ends (g ∷ gs) w last h =
      on_posted-Ends (post_loop 𝕎 post gs) (post w g).0 last (post w g).1 (h w g)
        (λ v l. post_loop-Ends gs v l h)

  -- When the answer of every provider that takes the article comes at some time: posting panics exactly
  -- when the strategy is the round robin and there are more than eight main providers; otherwise it ends
  -- with a reply.
  pub do_send_post-panics :
      (settings : Settings) (w : 𝕎.W)
      → ((v : 𝕎.W) (g : Provider) → (post v g).1 ≡ never → ⊥)
      → ((do_send_post 𝕎 post settings w ≡ panics)
          × (settings.fifo ≡ false)
          × (8 < length (𝕎.mains w)))
        ⊎ ((v : 𝕎.W) × (reply : Reply) × (do_send_post 𝕎 post settings w ≡ ends v reply)
            × ((settings.fifo ≡ true) ⊎ (length (𝕎.mains w) ≤ 8)))
  unfolding do_send_post
  do_send_post-panics settings w h = go (𝕎.mains w)
    where
      go :
          (ms : List Provider)
          → (((elim ms as (λ _. Posting 𝕎.W) [
            | [] ↦ ends w (failed (plain (text "nntp: no main providers")) [])
            | g ∷ gs ↦ sent (g ∷ gs) (post_start 𝕎 post settings (g ∷ gs) w)
          ])
                ≡ panics)
              × (settings.fifo ≡ false)
              × (8 < length ms))
            ⊎ ((v : 𝕎.W) × (reply : Reply) × ((elim ms as (λ _. Posting 𝕎.W) [
              | [] ↦ ends w (failed (plain (text "nntp: no main providers")) [])
              | g ∷ gs ↦ sent (g ∷ gs) (post_start 𝕎 post settings (g ∷ gs) w)
            ])
                  ≡ ends v reply)
                × ((settings.fifo ≡ true) ⊎ (length ms ≤ 8)))
      go [] = inr (w, _, refl, inr (omega arith))
      go (g ∷ gs) = elim (post_start_fail settings (g ∷ gs) w) [
        | inl (p, q, l) ↦ inl (ap (sent (g ∷ gs)) p, q, l)
        | inr (r, p, q) ↦
            let (v, reply, e) = post_loop-Ends (rotated r.0 (g ∷ gs)) r.1 none h in
            inr (v, reply, ap (sent (g ∷ gs)) p ∙ e, q)
      ]
