-- ===== src/Connection.antt =====
-- nntp.go: `NNTPConnection`, the pipeline that the goroutine that writes and the one that reads
-- share: the counts of the three semaphores, the channel `pending`, and what a request holds.
-- A request is its identity, the fields of `Request` that the code of a connection reads, and the
-- marks that the connection sets on it; `probe` marks the requests that the connection makes itself,
-- to keep alive. `head` is the request whose response is being read. `settled` holds what the
-- channels of the requests got, `wire` the requests whose commands are written, `replies` those whose
-- responses are read, each the oldest first; `in_order` is lost when a response is not read
-- whole. `live` tells that the socket is open and the context of
-- the connection not cancelled. The two counts of the statistics are this connection's share;
-- `provider_name` is `none` where the source's is empty.
pub mod Writer
pub mod Replies
pub mod Handshake
pub mod Bounds
pub mod Safety
pub mod Slots
pub mod Order
pub mod Settled
pub mod Tidy
pub mod Choice
pub mod Laps
pub mod Watch
mod Tests
use Prim.Native.String.{String}
use nntppool.Base.{
  ℕ, ◌+◌, ◌-◌, Bool, true, false, not, ◌&&◌, ◌||◌, Option, none, some, List, [], ◌∷◌, ◌++◌, leb,
  ◌==◌, if◌then◌else◌, Bytes,
}
use nntppool.Errors.{Err, connection_died, sentinel, wrap}
use nntppool.Outcome.{Operation, body, article, stat, operation_from_payload}
use nntppool.Attempt.{Request, Response}

-- What a request's channel got before it was closed.
pub data Outcome : Type 0 where
  answered : Response → Outcome
  failed_with : Err → Outcome
  closed : Outcome

pub record PipeRequest : Type 0 where
  pub id : ℕ
  pub request : Request
  pub post_mode : Bool
  pub probe : Bool
  pub held_body : Bool
  pub held_background_stat : Bool
  pub held_pipeline : Bool

pub record Pipe : Type 0 where
  pub depth : ℕ
  pub bodies : ℕ
  pub background : ℕ
  pub inflight_sem : ℕ
  pub body_sem : ℕ
  pub background_stat_sem : ℕ
  pub background_stat_freed : Bool
  pub head : Option PipeRequest
  pub pending : List PipeRequest
  pub pipeline_in_use : ℕ
  pub background_stat_in_use : ℕ
  pub settled : List (ℕ × Outcome)
  pub wire : List ℕ
  pub replies : List ℕ
  pub in_order : Bool
  pub live : Bool
  pub provider_name : Option String

unfoldable pub new_pipe : ℕ → ℕ → ℕ → Option String → Pipe
new_pipe depth bodies background provider_name = record {
  depth = depth;
  bodies = bodies;
  background = background;
  inflight_sem = 0;
  body_sem = 0;
  background_stat_sem = 0;
  background_stat_freed = false;
  head = none;
  pending = [];
  pipeline_in_use = 0;
  background_stat_in_use = 0;
  settled = [];
  wire = [];
  replies = [];
  in_order = true;
  live = true;
  provider_name = provider_name;
}

abbrev is_stat : Operation → Bool
is_stat stat = true
is_stat _ = false

unfoldable pub is_cheap_command : Bytes → Bool
is_cheap_command payload = is_stat (operation_from_payload payload)

abbrev is_bodied : Operation → Bool
is_bodied body = true
is_bodied article = true
is_bodied _ = false

unfoldable pub is_body_command : Bytes → Bool
is_body_command payload = is_bodied (operation_from_payload payload)

unfoldable pub outcome_of : ℕ → List (ℕ × Outcome) → Option Outcome
outcome_of id [] = none
outcome_of id ((i, o) ∷ rest) = let later = outcome_of id rest in if i == id then some o else later

-- A send to a closed channel panics, and `failRequest` recovers: only the first outcome counts. The
-- send of the reader has no such guard, and is to a channel that nothing else closes by then.
unfoldable pub settle : ℕ → Outcome → Pipe → Pipe
unfolding outcome_of
settle id o p = elim (outcome_of id p.settled) [
  | some _ ↦ p
  | none ↦ record p { settled = p.settled ++ (id, o) ∷ [] }
]

abbrev pub fail_request : PipeRequest → Err → Pipe → Pipe
fail_request req e p = settle req.id (failed_with e) p

-- `c.inflightSem <- struct{}{}` and `c.bodySem <- struct{}{}`; `none` where they block.
unfoldable pub acquire_inflight : Pipe → Option Pipe
acquire_inflight p =
    if leb p.depth p.inflight_sem
    then none
    else some (record p { inflight_sem = p.inflight_sem + 1 })

abbrev pub release_inflight : Pipe → Pipe
release_inflight p = record p { inflight_sem = p.inflight_sem - 1 }

unfoldable pub acquire_body : Pipe → Option Pipe
acquire_body p =
    if leb p.bodies p.body_sem then none else some (record p { body_sem = p.body_sem + 1 })

abbrev pub release_body : PipeRequest → Pipe → Pipe
release_body req p = if req.held_body then record p { body_sem = p.body_sem - 1 } else p

abbrev pub is_background : PipeRequest → Bool
is_background req = is_cheap_command req.request.payload && not req.request.priority

-- `none` is `errBackgroundStatWindowFull`.
unfoldable pub acquire_background_stat : PipeRequest → Pipe → Option (PipeRequest × Pipe)
unfolding is_cheap_command
acquire_background_stat req p =
    if not (is_background req)
    then some (req, p)
    else if leb p.background p.background_stat_sem
    then none
    else some (
      record req { held_background_stat = true },
      record p {
        background_stat_sem = p.background_stat_sem + 1;
        background_stat_in_use = p.background_stat_in_use + 1;
      },
    )

unfoldable pub release_background_stat : PipeRequest → Pipe → Pipe
release_background_stat req p =
    if req.held_background_stat
    then record p {
      background_stat_sem = p.background_stat_sem - 1;
      background_stat_in_use = p.background_stat_in_use - 1;
      background_stat_freed = true;
    }
    else p

-- `c.pending <- req`
abbrev pub enqueue : PipeRequest → Pipe → Pipe
enqueue req p = record p { pending = p.pending ++ req ∷ [] }

-- `markRequestPending`, and the same.
unfoldable pub push_pending : PipeRequest → Pipe → Pipe
push_pending req p =
    enqueue (record req { held_pipeline = true })
      (record p { pipeline_in_use = p.pipeline_in_use + 1 })

unfoldable pub release_request_pending : PipeRequest → Pipe → Pipe
unfolding release_background_stat
release_request_pending req p =
    let q = release_background_stat req p in
    if req.held_pipeline then record q { pipeline_in_use = q.pipeline_in_use - 1 } else q

abbrev pub died : Pipe → Err
died p = elim p.provider_name [
  | none ↦ sentinel connection_died
  | some name ↦ wrap name (sentinel connection_died)
]

unfoldable pub fail_all : List PipeRequest → Pipe → Pipe
unfolding release_request_pending release_background_stat settle outcome_of
fail_all [] p = p
fail_all (req ∷ reqs) p =
    fail_all reqs (release_inflight (fail_request req (died p) (release_request_pending req p)))

-- The release of a slot in it does not block, as the one of `release_inflight` on 0.
unfoldable pub fail_outstanding : Pipe → Pipe
unfolding fail_all
fail_outstanding p = fail_all p.pending (record p { pending = [] })

-- `c.conn.Close()` or `c.cancel()`, and `c.failOutstanding()`.
unfoldable pub break_down : Pipe → Pipe
unfolding fail_outstanding
break_down p = fail_outstanding (record p { live = false })
