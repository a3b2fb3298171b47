-- ===== src/Registry.antt =====
-- nntp.go: the providers of a client: how their parameters are resolved, and `NewClient`, `AddProvider`,
-- `RemoveProvider`, `ResetProviderQuota` and `Close`. Strings are their bytes. A parameter that is not
-- positive where that means its default, or none, is 0; the zero `time.Time` is `none`. The start of a
-- group's connections and its ping are left out. `retired` are the groups that were removed, whose
-- requests still hold them.
pub mod Limits
pub mod Unique
pub mod Reach
pub mod Replace
mod Tests
use nntppool.Base.{
  ℕ, zero, suc, ◌+◌, ◌-◌, ◌*◌, ◌/◌, ◌%◌, min, Bool, true, false, not, ◌&&◌, ◌||◌, Option, none,
  some, List, [], ◌∷◌, ◌++◌, length, map, ltb, leb, ◌==◌, if◌then◌else◌, Bytes, bytes_eq,
}
use nntppool.Attempt.{Response451Policy, temporary, absent_after_retry, unknown_policy}
use nntppool.Breaker.{Breaker, new_breaker}
use nntppool.Dispatch.{Quota}
use nntppool.Gate.{Gate, new_conn_gate, stop}

-- What is read of a `Provider`. `quota_reset_at` is in Unix nanoseconds.
pub record Config : Type 0 where
  pub id : Bytes
  pub host : Bytes
  pub username : Bytes
  pub has_factory : Bool
  pub policy : Response451Policy
  pub backup : Bool
  pub connections : ℕ
  pub inflight : ℕ
  pub stat_inflight : ℕ
  pub background_stat_inflight : ℕ
  pub priority_headroom : ℕ
  pub quota_bytes : ℕ
  pub quota_used : ℕ
  pub quota_period : ℕ
  pub quota_reset_at : Option ℕ

-- `%d` of a number that is not negative; each turn shortens it.
abbrev decimal_from : ℕ → ℕ → Bytes
decimal_from zero n = []
decimal_from (suc fuel) n =
    let rest = decimal_from fuel (n / 10) in
    if ltb n 10 then (b'0' + n) ∷ [] else rest ++ ((b'0' + n % 10) ∷ [])

abbrev pub decimal : ℕ → Bytes
decimal n = decimal_from (suc n) n

abbrev pub is_empty : Bytes → Bool
is_empty [] = true
is_empty (c ∷ s) = false

abbrev provider_prefix : Bytes
provider_prefix = b'p' ∷ b'r' ∷ b'o' ∷ b'v' ∷ b'i' ∷ b'd' ∷ b'e' ∷ b'r' ∷ b'-' ∷ []

unfoldable pub resolve_provider_name : Config → ℕ → Bytes
resolve_provider_name p index =
    if not (is_empty p.host)
    then (if not (is_empty p.username) then p.host ++ b'+' ∷ p.username else p.host)
    else provider_prefix ++ decimal index

unfoldable pub resolve_provider_id : Config → ℕ → Bytes
resolve_provider_id p index = if not (is_empty p.id) then p.id else resolve_provider_name p index

-- The depths of a connection's pipeline.
pub record Depths : Type 0 where
  pub inflight : ℕ
  pub stat_inflight : ℕ
  pub priority_headroom : ℕ
  pub background_stat_inflight : ℕ

unfoldable pub resolve_depths : Config → Depths
resolve_depths p =
    let inflight = if p.inflight == 0 then 1 else p.inflight in
    let stat = if ltb p.stat_inflight inflight then inflight else p.stat_inflight in
    let headroom = if leb stat p.priority_headroom then stat - 1 else p.priority_headroom in
    let background = if p.background_stat_inflight == 0 then stat else p.background_stat_inflight in
    record {
      inflight = inflight;
      stat_inflight = stat;
      priority_headroom = headroom;
      background_stat_inflight = min background (stat - headroom);
    }

-- The deadline that a caller restores, if it is still to come.
abbrev first_reset : Option ℕ → ℕ → ℕ → ℕ
first_reset none period now = now + period
first_reset (some at) period now = if ltb now at then at else now + period

unfoldable pub start_quota : Config → ℕ → Quota
start_quota p now =
    if ltb 0 p.quota_bytes
    then record {
      bytes = p.quota_bytes;
      used = p.quota_used;
      exceeded = ltb 0 p.quota_used && leb p.quota_bytes p.quota_used;
      period = p.quota_period;
      reset_at =
          if ltb 0 p.quota_period then first_reset p.quota_reset_at p.quota_period now else 0;
    }
    else record {
      bytes = p.quota_bytes;
      used = 0;
      exceeded = false;
      period = p.quota_period;
      reset_at = 0;
    }

-- `providerGroup`, with its limits for all connections together.
pub record Group : Type 0 where
  pub name : Bytes
  pub id : Bytes
  pub config : Config
  pub gate : Gate
  pub breaker : Breaker
  pub quota : Quota
  pub pipeline_limit : ℕ
  pub background_stat_limit : ℕ
  pub priority_headroom : ℕ

pub record Registry : Type 0 where
  pub mains : List Group
  pub backups : List Group
  pub retired : List Group
  pub provider_idx : ℕ
  pub breaker_on : Bool

-- `address` is that of the new group.
unfoldable pub start_provider_group : Bool → ℕ → Config → ℕ → ℕ → Group
unfolding resolve_depths start_quota
start_provider_group breaker_on address p index now =
    let d = resolve_depths p in
    record {
      name = resolve_provider_name p index;
      id = resolve_provider_id p index;
      config = p;
      gate = new_conn_gate p.connections;
      breaker = new_breaker address breaker_on;
      quota = start_quota p now;
      pipeline_limit = d.stat_inflight * p.connections;
      background_stat_limit = d.background_stat_inflight * p.connections;
      priority_headroom = d.priority_headroom * p.connections;
    }

pub data ConfigError : Type 0 where
  no_providers no_main unknown_451_policy no_connections no_endpoint : ConfigError
  duplicate_name duplicate_id : Bytes → ConfigError

abbrev is_known : Response451Policy → Bool
is_known (unknown_policy n) = false
is_known _ = true

-- The tests of one provider that `NewClient` and `AddProvider` share.
unfoldable pub check_config : Config → Option ConfigError
check_config p =
    if not (is_known p.policy)
    then some unknown_451_policy
    else if p.connections == 0
    then some no_connections
    else if not p.has_factory && is_empty p.host
    then some no_endpoint
    else none

abbrev pub has_bytes : Bytes → List Bytes → Bool
has_bytes s [] = false
has_bytes s (t ∷ ts) = bytes_eq t s || has_bytes s ts

-- The loop of `NewClient` over the providers: `seen` and `seen_ids` are those before `index`.
unfoldable pub check_configs : List Bytes → List Bytes → ℕ → List Config → Option ConfigError
unfolding check_config
check_configs seen seen_ids index [] = none
check_configs seen seen_ids index (p ∷ ps) =
    let name = resolve_provider_name p index in
    let id = resolve_provider_id p index in
    let rest = check_configs (name ∷ seen) (id ∷ seen_ids) (index + 1) ps in
    elim (check_config p) [
      | some e ↦ some e
      | none ↦
          if has_bytes name seen
          then some (duplicate_name name)
          else if has_bytes id seen_ids
          then some (duplicate_id id)
          else rest
    ]

-- The start of the groups, each among the mains or the backups.
unfoldable pub start_groups : ℕ → Registry → ℕ → List Config → Registry
start_groups now r index [] = r
start_groups now r index (p ∷ ps) =
    let g = start_provider_group r.breaker_on index p index now in
    start_groups now
      (if p.backup
        then record r { backups = r.backups ++ g ∷ [] }
        else record r { mains = r.mains ++ g ∷ [] })
      (index + 1) ps

abbrev pub any_main : List Config → Bool
any_main [] = false
any_main (p ∷ ps) = not p.backup || any_main ps

abbrev pub empty_registry : Bool → Registry
empty_registry breaker_on = record {
  mains = [];
  backups = [];
  retired = [];
  provider_idx = 0;
  breaker_on = breaker_on;
}

pub data Created : Type 0 where
  created : Registry → Created
  rejected : ConfigError → Created

unfoldable pub new_client : Bool → List Config → ℕ → Created
unfolding check_configs start_groups
new_client breaker_on ps now =
    if length ps == 0
    then rejected no_providers
    else if not (any_main ps)
    then rejected no_main
    else elim (check_configs [] [] 0 ps) [
      | some e ↦ rejected e
      | none ↦ created (start_groups now (empty_registry breaker_on) 0 ps)
    ]

abbrev pub clashes : Bytes → Bytes → List Group → Bool
clashes name id [] = false
clashes name id (g ∷ gs) = bytes_eq g.name name || bytes_eq g.id id || clashes name id gs

-- `provider_idx` counts on for every provider that passes the first tests.
unfoldable pub add_provider : Registry → Config → ℕ → Registry × Option ConfigError
unfolding check_config
add_provider r p now = elim (check_config p) [
  | some e ↦ (r, some e)
  | none ↦
      let index = r.provider_idx + 1 in
      let r1 : Registry = record r { provider_idx = index } in
      let name = resolve_provider_name p index in
      let g = start_provider_group r.breaker_on index p index now in
      if clashes name (resolve_provider_id p index) r.mains
        || clashes name (resolve_provider_id p index) r.backups
      then (r1, some (duplicate_name name))
      else if p.backup
      then (record r1 { backups = r.backups ++ g ∷ [] }, none)
      else (record r1 { mains = r.mains ++ g ∷ [] }, none)
]

-- The first group of that name, and the others.
unfoldable pub take_out : Bytes → List Group → Option (Group × List Group)
take_out name [] = none
take_out name (g ∷ gs) =
    let rest : Option (Group × List Group) = elim (take_out name gs) [
      | none ↦ none
      | some (h, hs) ↦ some (h, g ∷ hs)
    ] in
    if bytes_eq g.name name then some (g, gs) else rest

-- A group that is removed: its gate is stopped.
abbrev pub retire : Group → Group
retire g = record g { gate = stop g.gate }

unfoldable pub remove_provider : Registry → Bytes → Registry × Bool
unfolding take_out
remove_provider r name = elim (take_out name r.mains) [
  | some (g, gs) ↦ (record r { mains = gs; retired = retire g ∷ r.retired }, true)
  | none ↦ elim (take_out name r.backups) [
    | some (g, gs) ↦ (record r { backups = gs; retired = retire g ∷ r.retired }, true)
    | none ↦ (r, false)
  ]
]

abbrev pub fresh_quota : Quota → ℕ → Quota
fresh_quota q now = record q {
  used = 0;
  exceeded = false;
  reset_at = if ltb 0 q.period then now + q.period else 0;
}

unfoldable pub reset_first : Bytes → ℕ → List Group → Option (List Group)
reset_first name now [] = none
reset_first name now (g ∷ gs) =
    let rest : Option (List Group) = elim (reset_first name now gs) [
      | none ↦ none
      | some hs ↦ some (g ∷ hs)
    ] in
    if bytes_eq g.name name then some (record g { quota = fresh_quota g.quota now } ∷ gs) else rest

unfoldable pub reset_provider_quota : Registry → Bytes → ℕ → Registry × Bool
unfolding reset_first
reset_provider_quota r name now = elim (reset_first name now r.mains) [
  | some gs ↦ (record r { mains = gs }, true)
  | none ↦ elim (reset_first name now r.backups) [
    | some gs ↦ (record r { backups = gs }, true)
    | none ↦ (r, false)
  ]
]

abbrev pub num_providers : Registry → ℕ
num_providers r = length r.mains + length r.backups

-- All gates are stopped.
unfoldable pub close : Registry → Registry
close r = record r { mains = map retire r.mains; backups = map retire r.backups }
