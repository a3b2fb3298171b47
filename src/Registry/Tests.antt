-- ===== src/Registry/Tests.antt =====
-- A small registry.
use nntppool.Base.{◌+◌, ◌≤◌, true, false, Option, none, some, [], ◌∷◌, ◌≡◌, refl, Bytes}
use nntppool.Attempt.{temporary}
use nntppool.Registry.{
  Config, Registry, ConfigError, duplicate_name, Created, created, rejected, resolve_depths,
  start_provider_group, resolve_provider_name, resolve_provider_id, new_client, add_provider,
  remove_provider, retire, decimal, check_config, check_configs, start_groups,
}
use nntppool.Registry.Limits.{resolve_depths-bounds}
use nntppool.Registry.Unique.{IsUnique}
use nntppool.Registry.Reach.{opened, added, Reach-IsUnique}
use nntppool.Registry.Replace.{add_provider-remove}

-- A provider with a connection factory and no name of its own.
abbrev nameless : Config
nameless = record {
  id = [];
  host = [];
  username = [];
  has_factory = true;
  policy = temporary;
  backup = false;
  connections = 4;
  inflight = 0;
  stat_inflight = 10;
  background_stat_inflight = 0;
  priority_headroom = 20;
  quota_bytes = 100;
  quota_used = 100;
  quota_period = 7;
  quota_reset_at = none;
}

abbrev named : Config
named = record nameless { host = b'n' ∷ []; username = b'u' ∷ []; backup = true }

decimal_test : decimal 407 ≡ b'4' ∷ b'0' ∷ b'7' ∷ []
decimal_test = refl

abbrev registry_of : Created → Registry
registry_of (created r) = r
registry_of (rejected e) = record {
  mains = [];
  backups = [];
  retired = [];
  provider_idx = 0;
  breaker_on = false;
}

abbrev error_of : Option ConfigError → Bytes
error_of (some (duplicate_name name)) = name
error_of _ = []

-- Two nameless providers and a named one.
first : Registry
first = registry_of (new_client true (nameless ∷ nameless ∷ named ∷ []) 5)

-- When the first nameless provider is removed, it cannot be added again: the index that it is given
-- is that of the second.
comes_not_back :
    error_of
      (add_provider (remove_provider first (resolve_provider_name nameless 0)).0 nameless 6).1
    ≡ resolve_provider_name nameless 1
unfolding first new_client add_provider remove_provider resolve_provider_name check_config
    check_configs start_groups start_provider_group resolve_provider_id
comes_not_back = refl

Reach-IsUnique_example : IsUnique (add_provider first nameless 6).0
unfolding first new_client check_config check_configs start_groups resolve_provider_name
    resolve_provider_id start_provider_group
Reach-IsUnique_example =
    Reach-IsUnique (add_provider first nameless 6).0
      (added first nameless 6 (opened true (nameless ∷ nameless ∷ named ∷ []) 5 first refl))

resolve_depths-bounds_example :
    let d = resolve_depths nameless in
    (1 ≤ d.inflight)
    × (d.inflight ≤ d.stat_inflight)
    × (1 ≤ d.background_stat_inflight)
    × (d.background_stat_inflight + d.priority_headroom ≤ d.stat_inflight)
    × (0 ≤ d.inflight)
resolve_depths-bounds_example = resolve_depths-bounds nameless

abbrev none_yet : Registry
none_yet = record { mains = []; backups = []; retired = []; provider_idx = 3; breaker_on = true }

add_provider-remove_example :
    remove_provider (add_provider none_yet named 5).0 (resolve_provider_name named 4) ≡ (
      record none_yet {
        provider_idx = 4;
        retired = retire (start_provider_group true 4 named 4 5) ∷ [];
      },
      true,
    )
unfolding add_provider check_config
add_provider-remove_example = add_provider-remove none_yet named 5 refl
