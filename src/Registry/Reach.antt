-- ===== src/Registry/Reach.antt =====
-- The registries of a client, from `NewClient` on.
use nntppool.Base.{
  ℕ, ◌+◌, ◌≤◌, Bool, true, false, not, Option, none, some, List, [], ◌∷◌, ◌≡◌, refl, ap, subst, inl,
  inr, arith, Bool-cases, if◌then◌else◌, Bytes, bytes_eq, bytes_eq_iff, length, ◌==◌,
}
use nntppool.Registry.{
  Config, Group, Registry, start_provider_group, resolve_provider_name, resolve_provider_id,
  ConfigError, no_providers, no_main, duplicate_name, duplicate_id, any_main, check_config,
  has_bytes, check_configs, start_groups, empty_registry, Created, created, rejected, new_client,
  add_provider, remove_provider, reset_provider_quota, close,
}
use nntppool.Registry.Unique.{
  bit, times, name_of, id_of, IsUnique, joined, times-joined, started_name, started_id,
  add_provider-IsUnique, remove_provider-IsUnique, reset_provider_quota-IsUnique, close-IsUnique,
}

-- Every name and identity of the registry is among those that were seen.
abbrev Covered : List Bytes → List Bytes → Registry → Type 0
Covered seen seen_ids r =
    ((s : Bytes) → times name_of s r.mains + times name_of s r.backups ≤ bit (has_bytes s seen))
    × ((s : Bytes) → times id_of s r.mains + times id_of s r.backups ≤ bit (has_bytes s seen_ids))

covered_next :
    (key : Group → Bytes) (backup : Bool) (r : Registry) (g : Group) (name : Bytes)
    (seen : List Bytes)
    → key g ≡ name
    → has_bytes name seen ≡ false
    → ((s : Bytes) → times key s r.mains + times key s r.backups ≤ bit (has_bytes s seen))
    → (s : Bytes)
    → times key s (joined backup r g).mains + times key s (joined backup r g).backups
      ≤ bit (has_bytes s (name ∷ seen))
covered_next key backup r g name seen e h c s =
    let j = times-joined key s backup r g in
    let k : bytes_eq (key g) s ≡ bytes_eq name s = ap (λ z. bytes_eq z s) e in
    elim (Bool-cases (bytes_eq name s)) [
      | inl q ↦
          let u = subst (λ z. has_bytes z seen ≡ false) ((bytes_eq_iff name s).0 q) h in
          ground (arith, j, k, u, c s)
      | inr q ↦ ground (arith, j, k, c s)
    ]

passes :
    (o : Option ConfigError) (a b : Bool) (e e' : ConfigError) (rest : Option ConfigError)
    → (elim o as (λ _. Option ConfigError) [
      | some x ↦ some x
      | none ↦ if a then some e else if b then some e' else rest
    ])
      ≡ none
    → (a ≡ false) × (b ≡ false) × (rest ≡ none)
passes none a b e e' rest h = ground arith
passes (some x) a b e e' rest h = ground arith

-- What a check that passes says of the first provider, and of the others.
check_configs_first :
    (seen seen_ids : List Bytes) (index : ℕ) (p : Config) (ps : List Config)
    → check_configs seen seen_ids index (p ∷ ps) ≡ none
    → (has_bytes (resolve_provider_name p index) seen ≡ false)
      × (has_bytes (resolve_provider_id p index) seen_ids ≡ false)
      × (check_configs
            (resolve_provider_name p index ∷ seen)
            (resolve_provider_id p index ∷ seen_ids)
            (index + 1)
            ps
          ≡ none)
unfolding check_configs
check_configs_first seen seen_ids index p ps h =
    passes (check_config p) (has_bytes (resolve_provider_name p index) seen)
      (has_bytes (resolve_provider_id p index) seen_ids)
      (duplicate_name (resolve_provider_name p index)) (duplicate_id (resolve_provider_id p index))
      _ h

start_groups-IsUnique :
    (now : ℕ) (ps : List Config) (seen seen_ids : List Bytes) (r : Registry) (index : ℕ)
    → check_configs seen seen_ids index ps ≡ none
    → Covered seen seen_ids r
    → IsUnique (start_groups now r index ps)
unfolding start_groups
start_groups-IsUnique now [] seen seen_ids r index h (c, d) =
    ((λ s. ground (arith, c s)), (λ s. ground (arith, d s)))
start_groups-IsUnique now (p ∷ ps) seen seen_ids r index h (c, d) =
    let name = resolve_provider_name p index in
    let id = resolve_provider_id p index in
    let g = start_provider_group r.breaker_on index p index now in
    let (a, b, rest) = check_configs_first seen seen_ids index p ps h in
    start_groups-IsUnique now ps (name ∷ seen) (id ∷ seen_ids) (joined p.backup r g) (index + 1)
      rest
      (
        covered_next name_of p.backup r g name seen (started_name r.breaker_on index p index now) a
            c,
        covered_next id_of p.backup r g id seen_ids (started_id r.breaker_on index p index now) b d,
      )

abbrev registry_of : Registry → Created → Registry
registry_of r (created s) = s
registry_of r (rejected e) = r

built :
    (o : Option ConfigError) (s : Registry) (a b : Bool) (r : Registry)
    → (o ≡ none → IsUnique s)
    → (if a
        then rejected no_providers
        else if b
        then rejected no_main
        else (elim o [ some e ↦ rejected e | none ↦ created s ]))
      ≡ created r
    → IsUnique r
built none s false false r h e = subst IsUnique (ap (registry_of s) e) (h refl)
built none s true b r h e = ground arith
built none s false true r h e = ground arith
built (some x) s true b r h e = ground arith
built (some x) s false true r h e = ground arith
built (some x) s false false r h e = ground arith

new_client-IsUnique :
    (on : Bool) (ps : List Config) (now : ℕ) (r : Registry)
    → new_client on ps now ≡ created r
    → IsUnique r
unfolding new_client
new_client-IsUnique on ps now r e =
    built (check_configs [] [] 0 ps) (start_groups now (empty_registry on) 0 ps) (length ps == 0)
      (not (any_main ps)) r
      (λ p.
        start_groups-IsUnique now ps [] [] (empty_registry on) 0 p
          ((λ s. omega arith), (λ s. omega arith)))
      e

-- The registries that a client goes through, one call after the other: the code takes no lock for a
-- call as a whole.
pub data Reach : Registry → Type 0 where
  opened :
      (on : Bool) (ps : List Config) (now : ℕ) (r : Registry)
      → new_client on ps now ≡ created r
      → Reach r
  added : (r : Registry) (p : Config) (now : ℕ) → Reach r → Reach (add_provider r p now).0
  removed : (r : Registry) (name : Bytes) → Reach r → Reach (remove_provider r name).0
  renewed :
      (r : Registry) (name : Bytes) (now : ℕ) → Reach r → Reach (reset_provider_quota r name now).0
  closed : (r : Registry) → Reach r → Reach (close r)

-- Whatever providers a client is made with, and however providers are then added, removed and their
-- quotas renewed, as long as each of these calls is over before the next one starts, no two of the
-- client's main and backup providers have one name or one identity.
pub Reach-IsUnique : (r : Registry) → Reach r → IsUnique r
Reach-IsUnique r (opened on ps now _ e) = new_client-IsUnique on ps now r e
Reach-IsUnique _ (added r p now h) = add_provider-IsUnique r p now (Reach-IsUnique r h)
Reach-IsUnique _ (removed r name h) = remove_provider-IsUnique r name (Reach-IsUnique r h)
Reach-IsUnique _ (renewed r name now h) =
    reset_provider_quota-IsUnique r name now (Reach-IsUnique r h)
Reach-IsUnique _ (closed r h) = close-IsUnique r (Reach-IsUnique r h)
