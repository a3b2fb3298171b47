-- ===== src/Registry/Replace.antt =====
-- A provider that is added, and removed again.
use nntppool.Base.{
  ℕ, ◌+◌, Bool, true, false, ◌||◌, Option, none, some, List, [], ◌∷◌, ◌++◌, ◌≡◌, refl, ap, ◌∙◌,
  arith, if◌then◌else◌, Bytes, bytes_eq, bytes_eq_iff,
}
use nntppool.Registry.{
  Config, Group, Registry, start_provider_group, resolve_provider_name, resolve_provider_id,
  ConfigError, duplicate_name, check_config, clashes, add_provider, take_out, retire,
  remove_provider,
}
use nntppool.Registry.Unique.{started_name, joined, neither}

take_out-none :
    (name id : Bytes) (gs : List Group) → clashes name id gs ≡ false → take_out name gs ≡ none
unfolding take_out
take_out-none name id [] c = refl
take_out-none name id (g ∷ gs) c = ground (arith, take_out-none name id gs)

take_out-last :
    (name id : Bytes) (gs : List Group) (g : Group)
    → clashes name id gs ≡ false
    → bytes_eq g.name name ≡ true
    → take_out name (gs ++ g ∷ []) ≡ some (g, gs)
unfolding take_out
take_out-last name id [] g c e = ground arith
take_out-last name id (h ∷ gs) g c e = ground (arith, take_out-last name id gs g)

-- What `remove_provider` makes of what it takes out of the mains and of the backups.
abbrev picked :
    Registry → Option (Group × List Group) → Option (Group × List Group) → Registry × Bool
picked r o o' = elim o [
  | some (g, gs) ↦ (record r { mains = gs; retired = retire g ∷ r.retired }, true)
  | none ↦ elim o' [
    | some (g, gs) ↦ (record r { backups = gs; retired = retire g ∷ r.retired }, true)
    | none ↦ (r, false)
  ]
]

joined-remove :
    (r : Registry) (backup : Bool) (name id : Bytes) (g : Group)
    → (clashes name id r.mains || clashes name id r.backups) ≡ false
    → bytes_eq g.name name ≡ true
    → remove_provider (joined backup r g) name ≡ (record r { retired = retire g ∷ r.retired }, true)
unfolding remove_provider
joined-remove r true name id g c e =
    let (m, b) = neither (clashes name id r.mains) (clashes name id r.backups) c in
    ap (λ o. picked (joined true r g) o (take_out name (r.backups ++ g ∷ [])))
      (take_out-none name id r.mains m)
    ∙ ap (picked (joined true r g) none) (take_out-last name id r.backups g b e)
joined-remove r false name id g c e =
    let (m, b) = neither (clashes name id r.mains) (clashes name id r.backups) c in
    ap (λ o. picked (joined false r g) o (take_out name r.backups))
      (take_out-last name id r.mains g m e)

-- A provider that was added can be removed by its name: all others stay as they were, in their order,
-- and the group, with its gate stopped, joins those that were removed.
pub add_provider-remove :
    (r : Registry) (p : Config) (now : ℕ)
    → (add_provider r p now).1 ≡ none
    → let index = r.provider_idx + 1 in
      remove_provider (add_provider r p now).0 (resolve_provider_name p index) ≡ (
        record r {
          provider_idx = index;
          retired = retire (start_provider_group r.breaker_on index p index now) ∷ r.retired;
        },
        true,
      )
unfolding add_provider
add_provider-remove r p now h =
    let index = r.provider_idx + 1 in
    let name = resolve_provider_name p index in
    let id = resolve_provider_id p index in
    let g = start_provider_group r.breaker_on index p index now in
    let r1 : Registry = record r { provider_idx = index } in
    let e : bytes_eq g.name name ≡ true =
      (bytes_eq_iff g.name name).1 (started_name r.breaker_on index p index now) in
    accepted (check_config p) (clashes name id r.mains || clashes name id r.backups) p.backup r1 g
      name h (λ c. joined-remove r1 p.backup name id g c e)
  where
    accepted :
        (o : Option ConfigError) (c backup : Bool) (r1 : Registry) (g : Group) (name : Bytes)
        → (elim o as (λ _. Registry × Option ConfigError) [
          | some x ↦ (r, some x)
          | none ↦
              if c
              then (r1, some (duplicate_name name))
              else if backup
              then (record r1 { backups = r1.backups ++ g ∷ [] }, none)
              else (record r1 { mains = r1.mains ++ g ∷ [] }, none)
        ]).1
          ≡ none
        → (c ≡ false
            → remove_provider (joined backup r1 g) name
              ≡ (record r1 { retired = retire g ∷ r1.retired }, true))
        → remove_provider
            (elim o as (λ _. Registry × Option ConfigError) [
              | some x ↦ (r, some x)
              | none ↦
                  if c
                  then (r1, some (duplicate_name name))
                  else if backup
                  then (record r1 { backups = r1.backups ++ g ∷ [] }, none)
                  else (record r1 { mains = r1.mains ++ g ∷ [] }, none)
            ]).0
            name
          ≡ (record r1 { retired = retire g ∷ r1.retired }, true)
    accepted (some x) c backup r1 g name h k = ground arith
    accepted none true backup r1 g name h k = ground arith
    accepted none false true r1 g name h k = k refl
    accepted none false false r1 g name h k = k refl
