-- ===== src/Registry/Unique.antt =====
-- No two providers of a client have one name or one identity.
use nntppool.Base.{
  ℕ, ◌+◌, ◌≤◌, Bool, true, false, ◌||◌, Option, none, some, List, [], ◌∷◌, ◌++◌, map, ◌≡◌, refl,
  sym, ap, ◌∙◌, arith, if_both, if_split, option_both, if◌then◌else◌, Bytes, bytes_eq, bytes_eq_iff,
}
use nntppool.Registry.{
  Config, Group, Registry, start_provider_group, resolve_provider_name, resolve_provider_id,
  ConfigError, check_config, clashes, add_provider, take_out, retire, remove_provider, reset_first,
  reset_provider_quota, close,
}

-- How often a key stands in a list.
abbrev pub bit : Bool → ℕ
bit true = 1
bit false = 0

abbrev pub times : (Group → Bytes) → Bytes → List Group → ℕ
times key s [] = 0
times key s (g ∷ gs) = bit (bytes_eq (key g) s) + times key s gs

abbrev pub name_of : Group → Bytes
name_of g = g.name

abbrev pub id_of : Group → Bytes
id_of g = g.id

-- Among the mains and the backups together, every name and every identity stands once at most.
abbrev pub IsUnique : Registry → Type 0
IsUnique r =
    ((s : Bytes) → times name_of s r.mains + times name_of s r.backups ≤ 1)
    × ((s : Bytes) → times id_of s r.mains + times id_of s r.backups ≤ 1)

times-append :
    (key : Group → Bytes) (s : Bytes) (xs ys : List Group)
    → times key s (xs ++ ys) ≡ times key s xs + times key s ys
times-append key s [] ys = omega arith
times-append key s (g ∷ gs) ys = omega (arith, times-append key s gs ys)

-- A key that clashes with none is not there, under any name that equals it.
bytes_eq_trans : (a b c : Bytes) → bytes_eq a c ≡ true → bytes_eq b c ≡ true → bytes_eq a b ≡ true
bytes_eq_trans a b c h k =
    (bytes_eq_iff a b).1 ((bytes_eq_iff a c).0 h ∙ sym ((bytes_eq_iff b c).0 k))

clashes_names :
    (name id s : Bytes) (gs : List Group)
    → clashes name id gs ≡ false
    → bytes_eq name s ≡ true
    → times name_of s gs ≡ 0
clashes_names name id s [] c e = refl
clashes_names name id s (g ∷ gs) c e =
    ground (arith, clashes_names name id s gs, bytes_eq_trans g.name name s)

clashes_ids :
    (name id s : Bytes) (gs : List Group)
    → clashes name id gs ≡ false
    → bytes_eq id s ≡ true
    → times id_of s gs ≡ 0
clashes_ids name id s [] c e = refl
clashes_ids name id s (g ∷ gs) c e =
    ground (arith, clashes_ids name id s gs, bytes_eq_trans g.id id s)

pub started_name :
    (on : Bool) (a : ℕ) (p : Config) (index now : ℕ)
    → (start_provider_group on a p index now).name ≡ resolve_provider_name p index
unfolding start_provider_group
started_name on a p index now = refl

pub started_id :
    (on : Bool) (a : ℕ) (p : Config) (index now : ℕ)
    → (start_provider_group on a p index now).id ≡ resolve_provider_id p index
unfolding start_provider_group
started_id on a p index now = refl

-- One more group, whose name and identity are new, among the mains or the backups.
abbrev pub joined : Bool → Registry → Group → Registry
joined backup r g =
    if backup
    then record r { backups = r.backups ++ g ∷ [] }
    else record r { mains = r.mains ++ g ∷ [] }

pub times-joined :
    (key : Group → Bytes) (s : Bytes) (backup : Bool) (r : Registry) (g : Group)
    → times key s (joined backup r g).mains + times key s (joined backup r g).backups
      ≡ bit (bytes_eq (key g) s) + (times key s r.mains + times key s r.backups)
times-joined key s true r g = omega (arith, times-append key s r.backups (g ∷ []))
times-joined key s false r g = omega (arith, times-append key s r.mains (g ∷ []))

fresh :
    (key : Group → Bytes) (backup : Bool) (r : Registry) (g : Group)
    → ((s : Bytes) → times key s r.mains + times key s r.backups ≤ 1)
    → ((s : Bytes) → bytes_eq (key g) s ≡ true → times key s r.mains + times key s r.backups ≡ 0)
    → (s : Bytes)
    → times key s (joined backup r g).mains + times key s (joined backup r g).backups ≤ 1
fresh key backup r g u n s = ground (arith, times-joined key s backup r g, u s, n s)

pub neither : (a b : Bool) → (a || b) ≡ false → (a ≡ false) × (b ≡ false)
neither a b h = ground arith

joined-IsUnique :
    (r : Registry) (backup : Bool) (name id : Bytes) (g : Group)
    → g.name ≡ name
    → g.id ≡ id
    → (clashes name id r.mains || clashes name id r.backups) ≡ false
    → IsUnique r
    → IsUnique (joined backup r g)
joined-IsUnique r backup name id g n i c (u, v) =
    let (cm, cb) = neither (clashes name id r.mains) (clashes name id r.backups) c in
    (
      fresh name_of backup r g u (λ s e.
          let e' = ap (λ z. bytes_eq z s) (sym n) ∙ e in
          omega (
            arith,
            clashes_names name id s r.mains cm e',
            clashes_names name id s r.backups cb e',
          )),
      fresh id_of backup r g v (λ s e.
          let e' = ap (λ z. bytes_eq z s) (sym i) ∙ e in
          omega
            (arith, clashes_ids name id s r.mains cm e', clashes_ids name id s r.backups cb e')),
    )

pub add_provider-IsUnique :
    (r : Registry) (p : Config) (now : ℕ) → IsUnique r → IsUnique (add_provider r p now).0
unfolding add_provider
add_provider-IsUnique r p now u =
    let P : Registry × Option ConfigError → Type 0 = λ z. IsUnique z.0 in
    let index = r.provider_idx + 1 in
    let name = resolve_provider_name p index in
    let id = resolve_provider_id p index in
    let g = start_provider_group r.breaker_on index p index now in
    let c = clashes name id r.mains || clashes name id r.backups in
    let n = started_name r.breaker_on index p index now in
    let i = started_id r.breaker_on index p index now in
    option_both P (check_config p)
      (if_split P c (λ h. u)
        λ h.
          if_both P p.backup (joined-IsUnique r true name id g n i h u)
            (joined-IsUnique r false name id g n i h u))
      (λ e. u)

abbrev TakenFrom : List Group → Option (Group × List Group) → Type 0
TakenFrom gs none = Unit {0}
TakenFrom gs (some (h, hs)) =
    (key : Group → Bytes) (s : Bytes) → times key s gs ≡ bit (bytes_eq (key h) s) + times key s hs

take_out_lem : (name : Bytes) (gs : List Group) → TakenFrom gs (take_out name gs)
unfolding take_out
take_out_lem name [] = tt
take_out_lem name (g ∷ gs) =
    if_both (TakenFrom (g ∷ gs)) (bytes_eq g.name name) (λ key s. refl)
      (further (take_out name gs) (take_out_lem name gs))
  where
    further :
        (o : Option (Group × List Group))
        → TakenFrom gs o
        → TakenFrom (g ∷ gs) (elim o [ none ↦ none | some (h, hs) ↦ some (h, g ∷ hs) ])
    further none t = tt
    further (some (h, hs)) t = λ key s. omega (arith, t key s)

pub remove_provider-IsUnique :
    (r : Registry) (name : Bytes) → IsUnique r → IsUnique (remove_provider r name).0
unfolding remove_provider
remove_provider-IsUnique r name u =
    go (take_out name r.mains) (take_out name r.backups) (take_out_lem name r.mains)
      (take_out_lem name r.backups)
  where
    go :
        (o o' : Option (Group × List Group))
        → TakenFrom r.mains o
        → TakenFrom r.backups o'
        → IsUnique
            (elim o as (λ _. Registry × Bool) [
              | some (g, gs) ↦ (record r { mains = gs; retired = retire g ∷ r.retired }, true)
              | none ↦ elim o' [
                | some (g, gs) ↦ (record r { backups = gs; retired = retire g ∷ r.retired }, true)
                | none ↦ (r, false)
              ]
            ]).0
    go (some (g, gs)) o' t t' =
        ((λ s. omega (arith, t name_of s, u.0 s)), (λ s. omega (arith, t id_of s, u.1 s)))
    go none (some (g, gs)) t t' =
        ((λ s. omega (arith, t' name_of s, u.0 s)), (λ s. omega (arith, t' id_of s, u.1 s)))
    go none none t t' = u

-- A change that keeps names and identities.
abbrev Renames : List Group → Option (List Group) → Type 0
Renames gs none = Unit {0}
Renames gs (some hs) =
    (s : Bytes) → (times name_of s hs ≡ times name_of s gs) × (times id_of s hs ≡ times id_of s gs)

reset_first_lem : (name : Bytes) (now : ℕ) (gs : List Group) → Renames gs (reset_first name now gs)
unfolding reset_first
reset_first_lem name now [] = tt
reset_first_lem name now (g ∷ gs) =
    if_both (Renames (g ∷ gs)) (bytes_eq g.name name) (λ s. (refl, refl))
      (further (reset_first name now gs) (reset_first_lem name now gs))
  where
    further :
        (o : Option (List Group))
        → Renames gs o
        → Renames (g ∷ gs) (elim o [ none ↦ none | some hs ↦ some (g ∷ hs) ])
    further none t = tt
    further (some hs) t = λ s. (omega (arith, (t s).0), omega (arith, (t s).1))

pub reset_provider_quota-IsUnique :
    (r : Registry) (name : Bytes) (now : ℕ)
    → IsUnique r
    → IsUnique (reset_provider_quota r name now).0
unfolding reset_provider_quota
reset_provider_quota-IsUnique r name now u =
    go (reset_first name now r.mains) (reset_first name now r.backups)
      (reset_first_lem name now r.mains) (reset_first_lem name now r.backups)
  where
    go :
        (o o' : Option (List Group))
        → Renames r.mains o
        → Renames r.backups o'
        → IsUnique
            (elim o as (λ _. Registry × Bool) [
              | some gs ↦ (record r { mains = gs }, true)
              | none ↦ elim o' [ some gs ↦ (record r { backups = gs }, true) | none ↦ (r, false) ]
            ]).0
    go (some gs) o' t t' =
        ((λ s. omega (arith, (t s).0, u.0 s)), (λ s. omega (arith, (t s).1, u.1 s)))
    go none (some gs) t t' =
        ((λ s. omega (arith, (t' s).0, u.0 s)), (λ s. omega (arith, (t' s).1, u.1 s)))
    go none none t t' = u

times-retire :
    (s : Bytes) (gs : List Group)
    → (times name_of s (map retire gs) ≡ times name_of s gs)
      × (times id_of s (map retire gs) ≡ times id_of s gs)
times-retire s [] = (refl, refl)
times-retire s (g ∷ gs) =
    (omega (arith, (times-retire s gs).0), omega (arith, (times-retire s gs).1))

pub close-IsUnique : (r : Registry) → IsUnique r → IsUnique (close r)
unfolding close
close-IsUnique r u = (
  λ s. omega (arith, (times-retire s r.mains).0, (times-retire s r.backups).0, u.0 s),
  λ s. omega (arith, (times-retire s r.mains).1, (times-retire s r.backups).1, u.1 s),
)
