-- ===== src/Send/Fuel.antt =====
-- Results of loops that run on fuel, for Send: `none` is a loop that has none left.
use nntppool.Base.{Option, none, some, ◌≡◌, refl}

infixl 10 ◌>>=◌
unfoldable pub ◌>>=◌ : {A B : Type 0} → Option A → (A → Option B) → Option B
◌>>=◌ none f = none
◌>>=◌ (some a) f = f a

-- A loop has had enough fuel, and its result is of the kind `P`.
abbrev pub Yields : {A : Type 0} → (A → Type 0) → Option A → Type 0
Yields P none = ⊥
Yields P (some a) = P a

pub bind-Yields :
    {A B : Type 0} (P : A → Type 0) (Q : B → Type 0) (o : Option A) (f : A → Option B)
    → Yields P o
    → ((a : A) → P a → Yields Q (f a))
    → Yields Q (o >>= f)
unfolding ◌>>=◌
bind-Yields P Q none f y h = y
bind-Yields P Q (some a) f y h = h a y

pub Yields-weaken :
    {A : Type 0} (P Q : A → Type 0) (o : Option A) → ((a : A) → P a → Q a) → Yields P o → Yields Q o
Yields-weaken P Q none h y = y
Yields-weaken P Q (some a) h y = h a y

pub Yields-result :
    {A : Type 0} (P : A → Type 0) (o : Option A) → Yields P o → (a : A) × (o ≡ some a) × P a
Yields-result P none y = elim y [ ]
Yields-result P (some a) y = (a, refl, y)

-- The result, if there is fuel for one, is of the kind `P`.
abbrev pub Partly : {A : Type 0} → (A → Type 0) → Option A → Type 0
Partly P none = Unit {0}
Partly P (some a) = P a

pub bind-Partly :
    {A B : Type 0} (P : A → Type 0) (Q : B → Type 0) (o : Option A) (f : A → Option B)
    → Partly P o
    → ((a : A) → P a → Partly Q (f a))
    → Partly Q (o >>= f)
unfolding ◌>>=◌
bind-Partly P Q none f y h = tt
bind-Partly P Q (some a) f y h = h a y
