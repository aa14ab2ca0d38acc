-- ===== src/Prelude/Outcome.antt =====
-- The outcome of a run of C code, with its bind.
use mathlib.Core.Path.{◌≡◌, refl, subst, ap, sym, ◌∙◌}
use mathlib.Core.Option.{Option, none, some}

-- `exited`: the program called `exit`. `hung`: it waits on a semaphore that nobody can post while it
-- runs, or for a key that never comes. `fault`: undefined behaviour (a bad pointer, an uninitialised value, signed overflow).
pub data Run {ℓ} (A : Type ℓ) : Type ℓ where
  ok : A → Run A
  exited : Run A
  hung : Run A
  fault : Run A

infixl 5 ◌>>=◌ ◌>>◌
abbrev pub ◌>>=◌ {ℓ κ} : {A : Type ℓ} {B : Type κ} → Run A → (A → Run B) → Run B
ok a >>= f = f a
exited >>= f = exited
hung >>= f = hung
fault >>= f = fault

abbrev pub ◌>>◌ {ℓ} : {B : Type ℓ} → Run (Unit {0}) → Run B → Run B
m >> k = m >>= λ _. k

-- Reading through a pointer or an index that may be bad.
abbrev pub or_fault {ℓ} : {A : Type ℓ} → Option A → Run A
or_fault none = fault
or_fault (some a) = ok a

-- A test that ends the program if it fails.
abbrev pub or_exit {ℓ} : {A : Type ℓ} → Option A → Run A
or_exit none = exited
or_exit (some a) = ok a

-- A run returns, and what it returns has the property.
abbrev pub Returns {ℓ κ} : {A : Type ℓ} → (A → Type κ) → Run A → Type (ℓ ⊔ κ)
Returns {A = A} P r = (a : A) × (r ≡ ok a) × P a

abbrev result_or {ℓ} : {A : Type ℓ} → A → Run A → A
result_or d (ok a) = a
result_or d exited = d
result_or d hung = d
result_or d fault = d

-- A run returns one thing only, so what two theorems say of it holds together.
pub Returns-and {ℓ κ} :
    {A : Type ℓ} {P Q : A → Type κ} {m : Run A}
    → Returns P m
    → Returns Q m
    → Returns (λ a. P a × Q a) m
Returns-and {Q = Q} (a, e, p) (b, e', q) = (a, e, (p, subst Q (ap (result_or a) (sym e' ∙ e)) q))

-- What a theorem says of the result, for the result that is known.
pub Returns-ok {ℓ κ} :
    {A : Type ℓ} {P : A → Type κ} {m : Run A} (a : A) → Returns P m → m ≡ ok a → P a
Returns-ok {P = P} a (b, e, p) h = subst P (ap (result_or a) (sym e ∙ h)) p

-- What a run of two parts gives, its first part gave to the second.
pub bind_cases {ℓ κ} :
    {A : Type ℓ} {B : Type κ} (m : Run A) (f : A → Run B) (b : B)
    → m >>= f ≡ ok b
    → (a : A) × (m ≡ ok a) × (f a ≡ ok b)
bind_cases (ok a) f b h = (a, refl, h)
bind_cases exited f b h = cc
bind_cases hung f b h = cc
bind_cases fault f b h = cc

-- A run gives one result only.
pub ok-inj {ℓ} : {A : Type ℓ} (a b : A) → ok a ≡ ok b → a ≡ b
ok-inj a b e = ap (result_or a) e
