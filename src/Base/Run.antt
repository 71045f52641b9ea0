-- ===== src/Base/Run.antt =====
-- The outcome of code that can fault or loop: a result, a fault (a dereference of NULL, an access
-- outside an array), or a loop that used up its fuel.
use mathlib.Core.Path.{◌≡◌, refl}

pub data Run (A : Type 0) : Type 0 where
  ok : A → Run A
  fault : Run A
  out_of_fuel : Run A

infixl 5 ◌>>=◌
abbrev pub ◌>>=◌ : {A B : Type 0} → Run A → (A → Run B) → Run B
ok a >>= f = f a
fault >>= f = fault
out_of_fuel >>= f = out_of_fuel

-- A run that ends, with a result of which `P` holds.
abbrev pub Returns : {A : Type 0} → (A → Type 0) → Run A → Type 0
Returns P (ok a) = P a
Returns P fault = ⊥
Returns P out_of_fuel = ⊥

-- A run behind another one.
pub Returns-bind :
    {A B : Type 0} (P : A → Type 0) (Q : B → Type 0) (r : Run A) (f : A → Run B)
    → Returns P r
    → ((a : A) → P a → Returns Q (f a))
    → Returns Q (r >>= f)
Returns-bind P Q (ok a) f h next = next a h
Returns-bind P Q fault f h next = h
Returns-bind P Q out_of_fuel f h next = h

pub Returns-mono :
    {A : Type 0} (P Q : A → Type 0) (r : Run A) → Returns P r → ((a : A) → P a → Q a) → Returns Q r
Returns-mono P Q (ok a) h weaken = weaken a h
Returns-mono P Q fault h weaken = h
Returns-mono P Q out_of_fuel h weaken = h

-- The result of a run that ends.
pub Returns-value :
    {A : Type 0} (P : A → Type 0) (r : Run A) → Returns P r → (a : A) × (r ≡ ok a) × P a
Returns-value P (ok a) h = (a, refl, h)
Returns-value P fault h = absurd h
Returns-value P out_of_fuel h = absurd h

pub bind_assoc :
    {A B C : Type 0} (r : Run A) (f : A → Run B) (g : B → Run C)
    → ((r >>= f) >>= g) ≡ (r >>= λ a. f a >>= g)
bind_assoc (ok a) f g = refl
bind_assoc fault f g = refl
bind_assoc out_of_fuel f g = refl

pub bind_cong :
    {A B : Type 0} (r : Run A) (f g : A → Run B) → ((a : A) → f a ≡ g a) → (r >>= f) ≡ (r >>= g)
bind_cong (ok a) f g same = same a
bind_cong fault f g same = refl
bind_cong out_of_fuel f g same = refl

-- Of every result `P` holds.
abbrev pub Whenever : {A : Type 0} → (A → Type 0) → Run A → Type 0
Whenever P (ok a) = P a
Whenever P fault = Unit
Whenever P out_of_fuel = Unit

pub Whenever-bind :
    {A B : Type 0} (P : B → Type 0) (r : Run A) (f : A → Run B)
    → ((a : A) → Whenever P (f a))
    → Whenever P (r >>= f)
Whenever-bind P (ok a) f h = h a
Whenever-bind P fault f h = tt
Whenever-bind P out_of_fuel f h = tt

-- A run that ends has the properties of every result.
pub Returns-Whenever :
    {A : Type 0} (P Q : A → Type 0) (r : Run A)
    → Returns P r
    → Whenever Q r
    → Returns (λ a. P a × Q a) r
Returns-Whenever P Q (ok a) h w = (h, w)
Returns-Whenever P Q fault h w = h
Returns-Whenever P Q out_of_fuel h w = h

pub Whenever-all : {A : Type 0} (P : A → Type 0) (r : Run A) → ((a : A) → P a) → Whenever P r
Whenever-all P (ok a) h = h a
Whenever-all P fault h = tt
Whenever-all P out_of_fuel h = tt
