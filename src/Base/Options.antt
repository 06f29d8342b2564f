-- ===== src/Base/Options.antt =====
-- Chains of optional results, and what holds of a result that is there.
use mathlib.Core.Option.{Option, none, some}
use mathlib.Core.Path.{◌≡◌, ap, subst}

infixl 5 ◌>>=◌
abbrev pub ◌>>=◌ {ℓ κ} : {A : Type ℓ} {B : Type κ} → Option A → (A → Option B) → Option B
none >>= f = none
some a >>= f = f a

-- What is there has the property.
pub data OnSome {ℓ} {A : Type ℓ} (P : A → Type 0) : Option A → Type ℓ where
  absent : OnSome P none
  present : (a : A) → P a → OnSome P (some a)

pub bind-OnSome {ℓ κ} :
    {A : Type ℓ} {B : Type κ} {P : A → Type 0} {Q : B → Type 0} {o : Option A} (f : A → Option B)
    → OnSome P o
    → ((a : A) → P a → OnSome Q (f a))
    → OnSome Q (o >>= f)
bind-OnSome f absent k = absent
bind-OnSome f (present a p) k = k a p

pub any-OnSome {ℓ} : {A : Type ℓ} (o : Option A) → OnSome (λ a. Unit) o
any-OnSome none = absent
any-OnSome (some a) = present a tt

or_else {ℓ} : {A : Type ℓ} → A → Option A → A
or_else a none = a
or_else a (some b) = b

some_eq {ℓ} : {A : Type ℓ} (a b : A) → some a ≡ some b → a ≡ b
unfolding or_else
some_eq a b e = ap (or_else a) e

pub OnSome-some {ℓ} :
    {A : Type ℓ} {P : A → Type 0} {o : Option A} (a : A) → OnSome P o → o ≡ some a → P a
OnSome-some a absent e = absurd cc
OnSome-some {P = P} a (present b p) e = subst P (some_eq b a e) p
