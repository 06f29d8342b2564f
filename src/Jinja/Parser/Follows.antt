-- ===== src/Jinja/Parser/Follows.antt =====
-- Results of which the second is there when the first one is.
use coro_wayland.Base.{◌≡◌, refl, Bool, true, false, if◌then◌else◌}
use coro_wayland.Jinja.Errors.{Message, Result, ok, template_error, undefined, out_of_fuel, ◌>>=◌}
use coro_wayland.Jinja.{Location}
use mathlib.Core.Path.{subst}

unfoldable pub is_ok : {A : Type 0} → Result A → Bool
is_ok (ok a) = true
is_ok _ = false

-- The second result is there when the first one is, and they are related.
pub data Follows {A B : Type 0} (R : A → B → Type 0) : Result A → Result B → Type 0 where
  stops : (r : Result A) (s : Result B) → is_ok r ≡ false → Follows R r s
  goes : (a : A) (b : B) → R a b → Follows R (ok a) (ok b)

pub not_ok-bind :
    {A B : Type 0} (r : Result A) (f : A → Result B) → is_ok r ≡ false → is_ok (r >>= f) ≡ false
unfolding is_ok
not_ok-bind (ok a) f h = absurd cc
not_ok-bind (template_error m l) f h = refl
not_ok-bind undefined f h = refl
not_ok-bind out_of_fuel f h = refl

pub bind-Follows :
    {A B C D : Type 0} {R : A → B → Type 0} {S : C → D → Type 0} {r : Result A} {s : Result B}
    (f : A → Result C) (g : B → Result D)
    → Follows R r s
    → ((a : A) (b : B) → R a b → Follows S (f a) (g b))
    → Follows S (r >>= f) (s >>= g)
bind-Follows f g (stops r s h) k = stops _ _ (not_ok-bind r f h)
bind-Follows f g (goes a b p) k = k a b p

pub if-Follows :
    {A B : Type 0} {R : A → B → Type 0} (b : Bool) {r t : Result A} {s u : Result B}
    → (b ≡ true → Follows R r s)
    → (b ≡ false → Follows R t u)
    → Follows R (if b then r else t) (if b then s else u)
if-Follows true h k = h refl
if-Follows false h k = k refl

pub error-Follows :
    {A B : Type 0} {R : A → B → Type 0} (m : Message) (l : Location) (s : Result B)
    → Follows {A = A} R (template_error m l) s
unfolding is_ok
error-Follows m l s = stops _ s refl

pub undefined-Follows :
    {A B : Type 0} {R : A → B → Type 0} (s : Result B) → Follows {A = A} R undefined s
unfolding is_ok
undefined-Follows s = stops _ s refl

abbrev pub Same : {A : Type 0} → A → A → Type 0
Same a b = a ≡ b

pub bind-Same :
    {A C D : Type 0} {S : C → D → Type 0} {r s : Result A} (f : A → Result C) (g : A → Result D)
    → Follows Same r s
    → ((a : A) → Follows S (f a) (g a))
    → Follows S (r >>= f) (s >>= g)
bind-Same {S = S} f g h k = bind-Follows f g h (λ a b p. subst (λ c. Follows S (f a) (g c)) p (k a))
