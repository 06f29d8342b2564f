-- ===== src/Jinja/Contexts/Fuel.antt =====
-- Looking up a path ends.
use coro_wayland.Base.{
  ℕ, zero, suc, ◌≤◌, ◌<◌, ◌≢◌, arith, Bool, true, false, Option, none, some, List, [], ◌∷◌, length,
  drop, length-drop, ◌==◌, if◌then◌else◌, not, leb, ◌^◌,
}
use coro_wayland.Jinja.{Location}
use coro_wayland.Jinja.Identifiers.{is_digit, ends_part, before, from, is_empty}
use coro_wayland.Jinja.Lexer.Spelling.{length-from}
use coro_wayland.Jinja.Contexts.{
  Context, string, object, array, Items, find, get_item, Outcome, value, render_error, no_fuel,
  ◌>>=◌, RenderMessage, digits_value, stoul, is_bracket, next_identifier, Walk, step_object,
  step_item, step_index, step_bracket, walk_array, step_variable, step_found, step_member, walk,
  get_destination_context,
}

-- A result that is there, or an exception.
pub data Settled {ℓ} {A : Type ℓ} : Outcome A → Type ℓ where
  gives : (a : A) → Settled (value a)
  throws : (m : RenderMessage) (at : Location) → Settled (render_error m at)

pub Settled-no_fuel {ℓ} : {A : Type ℓ} {r : Outcome A} → Settled r → r ≢ no_fuel
Settled-no_fuel (gives a) e = cc
Settled-no_fuel (throws m at) e = cc

pub if-Settled {ℓ} :
    {A : Type ℓ} (b : Bool) {r s : Outcome A} → Settled r → Settled s → Settled (if b then r else s)
if-Settled true p q = p
if-Settled false p q = q

pub bind-Settled {ℓ κ} :
    {A : Type ℓ} {B : Type κ} {r : Outcome A} (f : A → Outcome B)
    → Settled r
    → ((a : A) → Settled (f a))
    → Settled (r >>= f)
bind-Settled f (gives a) k = k a
bind-Settled f (throws m at) k = throws m at

-- A walk that ends on paths of length up to `n`.
abbrev pub EndsTo : ℕ → Walk → Type 0
EndsTo n again = (c : Context) (path : List ℕ) (i : ℕ) → length path ≤ n → Settled (again c path i)

stoul-Settled : (at : Location) (cs : List ℕ) → Settled (stoul at cs)
unfolding stoul
stoul-Settled at [] = throws _ _
stoul-Settled at (c ∷ cs) =
    if-Settled (not (is_digit c)) (throws _ _)
      (if-Settled (leb (2 ^ 64) (digits_value (c ∷ cs) 0)) (throws _ _) (gives _))

shorter : (path : List ℕ) → length (drop 1 (from is_bracket path)) ≤ length path
shorter path = omega (arith, length-drop 1 (from is_bracket path), length-from is_bracket path)

module _ (at : Location) (again : Walk) where
  step_object-Settled :
      (n : ℕ)
      → EndsTo n again
      → (c : Context) (path : List ℕ) (i j : ℕ) → length path ≤ suc n
      → Settled (step_object at again c path i j)
  unfolding step_object
  step_object-Settled n more c [] i j h = throws _ _
  step_object-Settled n more c (d ∷ path) i j h =
      if-Settled (d == b'.') (more c path j (omega (arith, h))) (throws _ _)

  step_index-Settled :
      (n : ℕ)
      → EndsTo n again
      → (again_array : Items → List ℕ → ℕ → Outcome (Option Context)) (path : List ℕ)
      → length path ≤ suc n
      → ((entries : Items) (j : ℕ) → Settled (again_array entries path j))
      → (found : Option Context) (i w : ℕ)
      → Settled (step_index at again again_array found path i w)
  unfolding step_index step_item
  step_index-Settled n more ag path h inner none i w = throws _ _
  step_index-Settled n more ag path h inner (some (string s)) i w =
      if-Settled (is_empty path) (gives _) (throws _ _)
  step_index-Settled n more ag path h inner (some (object members)) i w =
      step_object-Settled n more (object members) path _ _ h
  step_index-Settled n more ag path h inner (some (array entries)) i w = inner entries _

  walk_array-Settled :
      (n : ℕ)
      → EndsTo n again
      → (k : ℕ) (entries : Items) (path : List ℕ) (i : ℕ) → length path < k
      → length path ≤ suc n
      → Settled (walk_array at again k entries path i)
  unfolding walk_array step_bracket
  walk_array-Settled n more zero entries path i h b = absurd (omega arith)
  walk_array-Settled n more (suc k) entries [] i h b = throws _ _
  walk_array-Settled n more (suc k) entries (c ∷ path) i h b =
      let rest = drop 1 (from is_bracket path) in
      if-Settled (c == b'[')
        (if-Settled (is_empty (from is_bracket path)) (throws _ _) (
          bind-Settled _ (stoul-Settled at (before is_bracket path)) (λ j.
            step_index-Settled n more (walk_array at again k) rest (omega (arith, b, shorter path))
              (λ inner m.
                walk_array-Settled n more k inner rest m (omega (arith, h, shorter path))
                  (omega (arith, b, shorter path)))
              (get_item entries j) _ _)))
        (throws _ _)

  step_variable-Settled :
      (n : ℕ)
      → EndsTo n again
      → (c : Context) (path : List ℕ) (i w : ℕ) → length path ≤ suc n
      → Settled (step_variable at again c path i w)
  unfolding step_variable
  step_variable-Settled n more c [] i w h = gives _
  step_variable-Settled n more (string s) (d ∷ path) i w h = throws _ _
  step_variable-Settled n more (object members) (d ∷ path) i w h =
      step_object-Settled n more (object members) (d ∷ path) _ _ h
  step_variable-Settled n more (array entries) (d ∷ path) i w h =
      walk_array-Settled n more (suc (length (d ∷ path))) entries (d ∷ path) _ (omega arith) h

  step_found-Settled :
      (n : ℕ)
      → EndsTo n again
      → (found : Option Context) (path : List ℕ) (i w : ℕ) → length path ≤ suc n
      → Settled (step_found at again found path i w)
  unfolding step_found
  step_found-Settled n more none path i w h = gives _
  step_found-Settled n more (some c) path i w h = step_variable-Settled n more c path i w h

step_member-Settled :
    (at : Location) (again : Walk) (n : ℕ)
    → EndsTo n again
    → (c : Context) (path : List ℕ) (i : ℕ) → length path ≤ suc n
    → Settled (step_member at again c path i)
unfolding step_member
step_member-Settled at again n more (string s) path i h = throws _ _
step_member-Settled at again n more (array entries) path i h = throws _ _
step_member-Settled at again n more (object members) path i h =
    step_found-Settled at again n more (find members (next_identifier path)) (from ends_part path) i
      _ (omega (arith, h, length-from ends_part path))

walk-Settled :
    (at : Location) (k : ℕ) (c : Context) (path : List ℕ) (i : ℕ)
    → length path < k
    → Settled (walk at k c path i)
unfolding walk
walk-Settled at zero c path i h = absurd (omega arith)
walk-Settled at (suc k) c [] i h = gives _
walk-Settled at (suc k) c (d ∷ path) i h =
    step_member-Settled at (walk at k) (length path)
      (λ e rest j p. walk-Settled at k e rest j (omega (arith, h, p))) c (d ∷ path) i (omega arith)

pub get_destination_context-Settled :
    (c : Context) (path : List ℕ) (at : Location) → Settled (get_destination_context c path at)
unfolding get_destination_context
get_destination_context-Settled c path at =
    walk-Settled at (suc (length path)) c path 0 (omega arith)
