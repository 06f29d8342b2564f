-- ===== src/Jinja/Identifiers/Scans.antt =====
-- Searches for the first character of a kind in a string made of two parts.
use coro_wayland.Base.{ℕ, ◌≡◌, refl, ap, Bool, true, false, List, [], ◌∷◌, ◌++◌}
use coro_wayland.Jinja.Identifiers.{before, from}

module _ (stop : ℕ → Bool) where
  -- No character ends a search.
  unfoldable pub Free : List ℕ → Type 0
  Free [] = Unit
  Free (c ∷ cs) = (stop c ≡ false) × Free cs

  -- The end of the string, or a character that ends a search.
  unfoldable pub Stops : List ℕ → Type 0
  Stops [] = Unit
  Stops (c ∷ cs) = stop c ≡ true

  pub before-append : (xs ys : List ℕ) → Free xs → Stops ys → before stop (xs ++ ys) ≡ xs
  unfolding before Free Stops
  before-append [] [] f s = refl
  before-append [] (y ∷ ys) f s = rw s
  before-append (x ∷ xs) ys f s = rw f.0 (ap (λ r. x ∷ r) (before-append xs ys f.1 s))

  pub from-append : (xs ys : List ℕ) → Free xs → Stops ys → from stop (xs ++ ys) ≡ ys
  unfolding from Free Stops
  from-append [] [] f s = refl
  from-append [] (y ∷ ys) f s = rw s
  from-append (x ∷ xs) ys f s = rw f.0 (from-append xs ys f.1 s)
