-- ===== src/Strand/Invariant.antt =====
-- The lock is free, held, or handed to the coroutine at the front of the queue.
use coro_wayland.Base.{
  ℕ, ◌≡◌, ◌≢◌, ◌⊎◌, inl, inr, refl, sym, ap, ◌∙◌, arith, Bool-cases, Option, none, some, List, [],
  ◌∷◌, ◌++◌, ◌==◌, ==_iff,
}
use mathlib.Core.Path.{subst}
use coro_wayland.Strand.{
  Place, entering, waiting, holding, releasing, Strand, update, move, enter_queue, enter,
}
use coro_wayland.Strand.Waiting.{
  Present, Line, update_self, update_ne, Line-update, Absent-Line, Line-append, Present-append,
  Present-last,
}

-- In the receiver, or behind it and still in the lock.
abbrev pub Inside : Place → Type 0
Inside holding = Unit
Inside releasing = Unit
Inside _ = ⊥

abbrev pub OnlyInside : (ℕ → Place) → (ℕ → Type 0) → Type 0
OnlyInside places K = (i : ℕ) → Inside (places i) → K i

abbrev pub Waiters : (ℕ → Place) → List (Option ℕ) → Type 0
Waiters places xs = (i : ℕ) → places i ≡ waiting → Present i xs

pub data Inv : Strand → Type 0 where
  free :
      (places : ℕ → Place)
      → OnlyInside places (λ i. ⊥)
      → Waiters places []
      → Inv (record { queue = []; wakes = 0; places = places })
  held :
      (places : ℕ → Place) (h : ℕ) (x : Option ℕ) (xs : List (Option ℕ))
      → Inside (places h)
      → OnlyInside places (λ i. i ≡ h)
      → Line places xs
      → Waiters places xs
      → Inv (record { queue = x ∷ xs; wakes = 0; places = places })
  handed :
      (places : ℕ → Place) (j : ℕ) (xs : List (Option ℕ))
      → OnlyInside places (λ i. ⊥)
      → Line places (some j ∷ xs)
      → Waiters places (some j ∷ xs)
      → Inv (record { queue = some j ∷ xs; wakes = 1; places = places })

same-or : (i j : ℕ) → (i ≡ j) ⊎ (i ≢ j)
same-or i j = elim (Bool-cases (i == j)) [
  | inl e ↦ inl ((==_iff i j).0 e)
  | inr e ↦ inr (λ g. absurd (ground (arith, e, g)))
]

module _ (places : ℕ → Place) (i : ℕ) (p : Place) where
  -- After a move of `i`, a coroutine inside is `i` or was inside before; likewise one that waits.
  pub only-update :
      (K L : ℕ → Type 0)
      → OnlyInside places K
      → (Inside p → L i)
      → ((j : ℕ) → i ≢ j → K j → L j)
      → OnlyInside (update places i p) L
  only-update K L only new old j inside = elim (same-or i j) [
    | inl e ↦
        subst L e
          (new (subst Inside (ap (update places i p) (sym e) ∙ update_self places i p) inside))
    | inr h ↦ old j h (only j (subst Inside (update_ne places i j p h) inside))
  ]

  pub Waiters-update :
      (xs ys : List (Option ℕ))
      → Waiters places xs
      → (p ≡ waiting → Present i ys)
      → ((j : ℕ) → i ≢ j → Present j xs → Present j ys)
      → Waiters (update places i p) ys
  Waiters-update xs ys all new old j w = elim (same-or i j) [
    | inl e ↦
        subst (λ k. Present k ys) e
          (new (sym (update_self places i p) ∙ ap (update places i p) e ∙ w))
    | inr h ↦ old j h (all j (sym (update_ne places i j p h) ∙ w))
  ]

  Inside-ne : (h : ℕ) → (Inside (places i) → ⊥) → Inside (places h) → i ≢ h
  Inside-ne h out inside e = out (subst (λ k. Inside (places k)) (sym e) inside)

  stays-Inside : (h : ℕ) → i ≢ h → Inside (places h) → Inside (update places i p h)
  stays-Inside h apart inside = subst Inside (sym (update_ne places i h p apart)) inside

-- A coroutine that neither is in the lock nor waits for it moves to such a place.
pub move-Inv :
    (s : Strand) (i : ℕ) (p : Place)
    → Inv s
    → (Inside (s.places i) → ⊥)
    → s.places i ≢ waiting
    → (Inside p → ⊥)
    → p ≢ waiting
    → Inv (move s i p)
unfolding move
move-Inv _ i p (free places only all) out idle out' idle' =
    free (update places i p) (only-update places i p (λ j. ⊥) (λ j. ⊥) only out' (λ j h k. k))
      (Waiters-update places i p [] [] all (λ e. absurd (idle' e)) (λ j h k. k))
move-Inv _ i p (held places h x xs inside only line all) out idle out' idle' =
    held (update places i p) h x xs
      (stays-Inside places i p h (Inside-ne places i p h out inside) inside)
      (only-update places i p (λ j. j ≡ h) (λ j. j ≡ h) only (λ k. absurd (out' k)) (λ j g k. k))
      (Line-update places i p xs (Absent-Line places i xs idle line) line)
      (Waiters-update places i p xs xs all (λ e. absurd (idle' e)) (λ j g k. k))
move-Inv _ i p (handed places j xs only line all) out idle out' idle' =
    handed (update places i p) j xs
      (only-update places i p (λ k. ⊥) (λ k. ⊥) only out' (λ k h l. l))
      (Line-update places i p (some j ∷ xs) (Absent-Line places i (some j ∷ xs) idle line) line)
      (Waiters-update places i p (some j ∷ xs) (some j ∷ xs) all (λ e. absurd (idle' e))
        (λ k h l. l))

pub not-Inside : (p q : Place) → p ≡ q → (Inside q → ⊥) → Inside p → ⊥
not-Inside p q e h inside = h (subst Inside e inside)

pub enter-Inv : (s : Strand) (i : ℕ) → Inv s → s.places i ≡ entering → Inv (enter s i)
unfolding enter enter_queue move Present Line
enter-Inv _ i (free places only all) e =
    held (update places i holding) i none [] (subst Inside (sym (update_self places i holding)) tt)
      (only-update places i holding (λ j. ⊥) (λ j. j ≡ i) only (λ k. refl) (λ j h k. absurd k)) tt
      (Waiters-update places i holding [] [] all (λ g. absurd cc) (λ j h k. k))
enter-Inv _ i (held places h x xs inside only line all) e =
    held (update places i waiting) h x (xs ++ some i ∷ [])
      (stays-Inside places i waiting h
        (Inside-ne places i waiting h (not-Inside (places i) entering e (λ k. k)) inside) inside)
      (only-update places i waiting (λ j. j ≡ h) (λ j. j ≡ h) only (λ k. absurd k) (λ j g k. k))
      (Line-append places i xs (λ g. absurd cc) line)
      (Waiters-update places i waiting xs (xs ++ some i ∷ []) all (λ g. Present-last i xs)
        (λ j g k. Present-append i j xs (some i ∷ []) k))
enter-Inv _ i (handed places j xs only line all) e =
    handed (update places i waiting) j (xs ++ some i ∷ [])
      (only-update places i waiting (λ k. ⊥) (λ k. ⊥) only (λ k. k) (λ k g l. l))
      (Line-append places i (some j ∷ xs) (λ g. absurd cc) line)
      (Waiters-update places i waiting (some j ∷ xs) (some j ∷ xs ++ some i ∷ []) all
        (λ g. Present-last i (some j ∷ xs))
        (λ k g l. Present-append i k (some j ∷ xs) (some i ∷ []) l))
