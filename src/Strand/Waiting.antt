-- ===== src/Strand/Waiting.antt =====
-- The coroutines in the queue behind the one that holds the lock.
use coro_wayland.Base.{
  ℕ, ◌≡◌, ◌≢◌, ◌⊎◌, inl, inr, refl, sym, ap, ◌∙◌, Bool-cases, Option, none, some, List, [], ◌∷◌,
  ◌++◌, ◌==◌, ==_iff,
}
use coro_wayland.Strand.{Place, waiting, update}

unfoldable pub Absent : ℕ → List (Option ℕ) → Type 0
Absent i [] = Unit
Absent i (x ∷ xs) = (x ≢ some i) × Absent i xs

unfoldable pub Present : ℕ → List (Option ℕ) → Type 0
Present i [] = ⊥
Present i (x ∷ xs) = (x ≡ some i) ⊎ Present i xs

-- Different coroutines that all wait.
unfoldable pub Line : (ℕ → Place) → List (Option ℕ) → Type 0
Line places [] = Unit
Line places (none ∷ xs) = ⊥
Line places (some j ∷ xs) = (places j ≡ waiting) × Absent j xs × Line places xs

pub update_self : (places : ℕ → Place) (i : ℕ) (p : Place) → update places i p i ≡ p
unfolding update
update_self places i p = rw ((==_iff i i).1 refl)

pub update_ne : (places : ℕ → Place) (i j : ℕ) (p : Place) → i ≢ j → update places i p j ≡ places j
unfolding update
update_ne places i j p h = elim (Bool-cases (i == j)) [
  | inl e ↦ absurd (h ((==_iff i j).0 e))
  | inr e ↦ rw e
]

-- A coroutine that is not in the line moves.
pub Line-update :
    (places : ℕ → Place) (i : ℕ) (p : Place) (xs : List (Option ℕ))
    → Absent i xs
    → Line places xs
    → Line (update places i p) xs
unfolding Line Absent
Line-update places i p [] a l = tt
Line-update places i p (none ∷ xs) a l = l
Line-update places i p (some j ∷ xs) a l = (
  update_ne places i j p (λ e. a.0 (ap some (sym e))) ∙ l.0,
  l.1,
  Line-update places i p xs a.1 l.2,
)

-- A coroutine that does not wait is not in the line.
pub Absent-Line :
    (places : ℕ → Place) (i : ℕ) (xs : List (Option ℕ))
    → places i ≢ waiting
    → Line places xs
    → Absent i xs
unfolding Line Absent
Absent-Line places i [] h l = tt
Absent-Line places i (none ∷ xs) h l = absurd l
Absent-Line places i (some j ∷ xs) h l =
    ((λ e. h (let g : j ≡ i = cc in ap places (sym g) ∙ l.0)), Absent-Line places i xs h l.2)

Absent-append :
    (i j : ℕ) (xs : List (Option ℕ)) → i ≢ j → Absent j xs → Absent j (xs ++ some i ∷ [])
unfolding Absent
Absent-append i j [] h a = ((λ e. h cc), tt)
Absent-append i j (x ∷ xs) h a = (a.0, Absent-append i j xs h a.1)

-- A coroutine joins the line at its end.
pub Line-append :
    (places : ℕ → Place) (i : ℕ) (xs : List (Option ℕ))
    → places i ≢ waiting
    → Line places xs
    → Line (update places i waiting) (xs ++ some i ∷ [])
unfolding Line Absent
Line-append places i [] h l = (update_self places i waiting, tt, tt)
Line-append places i (none ∷ xs) h l = l
Line-append places i (some j ∷ xs) h l =
    let apart : i ≢ j = λ e. h (ap places e ∙ l.0) in
    (
      update_ne places i j waiting apart ∙ l.0,
      Absent-append i j xs apart l.1,
      Line-append places i xs h l.2,
    )

pub Present-append : (i j : ℕ) (xs ys : List (Option ℕ)) → Present j xs → Present j (xs ++ ys)
unfolding Present
Present-append i j [] ys p = absurd p
Present-append i j (x ∷ xs) ys (inl e) = inl e
Present-append i j (x ∷ xs) ys (inr p) = inr (Present-append i j xs ys p)

pub Present-last : (i : ℕ) (xs : List (Option ℕ)) → Present i (xs ++ some i ∷ [])
unfolding Present
Present-last i [] = inl refl
Present-last i (x ∷ xs) = inr (Present-last i xs)
