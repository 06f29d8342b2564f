-- ===== src/Strand/Exclusion.antt =====
-- Mutual exclusion, and the way from one holder of the lock to the next.
use coro_wayland.Base.{
  ℕ, ◌<◌, ◌≡◌, ◌≢◌, ◌⊎◌, inl, inr, refl, sym, ◌∙◌, arith, Option, none, some, List, [], ◌∷◌,
}
use mathlib.Core.Path.{subst}
use coro_wayland.Strand.{
  outside, entering, waiting, holding, releasing, Strand, update, move, release_queue, release,
  resume_at, resume_queue, resume_front, Step, arrives, enters, finishes, releases, resumes, Reach,
  starts, steps,
}
use coro_wayland.Strand.Waiting.{Present, Line, update_self, Line-update, Absent-Line}
use coro_wayland.Strand.Invariant.{
  Inside, Inv, free, held, handed, move-Inv, enter-Inv, not-Inside, only-update, Waiters-update,
}

finish-Inv : (s : Strand) (i : ℕ) → Inv s → s.places i ≡ holding → Inv (move s i releasing)
unfolding move
finish-Inv _ i (free places only all) e = absurd (only i (subst Inside (sym e) tt))
finish-Inv _ i (handed places j xs only line all) e = absurd (only i (subst Inside (sym e) tt))
finish-Inv _ i (held places h x xs inside only line all) e =
    let same : i ≡ h = only i (subst Inside (sym e) tt) in
    held (update places i releasing) h x xs
      (subst (λ k. Inside (update places i releasing k)) same
        (subst Inside (sym (update_self places i releasing)) tt))
      (only-update places i releasing (λ j. j ≡ h) (λ j. j ≡ h) only (λ k. same) (λ j g k. k))
      (Line-update places i releasing xs (Absent-Line places i xs (λ g. absurd cc) line) line)
      (Waiters-update places i releasing xs xs all (λ g. absurd cc) (λ j g k. k))

-- The invariant of what an operation gives, which is defined.
abbrev pub Given : Option Strand → Type 0
Given r = (t : Strand) × (r ≡ some t) × Inv t

-- A coroutine behind the receiver releases the lock: `mQueue` is not empty, and what follows in it
-- is a coroutine that waits.
pub release-Given : (s : Strand) (i : ℕ) → Inv s → s.places i ≡ releasing → Given (release s i)
unfolding release release_queue move Line
release-Given _ i (free places only all) e = absurd (only i (subst Inside (sym e) tt))
release-Given _ i (handed places j xs only line all) e = absurd (only i (subst Inside (sym e) tt))
release-Given _ i (held places h x [] inside only line all) e =
    let same : i ≡ h = only i (subst Inside (sym e) tt) in
    (
      _,
      refl,
      free (update places i outside)
          (only-update places i outside (λ j. j ≡ h) (λ j. ⊥) only (λ k. k)
            (λ j g k. g (same ∙ sym k)))
          (Waiters-update places i outside [] [] all (λ g. absurd cc) (λ j g k. k)),
    )
release-Given _ i (held places h x (none ∷ xs) inside only line all) e = absurd line
release-Given _ i (held places h x (some j ∷ xs) inside only line all) e =
    let same : i ≡ h = only i (subst Inside (sym e) tt) in
    (
      _,
      refl,
      handed (update places i outside) j xs
          (only-update places i outside (λ k. k ≡ h) (λ k. ⊥) only (λ k. k)
            (λ k g l. g (same ∙ sym l)))
          (Line-update places i outside (some j ∷ xs)
            (Absent-Line places i (some j ∷ xs) (λ g. absurd cc) line) line)
          (Waiters-update places i outside (some j ∷ xs) (some j ∷ xs) all (λ g. absurd cc)
            (λ k g l. l)),
    )

behind : (j k : ℕ) (xs : List (Option ℕ)) → j ≢ k → Present k (some j ∷ xs) → Present k xs
unfolding Present
behind j k xs h (inl e) = absurd (h cc)
behind j k xs h (inr p) = p

-- A spawned task resumes a coroutine that waits, which then holds the lock.
pub resume-Given : (s : Strand) → Inv s → 0 < s.wakes → Given (resume_front s)
unfolding resume_front resume_queue resume_at move Line Present
resume-Given _ (free places only all) h = absurd (omega arith)
resume-Given _ (held places k x xs inside only line all) h = absurd (omega arith)
resume-Given _ (handed places j xs only line all) h = (
  _,
  rw line.0,
  held (update places j holding) j (some j) xs
      (subst Inside (sym (update_self places j holding)) tt)
      (only-update places j holding (λ k. ⊥) (λ k. k ≡ j) only (λ k. refl) (λ k g l. absurd l))
      (Line-update places j holding xs line.1 line.2)
      (Waiters-update places j holding (some j ∷ xs) xs all (λ g. absurd cc)
        (λ k g l. behind j k xs g l)),
)

Given-some : (r : Option Strand) (t : Strand) → Given r → r ≡ some t → Inv t
Given-some r t (u, e, inv) f = let g : u ≡ t = cc in subst Inv g inv

Step-Inv : (s t : Strand) → Inv s → Step s t → Inv t
Step-Inv s _ inv (arrives i e) =
    move-Inv s i entering inv (not-Inside (s.places i) outside e (λ k. k)) (λ g. absurd cc) (λ k. k)
      (λ g. absurd cc)
Step-Inv s _ inv (enters i e) = enter-Inv s i inv e
Step-Inv s _ inv (finishes i e) = finish-Inv s i inv e
Step-Inv s _ inv (releases i t e f) = Given-some (release s i) t (release-Given s i inv e) f
Step-Inv s _ inv (resumes t h f) = Given-some (resume_front s) t (resume-Given s inv h) f

pub Reach-Inv : (s : Strand) → Reach s → Inv s
unfolding Present
Reach-Inv _ starts = free (λ i. outside) (λ i k. k) (λ i e. absurd cc)
Reach-Inv _ (steps s t r step) = Step-Inv s t (Reach-Inv s r) step

Inv-one : (s : Strand) (i j : ℕ) → Inv s → Inside (s.places i) → Inside (s.places j) → i ≡ j
Inv-one _ i j (free places only all) a b = absurd (only i a)
Inv-one _ i j (handed places k xs only line all) a b = absurd (only i a)
Inv-one _ i j (held places h x xs inside only line all) a b = only i a ∙ sym (only j b)

-- At any time one coroutine at most is in the receiver of `lock` or behind it with the lock still
-- taken.
pub lock_excludes :
    (s : Strand) (i j : ℕ) → Reach s → Inside (s.places i) → Inside (s.places j) → i ≡ j
lock_excludes s i j r a b = Inv-one s i j (Reach-Inv s r) a b

Inv-served :
    (s : Strand) (i : ℕ)
    → Inv s
    → s.places i ≡ waiting
    → ((h : ℕ) × Inside (s.places h)) ⊎ ((0 < s.wakes) × ((t : Strand) × (resume_front s ≡ some t)))
unfolding Present
Inv-served _ i (free places only all) e = absurd (all i e)
Inv-served _ i (held places h x xs inside only line all) e = inl (h, inside)
Inv-served s i (handed places j xs only line all) e =
    let given = resume-Given s (handed places j xs only line all) (omega arith) in
    inr (omega arith, (given.0, given.1))

-- No coroutine is forgotten: while one waits, another one is in the lock, or a spawned task is there
-- that resumes the front of the queue, where a coroutine waits.
pub lock_serves :
    (s : Strand) (i : ℕ)
    → Reach s
    → s.places i ≡ waiting
    → ((h : ℕ) × Inside (s.places h)) ⊎ ((0 < s.wakes) × ((t : Strand) × (resume_front s ≡ some t)))
lock_serves s i r e = Inv-served s i (Reach-Inv s r) e
