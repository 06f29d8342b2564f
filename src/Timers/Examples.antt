-- ===== src/Timers/Examples.antt =====
-- The heap functions as a sorted vector, and the timer queue over them.
use coro_wayland.Base.{
  ℕ, ◌+◌, ◌≤◌, ◌≡◌, refl, Bool-cases, inl, inr, List, [], ◌∷◌, ◌++◌, arith, leb, leb→le,
  if◌then◌else◌, All,
}
use coro_wayland.Timers.Interface.{Heap, count}
use coro_wayland.Timers.Laws.{Removed, remove_timer-Removed, Popped, pop_expired-Popped}
use coro_wayland.Timers.{remove_timer, pop_expired}

module _ (time : ℕ → ℕ) where
  insert : ℕ → List ℕ → List ℕ
  insert t [] = t ∷ []
  insert t (x ∷ xs) = if leb (time t) (time x) then t ∷ x ∷ xs else x ∷ insert t xs

  unfoldable pub sort : List ℕ → List ℕ
  unfolding insert
  sort [] = []
  sort (x ∷ xs) = insert x (sort xs)

  abbrev pub IsSorted : List ℕ → Type 0
  IsSorted [] = Unit
  IsSorted (t ∷ ts) = All (λ u. time t ≤ time u) ts × IsSorted ts

  count-insert : (a t : ℕ) (xs : List ℕ) → count a (insert t xs) ≡ count a (t ∷ xs)
  unfolding insert count
  count-insert a t [] = refl
  count-insert a t (x ∷ xs) = ground (arith, count-insert a t xs)

  pub count-sort : (a : ℕ) (xs : List ℕ) → count a (sort xs) ≡ count a xs
  unfolding sort count
  count-sort a [] = refl
  count-sort a (x ∷ xs) = ground (arith, count-insert a x (sort xs), count-sort a xs)

  least_trans :
      (t x : ℕ) (xs : List ℕ)
      → time t ≤ time x
      → All (λ u. time x ≤ time u) xs
      → All (λ u. time t ≤ time u) xs
  least_trans t x [] h l = tt
  least_trans t x (y ∷ ys) h l = (omega arith, least_trans t x ys h l.1)

  least-insert :
      (x t : ℕ) (xs : List ℕ)
      → time x ≤ time t
      → All (λ u. time x ≤ time u) xs
      → All (λ u. time x ≤ time u) (insert t xs)
  unfolding insert
  least-insert x t [] h l = (h, tt)
  least-insert x t (y ∷ ys) h l = ground (arith, least-insert x t ys h l.1)

  insert-IsSorted : (t : ℕ) (xs : List ℕ) → IsSorted xs → IsSorted (insert t xs)
  unfolding insert
  insert-IsSorted t [] s = (tt, tt)
  insert-IsSorted t (x ∷ xs) s = elim (Bool-cases (leb (time t) (time x))) [
    | inl le ↦ rw le ((leb→le _ _ le, least_trans t x xs (leb→le _ _ le) s.0), s)
    | inr gt ↦ rw gt (least-insert x t xs (ground arith) s.0, insert-IsSorted t xs s.1)
  ]

  pub sort-IsSorted : (xs : List ℕ) → IsSorted (sort xs)
  unfolding sort
  sort-IsSorted [] = tt
  sort-IsSorted (x ∷ xs) = insert-IsSorted x (sort xs) (sort-IsSorted xs)

  front_last : List ℕ → List ℕ
  front_last [] = []
  front_last (t ∷ ts) = ts ++ t ∷ []

  unfoldable pub sorted_heap : Heap time
  unfolding front_last
  sorted_heap = record {
    push_heap = sort;
    pop_heap = front_last;
    make_heap = sort;
    IsHeap = IsSorted;
    nil-IsHeap = tt;
    front_least = λ t ts h. h.0;
    push_heap-IsHeap = λ ts t h. sort-IsSorted (ts ++ t ∷ []);
    count-push_heap = count-sort;
    pop_heap-front = λ t ts h. (ts, refl, h.1, λ a. refl, refl);
    make_heap-IsHeap = sort-IsSorted;
    count-make_heap = count-sort;
  }

-- Task n is due at 10 * n.
abbrev pub tenfold : ℕ → ℕ
tenfold t = t + t + t + t + t + t + t + t + t + t

remove_timer-Removed_example :
    Removed tenfold
      (sorted_heap tenfold)
      5
      (2 ∷ 5 ∷ 7 ∷ [])
      (remove_timer tenfold (sorted_heap tenfold) (2 ∷ 5 ∷ 7 ∷ []) 5)
remove_timer-Removed_example = remove_timer-Removed tenfold (sorted_heap tenfold) (2 ∷ 5 ∷ 7 ∷ []) 5

pop_expired-Popped_example :
    Popped tenfold
      (sorted_heap tenfold)
      30
      (2 ∷ 5 ∷ [])
      (pop_expired tenfold (sorted_heap tenfold) (2 ∷ 5 ∷ []) 30)
unfolding sorted_heap
pop_expired-Popped_example =
    pop_expired-Popped tenfold (sorted_heap tenfold) (2 ∷ 5 ∷ []) 30 (omega arith)
