-- ===== src/Timers/Interface.antt =====
-- `std::push_heap`, `std::pop_heap` and `std::make_heap` with the comparison
-- `a->scheduledTime > b->scheduledTime`, as the standard describes them.
use coro_wayland.Base.{ℕ, ◌+◌, ◌≤◌, ◌≡◌, List, [], ◌∷◌, ◌++◌, ◌==◌, if◌then◌else◌, All, length}

-- How often a task stands in a vector.
unfoldable pub count : ℕ → List ℕ → ℕ
count a [] = 0
count a (x ∷ xs) = (if x == a then 1 else 0) + count a xs

-- `IsHeap` is the precondition and postcondition "a heap with respect to the comparison".
pub record Heap (time : ℕ → ℕ) : Type 1 where
  pub push_heap : List ℕ → List ℕ
  pub pop_heap : List ℕ → List ℕ
  pub make_heap : List ℕ → List ℕ
  pub IsHeap : List ℕ → Type 0
  pub nil-IsHeap : IsHeap []
  pub front_least : (t : ℕ) (ts : List ℕ) → IsHeap (t ∷ ts) → All (λ u. time t ≤ time u) ts
  pub push_heap-IsHeap : (ts : List ℕ) (t : ℕ) → IsHeap ts → IsHeap (push_heap (ts ++ t ∷ []))
  pub count-push_heap : (a : ℕ) (ts : List ℕ) → count a (push_heap ts) ≡ count a ts
  -- The front is moved to the end, and what is before it is a heap.
  pub pop_heap-front :
      (t : ℕ) (ts : List ℕ)
      → IsHeap (t ∷ ts)
      → (rest : List ℕ) × (pop_heap (t ∷ ts) ≡ rest ++ t ∷ [])
        × IsHeap rest
        × ((a : ℕ) → count a (t ∷ rest) ≡ count a (t ∷ ts))
        × (length rest ≡ length ts)
  pub make_heap-IsHeap : (ts : List ℕ) → IsHeap (make_heap ts)
  pub count-make_heap : (a : ℕ) (ts : List ℕ) → count a (make_heap ts) ≡ count a ts
