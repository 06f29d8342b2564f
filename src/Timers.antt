-- ===== src/Timers.antt =====
-- `TimerQueue` of src/core/IoContext.cpp: the tasks that wait for a time, in a vector that the
-- standard library's heap functions keep in order. A task is a number, and `time` is the field
-- `scheduledTime` of each.
pub mod Interface
pub mod Laws
pub mod Examples
use coro_wayland.Base.{
  ℕ, zero, suc, ◌+◌, Bool, true, false, Option, none, some, List, [], ◌∷◌, ◌++◌, leb, ◌==◌,
  if◌then◌else◌,
}
use Interface.{Heap}

-- `std::vector::pop_back`.
unfoldable pub pop_back : List ℕ → List ℕ
pop_back [] = []
pop_back (x ∷ []) = []
pop_back (x ∷ y ∷ xs) = x ∷ pop_back (y ∷ xs)

unfoldable pub back_or : ℕ → List ℕ → ℕ
back_or d [] = d
back_or d (x ∷ xs) = back_or x xs

-- An element in front of these is swapped with the last of them, and then popped at the end.
unfoldable pub swap_out : List ℕ → List ℕ
unfolding back_or pop_back
swap_out [] = []
swap_out (x ∷ xs) = back_or x xs ∷ pop_back (x ∷ xs)

-- `std::find`, `std::swap(*it, mTasks.back())` and `mTasks.pop_back()`; `none` where the task is
-- not in the vector.
unfoldable pub find_and_swap_out : ℕ → List ℕ → Option (List ℕ)
unfolding swap_out
find_and_swap_out t [] = none
find_and_swap_out t (x ∷ xs) =
    if x == t
    then some (swap_out xs)
    else (elim (find_and_swap_out t xs) [ none ↦ none | some ys ↦ some (x ∷ ys) ])

module _ (time : ℕ → ℕ) (heap : Heap time) where
  open heap use {push_heap, pop_heap, make_heap}

  unfoldable pub add_timer : List ℕ → ℕ → List ℕ
  add_timer ts t = push_heap (ts ++ t ∷ [])

  -- The second result is the pointer that is returned.
  unfoldable pub remove_timer : List ℕ → ℕ → List ℕ × Option ℕ
  unfolding find_and_swap_out
  remove_timer ts t = elim (find_and_swap_out t ts) [
    | none ↦ (ts, none)
    | some rest ↦ (make_heap rest, some t)
  ]

  unfoldable pub pop_expired : List ℕ → ℕ → List ℕ × Option ℕ
  unfolding pop_back
  pop_expired [] now = ([], none)
  pop_expired (t ∷ ts) now =
      if leb (time t) now then (pop_back (pop_heap (t ∷ ts)), some t) else (t ∷ ts, none)

  unfoldable pub next_expiration : List ℕ → Option ℕ
  next_expiration [] = none
  next_expiration (t ∷ ts) = some (time t)
