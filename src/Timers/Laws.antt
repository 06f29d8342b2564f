-- ===== src/Timers/Laws.antt =====
-- The timer queue as a bag of tasks.
use coro_wayland.Base.{
  ℕ, suc, ◌+◌, ◌≤◌, ◌<◌, ◌≡◌, refl, ap, inl, inr, Option, Option-cases, none, some, Bool-cases,
  List, [], ◌∷◌, ◌++◌, arith, leb, leb→le, ==_iff, ◌==◌, if◌then◌else◌, All, length,
}
use native.Mathlib.Nat.{le_refl}
use coro_wayland.Timers.Interface.{Heap, count}
use coro_wayland.Timers.{
  pop_back, back_or, swap_out, find_and_swap_out, add_timer, remove_timer, pop_expired,
}

abbrev pub one_if : ℕ → ℕ → ℕ
one_if x a = if x == a then 1 else 0

pub count-append : (a : ℕ) (xs ys : List ℕ) → count a (xs ++ ys) ≡ count a xs + count a ys
unfolding count
count-append a [] ys = omega arith
count-append a (x ∷ xs) ys = omega (arith, count-append a xs ys)

pop_back-append : (xs : List ℕ) (t : ℕ) → pop_back (xs ++ t ∷ []) ≡ xs
unfolding pop_back
pop_back-append [] t = refl
pop_back-append (x ∷ []) t = refl
pop_back-append (x ∷ y ∷ xs) t = ap (λ l. x ∷ l) (pop_back-append (y ∷ xs) t)

count-swap_out_cons :
    (a x : ℕ) (xs : List ℕ)
    → one_if (back_or x xs) a + count a (pop_back (x ∷ xs)) ≡ count a (x ∷ xs)
unfolding count back_or pop_back
count-swap_out_cons a x [] = refl
count-swap_out_cons a x (y ∷ xs) = omega (arith, count-swap_out_cons a y xs)

count-swap_out : (a : ℕ) (xs : List ℕ) → count a (swap_out xs) ≡ count a xs
unfolding swap_out count
count-swap_out a [] = refl
count-swap_out a (x ∷ xs) = count-swap_out_cons a x xs

-- Either the task is not there, or one copy of it is gone.
abbrev pub Taken : ℕ → List ℕ → Option (List ℕ) → Type 0
Taken t xs none = count t xs ≡ 0
Taken t xs (some ys) = (a : ℕ) → one_if t a + count a ys ≡ count a xs

find_and_swap_out-Taken : (t : ℕ) (xs : List ℕ) → Taken t xs (find_and_swap_out t xs)
unfolding find_and_swap_out count
find_and_swap_out-Taken t [] = refl
find_and_swap_out-Taken t (x ∷ xs) = elim (Bool-cases (x == t)) [
  | inl here ↦
      rw (here, find_and_swap_out) (λ a. ground (arith, count-swap_out a xs, (==_iff x t).0 here))
  | inr there ↦
      let rest = find_and_swap_out-Taken t xs in
      elim (Option-cases (find_and_swap_out t xs)) [
        | inl e ↦
            let none_left : count t xs ≡ 0 = rw e at rest in
            rw (there, e, find_and_swap_out) (ground (arith, none_left))
        | inr (ys, e) ↦
            let taken : Taken t xs (some ys) = rw e at rest in
            rw (there, e, find_and_swap_out) (λ a. omega (arith, taken a))
      ]
]

module _ (time : ℕ → ℕ) (heap : Heap time) where
  open heap use {IsHeap}

  -- Adding a timer keeps the heap, and adds one copy of the task and nothing else.
  pub add_timer_lem :
      (ts : List ℕ) (t : ℕ)
      → IsHeap ts
      → IsHeap (add_timer time heap ts t)
        × ((a : ℕ) → count a (add_timer time heap ts t) ≡ count a ts + one_if t a)
  unfolding add_timer count
  add_timer_lem ts t h = (
    heap.push_heap-IsHeap ts t h,
    λ a. omega (arith, heap.count-push_heap a (ts ++ t ∷ []), count-append a ts (t ∷ [])),
  )

  -- What `remove_timer` does: the task was not there and nothing changes, or one copy of it is
  -- taken out and returned, and the rest is a heap.
  pub data Removed (t : ℕ) (ts : List ℕ) (r : List ℕ × Option ℕ) : Type 0 where
    absent : count t ts ≡ 0 → r ≡ (ts, none) → Removed t ts r
    removed :
        r.1 ≡ some t
        → IsHeap r.0
        → ((a : ℕ) → one_if t a + count a r.0 ≡ count a ts)
        → Removed t ts r

  -- Either the task is in the queue, and `remove_timer` returns it, takes out one copy of it
  -- and nothing else, and leaves a heap; or it is not, and `remove_timer` returns nothing and
  -- leaves the queue as it was.
  pub remove_timer-Removed : (ts : List ℕ) (t : ℕ) → Removed t ts (remove_timer time heap ts t)
  unfolding remove_timer
  remove_timer-Removed ts t =
      let rest = find_and_swap_out-Taken t ts in
      elim (Option-cases (find_and_swap_out t ts)) [
        | inl e ↦
            let none_left : count t ts ≡ 0 = rw e at rest in
            rw (e, remove_timer) (absent none_left refl)
        | inr (ys, e) ↦
            let taken : Taken t ts (some ys) = rw e at rest in
            rw (e, remove_timer)
              (removed refl (heap.make_heap-IsHeap ys)
                (λ a. omega (arith, taken a, heap.count-make_heap a ys)))
      ]

  -- What `pop_expired` does: every timer lies ahead of `now` and nothing changes, or a task with
  -- the least time of all, which is not after `now`, is taken out, and the rest is a heap.
  pub data Popped (now : ℕ) (ts : List ℕ) (r : List ℕ × Option ℕ) : Type 0 where
    all_ahead : All (λ u. now < time u) ts → r ≡ (ts, none) → Popped now ts r
    expired :
        (t : ℕ)
        → r.1 ≡ some t
        → time t ≤ now
        → All (λ u. time t ≤ time u) ts
        → IsHeap r.0
        → ((a : ℕ) → one_if t a + count a r.0 ≡ count a ts)
        → suc (length r.0) ≡ length ts
        → Popped now ts r

  All-mono :
      (now t : ℕ) (ts : List ℕ)
      → now < time t
      → All (λ u. time t ≤ time u) ts
      → All (λ u. now < time u) ts
  All-mono now t [] h l = tt
  All-mono now t (x ∷ xs) h l = (omega arith, All-mono now t xs h l.1)

  -- On a heap `pop_expired` either takes out one copy of a task whose time has come and that no
  -- task precedes, or it returns nothing, every task is still ahead and the queue is as it was;
  -- what is left is a heap.
  pub pop_expired-Popped :
      (ts : List ℕ) (now : ℕ) → IsHeap ts → Popped now ts (pop_expired time heap ts now)
  unfolding pop_expired count
  pop_expired-Popped [] now h = all_ahead tt refl
  pop_expired-Popped (t ∷ ts) now h = elim (Bool-cases (leb (time t) now)) [
    | inl due ↦
        let (rest, popped, ordered, same, size) = heap.pop_heap-front t ts h in
        let cut : pop_back (heap.pop_heap (t ∷ ts)) ≡ rest = rw popped (pop_back-append rest t) in
        rw (due, cut, pop_expired)
          (expired t refl (leb→le (time t) now due) (le_refl _, heap.front_least t ts h) ordered
            same (ap suc size))
    | inr ahead ↦
        rw (ahead, pop_expired)
          (all_ahead (ground arith, All-mono now t ts (ground arith) (heap.front_least t ts h))
            refl)
  ]
