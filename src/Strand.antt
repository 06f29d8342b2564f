-- ===== src/Strand.antt =====
-- The lock of src/core/Strand.cpp: `lock_subscribe` as the steps of any number of coroutines on the
-- thread of the scheduler. A coroutine is named by a number; between two of its suspensions no
-- other one runs.
pub mod Waiting
pub mod Invariant
pub mod Exclusion
mod Examples
use coro_wayland.Base.{
  ℕ, zero, suc, ◌+◌, ◌-◌, ◌<◌, ◌≡◌, Bool, true, false, Option, none, some, List, [], ◌∷◌, ◌++◌,
  ◌==◌, if◌then◌else◌,
}

-- Where a coroutine is in `lock_subscribe`: before it, at the first `schedule`, at `Awaiter`, in
-- the receiver, and at the second `schedule`.
pub data Place : Type 0 where
  outside entering waiting holding releasing : Place

-- `StrandContext`, where `none` in the queue is `std::noop_coroutine()`; the tasks that were
-- spawned to resume the front and have not run; and the coroutines.
pub record Strand : Type 0 where
  pub queue : List (Option ℕ)
  pub wakes : ℕ
  pub places : ℕ → Place

unfoldable pub update : (ℕ → Place) → ℕ → Place → ℕ → Place
update places i p j = if i == j then p else places j

unfoldable pub move : Strand → ℕ → Place → Strand
unfolding update
move s i p = record s { places = update s.places i p }

-- Behind the first `schedule`: the lock is free, or the coroutine suspends in the queue.
unfoldable pub enter_queue : Strand → ℕ → List (Option ℕ) → Strand
unfolding move
enter_queue s i [] = move (record s { queue = none ∷ [] }) i holding
enter_queue s i (x ∷ xs) = move (record s { queue = x ∷ xs ++ some i ∷ [] }) i waiting

unfoldable pub enter : Strand → ℕ → Strand
unfolding enter_queue
enter s i = enter_queue s i s.queue

-- Behind the second `schedule`: `mQueue.pop()`, and the task that is spawned for the next one.
-- `none` is a `pop` of an empty queue.
unfoldable pub release_queue : Strand → ℕ → List (Option ℕ) → Option Strand
unfolding move
release_queue s i [] = none
release_queue s i (x ∷ []) = some (move (record s { queue = [] }) i outside)
release_queue s i (x ∷ y ∷ xs) =
    some (move (record s { queue = y ∷ xs; wakes = suc s.wakes }) i outside)

unfoldable pub release : Strand → ℕ → Option Strand
unfolding release_queue
release s i = release_queue s i s.queue

-- The spawned task: `mQueue.front().resume()`. `none` is the front of an empty queue, or a
-- coroutine that is resumed where it does not wait; the no-op coroutine does nothing.
unfoldable pub resume_at : Strand → ℕ → Place → Option Strand
unfolding move
resume_at s j waiting = some (move s j holding)
resume_at s j _ = none

unfoldable pub resume_queue : Strand → List (Option ℕ) → Option Strand
unfolding resume_at
resume_queue s [] = none
resume_queue s (none ∷ xs) = some s
resume_queue s (some j ∷ xs) = resume_at s j (s.places j)

unfoldable pub resume_front : Strand → Option Strand
unfolding resume_queue
resume_front s = resume_queue (record s { wakes = s.wakes - 1 }) s.queue

-- One step of a coroutine or of a spawned task. A coroutine may lock the strand again and again.
pub data Step (s : Strand) : Strand → Type 0 where
  arrives : (i : ℕ) → s.places i ≡ outside → Step s (move s i entering)
  enters : (i : ℕ) → s.places i ≡ entering → Step s (enter s i)
  finishes : (i : ℕ) → s.places i ≡ holding → Step s (move s i releasing)
  releases : (i : ℕ) (t : Strand) → s.places i ≡ releasing → release s i ≡ some t → Step s t
  resumes : (t : Strand) → 0 < s.wakes → resume_front s ≡ some t → Step s t

abbrev pub new_strand : Strand
new_strand = record { queue = []; wakes = 0; places = λ i. outside }

pub data Reach : Strand → Type 0 where
  starts : Reach new_strand
  steps : (s t : Strand) → Reach s → Step s t → Reach t
