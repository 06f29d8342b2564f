-- ===== src/Strand/Examples.antt =====
-- Two coroutines lock a strand: the first one holds the lock, the second one waits.
use coro_wayland.Base.{◌≡◌, ◌<◌, ◌⊎◌, refl, ℕ, Option, none, some}
use coro_wayland.Strand.{
  entering, waiting, releasing, Strand, update, move, enter_queue, enter, release_queue, release,
  resume_front, arrives, enters, new_strand, Reach, starts, steps,
}
use coro_wayland.Strand.Invariant.{Inside}
use coro_wayland.Strand.Exclusion.{lock_excludes, lock_serves}

abbrev one_inside : Strand
one_inside = enter (move new_strand 0 entering) 0

abbrev one_waiting : Strand
one_waiting = enter (move one_inside 1 entering) 1

one_waiting-Reach : Reach one_waiting
unfolding enter enter_queue move update
one_waiting-Reach =
    steps (move one_inside 1 entering) one_waiting
      (steps one_inside (move one_inside 1 entering)
        (steps (move new_strand 0 entering) one_inside
          (steps new_strand (move new_strand 0 entering) starts (arrives 0 refl)) (enters 0 refl))
        (arrives 1 refl))
      (enters 1 refl)

zero-Inside : Inside (one_waiting.places 0)
unfolding enter enter_queue move update
zero-Inside = tt

one_waits : one_waiting.places 1 ≡ waiting
unfolding enter enter_queue move update
one_waits = refl

lock_excludes_example : ◌≡◌ {A = ℕ} 0 0
lock_excludes_example = lock_excludes one_waiting 0 0 one_waiting-Reach zero-Inside zero-Inside

lock_serves_example :
    ((h : ℕ) × Inside (one_waiting.places h))
    ⊎ ((0 < one_waiting.wakes) × ((t : Strand) × (resume_front one_waiting ≡ some t)))
lock_serves_example = lock_serves one_waiting 1 one_waiting-Reach one_waits

-- The first one leaves: the second one is resumed and is the only one in the queue.
abbrev wakes_of : Option Strand → ℕ
wakes_of none = 0
wakes_of (some s) = s.wakes

release-wakes : wakes_of (release (move one_waiting 0 releasing) 0) ≡ 1
unfolding enter enter_queue move release release_queue
release-wakes = refl
