-- ===== src/AsyncQueue/Examples.antt =====
-- Runs of a queue.
use coro_wayland.Base.{◌≡◌, refl, ℕ, List, [], ◌∷◌, ◌++◌}
use coro_wayland.AsyncQueue.{
  value, stopped, resume_with, await_resume, wake_first, push, suspend_with, pop, erase, stop,
  Event, pushes, pops, stops, handle, run, new_queue,
}
use coro_wayland.AsyncQueue.Order.{pushed, received, Fine, run_fifo, run_idle}

-- Coroutine 1 waits and gets 7; 8 stays in the queue. The task of a stop request that runs late
-- stops coroutine 1 although it has its value.
abbrev events : List (Event ℕ)
events = pops 1 ∷ pushes 7 ∷ pushes 8 ∷ stops 1 ∷ []

run-events :
    run new_queue events ≡ (record { queue = 8 ∷ []; waiters = [] }, value 1 7 ∷ stopped 1 ∷ [])
unfolding run handle push pop stop wake_first await_resume resume_with suspend_with erase
run-events = refl

run_fifo_example :
    received (run new_queue events).1 ++ (run new_queue events).0.queue ≡ pushed events
run_fifo_example = run_fifo events

run_idle_example : Fine (run new_queue events)
run_idle_example = run_idle events
