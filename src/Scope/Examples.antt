-- ===== src/Scope/Examples.antt =====
-- A scope with two tasks, one of which completes after `close`.
use mathlib.Core.Bool.{Bool}
use coro_wayland.Base.{◌≤◌, ◌≡◌, refl, List, [], ◌∷◌}
use coro_wayland.Scope.{
  Pc, idle, System, init, Reach, here, next, Step, start, exchange, store, close, complete, closed,
  compare_exchange, notify_completion, store_handle, drop_open_bit,
}
use coro_wayland.Scope.Invariant.{Inv, running, Reach-Inv, closed-running}

abbrev two_tasks : List Pc
two_tasks = idle ∷ idle ∷ []

-- Task 0 starts, the scope is closed, task 1 tries in vain.
abbrev closing : System
closing = record {
  scope = record { active = 2; waiting = Bool.true };
  closer = closed;
  tasks = Pc.active_task ∷ Pc.trying 1 ∷ [];
  resumed = 0;
}

closing-Reach : Reach (init two_tasks) closing
unfolding compare_exchange store_handle drop_open_bit
closing-Reach =
    next
      (next (next (next (next here (start 0 refl)) (exchange 0 1 refl)) (start 1 refl))
        (store refl))
      (close refl)

Reach-Inv_example : Inv closing
Reach-Inv_example = Reach-Inv two_tasks (refl, (refl, tt)) closing-Reach

abbrev done : System
done = record {
  scope = record { active = 0; waiting = Bool.true };
  closer = closed;
  tasks = Pc.completed ∷ Pc.trying 1 ∷ [];
  resumed = 1;
}

closing-Step : Step closing done
unfolding notify_completion
closing-Step = complete 0 refl

closed-running_example : (done.closer ≡ closed) × (running done.tasks ≤ running closing.tasks)
closed-running_example = closed-running two_tasks (refl, (refl, tt)) closing-Reach refl closing-Step
