-- ===== src/ThreadPool/Examples.antt =====
-- A pool of one worker, to which a task is given.
use coro_wayland.Base.{◌≡◌, ◌≢◌, ◌<◌, ◌⊎◌, refl, ℕ, true, false, some, [], ◌∷◌}
use coro_wayland.Bwos.Words.{index_of, add64}
use coro_wayland.Bwos.Block.{bulk_put, bulk_put_loop}
use coro_wayland.Bwos.Queue.{Queue, masked, push_range, push_range_loop, push_range_step}
use coro_wayland.ThreadPool.{
  clamp, capacity, pop_remote, try_pop_remote, System, enqueue, new_system, enqueues, Reach, starts,
  steps,
}
use coro_wayland.ThreadPool.Service.{SomeAwake, tasks_served}

abbrev queue : Queue ℕ
queue = record {
  last_block = 0;
  start_block = 0;
  blocks =
      record { head = 0; tail = 0; steal_count = 0; steal_tail = 2; ring_buffer = 0 ∷ 0 ∷ [] } ∷ [];
  mask = 0;
}

abbrev one_task : System
one_task = enqueue (new_system 1 queue) 5

one_task-Reach : Reach one_task
one_task-Reach = steps (new_system 1 queue) one_task (starts 0 queue) (enqueues 5)

running : one_task.pool.stopping ≡ false
unfolding enqueue
running = refl

has_task : one_task.pool.tasks ≢ []
unfolding enqueue
has_task e = cc

tasks_served_example : (0 < one_task.notifications) ⊎ SomeAwake one_task
tasks_served_example = tasks_served one_task one_task-Reach running has_task

-- The worker takes the task.
try_pop_remote-one_task :
    try_pop_remote one_task.pool queue
    ≡ some (
      record { tasks = []; thieves = 0; sleeping = 0; stopping = false },
      record queue {
        blocks =
            record { head = 0; tail = 1; steal_count = 0; steal_tail = 2; ring_buffer = 5 ∷ 0 ∷ [] }
            ∷ [];
      },
      true,
    )
unfolding try_pop_remote pop_remote clamp capacity enqueue push_range push_range_loop
    push_range_step bulk_put bulk_put_loop masked index_of add64
try_pop_remote-one_task = refl
