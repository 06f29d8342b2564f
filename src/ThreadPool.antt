-- ===== src/ThreadPool.antt =====
-- The workers of src/core/StaticThreadPool.cpp on top of the queue of `Bwos.Queue`. What a worker
-- does under the mutex is one step. A coroutine handle is a number, and 0 is the null handle.
pub mod Service
mod Examples
use coro_wayland.Base.{
  ℕ, zero, suc, ◌+◌, ◌-◌, ◌*◌, ◌<◌, ◌≡◌, ◌≢◌, Bool, true, false, ◌&&◌, Option, none, some, List, [],
  ◌∷◌, ◌++◌, ◌==◌, ltb, if◌then◌else◌, length, take, drop,
}
use coro_wayland.Bwos.Block.{block_size}
use coro_wayland.Base.Options.{◌>>=◌}
use coro_wayland.Bwos.Queue.{Queue, block_at, push_back, push_range, pop_back, steal_front}

-- The members under `mMutex`.
pub record Pool : Type 0 where
  pub tasks : List ℕ
  pub thieves : ℕ
  pub sleeping : ℕ
  pub stopping : Bool

-- Where a worker is in the loop of `run`: at `pop_back`, before the first lock, in
-- `try_steal_task`, before the lock with a task and without one, in `wait`, behind it, and out of
-- the loop.
pub data Place : Type 0 where
  popping looking searching found giving_up asleep woken returned : Place

pub record Worker : Type 0 where
  pub place : Place
  pub task_queue : Queue ℕ

-- `std::clamp(n, 1, capacity)`.
unfoldable pub clamp : ℕ → ℕ → ℕ
clamp n capacity = if ltb n 1 then 1 else if ltb capacity n then capacity else n

unfoldable pub capacity : Queue ℕ → ℕ
capacity q = block_size (block_at 0 q 0) * length q.blocks

-- `try_pop_remote` moves the last tasks of the pool to the queue; `none` where the queue waits.
unfoldable pub pop_remote : Pool → Queue ℕ → List ℕ → Option (Pool × Queue ℕ × Bool)
unfolding clamp capacity
pop_remote p q [] = some (p, q, false)
pop_remote p q (t ∷ ts) =
    let kept = length (t ∷ ts) - clamp (length (t ∷ ts)) (capacity q) in
    (do
      moved ← push_range 0 q (drop kept (t ∷ ts))
      some (record p { tasks = take kept (t ∷ ts) ++ moved.1 }, moved.0, true))

unfoldable pub try_pop_remote : Pool → Queue ℕ → Option (Pool × Queue ℕ × Bool)
unfolding pop_remote
try_pop_remote p q = pop_remote p q p.tasks

-- The first lock: with tasks of the pool the loop starts again, and otherwise the worker steals.
unfoldable pub become_thief : Pool × Queue ℕ × Bool → Pool × Worker
become_thief (p, q, true) = (p, record { place = popping; task_queue = q })
become_thief (p, q, false) =
    (record p { thieves = suc p.thieves }, record { place = searching; task_queue = q })

unfoldable pub first_lock : Pool → Queue ℕ → Option (Pool × Worker)
unfolding try_pop_remote become_thief
first_lock p q = (do r ← try_pop_remote p q; some (become_thief r))

-- The lock behind a task that is stolen; the task is resumed.
unfoldable pub found_lock : Pool → Pool
found_lock p = record p { thieves = p.thieves - 1 }

-- The last lock behind `try_pop_remote`: the worker sleeps, or returns when the pool stops. The
-- test says whether it notifies another worker first.
unfoldable pub fall_asleep : Pool → Queue ℕ → ℕ → Pool × Worker × Bool
fall_asleep p q workers =
    if p.stopping
    then (p, record { place = returned; task_queue = q }, false)
    else (p, record { place = asleep; task_queue = q }, p.thieves == 0 && ltb p.sleeping workers)

unfoldable pub sleep : ℕ → Pool × Queue ℕ × Bool → Pool × Worker × Bool
unfolding fall_asleep
sleep workers (p, q, true) = (p, record { place = popping; task_queue = q }, false)
sleep workers (p, q, false) = fall_asleep (record p { sleeping = suc p.sleeping }) q workers

unfoldable pub last_lock : ℕ → Pool → Queue ℕ → Option (Pool × Worker × Bool)
unfolding try_pop_remote sleep found_lock
last_lock workers p q = (do r ← try_pop_remote (found_lock p) q; some (sleep workers r))

-- Behind `wait`.
unfoldable pub wake : Pool → Pool
wake p = record p { sleeping = p.sleeping - 1 }

-- The pool, its `count` workers, and the calls of `notify_one` that are due: that of `enqueue`
-- stands behind the lock, and one of a worker may come later here than in the source.
pub record System : Type 0 where
  pub pool : Pool
  pub count : ℕ
  pub workers : ℕ → Worker
  pub notifications : ℕ

unfoldable pub update : (ℕ → Worker) → ℕ → Worker → ℕ → Worker
update workers i w j = if i == j then w else workers j

unfoldable pub put_worker : System → ℕ → Worker → System
unfolding update
put_worker s i w = record s { workers = update s.workers i w }

abbrev pub at_place : Place → Worker → Worker
at_place place w = record w { place = place }

-- `enqueue` where it does not push to the queue of a worker, and the start of the destructor.
unfoldable pub enqueue : System → ℕ → System
enqueue s task = record s {
  pool = record s.pool { tasks = s.pool.tasks ++ task ∷ [] };
  notifications = suc s.notifications;
}

unfoldable pub rouse : Place → Place
rouse asleep = woken
rouse place = place

-- `notify_all`.
unfoldable pub wake_all : (ℕ → Worker) → ℕ → Worker
unfolding rouse
wake_all workers i = at_place (rouse (workers i).place) (workers i)

unfoldable pub stop : System → System
unfolding wake_all
stop s = record s { pool = record s.pool { stopping = true }; workers = wake_all s.workers }

abbrev pub due : Bool → ℕ
due b = if b then 1 else 0

pub data Step (s : System) : System → Type 0 where
  pops :
      (i : ℕ) (q : Queue ℕ) (task : ℕ)
      → i < s.count
      → (s.workers i).place ≡ popping
      → pop_back 0 (s.workers i).task_queue ≡ some (q, task)
      → Step s (
          put_worker s i
            (record { place = if task == 0 then looking else popping; task_queue = q }))
  looks :
      (i : ℕ) (p : Pool) (w : Worker)
      → i < s.count
      → (s.workers i).place ≡ looking
      → first_lock s.pool (s.workers i).task_queue ≡ some (p, w)
      → Step s (put_worker (record s { pool = p }) i w)
  steals :
      (i j : ℕ) (q : Queue ℕ) (task : ℕ)
      → i < s.count
      → i ≢ j
      → (s.workers i).place ≡ searching
      → steal_front 0 (s.workers j).task_queue ≡ some (q, task)
      → task ≢ 0
      → Step s (
          put_worker
            (put_worker s j (record (s.workers j) { task_queue = q }))
            i
            (at_place found (s.workers i)))
  fails :
      (i : ℕ)
      → i < s.count
      → (s.workers i).place ≡ searching
      → Step s (put_worker s i (at_place giving_up (s.workers i)))
  resumes :
      (i : ℕ)
      → i < s.count
      → (s.workers i).place ≡ found
      → Step s
          (put_worker (record s { pool = found_lock s.pool }) i (at_place popping (s.workers i)))
  sleeps :
      (i : ℕ) (p : Pool) (w : Worker) (notify : Bool)
      → i < s.count
      → (s.workers i).place ≡ giving_up
      → last_lock s.count s.pool (s.workers i).task_queue ≡ some (p, w, notify)
      → Step s
          (put_worker (record s { pool = p; notifications = s.notifications + due notify }) i w)
  -- `notify_one` wakes a worker that sleeps, and does nothing if there is none.
  notifies :
      (i : ℕ)
      → i < s.count
      → (s.workers i).place ≡ asleep
      → Step s (
          put_worker
            (record s { notifications = s.notifications - 1 })
            i
            (at_place woken (s.workers i)))
  notifies_none :
      ((i : ℕ) → i < s.count → (s.workers i).place ≢ asleep)
      → Step s (record s { notifications = s.notifications - 1 })
  -- Behind `wait`, which may also end for no reason.
  wakes :
      (i : ℕ)
      → i < s.count
      → (s.workers i).place ≡ woken
      → Step s (put_worker (record s { pool = wake s.pool }) i (at_place popping (s.workers i)))
  wakes_early :
      (i : ℕ)
      → i < s.count
      → (s.workers i).place ≡ asleep
      → Step s (put_worker s i (at_place woken (s.workers i)))
  -- `enqueue` from a task that a worker runs, and from elsewhere or where its queue is full.
  enqueues_local :
      (i : ℕ) (q : Queue ℕ) (task : ℕ)
      → i < s.count
      → (s.workers i).place ≡ popping
      → push_back 0 (s.workers i).task_queue task ≡ some (q, true)
      → Step s (put_worker s i (record (s.workers i) { task_queue = q }))
  enqueues : (task : ℕ) → Step s (enqueue s task)
  stops : Step s (stop s)

-- The constructor, with an empty queue for each worker.
abbrev pub new_system : ℕ → Queue ℕ → System
new_system threads q = record {
  pool = record { tasks = []; thieves = 0; sleeping = 0; stopping = false };
  count = threads;
  workers = λ i. record { place = popping; task_queue = q };
  notifications = 0;
}

-- A pool has one worker at least.
pub data Reach : System → Type 0 where
  starts : (n : ℕ) (q : Queue ℕ) → Reach (new_system (suc n) q)
  steps : (s t : System) → Reach s → Step s t → Reach t
