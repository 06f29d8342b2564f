-- ===== src/AsyncQueue.antt =====
-- `AsyncQueueContext` of src/core/include/AsyncQueue.hpp. `push`, `pop` and the task of a stop
-- request each run on the thread of the scheduler, without a suspension from `schedule` on. A
-- coroutine in `pop` is named by a number.
pub mod Order
mod Examples
use coro_wayland.Base.{ℕ, Option, none, some, List, [], ◌∷◌, ◌++◌, ◌==◌, if◌then◌else◌}

pub record AsyncQueueContext {ℓ} (A : Type ℓ) : Type ℓ where
  pub queue : List A
  pub waiters : List ℕ

-- What the coroutines in `pop` see: a value, or `unhandled_stopped`.
pub data Signal {ℓ} (A : Type ℓ) : Type ℓ where
  value : ℕ → A → Signal A
  stopped : ℕ → Signal A
  broken : ℕ → Signal A

-- `std::find` and `erase`.
unfoldable pub erase : ℕ → List ℕ → List ℕ
erase i [] = []
erase i (j ∷ waiters) = let rest = erase i waiters in if j == i then waiters else j ∷ rest

module _ {ℓ} {A : Type ℓ} where
  -- `await_resume`; the front of an empty queue is `broken`.
  unfoldable pub resume_with : AsyncQueueContext A → ℕ → List A → AsyncQueueContext A × Signal A
  resume_with q i [] = (q, broken i)
  resume_with q i (v ∷ values) = (record q { queue = values }, value i v)

  unfoldable pub await_resume : AsyncQueueContext A → ℕ → AsyncQueueContext A × Signal A
  unfolding resume_with
  await_resume q i = resume_with q i q.queue

  -- The test of the waiters in `push`, which resumes the first one.
  unfoldable pub wake_first : AsyncQueueContext A → List ℕ → AsyncQueueContext A × List (Signal A)
  unfolding await_resume
  wake_first q [] = (q, [])
  wake_first q (i ∷ waiters) =
      let (resumed, signal) = await_resume (record q { waiters = waiters }) i in
      (resumed, signal ∷ [])

  unfoldable pub push : AsyncQueueContext A → A → AsyncQueueContext A × List (Signal A)
  unfolding wake_first
  push q v = wake_first (record q { queue = q.queue ++ v ∷ [] }) q.waiters

  -- `await_suspend`: the coroutine waits, or goes on to `await_resume`.
  unfoldable pub suspend_with :
      AsyncQueueContext A → ℕ → List A → AsyncQueueContext A × List (Signal A)
  unfolding await_resume
  suspend_with q i [] = (record q { waiters = q.waiters ++ i ∷ [] }, [])
  suspend_with q i (v ∷ values) = let (resumed, signal) = await_resume q i in (resumed, signal ∷ [])

  unfoldable pub pop : AsyncQueueContext A → ℕ → AsyncQueueContext A × List (Signal A)
  unfolding suspend_with
  pop q i = suspend_with q i q.queue

  -- The task that `OnStopRequested` spawns: `unhandled_stopped` is called also where the coroutine
  -- is no longer among the waiters.
  unfoldable pub stop : AsyncQueueContext A → ℕ → AsyncQueueContext A × List (Signal A)
  unfolding erase
  stop q i = (record q { waiters = erase i q.waiters }, stopped i ∷ [])

-- What runs on the scheduler, in any order.
pub data Event {ℓ} (A : Type ℓ) : Type ℓ where
  pushes : A → Event A
  pops : ℕ → Event A
  stops : ℕ → Event A

module _ {ℓ} {A : Type ℓ} where
  unfoldable pub handle : AsyncQueueContext A → Event A → AsyncQueueContext A × List (Signal A)
  unfolding push pop stop
  handle q (pushes v) = push q v
  handle q (pops i) = pop q i
  handle q (stops i) = stop q i

  -- A run, with all that the coroutines see.
  unfoldable pub run : AsyncQueueContext A → List (Event A) → AsyncQueueContext A × List (Signal A)
  unfolding handle
  run q [] = (q, [])
  run q (e ∷ events) =
      let (next, signals) = handle q e in
      let (final, more) = run next events in (final, signals ++ more)

  abbrev pub new_queue : AsyncQueueContext A
  new_queue = record { queue = []; waiters = [] }
