-- ===== src/Scope.antt =====
-- `AsyncScope` of src/core/include/AsyncScope.hpp and src/core/AsyncScope.cpp: one atomic counter,
-- whose lowest bit says that the scope is open and whose other bits count the active tasks.
-- A task, spawned or nested, is a thread that takes one atomic step at a time.
pub mod Invariant
mod Examples
use coro_wayland.Base.{
  ℕ, ◌+◌, ◌-◌, ◌%◌, ◌≡◌, Bool, true, false, some, List, ◌==◌, if◌then◌else◌, get_elem?, set,
}

-- `mActiveTasks` and whether `mWaitingHandle` has been stored. The counter is a `std::ptrdiff_t`;
-- it is taken not to overflow, which would take 2 ^ 62 tasks.
pub record Scope : Type 0 where
  pub active : ℕ
  pub waiting : Bool

-- Where a task stands: not started, in the loop of `spawn` or `try_increase_ref_count` with the
-- value that it expects, active, refused by an exception, and completed.
pub data Pc : Type 0 where
  idle : Pc
  trying : (expected : ℕ) → Pc
  active_task : Pc
  refused : Pc
  completed : Pc

-- The failure branch of the loop: `expected` has been overwritten by the counter.
unfoldable pub after_failure : Scope → Pc
after_failure s = if s.active % 2 == 0 then refused else trying s.active

-- One `compare_exchange_weak(expected, expected + 0b10)`, and the test after a failure.
unfoldable pub compare_exchange : ℕ → Scope → Scope × Pc
unfolding after_failure
compare_exchange expected s =
    if s.active == expected
    then (record s { active = expected + 2 }, active_task)
    else (s, after_failure s)

-- `fetch_sub(0b10)` of `return_void` and of `notify_completion`; whether the handle is resumed.
unfoldable pub notify_completion : Scope → Scope × Bool
notify_completion s = (record s { active = s.active - 2 }, s.active == 2)

-- The two steps of `CloseAwaitable::await_suspend`; whether the second returns the handle.
unfoldable pub store_handle : Scope → Scope
store_handle s = record s { waiting = true }

unfoldable pub drop_open_bit : Scope → Scope × Bool
drop_open_bit s = (record s { active = s.active - 1 }, s.active == 1)

-- `close` runs once: not begun, between its steps, done.
pub data Closer : Type 0 where
  not_begun storing closed : Closer

pub record System : Type 0 where
  pub scope : Scope
  pub closer : Closer
  pub tasks : List Pc
  pub resumed : ℕ  -- how often the waiting handle has been resumed

abbrev pub resumes : Bool → ℕ
resumes b = if b then 1 else 0

-- Tasks and `close` interleave in any order. A weak exchange may also fail with no reason.
pub data Step (s : System) : System → Type 0 where
  start :
      (i : ℕ)
      → get_elem? s.tasks i ≡ some idle
      → Step s (record s { tasks = set s.tasks i (trying 1) })
  exchange :
      (i expected : ℕ)
      → get_elem? s.tasks i ≡ some (trying expected)
      → Step s (record s {
        scope = (compare_exchange expected s.scope).0;
        tasks = set s.tasks i (compare_exchange expected s.scope).1;
      })
  fail :
      (i expected : ℕ)
      → get_elem? s.tasks i ≡ some (trying expected)
      → Step s (record s { tasks = set s.tasks i (after_failure s.scope) })
  complete :
      (i : ℕ)
      → get_elem? s.tasks i ≡ some active_task
      → Step s (record s {
        scope = (notify_completion s.scope).0;
        tasks = set s.tasks i completed;
        resumed = s.resumed + resumes (notify_completion s.scope).1;
      })
  store :
      s.closer ≡ not_begun → Step s (record s { scope = store_handle s.scope; closer = storing })
  close :
      s.closer ≡ storing
      → Step s (record s {
        scope = (drop_open_bit s.scope).0;
        closer = closed;
        resumed = s.resumed + resumes (drop_open_bit s.scope).1;
      })

-- A fresh scope and `n` tasks that may be started.
abbrev pub init : List Pc → System
init tasks = record {
  scope = record { active = 1; waiting = false };
  closer = not_begun;
  tasks = tasks;
  resumed = 0;
}

pub data Reach (from : System) : System → Type 0 where
  here : Reach from from
  next : {s t : System} → Reach from s → Step s t → Reach from t
