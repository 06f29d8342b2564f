-- ===== src/IoLoop.antt =====
-- `IoContext::enqueue`, `IoContext::request_stop` and `IoContext::run` of src/core/IoContext.cpp.
-- A task is a number. Completing a task resumes its coroutine, which may enqueue commands: which
-- ones is the parameter `resume`. What other threads, the clock and `ppoll` do in a round of the
-- loop is the argument `Round`.
pub mod Balance
pub mod Ledger
pub mod Progress
mod Examples
use coro_wayland.Base.{
  ℕ, zero, suc, ◌+◌, Bool, true, false, ◌&&◌, Option, none, some, List, [], ◌∷◌, ◌++◌, ◌==◌,
  if◌then◌else◌, length,
}
use coro_wayland.Timers.Interface.{Heap}
use coro_wayland.Timers.{add_timer, remove_timer, pop_expired}

-- `IoContextTaskCommand::Kind`.
pub data Kind : Type 0 where
  immediate timed stop_timed poll stop_poll : Kind

pub record Command : Type 0 where
  pub task : ℕ
  pub command_kind : Kind

-- `mTasks` and `mStopRequested`, the locals `timerQueue` and `ioPollTasks` of `run`, and two logs:
-- every command that was enqueued, and every task whose completion was called, in order.
-- `poll_events` is the member `pollEvents` of the tasks, as far as the loop writes it.
pub record Loop : Type 0 where
  pub inbox : List Command
  pub stop_requested : Bool
  pub timers : List ℕ
  pub polls : List ℕ
  pub issued : List Command
  pub completed : List ℕ
  pub poll_events : ℕ → ℕ

unfoldable pub enqueue : List Command → Loop → Loop
enqueue cs s = record s { inbox = s.inbox ++ cs; issued = s.issued ++ cs }

unfoldable pub request_stop : Loop → Loop
request_stop s = record s { stop_requested = true }

-- `std::find` and `erase` in `ioPollTasks`.
unfoldable pub erase_poll : ℕ → List ℕ → Option (List ℕ)
erase_poll t [] = none
erase_poll t (x ∷ xs) =
    if x == t then some xs else (elim (erase_poll t xs) [ none ↦ none | some ys ↦ some (x ∷ ys) ])

-- One call of `ppoll`: how it ends, and `revents` of each poll, the wake-up handle left out.
pub data Ppoll : Type 0 where
  ready : (revents : List ℕ) → Ppoll
  interrupted : Ppoll
  poll_failed : Ppoll

-- What happens to the loop from outside: what other threads enqueue before the lock is taken and
-- whether they have requested a stop by then, the readings of the clock, and the call of `ppoll`.
pub record Round : Type 0 where
  pub arrivals : List Command
  pub stop : Bool
  pub clock : ℕ → ℕ
  pub ppoll : Ppoll

-- How a round of `while (true)` ends; `failed` is the exception that `run` turns into
-- `std::terminate`.
pub data Outcome : Type 0 where
  goes_on : Loop → Outcome
  stopped : Loop → Outcome
  failed : Loop → Outcome

abbrev pub is_empty : List Command → Bool
is_empty [] = true
is_empty (c ∷ cs) = false

-- The loop over both vectors: the polls that stay, and those whose `revents` are set, in order.
unfoldable pub split_polls : List ℕ → List ℕ → List ℕ × List ℕ
split_polls [] revents = ([], [])
split_polls (t ∷ ts) [] = (t ∷ ts, [])
split_polls (t ∷ ts) (r ∷ revents) =
    let (kept, fired) = split_polls ts revents in
    if r == 0 then (t ∷ kept, fired) else (kept, t ∷ fired)

-- What this loop writes to the tasks: each poll whose `revents` are set gets them.
unfoldable pub set_events : List ℕ → List ℕ → (ℕ → ℕ) → ℕ → ℕ
set_events [] revents events = events
set_events (t ∷ ts) [] events = events
set_events (t ∷ ts) (r ∷ revents) events =
    let written : ℕ → ℕ = λ u. if u == t then r else events u in
    let skipped = set_events ts revents events in
    let rest = set_events ts revents written in if r == 0 then skipped else rest

unfoldable pub and_then : Outcome → (Loop → Outcome) → Outcome
and_then (goes_on s) f = f s
and_then (stopped s) f = stopped s
and_then (failed s) f = failed s

-- What other threads have done by the time when the lock is taken.
unfoldable pub arrive : Round → Loop → Loop
arrive r s = let told = if r.stop then request_stop s else s in enqueue r.arrivals told

module _ (resume : ℕ → List Command) where
  -- `task->doCompletion(task)`.
  unfoldable pub complete : ℕ → Loop → Loop
  unfolding enqueue
  complete t s = enqueue (resume t) (record s { completed = s.completed ++ t ∷ [] })

  -- The case `StopPoll` after the search.
  unfoldable pub complete_poll : Loop → ℕ → Option (List ℕ) → Loop
  complete_poll s t none = s
  complete_poll s t (some rest) = complete t (record s { polls = rest })

  unfoldable pub complete_all : List ℕ → Loop → Loop
  complete_all [] s = s
  complete_all (t ∷ ts) s = complete_all ts (complete t s)

  -- A task's `pollEvents` are written before it is completed; the loop itself never reads them.
  unfoldable pub process_polls : List ℕ → Loop → Loop
  process_polls revents s =
      let (kept, fired) = split_polls s.polls revents in
      complete_all fired
        (record s { polls = kept; poll_events = set_events s.polls revents s.poll_events })

  module _ (time : ℕ → ℕ) (heap : Heap time) where
    -- The call of `doCompletion` for what the timer queue returned, if it returned a task.
    unfoldable pub complete_timer : Loop → List ℕ → Option ℕ → Loop
    complete_timer s ts none = record s { timers = ts }
    complete_timer s ts (some t) = complete t (record s { timers = ts })

    -- The cases of the `switch`.
    unfoldable pub run_kind : Kind → ℕ → Loop → Loop
    run_kind immediate t s = complete t s
    run_kind timed t s = record s { timers = add_timer time heap s.timers t }
    run_kind stop_timed t s =
        let (ts, taken) = remove_timer time heap s.timers t in complete_timer s ts taken
    run_kind poll t s = record s { polls = s.polls ++ t ∷ [] }
    run_kind stop_poll t s = complete_poll s t (erase_poll t s.polls)

    unfoldable pub run_command : Command → Loop → Loop
    run_command c s = run_kind c.command_kind c.task s

    unfoldable pub run_commands : List Command → Loop → Loop
    run_commands [] s = s
    run_commands (c ∷ cs) s = run_commands cs (run_command c s)

    -- `while (pop_expired(now))`; `clock i` is the i-th reading. Completing a task adds no timer, so
    -- fuel above the number of timers is enough.
    unfoldable pub expire : ℕ → (ℕ → ℕ) → ℕ → Loop → Loop
    expire zero clock i s = s
    expire (suc fuel) clock i s =
        let popped = pop_expired time heap s.timers (clock i) in
        let more = expire fuel clock (suc i) (complete_timer s popped.0 popped.1) in
        elim popped.1 [ none ↦ s | some _ ↦ more ]

    unfoldable pub after_ppoll : Ppoll → Loop → Outcome
    after_ppoll (ready revents) s = goes_on (process_polls revents s)
    after_ppoll interrupted s = goes_on s
    after_ppoll poll_failed s = failed s

    -- The commands that were in the inbox, then the expired timers.
    unfoldable pub work : (ℕ → ℕ) → Loop → Loop
    work clock s =
        let taken = run_commands s.inbox (record s { inbox = [] }) in
        expire (suc (length taken.timers)) clock 0 taken

    unfoldable pub run_round : Round → Loop → Outcome
    run_round r s =
        let asked = arrive r s in
        if asked.stop_requested && is_empty asked.inbox
        then stopped asked
        else after_ppoll r.ppoll (work r.clock asked)

    unfoldable pub run : List Round → Loop → Outcome
    run [] s = goes_on s
    run (r ∷ rs) s = and_then (run_round r s) (run rs)
