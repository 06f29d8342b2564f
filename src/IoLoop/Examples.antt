-- ===== src/IoLoop/Examples.antt =====
-- An event loop with a task that is resumed at once, one that waits for a time and one for a file.
use mathlib.Core.Bool.{true, false}
use coro_wayland.Base.{◌+◌, ◌*◌, ℕ, suc, refl, List, [], ◌∷◌, arith}
use coro_wayland.Timers.Interface.{count}
use coro_wayland.Timers.Examples.{tenfold, sorted_heap}
use coro_wayland.IoLoop.{Command, immediate, timed, poll, Loop, Round, ready, run, expire}
use coro_wayland.IoLoop.Balance.{submitted, held}
use coro_wayland.IoLoop.Ledger.{Inv, Keeps, run-Keeps}
use coro_wayland.IoLoop.Progress.{Expired, expire-Expired}

-- Task 1 submits a timer for itself when it is resumed for the first time.
abbrev echo : ℕ → List Command
echo (suc (suc t)) = []
echo _ = record { task = 4; command_kind = timed } ∷ []

abbrev fresh : Loop
fresh = record {
  inbox = [];
  stop_requested = false;
  timers = [];
  polls = [];
  issued = [];
  completed = [];
  poll_events = λ t. 0;
}

abbrev opening : Round
opening = record {
  arrivals =
      record { task = 1; command_kind = immediate }
      ∷ record { task = 2; command_kind = timed }
      ∷ record { task = 3; command_kind = poll }
      ∷ [];
  stop = true;
  clock = λ i. 25;
  ppoll = ready (1 ∷ []);
}

abbrev ending : Round
ending = record { arrivals = []; stop = false; clock = λ i. 30; ppoll = ready [] }

fresh-Inv : Inv echo tenfold (sorted_heap tenfold) (λ a. 0) fresh
unfolding sorted_heap held submitted count
fresh-Inv = record { ordered = tt; balanced = λ a. refl }

run-Keeps_example :
    Keeps echo tenfold
      (sorted_heap tenfold)
      (run echo tenfold (sorted_heap tenfold) (opening ∷ ending ∷ ending ∷ []) fresh)
run-Keeps_example =
    run-Keeps echo tenfold (sorted_heap tenfold) (opening ∷ ending ∷ ending ∷ []) fresh fresh-Inv

abbrev two_timers : Loop
two_timers = record fresh { timers = 2 ∷ 4 ∷ [] }

-- The clock reads 15 before the loop, then 25, then 35: only the first task is due.
abbrev readings : ℕ → ℕ
readings i = 15 + i * 10

expire-Expired_example :
    Expired echo tenfold
      (sorted_heap tenfold)
      readings
      0
      two_timers
      (expire echo tenfold (sorted_heap tenfold) 3 readings 0 two_timers)
unfolding sorted_heap
expire-Expired_example =
    expire-Expired echo tenfold (sorted_heap tenfold) 3 readings 0 two_timers (omega arith)
      (omega arith)

abbrev asked : Loop
asked = record fresh { stop_requested = true }
