-- ===== src/IoLoop/Ledger.antt =====
-- No operation is lost and none is completed twice.
use coro_wayland.Base.{
  ℕ, zero, suc, ◌+◌, ◌≡◌, refl, ◌∙◌, Option, none, some, Option-cases, Bool-cases, inl, inr, List,
  [], ◌∷◌, arith, ◌&&◌, length,
}
use coro_wayland.Timers.Interface.{Heap, count}
use coro_wayland.Timers.Laws.{
  count-append, one_if, add_timer_lem, absent, removed, remove_timer-Removed, all_ahead, expired,
  pop_expired-Popped,
}
use coro_wayland.Timers.{remove_timer, pop_expired}
use coro_wayland.IoLoop.{
  Kind, immediate, timed, stop_timed, poll, stop_poll, Command, Loop, enqueue, erase_poll, Ppoll,
  ready, interrupted, poll_failed, Round, complete, complete_poll, split_polls, complete_all,
  set_events, process_polls, complete_timer, run_kind, run_command, run_commands, expire, Outcome,
  goes_on, stopped, failed, after_ppoll, is_empty, and_then, request_stop, arrive, work, run_round,
  run,
}
use coro_wayland.IoLoop.Balance.{
  submits, submitted, held, Balanced, enqueue-Balanced, complete-Balanced, complete_all-Balanced,
  erase_poll-count, split_polls-count,
}

module _ (resume : ℕ → List Command) (time : ℕ → ℕ) (heap : Heap time) where
  open heap use {IsHeap}

  -- The timers are a heap, and the ledger is balanced for every task.
  pub record Inv (extra : ℕ → ℕ) (s : Loop) : Type 0 where
    pub ordered : IsHeap s.timers
    pub balanced : (a : ℕ) → Balanced a (extra a) s

  complete_poll-Balanced :
      (a extra t : ℕ) (s : Loop)
      → Balanced a extra s
      → Balanced a extra (complete_poll resume s t (erase_poll t s.polls))
  unfolding complete_poll held
  complete_poll-Balanced a extra t s b = elim (Option-cases (erase_poll t s.polls)) [
    | inl e ↦ rw e b
    | inr (ys, e) ↦ rw e (
        complete-Balanced resume a extra t (record s { polls = ys })
          (omega (arith, erase_poll-count t s.polls ys e a)))
  ]

  timers-complete : (t : ℕ) (s : Loop) → (complete resume t s).timers ≡ s.timers
  unfolding complete enqueue
  timers-complete t s = refl

  timers-complete_poll :
      (t : ℕ) (s : Loop) (o : Option (List ℕ)) → (complete_poll resume s t o).timers ≡ s.timers
  unfolding complete_poll
  timers-complete_poll t s none = refl
  timers-complete_poll t s (some ys) = timers-complete t (record s { polls = ys })

  timers-complete_all : (ts : List ℕ) (s : Loop) → (complete_all resume ts s).timers ≡ s.timers
  unfolding complete_all
  timers-complete_all [] s = refl
  timers-complete_all (t ∷ ts) s =
      timers-complete_all ts (complete resume t s) ∙ timers-complete t s

  -- A task that the timer queue has returned is completed.
  complete_timer-Inv :
      (t : ℕ) (s : Loop) (extra : ℕ → ℕ) (r : List ℕ × Option ℕ)
      → r.1 ≡ some t
      → IsHeap r.0
      → ((a : ℕ) → one_if t a + count a r.0 ≡ count a s.timers)
      → Inv extra s
      → Inv extra (complete_timer resume time heap s r.0 r.1)
  unfolding complete_timer held
  complete_timer-Inv t s extra r e h taken v =
      rw (e, complete_timer)
        (record {
          ordered = rw (timers-complete t (record s { timers = r.0 })) h;
          balanced = λ a.
              complete-Balanced resume a (extra a) t (record s { timers = r.0 })
                (omega (arith, v.balanced a, taken a));
        })

  remove_timer-Inv :
      (t : ℕ) (s : Loop) (extra : ℕ → ℕ)
      → Inv extra s
      → Inv extra (
          complete_timer resume time heap s
            (remove_timer time heap s.timers t).0
            (remove_timer time heap s.timers t).1)
  unfolding complete_timer
  remove_timer-Inv t s extra v = elim (remove_timer-Removed time heap s.timers t) [
    | absent _ e ↦ rw e v
    | removed e h taken ↦
        complete_timer-Inv t s extra (remove_timer time heap s.timers t) e h taken v
  ]

  run_kind-Inv :
      (k : Kind) (t : ℕ) (s : Loop) (extra : ℕ → ℕ)
      → Inv (λ a. submits k (one_if t a) + extra a) s
      → Inv extra (run_kind resume time heap k t s)
  unfolding run_kind held count
  run_kind-Inv immediate t s extra v = record {
    ordered = rw (timers-complete t s) v.ordered;
    balanced = λ a. complete-Balanced resume a (extra a) t s (v.balanced a);
  }
  run_kind-Inv timed t s extra v =
      let (ordered, counts) = add_timer_lem time heap s.timers t v.ordered in
      record { ordered = ordered; balanced = λ a. omega (arith, v.balanced a, counts a) }
  run_kind-Inv stop_timed t s extra v =
      remove_timer-Inv t s extra
        (record { ordered = v.ordered; balanced = λ a. omega (arith, v.balanced a) })
  run_kind-Inv poll t s extra v = record {
    ordered = v.ordered;
    balanced = λ a. omega (arith, v.balanced a, count-append a s.polls (t ∷ []));
  }
  run_kind-Inv stop_poll t s extra v = record {
    ordered = rw (timers-complete_poll t s (erase_poll t s.polls)) v.ordered;
    balanced = λ a. complete_poll-Balanced a (extra a) t s (omega (arith, v.balanced a));
  }

  run_commands-Inv :
      (cs : List Command) (s : Loop)
      → Inv (λ a. submitted a cs) s
      → Inv (λ a. 0) (run_commands resume time heap cs s)
  unfolding run_commands run_command submitted
  run_commands-Inv [] s v = v
  run_commands-Inv (c ∷ cs) s v =
      run_commands-Inv cs (run_command resume time heap c s)
        (run_kind-Inv c.command_kind c.task s (λ a. submitted a cs) v)

  expire-Inv :
      (fuel : ℕ) (clock : ℕ → ℕ) (i : ℕ) (s : Loop)
      → Inv (λ a. 0) s
      → Inv (λ a. 0) (expire resume time heap fuel clock i s)
  unfolding expire
  expire-Inv zero clock i s v = v
  expire-Inv (suc fuel) clock i s v =
      let r = pop_expired time heap s.timers (clock i) in
      elim (pop_expired-Popped time heap s.timers (clock i) v.ordered) [
        | all_ahead _ e ↦ rw (e, expire) v
        | expired t e _ _ h taken _ ↦
            rw (e, expire)
              (expire-Inv fuel clock (suc i) (complete_timer resume time heap s r.0 r.1)
                (complete_timer-Inv t s (λ a. 0) r e h taken v))
      ]

  process_polls-Inv :
      (revents : List ℕ) (s : Loop) → Inv (λ a. 0) s → Inv (λ a. 0) (process_polls resume revents s)
  unfolding process_polls held
  process_polls-Inv revents s v =
      let (kept, fired) = split_polls s.polls revents in
      let left : Loop = record s {
        polls = kept;
        poll_events = set_events s.polls revents s.poll_events;
      } in
      record {
        ordered = rw (timers-complete_all fired left) v.ordered;
        balanced = λ a.
            complete_all-Balanced resume a 0 fired left
              (omega (arith, v.balanced a, split_polls-count a s.polls revents));
      }

  -- What holds of the loop however a round ends.
  abbrev pub Keeps : Outcome → Type 0
  Keeps (goes_on s) = Inv (λ a. 0) s
  Keeps (stopped s) = Inv (λ a. 0) s
  Keeps (failed s) = Inv (λ a. 0) s

  after_ppoll-Keeps :
      (p : Ppoll) (s : Loop) → Inv (λ a. 0) s → Keeps (after_ppoll resume time heap p s)
  unfolding after_ppoll
  after_ppoll-Keeps (ready revents) s v = process_polls-Inv revents s v
  after_ppoll-Keeps interrupted s v = v
  after_ppoll-Keeps poll_failed s v = v

  enqueue-Inv : (cs : List Command) (s : Loop) → Inv (λ a. 0) s → Inv (λ a. 0) (enqueue cs s)
  unfolding enqueue
  enqueue-Inv cs s v = record {
    ordered = v.ordered;
    balanced = λ a. enqueue-Balanced a 0 cs s (v.balanced a);
  }

  arrive-Inv : (r : Round) (s : Loop) → Inv (λ a. 0) s → Inv (λ a. 0) (arrive r s)
  unfolding arrive request_stop held
  arrive-Inv r s v = elim (Bool-cases r.stop) [
    | inl e ↦ rw e (
        enqueue-Inv r.arrivals (request_stop s)
          (record { ordered = v.ordered; balanced = v.balanced }))
    | inr e ↦ rw e (enqueue-Inv r.arrivals s v)
  ]

  work-Inv :
      (clock : ℕ → ℕ) (s : Loop) → Inv (λ a. 0) s → Inv (λ a. 0) (work resume time heap clock s)
  unfolding work held submitted
  work-Inv clock s v =
      let fresh = record s { inbox = [] } in
      let taken = run_commands resume time heap s.inbox fresh in
      expire-Inv (suc (length taken.timers)) clock 0 taken (
        run_commands-Inv s.inbox fresh
          (record { ordered = v.ordered; balanced = λ a. omega (arith, v.balanced a) }))

  run_round-Keeps : (r : Round) (s : Loop) → Inv (λ a. 0) s → Keeps (run_round resume time heap r s)
  unfolding run_round
  run_round-Keeps r s v =
      let asked = arrive r s in
      elim (Bool-cases (asked.stop_requested && is_empty asked.inbox)) [
        | inl e ↦ rw e (arrive-Inv r s v)
        | inr e ↦ rw e (
            after_ppoll-Keeps r.ppoll (work resume time heap r.clock asked)
              (work-Inv r.clock asked (arrive-Inv r s v)))
      ]

  and_then-Keeps :
      (o : Outcome) (f : Loop → Outcome)
      → Keeps o
      → ((s : Loop) → Inv (λ a. 0) s → Keeps (f s))
      → Keeps (and_then o f)
  unfolding and_then
  and_then-Keeps (goes_on s) f v g = g s v
  and_then-Keeps (stopped s) f v g = v
  and_then-Keeps (failed s) f v g = v

  -- In whatever order tasks are submitted, taken back, resumed, expire or become ready, and
  -- whatever they submit when they are resumed: if in a loop each submission of a task has been
  -- completed once or is pending in one place, and the timers are a heap, then this also holds
  -- after any number of rounds, however they end.
  pub run-Keeps : (rs : List Round) (s : Loop) → Inv (λ a. 0) s → Keeps (run resume time heap rs s)
  unfolding run
  run-Keeps [] s v = v
  run-Keeps (r ∷ rs) s v =
      and_then-Keeps (run_round resume time heap r s) (run resume time heap rs)
        (run_round-Keeps r s v) (run-Keeps rs)
