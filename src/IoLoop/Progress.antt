-- ===== src/IoLoop/Progress.antt =====
-- Expired timers do not stay, and the loop does not end with commands left.

use coro_wayland.Base.{
  ℕ, zero, suc, ◌+◌, ◌≤◌, ◌<◌, ◌≡◌, refl, sym, ap, ◌∙◌, Bool, true, ◌&&◌, Bool-cases, inl, inr,
  List, [], ◌∷◌, ◌++◌, append_assoc, append-nil, arith, length, All,
}
use coro_wayland.Timers.Interface.{Heap, count}
use coro_wayland.Timers.Laws.{one_if, all_ahead, expired, pop_expired-Popped}
use coro_wayland.Timers.{pop_expired}
use coro_wayland.IoLoop.{
  Command, Loop, Round, complete, enqueue, complete_timer, expire, stopped, after_ppoll, is_empty,
  arrive, work, run_round,
}

module _ (resume : ℕ → List Command) (time : ℕ → ℕ) (heap : Heap time) where
  open heap use {IsHeap}

  -- Each task is due at a reading of its own: the first one at reading `i`, the next at the next.
  unfoldable pub IsDue : (clock : ℕ → ℕ) → ℕ → List ℕ → Type 0
  IsDue clock i [] = Unit
  IsDue clock i (t ∷ ts) = (time t ≤ clock i) × IsDue clock (suc i) ts

  -- What the loop over the expired timers has done, where its first reading of the clock is number
  -- `i`: it completed one task after each reading but the last, and the task was due at it; these
  -- tasks are those that are gone from the timers; and the last reading came before every timer
  -- that is left.
  pub record Expired (clock : ℕ → ℕ) (i : ℕ) (s s' : Loop) : Type 0 where
    pub done : List ℕ
    pub logged : s'.completed ≡ s.completed ++ done
    pub gone : (a : ℕ) → count a done + count a s'.timers ≡ count a s.timers
    pub due : IsDue clock i done
    pub ahead : All (λ u. clock (i + length done) < time u) s'.timers

  timers-complete : (t : ℕ) (s : Loop) → (complete resume t s).timers ≡ s.timers
  unfolding complete enqueue
  timers-complete t s = refl

  count_on : (i : ℕ) (ts : List ℕ) (t : ℕ) → i + length (t ∷ ts) ≡ suc i + length ts
  count_on i ts t = omega arith

  count_none : (i : ℕ) → i + length {A = ℕ} [] ≡ i
  count_none i = omega arith

  Expired-step :
      (clock : ℕ → ℕ) (i t : ℕ) (s s' : Loop) (rest : List ℕ)
      → time t ≤ clock i
      → ((a : ℕ) → one_if t a + count a rest ≡ count a s.timers)
      → Expired clock (suc i) (complete resume t (record s { timers = rest })) s'
      → Expired clock i s s'
  unfolding complete enqueue count IsDue
  Expired-step clock i t s s' rest early taken v = record {
    done = t ∷ v.done;
    logged = v.logged ∙ append_assoc s.completed (t ∷ []) v.done;
    gone = λ a. omega (arith, v.gone a, taken a);
    due = (early, v.due);
    ahead = rw (count_on i v.done t) v.ahead;
  }

  -- With fuel above the number of timers the loop stops. It reads the clock anew before each look
  -- at the timers: it takes out one task after each reading, due at this reading, and completes it,
  -- and at its last reading, the one behind these, every timer that is left is ahead.
  pub expire-Expired :
      (fuel : ℕ) (clock : ℕ → ℕ) (i : ℕ) (s : Loop)
      → length s.timers < fuel
      → IsHeap s.timers
      → Expired clock i s (expire resume time heap fuel clock i s)
  unfolding expire complete_timer count IsDue
  expire-Expired zero clock i s enough h = absurd (omega arith)
  expire-Expired (suc fuel) clock i s enough h =
      let r = pop_expired time heap s.timers (clock i) in
      elim (pop_expired-Popped time heap s.timers (clock i) h) [
        | all_ahead ahead e ↦
            rw (e, expire)
              (record {
                done = [];
                logged = sym (append-nil s.completed);
                gone = λ a. omega arith;
                due = tt;
                ahead = rw (count_none i) ahead;
              })
        | expired t e early _ ordered taken size ↦
            let same = timers-complete t (record s { timers = r.0 }) in
            rw (e, expire)
              (rw (e, complete_timer)
                (Expired-step clock i t s
                  (expire resume time heap fuel clock (suc i)
                    (complete resume t (record s { timers = r.0 })))
                  r.0 early taken
                  (expire-Expired fuel clock (suc i) (complete resume t (record s { timers = r.0 }))
                    (omega (arith, ap length same, size)) (rw same ordered))))
      ]

  and-left : (a b : Bool) → (a && b) ≡ true → a ≡ true
  and-left a b h = ground arith

  and-right : (a b : Bool) → (a && b) ≡ true → b ≡ true
  and-right a b h = ground arith

  is_empty-nil : (cs : List Command) → is_empty cs ≡ true → cs ≡ []
  is_empty-nil [] e = refl
  is_empty-nil (c ∷ cs) e = cc

  -- A round that ends the loop found a stop requested and no command left, those counted that
  -- other threads had enqueued by then, and ran nothing.
  pub run_round-stopped :
      (r : Round) (s s' : Loop)
      → run_round resume time heap r s ≡ stopped s'
      → (s' ≡ arrive r s) × (s'.stop_requested ≡ true) × (s'.inbox ≡ [])
  unfolding run_round after_ppoll
  run_round-stopped r s s' e =
      let asked = arrive r s in
      elim (Bool-cases (asked.stop_requested && is_empty asked.inbox)) [
        | inl h ↦
            let e' : stopped asked ≡ stopped s' = rw h at e in
            let same : s' ≡ asked = cc in
            rw same (refl, and-left _ _ h, is_empty-nil asked.inbox (and-right _ _ h))
        | inr h ↦
            let e' : after_ppoll resume time heap r.ppoll (work resume time heap r.clock asked)
                ≡ stopped s' =
              rw h at e in
            absurd (ground (arith, e'))
      ]
