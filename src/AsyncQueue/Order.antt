-- ===== src/AsyncQueue/Order.antt =====
-- The order of the values, and the coroutines that wait.
use coro_wayland.Base.{
  ℕ, ◌≡◌, ◌⊎◌, inl, inr, refl, sym, ap, ◌∙◌, List, [], ◌∷◌, ◌++◌, append-nil, append_assoc,
}
use coro_wayland.AsyncQueue.{
  AsyncQueueContext, Signal, value, stopped, broken, resume_with, await_resume, wake_first, push,
  suspend_with, pop, erase, stop, Event, pushes, pops, stops, handle, run, new_queue,
}

module _ {ℓ} {A : Type ℓ} where
  -- The values that are pushed, and those that are received.
  unfoldable pub pushed : List (Event A) → List A
  pushed [] = []
  pushed (pushes v ∷ events) = v ∷ pushed events
  pushed (_ ∷ events) = pushed events

  unfoldable pub received : List (Signal A) → List A
  received [] = []
  received (value i v ∷ signals) = v ∷ received signals
  received (_ ∷ signals) = received signals

  received-append : (xs ys : List (Signal A)) → received (xs ++ ys) ≡ received xs ++ received ys
  unfolding received
  received-append [] ys = refl
  received-append (value i v ∷ xs) ys = ap (λ r. v ∷ r) (received-append xs ys)
  received-append (stopped i ∷ xs) ys = received-append xs ys
  received-append (broken i ∷ xs) ys = received-append xs ys

  -- What is received and what is left over is what was there, in the same order.
  resume_with-order :
      (q : AsyncQueueContext A) (i : ℕ) (values : List A)
      → q.queue ≡ values
      → received ((resume_with q i values).1 ∷ []) ++ (resume_with q i values).0.queue ≡ values
  unfolding resume_with received
  resume_with-order q i [] h = h
  resume_with-order q i (v ∷ values) h = refl

  wake_first-order :
      (q : AsyncQueueContext A) (waiters : List ℕ)
      → received (wake_first q waiters).1 ++ (wake_first q waiters).0.queue ≡ q.queue
  unfolding wake_first await_resume received
  wake_first-order q [] = refl
  wake_first-order q (i ∷ waiters) =
      resume_with-order (record q { waiters = waiters }) i q.queue refl

  suspend_with-order :
      (q : AsyncQueueContext A) (i : ℕ) (values : List A)
      → received (suspend_with q i values).1 ++ (suspend_with q i values).0.queue ≡ q.queue
  unfolding suspend_with await_resume received
  suspend_with-order q i [] = refl
  suspend_with-order q i (v ∷ values) = resume_with-order q i q.queue refl

  handle-order :
      (q : AsyncQueueContext A) (e : Event A)
      → received (handle q e).1 ++ (handle q e).0.queue ≡ q.queue ++ pushed (e ∷ [])
  unfolding handle push pop stop pushed received
  handle-order q (pushes v) = wake_first-order (record q { queue = q.queue ++ v ∷ [] }) q.waiters
  handle-order q (pops i) = suspend_with-order q i q.queue ∙ sym (append-nil q.queue)
  handle-order q (stops i) = sym (append-nil q.queue)

  pushed-cons :
      (e : Event A) (events : List (Event A))
      → pushed (e ∷ events) ≡ pushed (e ∷ []) ++ pushed events
  unfolding pushed
  pushed-cons (pushes v) events = refl
  pushed-cons (pops i) events = refl
  pushed-cons (stops i) events = refl

  run-order :
      (q : AsyncQueueContext A) (events : List (Event A))
      → received (run q events).1 ++ (run q events).0.queue ≡ q.queue ++ pushed events
  unfolding run pushed received
  run-order q [] = sym (append-nil q.queue)
  run-order q (e ∷ events) =
      let next = (handle q e).0 in
      let signals = (handle q e).1 in
      let final = run next events in
      ap (λ r. r ++ final.0.queue) (received-append signals final.1)
      ∙ append_assoc (received signals) (received final.1) final.0.queue
      ∙ ap (λ r. received signals ++ r) (run-order next events)
      ∙ sym (append_assoc (received signals) next.queue (pushed events))
      ∙ ap (λ r. r ++ pushed events) (handle-order q e)
      ∙ append_assoc q.queue (pushed (e ∷ [])) (pushed events)
      ∙ ap (λ r. q.queue ++ r) (sym (pushed-cons e events))

  -- No coroutine waits while a value is there.
  abbrev pub Idle : AsyncQueueContext A → Type ℓ
  Idle q = (q.queue ≡ []) ⊎ (q.waiters ≡ [])

  -- No coroutine takes a value from an empty queue.
  unfoldable pub Sound : List (Signal A) → Type 0
  Sound [] = Unit
  Sound (broken i ∷ signals) = ⊥
  Sound (_ ∷ signals) = Sound signals

  Sound-append : (xs ys : List (Signal A)) → Sound xs → Sound ys → Sound (xs ++ ys)
  unfolding Sound
  Sound-append [] ys p q = q
  Sound-append (value i v ∷ xs) ys p q = Sound-append xs ys p q
  Sound-append (stopped i ∷ xs) ys p q = Sound-append xs ys p q
  Sound-append (broken i ∷ xs) ys p q = absurd p

  -- What an operation leaves and signals.
  abbrev pub Fine : AsyncQueueContext A × List (Signal A) → Type ℓ
  Fine r = Idle r.0 × Sound r.1

  -- A push that finds waiters finds no older value.
  push-Fine :
      (q : AsyncQueueContext A) (v : A) (values : List A) (waiters : List ℕ)
      → q.queue ≡ values
      → q.waiters ≡ waiters
      → Idle q
      → Fine (wake_first (record q { queue = values ++ v ∷ [] }) waiters)
  unfolding wake_first await_resume resume_with Sound
  push-Fine q v values [] h g idle = (inr g, tt)
  push-Fine q v [] (i ∷ waiters) h g idle = (inl refl, tt)
  push-Fine q v (w ∷ values) (i ∷ waiters) h g (inl e) = absurd cc
  push-Fine q v (w ∷ values) (i ∷ waiters) h g (inr e) = absurd cc

  resume-Fine :
      (q : AsyncQueueContext A) (i : ℕ) (v : A) (values : List A)
      → q.queue ≡ v ∷ values
      → q.waiters ≡ []
      → Fine ((await_resume q i).0, (await_resume q i).1 ∷ [])
  unfolding await_resume resume_with Sound
  resume-Fine q i v values h e = rw h (inr e, tt)

  pop-Fine :
      (q : AsyncQueueContext A) (i : ℕ) (values : List A)
      → q.queue ≡ values
      → Idle q
      → Fine (suspend_with q i values)
  unfolding suspend_with Sound
  pop-Fine q i [] h idle = (inl h, tt)
  pop-Fine q i (v ∷ values) h (inl e) = absurd cc
  pop-Fine q i (v ∷ values) h (inr e) = resume-Fine q i v values h e

  stop-Fine : (q : AsyncQueueContext A) (i : ℕ) → Idle q → Fine (stop q i)
  unfolding stop erase Sound
  stop-Fine q i (inl e) = (inl e, tt)
  stop-Fine q i (inr e) = (inr (ap (erase i) e), tt)

  handle-Fine : (q : AsyncQueueContext A) (e : Event A) → Idle q → Fine (handle q e)
  unfolding handle push pop
  handle-Fine q (pushes v) idle = push-Fine q v q.queue q.waiters refl refl idle
  handle-Fine q (pops i) idle = pop-Fine q i q.queue refl idle
  handle-Fine q (stops i) idle = stop-Fine q i idle

  run-Fine : (q : AsyncQueueContext A) (events : List (Event A)) → Idle q → Fine (run q events)
  unfolding run Sound
  run-Fine q [] idle = (idle, tt)
  run-Fine q (e ∷ events) idle =
      let first = handle-Fine q e idle in
      let rest = run-Fine (handle q e).0 events first.0 in
      (rest.0, Sound-append (handle q e).1 (run (handle q e).0 events).1 first.1 rest.1)

-- Values come out in the order in which they were pushed, and none is lost or doubled, however
-- pushes, pops and stop requests follow each other: what the coroutines receive and what is left in
-- the queue is all that was pushed.
pub run_fifo {ℓ} :
    {A : Type ℓ} (events : List (Event A))
    → received (run new_queue events).1 ++ (run new_queue events).0.queue ≡ pushed events
run_fifo events = run-order new_queue events

-- However pushes, pops and stop requests follow each other, no coroutine waits while there is a
-- value for it, and none takes a value from an empty queue.
pub run_idle {ℓ} : {A : Type ℓ} (events : List (Event A)) → Fine (run new_queue events)
run_idle events = run-Fine new_queue events (inl refl)
