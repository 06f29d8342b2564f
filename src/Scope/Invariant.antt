-- ===== src/Scope/Invariant.antt =====
-- What the counter of a scope means, and when the waiting handle is resumed.
use coro_wayland.Base.{
  ℕ, zero, suc, ◌+◌, ◌*◌, ◌%◌, ◌≤◌, ◌≡◌, refl, Bool, true, false, some, List, [], ◌∷◌, ◌==◌,
  if◌then◌else◌, arith, get_elem?, set, All, Bool-cases, inl, inr, ==_iff, sym,
}
use coro_wayland.Scope.{
  Scope, Pc, idle, trying, active_task, completed, after_failure, compare_exchange,
  notify_completion, store_handle, drop_open_bit, Closer, not_begun, closed, System, resumes, Step,
  start, exchange, fail, complete, store, close, init, Reach, here, next,
}

abbrev pub weight : Pc → ℕ
weight active_task = 1
weight _ = 0

-- How many tasks are active.
unfoldable pub running : List Pc → ℕ
running [] = 0
running (p ∷ ps) = weight p + running ps

running-idle : (ps : List Pc) → All (λ p. p ≡ idle) ps → running ps ≡ 0
unfolding running
running-idle [] h = refl
running-idle (p ∷ ps) h = ground (arith, running-idle ps h.1)

-- Whatever a task expects in the loop says that the scope is open.
unfoldable pub expects : Pc → ℕ
expects (trying e) = e
expects _ = 1

abbrev pub IsOdd : Pc → Type 0
IsOdd p = expects p % 2 ≡ 1

abbrev pub open_bit : Closer → ℕ
open_bit closed = 0
open_bit _ = 1

abbrev pub is_stored : Closer → Bool
is_stored not_begun = false
is_stored _ = true

-- How often the handle has to be resumed: once, from the moment when the scope is closed and no
-- task is active.
abbrev pub done : Closer → ℕ → ℕ
done closed n = if n == 0 then 1 else 0
done _ n = 0

pub record Inv (s : System) : Type 0 where
  pub counted : s.scope.active ≡ open_bit s.closer + 2 * running s.tasks
  pub odd : All IsOdd s.tasks
  pub stored : s.scope.waiting ≡ is_stored s.closer
  pub once : s.resumed ≡ done s.closer (running s.tasks)

running-set :
    (ps : List Pc) (i : ℕ) (p q : Pc)
    → get_elem? ps i ≡ some p
    → running (set ps i q) + weight p ≡ running ps + weight q
unfolding running
running-set [] i p q e = cc
running-set (r ∷ ps) zero p q e = ground arith
running-set (r ∷ ps) (suc i) p q e = omega (arith, running-set ps i p q e)

IsOdd-set : (ps : List Pc) (i : ℕ) (q : Pc) → All IsOdd ps → IsOdd q → All IsOdd (set ps i q)
IsOdd-set [] i q h o = tt
IsOdd-set (r ∷ ps) zero q h o = (o, h.1)
IsOdd-set (r ∷ ps) (suc i) q h o = (h.0, IsOdd-set ps i q h.1 o)

IsOdd-get : (ps : List Pc) (i : ℕ) (p : Pc) → All IsOdd ps → get_elem? ps i ≡ some p → IsOdd p
IsOdd-get [] i p h e = cc
IsOdd-get (r ∷ ps) zero p h e = ground arith
IsOdd-get (r ∷ ps) (suc i) p h e = IsOdd-get ps i p h.1 e

IsOdd-idle : (ps : List Pc) → All (λ p. p ≡ idle) ps → All IsOdd ps
unfolding expects
IsOdd-idle [] h = tt
IsOdd-idle (p ∷ ps) h = (rw h.0 refl, IsOdd-idle ps h.1)

IsOdd-after_failure : (s : Scope) → IsOdd (after_failure s)
unfolding after_failure expects
IsOdd-after_failure s = ground arith

IsOdd-compare_exchange : (e : ℕ) (s : Scope) → IsOdd (compare_exchange e s).1
unfolding compare_exchange expects
IsOdd-compare_exchange e s = ground (arith, IsOdd-after_failure s)

-- A step that leaves the number of active tasks, the counter and `close` as they are.
quiet-Inv :
    (s : System) (i : ℕ) (p q : Pc)
    → get_elem? s.tasks i ≡ some p
    → weight p ≡ weight q
    → IsOdd q
    → Inv s
    → Inv (record s { tasks = set s.tasks i q })
quiet-Inv s i p q e w o v =
    let same : running (set s.tasks i q) ≡ running s.tasks =
      omega (arith, running-set s.tasks i p q e, w) in
    record {
      counted = omega (arith, v.counted, same);
      odd = IsOdd-set s.tasks i q v.odd o;
      stored = v.stored;
      once = rw same v.once;
    }

weight-after_failure : (s : Scope) → weight (after_failure s) ≡ 0
unfolding after_failure
weight-after_failure s = ground arith

exchange-Inv :
    (s : System) (i x : ℕ)
    → get_elem? s.tasks i ≡ some (trying x)
    → Inv s
    → Inv (record s {
      scope = (compare_exchange x s.scope).0;
      tasks = set s.tasks i (compare_exchange x s.scope).1;
    })
unfolding compare_exchange expects
exchange-Inv s i x e v = elim (Bool-cases (s.scope.active == x)) [
  | inl hit ↦
      let same = (==_iff s.scope.active x).0 hit in
      let odd_x : x % 2 ≡ 1 = IsOdd-get s.tasks i (trying x) v.odd e in
      let sum = running-set s.tasks i (trying x) active_task e in
      rw (hit, compare_exchange)
        (record {
          counted = ground (arith, v.counted, sum);
          odd = IsOdd-set s.tasks i active_task v.odd refl;
          stored = v.stored;
          once = ground (arith, v.once, v.counted, sum);
        })
  | inr miss ↦
      rw (miss, compare_exchange)
        (quiet-Inv s i (trying x) (after_failure s.scope) e (sym (weight-after_failure s.scope))
          (IsOdd-after_failure s.scope) v)
]

complete-Inv :
    (s : System) (i : ℕ)
    → get_elem? s.tasks i ≡ some active_task
    → Inv s
    → Inv (record s {
      scope = (notify_completion s.scope).0;
      tasks = set s.tasks i completed;
      resumed = s.resumed + resumes (notify_completion s.scope).1;
    })
unfolding notify_completion expects
complete-Inv s i e v =
    let sum = running-set s.tasks i active_task completed e in
    record {
      counted = omega (arith, v.counted, sum);
      odd = IsOdd-set s.tasks i completed v.odd refl;
      stored = v.stored;
      once = ground (arith, v.once, v.counted, sum);
    }

-- Every step keeps the invariant.
pub Step-Inv : {s t : System} → Step s t → Inv s → Inv t
unfolding store_handle drop_open_bit expects
Step-Inv {s} (start i e) v = quiet-Inv s i idle (trying 1) e refl refl v
Step-Inv {s} (exchange i x e) v = exchange-Inv s i x e v
Step-Inv {s} (fail i x e) v =
    quiet-Inv s i (trying x) (after_failure s.scope) e (sym (weight-after_failure s.scope))
      (IsOdd-after_failure s.scope) v
Step-Inv {s} (complete i e) v = complete-Inv s i e v
Step-Inv {s} (store e) v = record {
  counted = ground (arith, v.counted, e);
  odd = v.odd;
  stored = refl;
  once = ground (arith, v.once, e);
}
Step-Inv {s} (close e) v = record {
  counted = ground (arith, v.counted, e);
  odd = v.odd;
  stored = ground (arith, v.stored, e);
  once = ground (arith, v.once, v.counted, e);
}

-- The tasks of a fresh scope.
abbrev pub AreIdle : List Pc → Type 0
AreIdle = All (λ p. p ≡ idle)

init-Inv : (tasks : List Pc) → AreIdle tasks → Inv (init tasks)
init-Inv tasks h = record {
  counted = omega (arith, running-idle tasks h);
  odd = IsOdd-idle tasks h;
  stored = refl;
  once = refl;
}

-- However tasks and one `close` interleave on a fresh scope, the counter is twice the number of
-- active tasks and one more while the scope is open; the waiting handle is stored once `close`
-- has begun; and it has been resumed exactly once if the scope is closed and no task is active,
-- and not at all otherwise.
pub Reach-Inv : (tasks : List Pc) {s : System} → AreIdle tasks → Reach (init tasks) s → Inv s
Reach-Inv tasks h here = init-Inv tasks h
Reach-Inv tasks h (next r st) = Step-Inv st (Reach-Inv tasks h r)

exchange_closed :
    (s : System) (x : ℕ)
    → IsOdd (trying x)
    → Inv s
    → s.closer ≡ closed
    → weight (compare_exchange x s.scope).1 ≡ 0
unfolding compare_exchange expects
exchange_closed s x o v c = ground (arith, v.counted, weight-after_failure s.scope)

-- On a closed scope no step starts a task: in every reachable state that is closed, whatever step
-- follows, the scope stays closed and the number of active tasks does not grow.
pub closed-running :
    (tasks : List Pc) {s t : System}
    → AreIdle tasks
    → Reach (init tasks) s
    → s.closer ≡ closed
    → Step s t
    → (t.closer ≡ closed) × (running t.tasks ≤ running s.tasks)
closed-running tasks {s} h r c (start i e) =
    (c, omega (arith, running-set s.tasks i idle (trying 1) e))
closed-running tasks {s} h r c (exchange i x e) =
    let refusal =
      exchange_closed s x (IsOdd-get s.tasks i (trying x) (Reach-Inv tasks h r).odd e)
        (Reach-Inv tasks h r) c in
    (c, omega (arith, running-set s.tasks i (trying x) (compare_exchange x s.scope).1 e, refusal))
closed-running tasks {s} h r c (fail i x e) = (
  c,
  omega (
    arith,
    running-set s.tasks i (trying x) (after_failure s.scope) e,
    weight-after_failure s.scope,
  ),
)
closed-running tasks {s} h r c (complete i e) =
    (c, omega (arith, running-set s.tasks i active_task completed e))
closed-running tasks {s} h r c (store e) = cc
closed-running tasks {s} h r c (close e) = cc
