-- ===== src/ThreadPool/Service.antt =====
-- The pool does not forget its tasks.
use coro_wayland.Base.{
  ℕ, suc, ◌+◌, ◌<◌, ◌≡◌, ◌≢◌, ◌⊎◌, inl, inr, refl, sym, ap, ◌∙◌, arith, Bool, true, false,
  Bool-cases, List, [], ◌∷◌, ◌==◌, ==_iff, if◌then◌else◌, length, drop, ◌-◌,
}
use mathlib.Core.Path.{subst}
use coro_wayland.Base.Options.{OnSome, present, bind-OnSome, any-OnSome, OnSome-some}
use coro_wayland.Bwos.Queue.{Queue, push_range}
use coro_wayland.ThreadPool.{
  Pool, Place, popping, looking, searching, found, giving_up, asleep, woken, returned, Worker,
  clamp, capacity, pop_remote, try_pop_remote, become_thief, first_lock, found_lock, fall_asleep,
  sleep, last_lock, wake, System, update, put_worker, at_place, enqueue, stop, Step, pops, looks,
  steals, fails, resumes, sleeps, notifies, notifies_none, wakes, wakes_early, enqueues_local,
  enqueues, stops, due, Reach, starts, steps,
}

-- A worker that goes through the loop, and will look at the tasks of the pool before it sleeps.
abbrev pub Awake : Place → Type 0
Awake asleep = ⊥
Awake returned = ⊥
Awake _ = Unit

abbrev pub SomeAwake : System → Type 0
SomeAwake s = (i : ℕ) × (i < s.count) × Awake (s.workers i).place

-- While the pool does not stop: no worker has returned; and where there are tasks, a worker is
-- awake or will be notified.
pub record Served (s : System) : Type 0 where
  pub manned : 0 < s.count
  pub stays : (i : ℕ) → (s.workers i).place ≡ returned → s.pool.stopping ≡ true
  pub serves : s.pool.stopping ≡ false → s.pool.tasks ≢ [] → (0 < s.notifications) ⊎ SomeAwake s

update_self : (workers : ℕ → Worker) (i : ℕ) (w : Worker) → update workers i w i ≡ w
unfolding update
update_self workers i w = rw ((==_iff i i).1 refl)

update-cases :
    (workers : ℕ → Worker) (i j : ℕ) (w : Worker)
    → (update workers i w j ≡ w) ⊎ (update workers i w j ≡ workers j)
unfolding update
update-cases workers i j w = elim (Bool-cases (i == j)) [ inl e ↦ inl (rw e) | inr e ↦ inr (rw e) ]

-- A worker goes to a place where it is awake, and the pool stops no sooner than before.
moved-Served :
    (s t : System) (i : ℕ) (w : Worker)
    → Served s
    → t.workers ≡ update s.workers i w
    → t.count ≡ s.count
    → t.pool.stopping ≡ s.pool.stopping
    → i < s.count
    → Awake w.place
    → Served t
moved-Served s t i w served e c same h awake = record {
  manned = omega (arith, h, c);
  stays = λ j g. elim (update-cases s.workers i j w) [
    | inl k ↦
        absurd (subst Awake (ap (λ v. v.place) (sym k) ∙ ap (λ f. (f j).place) (sym e) ∙ g) awake)
    | inr k ↦ same ∙ served.stays j (ap (λ v. v.place) (sym k) ∙ ap (λ f. (f j).place) (sym e) ∙ g)
  ];
  serves = λ f g. inr (
    i,
    omega (arith, h, c),
    subst (λ v. Awake v.place) (sym (ap (λ f. f i) e ∙ update_self s.workers i w)) awake,
  );
}

true_ne : true ≢ false
true_ne e = cc

-- `try_pop_remote` fails only when the pool has no tasks.
Kept : Pool → Pool × Queue ℕ × Bool → Type 0
Kept p r = (r.0.stopping ≡ p.stopping) × (r.2 ≡ false → r.0.tasks ≡ [])

pop_remote-Kept :
    (p : Pool) (q : Queue ℕ) (ts : List ℕ) → p.tasks ≡ ts → OnSome (Kept p) (pop_remote p q ts)
unfolding pop_remote Kept
pop_remote-Kept p q [] h = present _ (refl, λ e. h)
pop_remote-Kept p q (t ∷ ts) h =
    let kept = length (t ∷ ts) - clamp (length (t ∷ ts)) (capacity q) in
    bind-OnSome _ (any-OnSome (push_range 0 q (drop kept (t ∷ ts))))
      (λ moved u. present _ (refl, λ e. absurd (true_ne e)))

become_thief-Awake :
    (r : Pool × Queue ℕ × Bool)
    → Awake (become_thief r).1.place × ((become_thief r).0.stopping ≡ r.0.stopping)
unfolding become_thief
become_thief-Awake (p, q, true) = (tt, refl)
become_thief-Awake (p, q, false) = (tt, refl)

Kicked : Pool → Pool × Worker → Type 0
Kicked p x = Awake x.1.place × (x.0.stopping ≡ p.stopping)

first_lock-Awake : (p : Pool) (q : Queue ℕ) → OnSome (Kicked p) (first_lock p q)
unfolding first_lock try_pop_remote Kept Kicked
first_lock-Awake p q =
    bind-OnSome _ (pop_remote-Kept p q p.tasks refl)
      (λ r kept. let fine = become_thief-Awake r in present _ (fine.0, fine.1 ∙ kept.0))

-- A worker goes to sleep, or returns, only when the pool has no tasks.
Rests : Pool → Pool × Worker × Bool → Type 0
Rests p x =
    (x.0.stopping ≡ p.stopping)
    × (Awake x.1.place ⊎ ((x.0.tasks ≡ []) × (x.1.place ≡ returned → x.0.stopping ≡ true)))

fall_asleep-Rests : (p : Pool) (q : Queue ℕ) (n : ℕ) → p.tasks ≡ [] → Rests p (fall_asleep p q n)
unfolding fall_asleep Rests
fall_asleep-Rests p q n h = elim (Bool-cases p.stopping) [
  | inl e ↦ rw e (refl, inr (h, λ k. refl))
  | inr e ↦ rw e (refl, inr (h, λ k. absurd cc))
]

sleep-Rests :
    (n : ℕ) (r : Pool × Queue ℕ × Bool) → (r.2 ≡ false → r.0.tasks ≡ []) → Rests r.0 (sleep n r)
unfolding sleep Rests
sleep-Rests n (p, q, true) h = (refl, inl tt)
sleep-Rests n (p, q, false) h =
    fall_asleep-Rests (record p { sleeping = suc p.sleeping }) q n (h refl)

last_lock-Rests : (n : ℕ) (p : Pool) (q : Queue ℕ) → OnSome (Rests p) (last_lock n p q)
unfolding last_lock try_pop_remote found_lock Kept Rests
last_lock-Rests n p q =
    bind-OnSome _ (pop_remote-Kept (found_lock p) q p.tasks refl)
      (λ r kept. let rests = sleep-Rests n r kept.1 in present _ (rests.0 ∙ kept.0, rests.1))

if-Awake : (b : Bool) (p q : Place) → Awake p → Awake q → Awake (if b then p else q)
if-Awake true p q h k = h
if-Awake false p q h k = k

rest-Awake : (p : Place) → p ≢ asleep → (p ≡ returned → ⊥) → Awake p
rest-Awake asleep h k = absurd (h refl)
rest-Awake returned h k = absurd (k refl)
rest-Awake popping h k = tt
rest-Awake looking h k = tt
rest-Awake searching h k = tt
rest-Awake found h k = tt
rest-Awake giving_up h k = tt
rest-Awake woken h k = tt

same_place :
    (workers : ℕ → Worker) (j : ℕ) (q : Queue ℕ) (i : ℕ)
    → (update workers j (record (workers j) { task_queue = q }) i).place ≡ (workers i).place
unfolding update
same_place workers j q i = elim (Bool-cases (j == i)) [
  | inl e ↦ rw e (ap (λ k. (workers k).place) ((==_iff j i).0 e))
  | inr e ↦ rw e
]

-- The place of a worker is not changed with its queue.
queue-Served :
    (s : System) (j : ℕ) (q : Queue ℕ)
    → Served s
    → Served (put_worker s j (record (s.workers j) { task_queue = q }))
unfolding put_worker
queue-Served s j q served =
    let w = record (s.workers j) { task_queue = q } in
    record {
      manned = served.manned;
      stays = λ i g. served.stays i (sym (same_place s.workers j q i) ∙ g);
      serves = λ f g. elim (served.serves f g) [
        | inl h ↦ inl h
        | inr (i, h, awake) ↦ inr (i, h, subst Awake (sym (same_place s.workers j q i)) awake)
      ];
    }

-- A worker rests: the pool has no tasks then.
rest-Served :
    (s : System) (i : ℕ) (p : Pool) (w : Worker) (notify : Bool)
    → Served s
    → i < s.count
    → Rests s.pool (p, w, notify)
    → Served (put_worker (record s { pool = p; notifications = s.notifications + due notify }) i w)
unfolding Rests put_worker
rest-Served s i p w notify served h (same, inl awake) =
    moved-Served s
      (put_worker (record s { pool = p; notifications = s.notifications + due notify }) i w) i w
      served refl refl same h awake
rest-Served s i p w notify served h (same, inr (none_left, stops_too)) = record {
  manned = served.manned;
  stays = λ j g. elim (update-cases s.workers i j w) [
    | inl k ↦ stops_too (ap (λ v. v.place) (sym k) ∙ g)
    | inr k ↦ same ∙ served.stays j (ap (λ v. v.place) (sym k) ∙ g)
  ];
  serves = λ f g. absurd (g none_left);
}

Step-Served : (s t : System) → Served s → Step s t → Served t
unfolding put_worker enqueue stop Kicked found_lock wake
Step-Served s _ served (pops i q task h e f) =
    moved-Served s _ i (record { place = if task == 0 then looking else popping; task_queue = q })
      served refl refl refl h (if-Awake (task == 0) looking popping tt tt)
Step-Served s _ served (looks i p w h e f) =
    let fine = OnSome-some (p, w) (first_lock-Awake s.pool (s.workers i).task_queue) f in
    moved-Served s _ i w served refl refl fine.1 h fine.0
Step-Served s _ served (steals i j q task h apart e f some_task) =
    moved-Served (put_worker s j (record (s.workers j) { task_queue = q })) _ i
      (at_place found (s.workers i)) (queue-Served s j q served) refl refl refl h tt
Step-Served s _ served (fails i h e) =
    moved-Served s _ i (at_place giving_up (s.workers i)) served refl refl refl h tt
Step-Served s _ served (resumes i h e) =
    moved-Served s _ i (at_place popping (s.workers i)) served refl refl refl h tt
Step-Served s _ served (sleeps i p w notify h e f) =
    rest-Served s i p w notify served h
      (OnSome-some (p, w, notify) (last_lock-Rests s.count s.pool (s.workers i).task_queue) f)
Step-Served s _ served (notifies i h e) =
    moved-Served s _ i (at_place woken (s.workers i)) served refl refl refl h tt
Step-Served s _ served (notifies_none none_asleep) = record {
  manned = served.manned;
  stays = served.stays;
  serves = λ f g. inr (
    0,
    served.manned,
    rest-Awake (s.workers 0).place (none_asleep 0 served.manned)
        (λ k. true_ne (sym (served.stays 0 k) ∙ f)),
  );
}
Step-Served s _ served (wakes i h e) =
    moved-Served s _ i (at_place popping (s.workers i)) served refl refl refl h tt
Step-Served s _ served (wakes_early i h e) =
    moved-Served s _ i (at_place woken (s.workers i)) served refl refl refl h tt
Step-Served s _ served (enqueues_local i q task h e f) = queue-Served s i q served
Step-Served s _ served (enqueues task) = record {
  manned = served.manned;
  stays = served.stays;
  serves = λ f g. inl (omega arith);
}
Step-Served s _ served stops = record {
  manned = served.manned;
  stays = λ i g. refl;
  serves = λ f g. absurd (true_ne f);
}

Reach-Served : (s : System) → Reach s → Served s
Reach-Served _ (starts n q) = record {
  manned = omega arith;
  stays = λ i e. absurd cc;
  serves = λ f g. absurd (g refl);
}
Reach-Served _ (steps s t r step) = Step-Served s t (Reach-Served s r) step

-- While the pool does not stop and has tasks, a call of `notify_one` is due, or a worker is awake:
-- one that does not sleep and goes on through its loop. So no task waits for workers that all
-- sleep.
pub tasks_served :
    (s : System)
    → Reach s
    → s.pool.stopping ≡ false
    → s.pool.tasks ≢ []
    → (0 < s.notifications) ⊎ SomeAwake s
tasks_served s r f g = (Reach-Served s r).serves f g
