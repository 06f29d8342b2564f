-- ===== src/IoLoop/Balance.antt =====
-- The ledger of submitted, pending and completed operations, for the steps that move one of them.
use coro_wayland.Base.{
  ℕ, ◌+◌, ◌≡◌, refl, some, Option-cases, Bool-cases, inl, inr, List, [], ◌∷◌, ◌++◌, arith, ◌==◌,
  ==_iff,
}
use coro_wayland.Timers.Interface.{count}
use coro_wayland.Timers.Laws.{count-append, one_if}
use coro_wayland.IoLoop.{
  Kind, stop_timed, stop_poll, Command, Loop, enqueue, erase_poll, complete, split_polls,
  complete_all,
}

-- The commands that submit an operation; the others only take one back.
abbrev pub submits : Kind → ℕ → ℕ
submits stop_timed n = 0
submits stop_poll n = 0
submits _ n = n

-- How often the operation of a task is submitted by these commands.
unfoldable pub submitted : ℕ → List Command → ℕ
submitted a [] = 0
submitted a (c ∷ cs) = submits c.command_kind (one_if c.task a) + submitted a cs

pub submitted-append :
    (a : ℕ) (xs ys : List Command) → submitted a (xs ++ ys) ≡ submitted a xs + submitted a ys
unfolding submitted
submitted-append a [] ys = omega arith
submitted-append a (c ∷ cs) ys = omega (arith, submitted-append a cs ys)

-- The operations of a task that have been completed or are pending in the loop.
unfoldable pub held : ℕ → Loop → ℕ
held a s = count a s.completed + count a s.timers + count a s.polls

-- The ledger of one round, where `extra` counts the commands still to be run.
abbrev pub Balanced : ℕ → ℕ → Loop → Type 0
Balanced a extra s = held a s + submitted a s.inbox + extra ≡ submitted a s.issued

pub enqueue-Balanced :
    (a extra : ℕ) (cs : List Command) (s : Loop)
    → Balanced a extra s
    → Balanced a extra (enqueue cs s)
unfolding enqueue held
enqueue-Balanced a extra cs s b =
    omega (arith, submitted-append a s.inbox cs, submitted-append a s.issued cs)

module _ (resume : ℕ → List Command) where
  -- Completing a task that was taken out of a place where it was counted.
  pub complete-Balanced :
      (a extra t : ℕ) (s : Loop)
      → Balanced a (one_if t a + extra) s
      → Balanced a extra (complete resume t s)
  unfolding complete held count
  complete-Balanced a extra t s b =
      enqueue-Balanced a extra (resume t) (record s { completed = s.completed ++ t ∷ [] })
        (omega (arith, count-append a s.completed (t ∷ [])))

  pub complete_all-Balanced :
      (a extra : ℕ) (ts : List ℕ) (s : Loop)
      → Balanced a (count a ts + extra) s
      → Balanced a extra (complete_all resume ts s)
  unfolding complete_all count
  complete_all-Balanced a extra [] s b = omega arith
  complete_all-Balanced a extra (t ∷ ts) s b =
      complete_all-Balanced a extra ts (complete resume t s)
        (complete-Balanced a (count a ts + extra) t s (omega arith))

-- After a removal from the polls one copy is gone, or there was none.
pub erase_poll-count :
    (t : ℕ) (xs ys : List ℕ)
    → erase_poll t xs ≡ some ys
    → (a : ℕ) → one_if t a + count a ys ≡ count a xs
unfolding erase_poll count
erase_poll-count t [] ys e a = cc
erase_poll-count t (x ∷ xs) ys e a = elim (Bool-cases (x == t)) [
  | inl here ↦ ground (arith, here, (==_iff x t).0 here)
  | inr there ↦ elim (Option-cases (erase_poll t xs)) [
    | inl none_left ↦ ground (arith, there, none_left)
    | inr (zs, found) ↦ ground (arith, there, found, erase_poll-count t xs zs found a)
  ]
]

pub split_polls-count :
    (a : ℕ) (ts revents : List ℕ)
    → count a (split_polls ts revents).0 + count a (split_polls ts revents).1 ≡ count a ts
unfolding split_polls count
split_polls-count a [] revents = refl
split_polls-count a (t ∷ ts) [] = omega arith
split_polls-count a (t ∷ ts) (r ∷ revents) = ground (arith, split_polls-count a ts revents)
