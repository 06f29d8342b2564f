-- ===== src/Bwos/Queue/Stack.antt =====
-- The owner finds the item that it pushed last, also where the push went on to the next block.
use coro_wayland.Base.Options.{◌>>=◌}
use coro_wayland.Base.{
  ℕ, suc, ◌≡◌, ◌≢◌, sym, ap, ◌∙◌, arith, Bool, true, false, Option, none, some, List, [], ◌∷◌, ◌++◌,
  length, get_or, set, length-set, get_or-set_self,
}
use mathlib.Core.Path.{subst}
use coro_wayland.Bwos.Block.{Code, success, Block, new_block, put, thieves_done}
use coro_wayland.Bwos.Block.Contents.{IsOwned, owned}
use coro_wayland.Bwos.Block.Owner.{pushed, no_room, put-Put}
use coro_wayland.Bwos.Queue.{
  Queue, masked, block_at, pop_back, advance_put_index, after_put, push_step, push_loop, push_back,
}
use coro_wayland.Bwos.Queue.Blocks.{
  masked_lt, Fresh, last, IsValid, pop_back-last, next_index, Advanced, advance-Advanced, stays,
  moves, waits,
}

module _ {ℓ} {A : Type ℓ} (nothing : A) where
  -- What `push_back` does: the item is the last one of the last block, or there is no room, or it
  -- waits for thieves of the next block.
  data Pushed (q : Queue A) (v : A) : Option (Queue A × Bool) → Type ℓ where
    on_top :
        (q' : Queue A) (xs : List A)
        → length q'.blocks ≡ suc q'.mask
        → IsOwned (last nothing q')
        → owned (last nothing q') ≡ xs ++ v ∷ []
        → Pushed q v (some (q', true))
    refused : (q' : Queue A) → Pushed q v (some (q', false))
    held_up : thieves_done (block_at nothing q (next_index nothing q)) ≡ false → Pushed q v none

  push_step-success :
      (again : Queue A → Option (Queue A × Bool)) (q : Queue A) (i : ℕ) (r : Block A × Code)
      → r.1 ≡ success
      → push_step nothing again q i r ≡ some (record q { blocks = set q.blocks i r.0 }, true)
  unfolding push_step
  push_step-success again q i (b, c) e = rw e

  -- A push into the last block.
  push_loop-room :
      (k : ℕ) (q₀ q : Queue A) (v : A)
      → length q.blocks ≡ suc q.mask
      → (put (last nothing q) v).1 ≡ success
      → IsOwned (put (last nothing q) v).0
      → owned (put (last nothing q) v).0 ≡ owned (last nothing q) ++ v ∷ []
      → Pushed q₀ v (push_loop nothing (suc k) q v)
  unfolding push_loop
  push_loop-room k q₀ q v count ok o e =
      let i = masked q.mask q.last_block in
      let b = (put (last nothing q) v).0 in
      let found : get_or (set q.blocks i b) i (new_block nothing 0) ≡ b =
        get_or-set_self q.blocks i b (new_block nothing 0)
          (omega (arith, count, masked_lt q.mask q.last_block)) in
      rw (push_step-success (λ q'. push_loop nothing k q' v) q i (put (last nothing q) v) ok) (
        on_top (record q { blocks = set q.blocks i b }) (owned (last nothing q))
          (length-set q.blocks i b ∙ count) (subst IsOwned (sym found) o) (ap owned found ∙ e))

  push_loop-Fresh :
      (k : ℕ) (q₀ q : Queue A) (v : A)
      → length q.blocks ≡ suc q.mask
      → Fresh (last nothing q)
      → Pushed q₀ v (push_loop nothing (suc k) q v)
  push_loop-Fresh k q₀ q v count fresh = elim (put-Put (last nothing q) v fresh.is_owned) [
    | pushed ok o e ↦ push_loop-room k q₀ q v count ok o e
    | no_room e at_end ↦ absurd (let h = fresh.room in omega (arith, h, at_end))
  ]

  after-Pushed :
      (k : ℕ) (q : Queue A) (v : A) (advanced : Option (Bool × Queue A))
      → Advanced nothing q advanced
      → Pushed q v (advanced >>= after_put nothing (λ q'. push_loop nothing (suc k) q' v) false)
  unfolding after_put
  after-Pushed k q v _ stays = refused q
  after-Pushed k q v _ (moves q' count fresh) = push_loop-Fresh k q q' v count fresh
  after-Pushed k q v _ (waits busy) = held_up busy

  push_back-Pushed :
      (q : Queue A) (size : ℕ) (v : A) → IsValid nothing q size → Pushed q v (push_back nothing q v)
  unfolding push_back push_loop push_step
  push_back-Pushed q size v valid = elim (put-Put (last nothing q) v valid.owns) [
    | pushed ok o e ↦ push_loop-room (length q.blocks) q q v valid.count ok o e
    | no_room e at_end ↦
        rw (e, valid.count)
          (after-Pushed q.mask q v (advance_put_index nothing q)
            (advance-Advanced nothing q size valid))
  ]

  -- What a push leaves is popped again; and a push that waits has a reason.
  Pushed-pop_back :
      (q q' : Queue A) (v : A) (r : Option (Queue A × Bool))
      → Pushed q v r
      → r ≡ some (q', true)
      → (q'' : Queue A) × (pop_back nothing q' ≡ some (q'', v))
  Pushed-pop_back q q' v _ (on_top p xs count o f) e =
      let g : p ≡ q' = cc in
      let found = pop_back-last nothing p xs v count o f in
      (found.0, ap (pop_back nothing) (sym g) ∙ found.1)
  Pushed-pop_back q q' v _ (refused p) e = absurd (ground arith)
  Pushed-pop_back q q' v _ (held_up busy) e = absurd cc

  Pushed-none :
      (q : Queue A) (v : A) (r : Option (Queue A × Bool))
      → Pushed q v r
      → thieves_done (block_at nothing q (next_index nothing q)) ≡ true
      → r ≢ none
  Pushed-none q v _ (on_top p xs count o f) h e = cc
  Pushed-none q v _ (refused p) h e = cc
  Pushed-none q v _ (held_up busy) h e = ground arith

-- After a push that found room the owner pops the item that it pushed, in the same block or in the
-- next one.
pub push_back-pop_back {ℓ} :
    {A : Type ℓ} (nothing : A) (q q' : Queue A) (size : ℕ) (v : A)
    → IsValid nothing q size
    → push_back nothing q v ≡ some (q', true)
    → (q'' : Queue A) × (pop_back nothing q' ≡ some (q'', v))
push_back-pop_back nothing q q' size v valid e =
    Pushed-pop_back nothing q q' v (push_back nothing q v) (push_back-Pushed nothing q size v valid)
      e

-- A push returns, unless thieves still hold items of the block behind the last one.
pub push_back_returns {ℓ} :
    {A : Type ℓ} (nothing : A) (q : Queue A) (size : ℕ) (v : A)
    → IsValid nothing q size
    → thieves_done (block_at nothing q (next_index nothing q)) ≡ true
    → push_back nothing q v ≢ none
push_back_returns nothing q size v valid done_with =
    Pushed-none nothing q v (push_back nothing q v) (push_back-Pushed nothing q size v valid)
      done_with
