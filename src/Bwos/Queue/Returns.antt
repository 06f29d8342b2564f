-- ===== src/Bwos/Queue/Returns.antt =====
-- The loop of `pop_back` ends at the start of the queue.
use coro_wayland.Base.{
  ℕ, zero, suc, ◌≤◌, ◌<◌, ◌≡◌, ◌≢◌, refl, ap, ◌∙◌, arith, Bool, true, false, Option, none, some,
  ◌==◌, if◌then◌else◌, length,
}
use coro_wayland.Bwos.Block.{Code, success, done, empty, full, conflict, Block, get}
use coro_wayland.Bwos.Queue.{
  Queue, masked, block_at, decrease_block_counter, move_back, advance_get_index, after_get,
  pop_step, pop_loop, pop_back,
}
use coro_wayland.Bwos.Queue.Counters.{
  IsMask, IsCounter, ahead, ahead-IsCounter, decrease-increase_counter,
}

module _ {ℓ} {A : Type ℓ} (nothing : A) where
  after_get-returns :
      (b : Bool) (again : Queue A → Option (Queue A × A)) (q moved : Queue A)
      → (b ≡ false → again moved ≢ none)
      → after_get nothing again q (if b then none else some moved) ≢ none
  unfolding after_get
  after_get-returns true again q moved h e = cc
  after_get-returns false again q moved h e = h refl e

  pop_step-returns :
      (again : Queue A → Option (Queue A × A)) (q : Queue A) (i : ℕ) (r : Block A × Code × A)
      → ((q.start_block == q.last_block) ≡ false
          → again (move_back nothing q q.last_block i) ≢ none)
      → pop_step nothing again q i r ≢ none
  unfolding pop_step advance_get_index
  pop_step-returns again q i (b, success, v) h e = cc
  pop_step-returns again q i (b, done, v) h e = cc
  pop_step-returns again q i (b, empty, v) h e = after_get-returns _ again q _ h e
  pop_step-returns again q i (b, full, v) h e = after_get-returns _ again q _ h e
  pop_step-returns again q i (b, conflict, v) h e = after_get-returns _ again q _ h e

  pop_loop-returns :
      (n k : ℕ) (q : Queue A) (m : IsMask q.mask)
      → n < k
      → IsCounter q.mask m q.start_block
      → q.last_block ≡ ahead q.mask n q.start_block
      → pop_loop nothing k q ≢ none
  unfolding pop_loop ahead move_back
  pop_loop-returns n zero q m h c e = absurd (omega arith)
  pop_loop-returns zero (suc k) q m h c e =
      pop_step-returns (pop_loop nothing k) q _ (get nothing (block_at nothing q _))
        (λ differ. absurd (ground (arith, e, differ)))
  pop_loop-returns (suc n) (suc k) q m h c e =
      let i = masked q.mask q.last_block in
      pop_step-returns (pop_loop nothing k) q i (get nothing (block_at nothing q i)) (λ differ.
        pop_loop-returns n k (move_back nothing q q.last_block i) m (omega (arith, h)) c (
          ap (decrease_block_counter q.mask) e
          ∙ decrease-increase_counter q.mask m (ahead q.mask n q.start_block)
              (ahead-IsCounter q.mask m n q.start_block c)))

  -- `pop_back` returns when the last block is `n` blocks on from the first one, and there are `n`
  -- blocks at least.
  pub pop_back_returns :
      (n : ℕ) (q : Queue A) (m : IsMask q.mask)
      → n ≤ length q.blocks
      → IsCounter q.mask m q.start_block
      → q.last_block ≡ ahead q.mask n q.start_block
      → pop_back nothing q ≢ none
  unfolding pop_back
  pop_back_returns n q m h c e =
      pop_loop-returns n (suc (length q.blocks)) q m (omega (arith, h)) c e
