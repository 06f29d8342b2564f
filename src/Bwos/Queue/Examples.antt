-- ===== src/Bwos/Queue/Examples.antt =====
-- A queue of two blocks of two places each, and tests.
use coro_wayland.Base.{ℕ, zero, suc, ◌≤◌, ◌≡◌, ◌≢◌, refl, arith, true, none, some, [], ◌∷◌}
use coro_wayland.Bwos.Words.{pack, index_of, round_of, previous, add64}
use coro_wayland.Bwos.Block.{
  Block, new_block, block_size, put, bulk_put, bulk_put_loop, steal, steal_load, steal_rest,
  steal_claim, steal_finish, is_writable, thieves_done, reclaim, grant,
}
use coro_wayland.Bwos.Queue.{
  Queue, bit_ceil, bit_ceil_from, masked, following, increase_block_counter, decrease_block_counter,
  new_queue, block_at, pop_back, move_on, move_start, advance_put_index, after_put, push_step,
  push_loop, push_back, push_range, push_range_loop, push_range_step, steal_front, steal_loop,
  steal_step,
}
use coro_wayland.Bwos.Queue.Counters.{IsMask, IsCounter, ahead, decrease-increase}
use coro_wayland.Bwos.Queue.Blocks.{IsValid, next_index}
use coro_wayland.Bwos.Queue.Stack.{push_back-pop_back, push_back_returns}
use coro_wayland.Bwos.Queue.Returns.{pop_back_returns}

abbrev free_block : Block ℕ
free_block = record {
  head = pack 4294967295 2;
  tail = 2;
  steal_count = 2;
  steal_tail = pack 4294967295 2;
  ring_buffer = 0 ∷ 0 ∷ [];
}

-- The first block holds 7 and 8 and is full.
abbrev full_block : Block ℕ
full_block = record {
  head = 0;
  tail = 2;
  steal_count = 0;
  steal_tail = 2;
  ring_buffer = 7 ∷ 8 ∷ [];
}

abbrev queue : Queue ℕ
queue = record { last_block = 0; start_block = 0; blocks = full_block ∷ free_block ∷ []; mask = 1 }

-- The second block after a push of 9.
abbrev pushed_queue : Queue ℕ
pushed_queue = record {
  last_block = 1;
  start_block = 0;
  blocks =
      record full_block { head = 2; steal_tail = 0 }
      ∷ record { head = 0; tail = 1; steal_count = 0; steal_tail = 2; ring_buffer = 9 ∷ 0 ∷ [] }
      ∷ [];
  mask = 1;
}

push_back-queue : push_back 0 queue 9 ≡ some (pushed_queue, true)
unfolding push_back push_loop push_step after_put advance_put_index move_on move_start masked
    following increase_block_counter round_of index_of add64 pack put is_writable reclaim
    thieves_done grant previous
push_back-queue = refl

new_queue-two :
    new_queue 0 2 2
    ≡ some (record queue {
      blocks =
          record { head = 0; tail = 0; steal_count = 0; steal_tail = 2; ring_buffer = 0 ∷ 0 ∷ [] }
          ∷ free_block
          ∷ [];
    })
unfolding new_queue bit_ceil bit_ceil_from new_block pack previous reclaim thieves_done index_of
new_queue-two = refl

-- A thief takes the first item of the first block.
steal_front-pushed :
    steal_front 0 pushed_queue
    ≡ some (
      record pushed_queue {
        blocks =
            record full_block { head = 2; steal_tail = 1; steal_count = 1 }
            ∷ record {
              head = 0;
              tail = 1;
              steal_count = 0;
              steal_tail = 2;
              ring_buffer = 9 ∷ 0 ∷ [];
            }
            ∷ [];
      },
      7,
    )
unfolding steal_front steal_loop steal_step steal steal_load steal_rest steal_claim steal_finish
    masked round_of index_of add64
steal_front-pushed = refl

-- A range of three items is taken by a block of two places, which keeps the last one.
push_range-three : (q : Queue ℕ) × (push_range 0 queue (1 ∷ 2 ∷ 3 ∷ []) ≡ some (q, []))
unfolding push_range push_range_loop push_range_step after_put advance_put_index move_on move_start
    masked following increase_block_counter round_of index_of add64 pack bulk_put bulk_put_loop
    is_writable reclaim thieves_done grant previous
push_range-three = (_, refl)

two : IsMask 1
two = (2147483648, omega arith)

queue-sized : (i : ℕ) → i ≤ 1 → block_size (block_at 0 queue i) ≡ 2
queue-sized zero h = refl
queue-sized (suc zero) h = refl
queue-sized (suc (suc i)) h = absurd (omega arith)

queue-IsValid : IsValid 0 queue 2
unfolding masked index_of
queue-IsValid = record {
  mask_ok = two;
  count = refl;
  positive = omega arith;
  small = omega arith;
  sized = queue-sized;
  owns = record {
    small = omega arith;
    ordered = omega arith;
    within = omega arith;
    closed = refl;
    counted = refl;
  };
}

decrease-increase_example :
    decrease_block_counter 1 (increase_block_counter 1 (pack 4294967295 1)) ≡ pack 4294967295 1
decrease-increase_example = decrease-increase 1 two 4294967295 1 (omega arith) (omega arith)

push_back-pop_back_example : (q : Queue ℕ) × (pop_back 0 pushed_queue ≡ some (q, 9))
push_back-pop_back_example =
    push_back-pop_back 0 queue pushed_queue 2 9 queue-IsValid push_back-queue

thieves_done-free : thieves_done (block_at 0 queue (next_index 0 queue)) ≡ true
unfolding thieves_done masked add64 index_of pack
thieves_done-free = refl

push_back_returns_example : push_back 0 queue 9 ≢ none
push_back_returns_example = push_back_returns 0 queue 2 9 queue-IsValid thieves_done-free

start-IsCounter : IsCounter 1 two 0
unfolding IsCounter pack
start-IsCounter = (0, 0, omega arith, omega arith, refl)

last-ahead : 1 ≡ ahead 1 1 0
unfolding ahead increase_block_counter masked following pack round_of
last-ahead = refl

pop_back_returns_example : pop_back 0 pushed_queue ≢ none
pop_back_returns_example =
    pop_back_returns 0 1 pushed_queue two (omega arith) start-IsCounter last-ahead
