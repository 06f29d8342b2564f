-- ===== src/Bwos/Queue.antt =====
-- The array of blocks of src/core/include/bwos_lifo_queue.hpp: `lifo_queue` and its methods, run
-- without an interruption. A block counter holds a round and the index of a block.
pub mod Counters
pub mod Blocks
pub mod Stack
pub mod Returns
mod Examples
use coro_wayland.Base.Options.{◌>>=◌}
use coro_wayland.Base.{
  ℕ, zero, suc, ◌+◌, ◌-◌, ◌*◌, ◌%◌, ◌^◌, Bool, true, false, not, ◌&&◌, Option, none, some, List, [],
  ◌∷◌, ◌==◌, ltb, leb, if◌then◌else◌, length, get_or, set, replicate,
}
use coro_wayland.Bwos.Words.{half, pack, index_of, round_of, previous, add64, sub64}
use coro_wayland.Bwos.Block.{
  Code, success, done, empty, full, conflict, Block, new_block, put, bulk_put, reduce_round,
  takeover, grant, is_writable, reclaim, get, steal,
}

pub record Queue {ℓ} (A : Type ℓ) : Type ℓ where
  pub last_block : ℕ
  pub start_block : ℕ
  pub blocks : List (Block A)
  pub mask : ℕ

-- `std::bit_ceil`: the least power of two that is not less than `n`. There are at most as many
-- doublings as there are numbers below `n`.
unfoldable pub bit_ceil_from : ℕ → ℕ → ℕ → ℕ
bit_ceil_from zero n power = power
bit_ceil_from (suc fuel) n power =
    let doubled = bit_ceil_from fuel n (2 * power) in if leb n power then power else doubled

unfoldable pub bit_ceil : ℕ → ℕ
unfolding bit_ceil_from
bit_ceil n = bit_ceil_from n n 1

-- `word & mask_`, which is a remainder since `mask_ + 1` is a power of two.
unfoldable pub masked : ℕ → ℕ → ℕ
masked mask word = word % suc mask

-- `round + 1` in `std::uint32_t`.
unfoldable pub following : ℕ → ℕ
following round = (round + 1) % half

unfoldable pub increase_block_counter : ℕ → ℕ → ℕ
unfolding masked following pack round_of
increase_block_counter mask counter =
    let next_index = masked mask (masked mask counter + 1) in
    pack (if next_index == 0 then following (round_of counter) else round_of counter) next_index

unfoldable pub decrease_block_counter : ℕ → ℕ → ℕ
unfolding masked previous pack round_of sub64
decrease_block_counter mask counter =
    pack (if masked mask counter == 0 then previous (round_of counter) else round_of counter)
      (masked mask (sub64 (masked mask counter) 1))

-- `nothing` is `Tp{}`. A queue is always read within its bounds, since `mask_ + 1` is the number
-- of its blocks.
module _ {ℓ} {A : Type ℓ} (nothing : A) where
  abbrev pub block_at : Queue A → ℕ → Block A
  block_at q i = get_or q.blocks i (new_block nothing 0)

  -- `none` where `reclaim` waits.
  unfoldable pub new_queue : ℕ → ℕ → Option (Queue A)
  unfolding bit_ceil
  new_queue num_blocks size =
      let blocks = replicate (bit_ceil num_blocks) (new_block nothing size) in
      (do
        first ← reclaim (get_or blocks 0 (new_block nothing 0)) 0
        some (record {
          last_block = 0;
          start_block = 0;
          blocks = set blocks 0 first;
          mask = length blocks - 1;
        }))

  -- The stores of `advance_get_index`.
  unfoldable pub move_back : Queue A → ℕ → ℕ → Queue A
  unfolding decrease_block_counter masked reduce_round takeover
  move_back q owner owner_index =
      let predecessor = decrease_block_counter q.mask owner in
      let reduced = set q.blocks owner_index (reduce_round (block_at q owner_index)) in
      let i = masked q.mask predecessor in
      record q {
        last_block = predecessor;
        blocks = set reduced i (takeover (get_or reduced i (new_block nothing 0)));
      }

  -- `none` where it returns false.
  unfoldable pub advance_get_index : Queue A → ℕ → ℕ → Option (Queue A)
  unfolding move_back
  advance_get_index q owner owner_index =
      if q.start_block == owner then none else some (move_back q owner owner_index)

  -- The test of the loop of `pop_back`.
  unfoldable pub after_get :
      (Queue A → Option (Queue A × A)) → Queue A → Option (Queue A) → Option (Queue A × A)
  after_get again q none = some (q, nothing)
  after_get again q (some moved) = again moved

  -- A turn of the loop of `pop_back` with the result of `get`.
  unfoldable pub pop_step :
      (Queue A → Option (Queue A × A)) → Queue A → ℕ → Block A × Code × A → Option (Queue A × A)
  unfolding advance_get_index after_get
  pop_step again q owner_index (b, success, v) =
      some (record q { blocks = set q.blocks owner_index b }, v)
  pop_step again q owner_index (b, done, v) = some (q, nothing)
  pop_step again q owner_index (b, code, v) =
      after_get again q (advance_get_index q q.last_block owner_index)

  unfoldable pub pop_loop : ℕ → Queue A → Option (Queue A × A)
  unfolding pop_step get masked
  pop_loop zero q = none
  pop_loop (suc fuel) q =
      pop_step (pop_loop fuel) q (masked q.mask q.last_block)
        (get nothing (block_at q (masked q.mask q.last_block)))

  -- The loop of `pop_back` goes over each block once at most.
  unfoldable pub pop_back : Queue A → Option (Queue A × A)
  unfolding pop_loop
  pop_back q = pop_loop (suc (length q.blocks)) q

  -- What `advance_put_index` does once the next block is writable: `grant` and `reclaim`.
  unfoldable pub move_on : Queue A → ℕ → ℕ → ℕ → Option (Queue A)
  unfolding grant pack masked
  move_on q owner_index next_index next_round =
      let granted = set q.blocks owner_index (grant (block_at q owner_index)) in
      (do
        next_block ← reclaim (get_or granted next_index (new_block nothing 0)) next_round
        some (record q {
          last_block = pack next_round next_index;
          blocks = set granted next_index next_block;
        }))

  -- The start moves on when the next block is the one at the start.
  unfoldable pub move_start : Queue A → ℕ → Queue A
  unfolding masked increase_block_counter
  move_start q next_index =
      if next_index == masked q.mask q.start_block
      then record q { start_block = increase_block_counter q.mask q.start_block }
      else q

  -- Whether `advance_put_index` moves, and the queue then; `none` where `reclaim` waits.
  unfoldable pub advance_put_index : Queue A → Option (Bool × Queue A)
  unfolding move_on move_start masked following round_of
  advance_put_index q =
      let next_index = masked q.mask (add64 q.last_block 1) in
      let owner_index = masked q.mask q.last_block in
      let next_round =
        if next_index == 0 then following (round_of q.last_block) else round_of q.last_block in
      if next_index == owner_index
      then some (false, q)
      else if not (is_writable (block_at q next_index) next_round)
      then some (false, q)
      else (do
        moved ← move_on (move_start q next_index) owner_index next_index next_round
        some (true, moved))

  -- What follows `advance_put_index` in the loops of `push_back`.
  unfoldable pub after_put {κ} :
      {B : Type κ} → (Queue A → Option (Queue A × B)) → B → Bool × Queue A → Option (Queue A × B)
  after_put again stopped (true, q) = again q
  after_put again stopped (false, q) = some (q, stopped)

  unfoldable pub push_step :
      (Queue A → Option (Queue A × Bool)) → Queue A → ℕ → Block A × Code → Option (Queue A × Bool)
  unfolding after_put advance_put_index
  push_step again q owner_index (b, success) =
      some (record q { blocks = set q.blocks owner_index b }, true)
  push_step again q owner_index (b, code) = (do
    advanced ← advance_put_index q
    after_put again false advanced)

  unfoldable pub push_loop : ℕ → Queue A → A → Option (Queue A × Bool)
  unfolding push_step put masked
  push_loop zero q v = none
  push_loop (suc fuel) q v =
      let owner_index = masked q.mask q.last_block in
      push_step (λ q'. push_loop fuel q' v) q owner_index (put (block_at q owner_index) v)

  -- `push_back` of one item, and whether there was room.
  unfoldable pub push_back : Queue A → A → Option (Queue A × Bool)
  unfolding push_loop
  push_back q v = push_loop (suc (length q.blocks)) q v

  -- `push_back` of a range; the result has the iterator as the list that it points at.
  unfoldable pub push_range_step :
      (Queue A → Option (Queue A × List A)) → Queue A → List A → Option (Queue A × List A)
  unfolding after_put advance_put_index
  push_range_step again q [] = some (q, [])
  push_range_step again q (v ∷ values) = (do
    advanced ← advance_put_index q
    after_put again (v ∷ values) advanced)

  unfoldable pub push_range_loop : ℕ → Queue A → List A → Option (Queue A × List A)
  unfolding push_range_step bulk_put masked
  push_range_loop zero q values = none
  push_range_loop (suc fuel) q values =
      let owner_index = masked q.mask q.last_block in
      let (b, rest) = bulk_put (block_at q owner_index) values in
      push_range_step (λ q'. push_range_loop fuel q' rest)
        (record q { blocks = set q.blocks owner_index b }) rest

  unfoldable pub push_range : Queue A → List A → Option (Queue A × List A)
  unfolding push_range_loop
  push_range q values = push_range_loop (suc (length q.blocks)) q values

  -- `advance_steal_index`.
  unfoldable pub advance_steal_index : Queue A → ℕ → ℕ × Bool
  unfolding increase_block_counter
  advance_steal_index q thief =
      let next = increase_block_counter q.mask thief in (next, ltb next q.last_block)

  -- A turn of the outer loop of `steal_front` with the result of `steal`, which without an
  -- interruption is never a conflict.
  unfoldable pub steal_step :
      (ℕ → Option (Queue A × A)) → Queue A → ℕ → Block A × Code × A → Option (Queue A × A)
  unfolding advance_steal_index masked
  steal_step again q thief (b, success, v) =
      some (record q { blocks = set q.blocks (masked q.mask thief) b }, v)
  steal_step again q thief (b, empty, v) = some (q, nothing)
  steal_step again q thief (b, code, v) =
      let (next, more) = advance_steal_index q thief in
      if more then again next else some (q, nothing)

  unfoldable pub steal_loop : ℕ → Queue A → ℕ → Option (Queue A × A)
  unfolding steal_step steal masked round_of
  steal_loop zero q thief = none
  steal_loop (suc fuel) q thief =
      steal_step (steal_loop fuel q) q thief
        (steal nothing (block_at q (masked q.mask thief)) (round_of thief))

  unfoldable pub steal_front : Queue A → Option (Queue A × A)
  unfolding steal_loop
  steal_front q = steal_loop (suc (length q.blocks)) q q.start_block
