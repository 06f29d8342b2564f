-- ===== src/Bwos/Block.antt =====
-- `lifo_queue::block_type`: each method as the loads and stores that it makes, run without an
-- interruption.
pub mod Contents
pub mod Owner
pub mod Sharing
pub mod Bulk
use coro_wayland.Base.{
  ℕ, ◌+◌, Bool, Option, none, some, List, [], ◌∷◌, ltb, ◌==◌, if◌then◌else◌, length, get_or, set,
  replicate,
}
use coro_wayland.Bwos.Words.{half, pack, index_of, round_of, previous, add64, sub64}

-- `lifo_queue_error_code`.
pub data Code : Type 0 where
  success done empty full conflict : Code

pub record Block {ℓ} (A : Type ℓ) : Type ℓ where
  pub head : ℕ
  pub tail : ℕ
  pub steal_count : ℕ
  pub steal_tail : ℕ
  pub ring_buffer : List A

-- `nothing` is `Tp{}`.
module _ {ℓ} {A : Type ℓ} (nothing : A) where
  unfoldable pub new_block : ℕ → Block A
  new_block size = record {
    head = pack (previous 0) size;
    tail = size;
    steal_count = size;
    steal_tail = pack (previous 0) size;
    ring_buffer = replicate size nothing;
  }

module _ {ℓ} {A : Type ℓ} where
  abbrev pub block_size : Block A → ℕ
  block_size b = length b.ring_buffer

  unfoldable pub put : Block A → A → Block A × Code
  put b value =
      if ltb (index_of b.tail) (block_size b)
      then (
        record b { ring_buffer = set b.ring_buffer (index_of b.tail) value; tail = add64 b.tail 1 },
        success,
      )
      else (b, full)

  -- The loop of `bulk_put`; `back_idx` is not a variable of the loop. The result has the
  -- iterator where the loop stops as the list that it points at.
  unfoldable pub bulk_put_loop : ℕ → ℕ → ℕ → List A → List A → List A × ℕ × List A
  bulk_put_loop size back_idx back ring [] = (ring, back, [])
  bulk_put_loop size back_idx back ring (v ∷ values) =
      let more = bulk_put_loop size back_idx (add64 back 1) (set ring back_idx v) values in
      if ltb back_idx size then more else (ring, back, v ∷ values)

  unfoldable pub bulk_put : Block A → List A → Block A × List A
  unfolding bulk_put_loop
  bulk_put b values =
      let (ring, back, rest) =
        bulk_put_loop (block_size b) (index_of b.tail) b.tail b.ring_buffer values in
      (record b { ring_buffer = ring; tail = back }, rest)

  unfoldable pub reduce_round : Block A → Block A
  reduce_round b = record b {
    steal_tail = pack (previous (round_of b.steal_tail)) (index_of b.steal_tail);
  }

  -- `grant` and `takeover` both exchange the two words.
  unfoldable pub takeover : Block A → Block A
  takeover b = record b { head = b.steal_tail; steal_tail = b.head }

  unfoldable pub grant : Block A → Block A
  grant b = record b { head = b.steal_tail; steal_tail = b.head }

  unfoldable pub is_writable : Block A → ℕ → Bool
  is_writable b round = b.steal_tail == pack (previous round) (block_size b)

  -- The test of the loop in which `reclaim` waits for the thieves.
  unfoldable pub thieves_done : Block A → Bool
  thieves_done b = b.steal_count == index_of b.head

  -- `none` while the loop spins.
  unfoldable pub reclaim : Block A → ℕ → Option (Block A)
  unfolding thieves_done
  reclaim b round =
      if thieves_done b
      then some (record b {
        head = pack round 0;
        tail = 0;
        steal_tail = pack round (block_size b);
        steal_count = 0;
      })
      else none

module _ {ℓ} {A : Type ℓ} (nothing : A) where
  unfoldable pub get : Block A → Block A × Code × A
  get b =
      if index_of b.tail == 0
      then (b, empty, nothing)
      else if index_of b.head == index_of b.tail
      then (b, empty, nothing)
      else (
        record b { tail = sub64 b.tail 1 },
        success,
        get_or b.ring_buffer (sub64 (index_of b.tail) 1) nothing,
      )

  -- The loads of `steal`: the result if it ends there, or the word `spos` for the exchange.
  pub data Loaded : Type 0 where
    ends : Code → Loaded
    claims : (spos : ℕ) → Loaded

  unfoldable pub steal_load : Block A → ℕ → Loaded
  steal_load b thief_round =
      if index_of b.steal_tail == block_size b
      then ends (if thief_round == round_of b.steal_tail then done else empty)
      else if b.steal_tail == b.tail
      then ends empty
      else claims b.steal_tail

  -- The compare-exchange of `steal`; whether it claimed the item.
  unfoldable pub steal_claim : Block A → ℕ → Block A × Bool
  steal_claim b spos =
      if b.steal_tail == spos
      then (record b { steal_tail = add64 spos 1 }, Bool.true)
      else (b, Bool.false)

  -- The read of the item and the addition to `steal_count`.
  unfoldable pub steal_finish : Block A → ℕ → Block A × A
  steal_finish b spos = (
    record b { steal_count = add64 b.steal_count 1 },
    get_or b.ring_buffer (index_of spos) nothing,
  )

  -- `steal` without an interruption, from the exchange on and from its start.
  unfoldable pub steal_rest : Block A → Loaded → Block A × Code × A
  unfolding steal_claim steal_finish
  steal_rest b (ends code) = (b, code, nothing)
  steal_rest b (claims spos) =
      let (claimed, won) = steal_claim b spos in
      let (finished, value) = steal_finish claimed spos in
      if won then (finished, success, value) else (claimed, conflict, nothing)

  unfoldable pub steal : Block A → ℕ → Block A × Code × A
  unfolding steal_load steal_rest
  steal b thief_round = steal_rest b (steal_load b thief_round)
