-- ===== src/Bwos/Block/Bulk.antt =====
-- `bulk_put` with items and room: what the loop does with an index that it never moves.
use coro_wayland.Base.{
  ℕ, zero, suc, ◌+◌, ◌<◌, ◌≡◌, ◌^◌, refl, ap, ◌∙◌, List, [], ◌∷◌, ◌++◌, arith, lt→ltb, length, set,
}
use coro_wayland.Bwos.Words.{half, index_of, add64}
use coro_wayland.Bwos.Block.{Block, block_size, bulk_put, bulk_put_loop}
use coro_wayland.Bwos.Block.Contents.{IsOwned}

module _ {ℓ} {A : Type ℓ} where
  set-set : (ring : List A) (i : ℕ) (v w : A) → set (set ring i v) i w ≡ set ring i w
  set-set [] i v w = refl
  set-set (x ∷ ring) zero v w = refl
  set-set (x ∷ ring) (suc i) v w = ap (λ l. x ∷ l) (set-set ring i v w)

  bulk_put_loop-last :
      (size i back : ℕ) (ring values : List A) (w : A)
      → i < size
      → back + suc (length values) < 2 ^ 64
      → bulk_put_loop size i back ring (values ++ w ∷ [])
        ≡ (set ring i w, back + suc (length values), [])
  unfolding bulk_put_loop add64
  bulk_put_loop-last size i back ring [] w room h =
      rw (lt→ltb i size room) (ap (λ n. (set ring i w, n, [])) (omega (arith, h)))
  bulk_put_loop-last size i back ring (v ∷ values) w room h =
      let next : add64 back 1 ≡ suc back = omega (arith, h) in
      rw (lt→ltb i size room, next)
        (bulk_put_loop-last size i (suc back) (set ring i v) values w room (omega (arith, h))
          ∙ ap (λ r. (r, suc back + suc (length values), [])) (set-set ring i v w)
          ∙ ap (λ n. (set ring i w, n, [])) (omega arith))

  -- On a block of the owner with room `bulk_put` with fewer than 2 ^ 32 values, and at least
  -- one, reports that it has put them all and moves `tail` past as many places, also beyond the
  -- block; but only the last of them is in the block, at the place where `tail` was.
  pub bulk_put-last :
      (b : Block A) (values : List A) (w : A)
      → IsOwned b
      → b.tail < block_size b
      → suc (length values) < half
      → bulk_put b (values ++ w ∷ []) ≡ (
        record b { ring_buffer = set b.ring_buffer b.tail w; tail = b.tail + suc (length values) },
        [],
      )
  unfolding bulk_put index_of
  bulk_put-last b values w o room few =
      let idx : index_of b.tail ≡ b.tail = omega (arith, o.small, room) in
      let bound : b.tail + suc (length values) < 2 ^ 64 = omega (arith, o.small, few, room) in
      let loop =
        bulk_put_loop-last (block_size b) b.tail b.tail b.ring_buffer values w room bound in
      rw (idx, loop)
