-- ===== src/Bwos/Block/Owner.antt =====
-- In the hands of its owner a block is a bounded stack.
use coro_wayland.Base.{
  ℕ, zero, suc, ◌≤◌, ◌<◌, ◌≡◌, refl, sym, ap, ◌∙◌, inl, inr, Bool-cases, [], ◌∷◌, ◌++◌, arith, ltb,
  ltb→lt, ◌==◌, ==_iff, length-set, get_or, take, drop-all, length-take, some,
}
use coro_wayland.Bwos.Words.{half, pack, index_of, add64, sub64, index_of-pack}
use coro_wayland.Bwos.Block.{Code, success, empty, full, Block, block_size, put, get, reclaim}
use coro_wayland.Bwos.Block.Contents.{slice, slice-set, slice-suc, IsOwned, owned}

-- The words that `put` and `get` compute from a tail within the block.
tail-words :
    (t size : ℕ)
    → size < half
    → t ≤ size
    → (index_of t ≡ t) × (t < size → add64 t 1 ≡ suc t) × ((j : ℕ) → t ≡ suc j → sub64 t 1 ≡ j)
unfolding index_of add64 sub64
tail-words t size small within = (omega arith, λ h. omega arith, λ j h. omega arith)

suc-of : (n : ℕ) → 0 < n → (j : ℕ) × (n ≡ suc j)
suc-of zero h = absurd (omega arith)
suc-of (suc n) h = (n, refl)

module _ {ℓ} {A : Type ℓ} where
  -- `put` on a block: on top of the items if there is room, and otherwise nothing changes.
  pub data Put (b : Block A) (v : A) (r : Block A × Code) : Type ℓ where
    pushed : r.1 ≡ success → IsOwned r.0 → owned r.0 ≡ owned b ++ v ∷ [] → Put b v r
    no_room : r ≡ (b, full) → b.tail ≡ block_size b → Put b v r

  -- On a block of the owner `put` pushes the item on top and leaves a block of the owner; or
  -- `tail` is at the end of the block, and it reports `full` and leaves the block as it was.
  pub put-Put : (b : Block A) (v : A) → IsOwned b → Put b v (put b v)
  unfolding put
  put-Put b v o =
      let (idx, inc, _) = tail-words b.tail (block_size b) o.small o.within in
      let size = length-set b.ring_buffer b.tail v in
      elim (Bool-cases (ltb b.tail (block_size b))) [
        | inl room ↦
            let below = ltb→lt b.tail (block_size b) room in
            rw (idx, room, inc below, put)
              (pushed refl
                (record {
                  small = omega (arith, o.small, size);
                  ordered = omega (arith, o.ordered);
                  within = omega (arith, size);
                  closed = o.closed ∙ sym size;
                  counted = o.counted;
                })
                (slice-set b.ring_buffer (index_of b.head) b.tail v o.ordered below))
        | inr at_end ↦ rw (idx, at_end, put) (no_room refl (ground (arith, o.within)))
      ]

  -- A block that its owner has, or whose items are all stolen, is reclaimed without waiting, and is
  -- then an empty block of the round.
  pub reclaim_ready :
      (b : Block A) (round : ℕ)
      → block_size b < half
      → b.steal_count ≡ index_of b.head
      → (b' : Block A) × (reclaim b round ≡ some b')
        × IsOwned b'
        × (owned b' ≡ [])
        × (block_size b' ≡ block_size b)
  unfolding reclaim
  reclaim_ready b round small counted =
      let hit = (==_iff b.steal_count (index_of b.head)).1 counted in
      (
        record b {
          head = pack round 0;
          tail = 0;
          steal_tail = pack round (block_size b);
          steal_count = 0;
        },
        rw hit,
        record {
          small = small;
          ordered = omega (arith, index_of-pack round 0 (omega arith));
          within = omega arith;
          closed = index_of-pack round (block_size b) small;
          counted = sym (index_of-pack round 0 (omega arith));
        },
        rw (index_of-pack round 0 (omega arith)),
        refl,
      )

module _ {ℓ} {A : Type ℓ} (nothing : A) where
  get-empty :
      (b : Block A)
      → index_of b.tail ≡ b.tail
      → b.tail ≡ index_of b.head
      → get nothing b ≡ (b, empty, nothing)
  unfolding get
  get-empty b idx e = ground arith

  get-some :
      (b : Block A) (j : ℕ)
      → index_of b.tail ≡ b.tail
      → b.tail ≡ suc j
      → b.tail ≤ block_size b
      → block_size b < half
      → index_of b.head < b.tail
      → get nothing b ≡ (record b { tail = j }, success, get_or b.ring_buffer j nothing)
  unfolding get sub64
  get-some b j idx e within small above = ground arith

  -- `get` takes the item on top; it finds nothing exactly if there is none.
  pub data Got (b : Block A) (r : Block A × Code × A) : Type ℓ where
    popped :
        (v : A) → r.1 ≡ success → r.2 ≡ v → IsOwned r.0 → owned b ≡ owned r.0 ++ v ∷ [] → Got b r
    nothing_left : r ≡ (b, empty, nothing) → owned b ≡ [] → Got b r

  get-popped :
      (b : Block A) (j : ℕ)
      → b.tail ≡ suc j
      → IsOwned b
      → index_of b.head < suc j
      → Got b (get nothing b)
  get-popped b j e o above =
      let (idx, _, _) = tail-words b.tail (block_size b) o.small o.within in
      rw (get-some b j idx e o.within o.small (omega (arith, above, e))) (
        popped (get_or b.ring_buffer j nothing) refl refl
          (record {
            small = o.small;
            ordered = omega (arith, above);
            within = omega (arith, o.within, e);
            closed = o.closed;
            counted = o.counted;
          })
          (ap (slice b.ring_buffer (index_of b.head)) e
            ∙ slice-suc b.ring_buffer (index_of b.head) j nothing (omega (arith, above))
                (omega (arith, o.within, e))))

  -- On a block of the owner `get` pops the item on top and leaves a block of the owner with the
  -- items below it; or there is no item, and it reports `empty` and leaves the block as it was.
  pub get-Got : (b : Block A) → IsOwned b → Got b (get nothing b)
  get-Got b o =
      let (idx, _, _) = tail-words b.tail (block_size b) o.small o.within in
      elim (Bool-cases (b.tail == index_of b.head)) [
        | inl same ↦
            let e = (==_iff b.tail (index_of b.head)).0 same in
            rw (get-empty b idx e) (
              nothing_left refl (
                drop-all (index_of b.head) (take b.tail b.ring_buffer)
                  (omega (arith, length-take b.tail b.ring_buffer, e))))
        | inr differ ↦
            let above : index_of b.head < b.tail = ground (arith, o.ordered) in
            let (j, e) = suc-of b.tail (omega (arith, above)) in
            get-popped b j e o (omega (arith, above, e))
      ]
