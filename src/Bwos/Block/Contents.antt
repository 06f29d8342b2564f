-- ===== src/Bwos/Block/Contents.antt =====
-- The items of a block, and the states in which its owner or the thieves have it.
use coro_wayland.Base.{
  ℕ, zero, suc, ◌*◌, ◌≤◌, ◌<◌, ◌≡◌, refl, ap, ◌∙◌, List, [], ◌∷◌, ◌++◌, arith, length, length-take,
  get_or, set, take, drop, drop-append_le,
}
use coro_wayland.Bwos.Words.{half, index_of}
use coro_wayland.Bwos.Block.{Block, block_size}

module _ {ℓ} {A : Type ℓ} where
  -- The items from index `i` up to index `j`.
  abbrev pub slice : List A → ℕ → ℕ → List A
  slice xs i j = drop i (take j xs)

  pub take-set :
      (xs : List A) (n : ℕ) (v : A)
      → n < length xs
      → take (suc n) (set xs n v) ≡ take n xs ++ v ∷ []
  take-set [] n v h = absurd (omega arith)
  take-set (x ∷ xs) zero v h = refl
  take-set (x ∷ xs) (suc n) v h = ap (λ l. x ∷ l) (take-set xs n v (omega arith))

  pub take-suc :
      (xs : List A) (n : ℕ) (d : A)
      → n < length xs
      → take (suc n) xs ≡ take n xs ++ get_or xs n d ∷ []
  take-suc [] n d h = absurd (omega arith)
  take-suc (x ∷ xs) zero d h = refl
  take-suc (x ∷ xs) (suc n) d h = ap (λ l. x ∷ l) (take-suc xs n d (omega arith))

  pub drop-suc :
      (xs : List A) (n : ℕ) (d : A) → n < length xs → drop n xs ≡ get_or xs n d ∷ drop (suc n) xs
  drop-suc [] n d h = absurd (omega arith)
  drop-suc (x ∷ xs) zero d h = refl
  drop-suc (x ∷ xs) (suc n) d h = drop-suc xs n d (omega arith)

  -- Writing at the end of a slice, reading at its end, reading at its start.
  pub slice-set :
      (xs : List A) (i j : ℕ) (v : A)
      → i ≤ j
      → j < length xs
      → slice (set xs j v) i (suc j) ≡ slice xs i j ++ v ∷ []
  slice-set xs i j v h k =
      ap (drop i) (take-set xs j v k)
      ∙ drop-append_le i (take j xs) (v ∷ []) (omega (arith, length-take j xs))

  pub slice-suc :
      (xs : List A) (i j : ℕ) (d : A)
      → i ≤ j
      → j < length xs
      → slice xs i (suc j) ≡ slice xs i j ++ get_or xs j d ∷ []
  slice-suc xs i j d h k =
      ap (drop i) (take-suc xs j d k)
      ∙ drop-append_le i (take j xs) (get_or xs j d ∷ []) (omega (arith, length-take j xs))

  -- The owner pushes and pops: the items lie between the index of `head` and `tail`. Those below
  -- are stolen, and `steal_count` counts them.
  pub record IsOwned (b : Block A) : Type 0 where
    pub small : block_size b < half
    pub ordered : index_of b.head ≤ b.tail
    pub within : b.tail ≤ block_size b
    pub closed : index_of b.steal_tail ≡ block_size b
    pub counted : b.steal_count ≡ index_of b.head

  -- The thieves take: the items lie from the index of `steal_tail` to the end of the block.
  pub record IsGranted (b : Block A) : Type 0 where
    pub small : block_size b < half
    pub full : b.tail ≡ block_size b
    pub word : b.steal_tail < half * half
    pub within : index_of b.steal_tail ≤ block_size b
    pub closed : index_of b.head ≡ block_size b
    pub counted : b.steal_count ≡ index_of b.steal_tail

  abbrev pub owned : Block A → List A
  owned b = slice b.ring_buffer (index_of b.head) b.tail

  abbrev pub granted : Block A → List A
  granted b = drop (index_of b.steal_tail) b.ring_buffer
