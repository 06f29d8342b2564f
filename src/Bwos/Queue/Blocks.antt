-- ===== src/Bwos/Queue/Blocks.antt =====
-- Going on to the next block, and the last item of the last block.
use coro_wayland.Base.Options.{◌>>=◌}
use coro_wayland.Base.{
  ℕ, suc, ◌≤◌, ◌<◌, ◌≡◌, ◌≢◌, refl, sym, ap, ◌∙◌, arith, inl, inr, Bool-cases, Bool, true, false,
  not, Option, none, some, List, [], ◌∷◌, ◌++◌, ◌==◌, if◌then◌else◌, length, get_or, set,
  length-set, get_or-set_self, get_or-set_ne,
}
use native.Mathlib.Nat.{mod-lt}
use mathlib.Core.Path.{subst}
use coro_wayland.Bwos.Words.{half, pack, round_of, index_of-pack, add64}
use coro_wayland.Bwos.Block.{
  Code, success, Block, new_block, block_size, is_writable, grant, thieves_done, reclaim, get,
}
use coro_wayland.Bwos.Block.Contents.{IsOwned, owned}
use coro_wayland.Bwos.Block.Owner.{popped, nothing_left, get-Got}
use coro_wayland.Bwos.Queue.{
  Queue, masked, following, block_at, pop_step, pop_loop, pop_back, move_on, move_start,
  advance_put_index,
}
use coro_wayland.Bwos.Queue.Counters.{IsMask, masked-pack}

pub masked_lt : (mask word : ℕ) → masked mask word ≤ mask
unfolding masked
masked_lt mask word =
    let h = mod-lt word (let p : 0 < suc mask = omega arith in p) in omega (arith, h)

-- An empty block of the owner with room for an item.
pub record Fresh {ℓ} {A : Type ℓ} (b : Block A) : Type ℓ where
  pub is_owned : IsOwned b
  pub no_items : owned b ≡ []
  pub room : b.tail < block_size b

module _ {ℓ} {A : Type ℓ} where
  -- What `reclaim` gives is a fresh block; or it waits.
  pub data Reclaimed (b : Block A) : Option (Block A) → Type ℓ where
    given : (b' : Block A) → Fresh b' → Reclaimed b (some b')
    waiting : thieves_done b ≡ false → Reclaimed b none

  pub reclaim-Reclaimed :
      (b : Block A) (round : ℕ)
      → block_size b < half
      → 0 < block_size b
      → Reclaimed b (reclaim b round)
  unfolding reclaim
  reclaim-Reclaimed b round small positive = elim (Bool-cases (thieves_done b)) [
    | inl ready ↦ rw ready (
        given _ (record {
          is_owned = record {
            small = small;
            ordered = omega (arith, index_of-pack round 0 (omega arith));
            within = omega arith;
            closed = index_of-pack round (block_size b) small;
            counted = sym (index_of-pack round 0 (omega arith));
          };
          no_items = rw (index_of-pack round 0 (omega arith));
          room = positive;
        }))
    | inr busy ↦ rw busy (waiting busy)
  ]

  pub snoc-inj : (xs ys : List A) (x y : A) → xs ++ x ∷ [] ≡ ys ++ y ∷ [] → (xs ≡ ys) × (x ≡ y)
  snoc-inj [] [] x y e = (refl, cc)
  snoc-inj [] (z ∷ []) x y e = absurd cc
  snoc-inj [] (z ∷ w ∷ ys) x y e = absurd cc
  snoc-inj (z ∷ []) [] x y e = absurd cc
  snoc-inj (z ∷ w ∷ xs) [] x y e = absurd cc
  snoc-inj (z ∷ xs) (w ∷ ys) x y e =
      let (p, q) = snoc-inj xs ys x y cc in let h : z ≡ w = cc in (cc, q)

  pub snoc-nil : (xs : List A) (v : A) → [] ≢ (xs ++ v ∷ [])
  snoc-nil [] v e = cc
  snoc-nil (x ∷ xs) v e = cc

module _ {ℓ} {A : Type ℓ} (nothing : A) where
  -- The block that the owner pushes to and pops from.
  abbrev pub last : Queue A → Block A
  last q = block_at nothing q (masked q.mask q.last_block)

  -- Blocks of one size that are indexed by the counters; the last one is the owner's.
  pub record IsValid (q : Queue A) (size : ℕ) : Type ℓ where
    pub mask_ok : IsMask q.mask
    pub count : length q.blocks ≡ suc q.mask
    pub positive : 0 < size
    pub small : size < half
    pub sized : (i : ℕ) → i ≤ q.mask → block_size (block_at nothing q i) ≡ size
    pub owns : IsOwned (last q)

  -- `pop_back` takes the last item of the last block.
  pub pop_step-success :
      (again : Queue A → Option (Queue A × A)) (q : Queue A) (i : ℕ) (r : Block A × Code × A)
      → r.1 ≡ success
      → pop_step nothing again q i r ≡ some (record q { blocks = set q.blocks i r.0 }, r.2)
  unfolding pop_step
  pop_step-success again q i (b, c, v) e = rw e

  pub pop_back-last :
      (q : Queue A) (xs : List A) (v : A)
      → length q.blocks ≡ suc q.mask
      → IsOwned (last q)
      → owned (last q) ≡ xs ++ v ∷ []
      → (q' : Queue A) × (pop_back nothing q ≡ some (q', v)) × (owned (last q') ≡ xs)
  unfolding pop_back pop_loop
  pop_back-last q xs v count o e = elim (get-Got nothing (last q) o) [
    | popped w ok is_w o' f ↦
        let r = get nothing (last q) in
        let i = masked q.mask q.last_block in
        let p = snoc-inj (owned r.0) xs w v (sym f ∙ e) in
        (
          record q { blocks = set q.blocks i r.0 },
          pop_step-success (pop_loop nothing (length q.blocks)) q i r ok
              ∙ ap (λ u. some (record q { blocks = set q.blocks i r.0 }, u)) (is_w ∙ p.1),
          ap owned (
                get_or-set_self q.blocks i r.0 _
                  (omega (arith, count, masked_lt q.mask q.last_block)))
              ∙ p.0,
        )
    | nothing_left f g ↦ absurd (snoc-nil xs v (sym g ∙ e))
  ]

  -- The index of the block behind the last one.
  abbrev pub next_index : Queue A → ℕ
  next_index q = masked q.mask (add64 q.last_block 1)

  -- What `advance_put_index` does: it stays, or it goes on to a fresh block, or it waits for thieves
  -- of that block.
  pub data Advanced (q : Queue A) : Option (Bool × Queue A) → Type ℓ where
    stays : Advanced q (some (false, q))
    moves :
        (q' : Queue A)
        → length q'.blocks ≡ suc q'.mask
        → Fresh (last q')
        → Advanced q (some (true, q'))
    waits : thieves_done (block_at nothing q (next_index q)) ≡ false → Advanced q none

  pub if-Advanced :
      (b : Bool) {r s : Option (Bool × Queue A)} (q : Queue A)
      → Advanced q r
      → (b ≡ false → Advanced q s)
      → Advanced q (if b then r else s)
  if-Advanced true q h k = h
  if-Advanced false q h k = k refl

  pub move_start-Same :
      (q : Queue A) (i : ℕ)
      → ((move_start nothing q i).blocks ≡ q.blocks) × ((move_start nothing q i).mask ≡ q.mask)
  unfolding move_start
  move_start-Same q i = elim (Bool-cases (i == masked q.mask q.start_block)) [
    | inl e ↦ rw e (refl, refl)
    | inr e ↦ rw e (refl, refl)
  ]

  -- The last step of `move_on`, with what `reclaim` gave.
  pub moved-Advanced :
      (q q' : Queue A) (granted : List (Block A)) (round : ℕ) (reclaimed : Option (Block A))
      → IsMask q'.mask
      → length granted ≡ suc q'.mask
      → next_index q ≤ q'.mask
      → Reclaimed (block_at nothing q (next_index q)) reclaimed
      → Advanced q (
          (reclaimed >>= λ b. some (record q' {
            last_block = pack round (next_index q);
            blocks = set granted (next_index q) b;
          }))
          >>= λ m. some (true, m))
  moved-Advanced q q' granted round _ m count below (given b fresh) =
      let e = masked-pack q'.mask m round (next_index q) below in
      moves
        (record q' {
          last_block = pack round (next_index q);
          blocks = set granted (next_index q) b;
        })
        (length-set granted (next_index q) b ∙ count)
        (subst Fresh
          (sym (
            ap (λ j. get_or (set granted (next_index q) b) j (new_block nothing 0)) e
            ∙ get_or-set_self granted (next_index q) b (new_block nothing 0)
                (omega (arith, count, below))))
          fresh)
  moved-Advanced q q' granted round _ m count below (waiting busy) = waits busy

  pub move_on-Advanced :
      (q q' : Queue A) (size round : ℕ)
      → IsValid q size
      → q'.blocks ≡ q.blocks
      → q'.mask ≡ q.mask
      → masked q.mask q.last_block ≢ next_index q
      → Advanced q (
          move_on nothing q' (masked q.mask q.last_block) (next_index q) round >>= λ m.
          some (true, m))
  unfolding move_on
  move_on-Advanced q q' size round valid same_blocks same_mask apart =
      let owner = masked q.mask q.last_block in
      let granted = set q'.blocks owner (grant (block_at nothing q' owner)) in
      let e : get_or granted (next_index q) (new_block nothing 0)
          ≡ block_at nothing q (next_index q) =
        get_or-set_ne q'.blocks owner (next_index q) (grant (block_at nothing q' owner))
          (new_block nothing 0) apart
        ∙ ap (λ bs. get_or bs (next_index q) (new_block nothing 0)) same_blocks in
      let below = masked_lt q.mask (add64 q.last_block 1) in
      let size_eq = valid.sized (next_index q) below in
      moved-Advanced q q' granted round
        (reclaim (get_or granted (next_index q) (new_block nothing 0)) round)
        (subst IsMask (sym same_mask) valid.mask_ok)
        (length-set q'.blocks owner (grant (block_at nothing q' owner))
          ∙ ap length same_blocks
          ∙ valid.count
          ∙ ap suc (sym same_mask))
        (omega (arith, below, same_mask))
        (subst (λ b. Reclaimed (block_at nothing q (next_index q)) (reclaim b round)) (sym e)
          (reclaim-Reclaimed (block_at nothing q (next_index q)) round
            (omega (arith, size_eq, valid.small)) (omega (arith, size_eq, valid.positive))))

  pub advance-Advanced :
      (q : Queue A) (size : ℕ) → IsValid q size → Advanced q (advance_put_index nothing q)
  unfolding advance_put_index
  advance-Advanced q size valid =
      let same = move_start-Same q (next_index q) in
      let round =
        if next_index q == 0 then following (round_of q.last_block) else round_of q.last_block in
      if-Advanced (next_index q == masked q.mask q.last_block) q stays (λ e.
        if-Advanced (not (is_writable (block_at nothing q (next_index q)) round)) q stays (λ f.
          move_on-Advanced q (move_start nothing q (next_index q)) size round valid same.0 same.1
            (λ g. absurd (ground (arith, e, g)))))
