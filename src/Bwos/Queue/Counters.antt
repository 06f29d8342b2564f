-- ===== src/Bwos/Queue/Counters.antt =====
-- Block counters: rounds of `mask + 1` blocks, counted up and down.
use coro_wayland.Base.{
  ℕ, zero, suc, ◌+◌, ◌-◌, ◌*◌, ◌%◌, ◌≤◌, ◌<◌, ◌≡◌, sym, ap, ◌∙◌, arith, inl, inr, Bool-cases, ◌==◌,
  ==_iff, false,
}
use native.Mathlib.Nat.{
  mod-mod_of_dvd, mod-eq_of_lt, mod_self, mul-add-mod_self_right, mul_assoc, suc-mul, dvd-mul_left,
}
use Prim.Native.Nat.{◌∣◌}
use mathlib.Core.Path.{subst}
use coro_wayland.Bwos.Words.{
  half, pack, index_of, round_of, previous, sub64, index_of-pack, round_of-pack,
}
use coro_wayland.Bwos.Queue.{masked, following, increase_block_counter, decrease_block_counter}

-- A counter with 32 bits for the round and the index of one of `mask + 1` blocks.
abbrev pub Counts : ℕ → ℕ → Type 0
Counts mask counter = (round_of counter < half) × (index_of counter ≤ mask)

-- The blocks passed from the start of round 0 on.
abbrev pub position : ℕ → ℕ → ℕ
position mask counter = round_of counter * suc mask + index_of counter

-- The number of blocks divides 2 ^ 32.
abbrev pub IsMask : ℕ → Type 0
IsMask mask = (d : ℕ) × (half ≡ d * suc mask)

mod-small : (q n r : ℕ) → r < n → (q * n + r) % n ≡ r
mod-small q n r h = mul-add-mod_self_right q n r ∙ mod-eq_of_lt h

pub masked-index :
    (mask counter : ℕ)
    → IsMask mask
    → index_of counter ≤ mask
    → masked mask counter ≡ index_of counter
unfolding masked index_of
masked-index mask counter (d, e) h =
    sym (
      mod-mod_of_dvd (suc mask) counter
        (subst (λ n. suc mask ∣ n) (sym e) (dvd-mul_left (suc mask) d)))
    ∙ mod-eq_of_lt (omega (arith, h))

masked-small : (mask i : ℕ) → i ≤ mask → masked mask i ≡ i
unfolding masked
masked-small mask i h = mod-eq_of_lt (omega (arith, h))

masked-suc : (mask : ℕ) → masked mask (suc mask) ≡ 0
unfolding masked
masked-suc mask = mod_self (suc mask)

last-mod : (mask e w : ℕ) → w ≡ suc e * suc mask → (w - 1) % suc mask ≡ mask
last-mod mask e w h =
    ap (λ n. n % suc mask)
      (let p : w ≡ e * suc mask + suc mask = h ∙ suc-mul e (suc mask) in omega (arith, p))
    ∙ mod-small e (suc mask) mask (omega arith)

-- One less than index 0 is the last index.
masked-last : (mask : ℕ) → IsMask mask → masked mask (sub64 0 1) ≡ mask
unfolding masked sub64
masked-last mask (zero, e) = absurd (omega (arith, e))
masked-last mask (suc d, e) =
    let f : half * suc d ≡ suc (half * d + (half - 1)) = omega arith in
    last-mod mask (half * d + (half - 1)) (half * half)
      (ap (λ n. half * n) e ∙ sym (mul_assoc half (suc d) (suc mask)) ∙ ap (λ n. n * suc mask) f)

pub mask_lt : (mask : ℕ) → IsMask mask → mask < half
mask_lt mask (zero, e) = absurd (omega (arith, e))
mask_lt mask (suc d, e) =
    let p : half ≡ d * suc mask + suc mask = e ∙ suc-mul d (suc mask) in omega (arith, p)

suc-zero : (i : ℕ) → (suc i == 0) ≡ false
suc-zero i = ground arith

module _ (mask : ℕ) (m : IsMask mask) where
  pub masked-pack : (r i : ℕ) → i ≤ mask → masked mask (pack r i) ≡ i
  masked-pack r i h =
      let e = index_of-pack r i (omega (arith, h, mask_lt mask m)) in
      masked-index mask (pack r i) m (omega (arith, e, h)) ∙ e

  increase-next : (r i : ℕ) → suc i ≤ mask → increase_block_counter mask (pack r i) ≡ pack r (suc i)
  unfolding increase_block_counter pack
  increase-next r i h =
      let e : i + 1 ≡ suc i = omega arith in
      rw (
        masked-pack r i (omega (arith, h)),
        e,
        masked-small mask (suc i) h,
        round_of-pack r i (omega (arith, h, mask_lt mask m)),
        suc-zero i,
      )

  increase-wrap : (r : ℕ) → increase_block_counter mask (pack r mask) ≡ pack (following r) 0
  unfolding increase_block_counter
  increase-wrap r =
      let e : mask + 1 ≡ suc mask = omega arith in
      rw (
        masked-pack r mask (omega arith),
        e,
        masked-suc mask,
        round_of-pack r mask (mask_lt mask m),
      )

  sub64-suc : (i : ℕ) → suc i ≤ mask → sub64 (suc i) 1 ≡ i
  unfolding sub64
  sub64-suc i h = omega (arith, h, mask_lt mask m)

  decrease-prev : (r i : ℕ) → suc i ≤ mask → decrease_block_counter mask (pack r (suc i)) ≡ pack r i
  unfolding decrease_block_counter pack
  decrease-prev r i h = rw (
    masked-pack r (suc i) h,
    sub64-suc i h,
    masked-small mask i (omega (arith, h)),
    round_of-pack r (suc i) (omega (arith, h, mask_lt mask m)),
    suc-zero i,
  )

  decrease-wrap : (r : ℕ) → decrease_block_counter mask (pack r 0) ≡ pack (previous r) mask
  unfolding decrease_block_counter
  decrease-wrap r =
      rw (masked-pack r 0 (omega arith), masked-last mask m, round_of-pack r 0 (omega arith))

  previous-following : (r : ℕ) → r < half → previous (following r) ≡ r
  unfolding previous following
  previous-following r h = omega (arith, h)

  -- Counting a block up and down again gives the counter back, at the end of a round and at the
  -- wrap-around of the rounds too.
  pub decrease-increase :
      (r i : ℕ)
      → r < half
      → i ≤ mask
      → decrease_block_counter mask (increase_block_counter mask (pack r i)) ≡ pack r i
  decrease-increase r i h g = elim (Bool-cases (i == mask)) [
    | inl last ↦
        let e = (==_iff i mask).0 last in
        rw e (
          ap (decrease_block_counter mask) (increase-wrap r)
          ∙ decrease-wrap (following r)
          ∙ ap (λ n. pack n mask) (previous-following r h))
    | inr inner ↦
        let below : suc i ≤ mask = ground (arith, g) in
        ap (decrease_block_counter mask) (increase-next r i below) ∙ decrease-prev r i below
  ]

  -- A counter in use.
  unfoldable pub IsCounter : ℕ → Type 0
  IsCounter c = (r : ℕ) × (i : ℕ) × (r < half) × (i ≤ mask) × (c ≡ pack r i)

  following_lt : (r : ℕ) → following r < half
  unfolding following
  following_lt r = omega arith

  pub increase-IsCounter : (c : ℕ) → IsCounter c → IsCounter (increase_block_counter mask c)
  unfolding IsCounter
  increase-IsCounter c (r, i, h, g, e) = elim (Bool-cases (i == mask)) [
    | inl last ↦ (
      following r,
      0,
      following_lt r,
      omega arith,
      ap (increase_block_counter mask) (e ∙ ap (pack r) ((==_iff i mask).0 last)) ∙ increase-wrap r,
    )
    | inr inner ↦
        let below : suc i ≤ mask = ground (arith, g) in
        (r, suc i, h, below, ap (increase_block_counter mask) e ∙ increase-next r i below)
  ]

  pub decrease-increase_counter :
      (c : ℕ) → IsCounter c → decrease_block_counter mask (increase_block_counter mask c) ≡ c
  unfolding IsCounter
  decrease-increase_counter c (r, i, h, g, e) =
      ap (λ k. decrease_block_counter mask (increase_block_counter mask k)) e
      ∙ decrease-increase r i h g
      ∙ sym e

-- The counter `n` blocks on.
unfoldable pub ahead : ℕ → ℕ → ℕ → ℕ
ahead mask zero c = c
ahead mask (suc n) c = increase_block_counter mask (ahead mask n c)

pub ahead-IsCounter :
    (mask : ℕ) (m : IsMask mask) (n c : ℕ) → IsCounter mask m c → IsCounter mask m (ahead mask n c)
unfolding ahead
ahead-IsCounter mask m zero c h = h
ahead-IsCounter mask m (suc n) c h =
    increase-IsCounter mask m (ahead mask n c) (ahead-IsCounter mask m n c h)
