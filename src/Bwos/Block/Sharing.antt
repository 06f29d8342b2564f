-- ===== src/Bwos/Block/Sharing.antt =====
-- `grant`, `steal` and `takeover`: a full block goes to the thieves and back to the owner.
use coro_wayland.Base.{
  ℕ, zero, suc, ◌*◌, ◌<◌, ◌≡◌, refl, sym, ap, ◌∙◌, inl, inr, Bool, Bool-cases, ◌≢◌, ◌↔◌, ltb→lt,
  List, [], ◌∷◌, ◌++◌, arith, ltb, ◌==◌, ==_iff, if◌then◌else◌, length, get_or, drop, drop-all,
  length-drop, take-length, none,
}
use coro_wayland.Bwos.Words.{half, index_of, round_of, add64}
use coro_wayland.Bwos.Block.{
  Code, success, done, empty, Block, block_size, steal, steal_load, steal_rest, ends, claims,
  steal_claim, steal_finish, grant, takeover, reclaim, thieves_done,
}
use coro_wayland.Bwos.Block.Contents.{drop-suc, slice, IsOwned, IsGranted, owned, granted}

module _ {ℓ} {A : Type ℓ} where
  pub grant-IsGranted :
      (b : Block A)
      → IsOwned b
      → b.tail ≡ block_size b
      → b.head < half * half
      → IsGranted (grant b) × (granted (grant b) ≡ owned b)
  unfolding grant
  grant-IsGranted b o at_end word = (
    record {
      small = o.small;
      full = at_end;
      word = word;
      within = omega (arith, o.ordered, o.within);
      closed = o.closed;
      counted = o.counted;
    },
    ap (drop (index_of b.head)) (sym (take-length b.ring_buffer))
        ∙ ap (slice b.ring_buffer (index_of b.head)) (sym at_end),
  )

  pub takeover-IsOwned :
      (b : Block A) → IsGranted b → IsOwned (takeover b) × (owned (takeover b) ≡ granted b)
  unfolding takeover
  takeover-IsOwned b g = (
    record {
      small = g.small;
      ordered = omega (arith, g.within, g.full);
      within = omega (arith, g.full);
      closed = g.closed;
      counted = g.counted;
    },
    ap (slice b.ring_buffer (index_of b.steal_tail)) g.full
        ∙ ap (drop (index_of b.steal_tail)) (take-length b.ring_buffer),
  )

-- A thief keeps an item exactly if `steal` reports success.
abbrev pub add_item {ℓ} : {A : Type ℓ} → Code → A → List A → List A
add_item success v vs = v ∷ vs
add_item _ v vs = vs

module _ {ℓ} {A : Type ℓ} (nothing : A) where
  -- What one `steal` does to a block that the thieves have.
  pub data Stolen (b : Block A) (thief_round : ℕ) (r : Block A × Code × A) : Type ℓ where
    stolen :
        (v : A)
        → r.1 ≡ success
        → r.2 ≡ v
        → IsGranted r.0
        → granted b ≡ v ∷ granted r.0
        → Stolen b thief_round r
    exhausted :
        r.0 ≡ b
        → r.1 ≡ (if thief_round == round_of b.steal_tail then done else empty)
        → granted b ≡ []
        → Stolen b thief_round r

  load-exhausted :
      (b : Block A) (thief_round : ℕ)
      → index_of b.steal_tail ≡ block_size b
      → steal_load nothing b thief_round
        ≡ ends (if thief_round == round_of b.steal_tail then done else empty)
  unfolding steal_load
  load-exhausted b thief_round e = rw ((==_iff (index_of b.steal_tail) (block_size b)).1 e)

  load-open :
      (b : Block A) (thief_round : ℕ)
      → index_of b.steal_tail < block_size b
      → b.steal_tail ≢ b.tail
      → steal_load nothing b thief_round ≡ claims b.steal_tail
  unfolding steal_load
  load-open b thief_round below apart =
      let c1 : (index_of b.steal_tail == block_size b) ≡ Bool.false = ground (arith, below) in
      let c2 : (b.steal_tail == b.tail) ≡ Bool.false = ground arith in rw (c1, c2)

  steal-exhausted :
      (b : Block A) (thief_round : ℕ)
      → index_of b.steal_tail ≡ block_size b
      → steal nothing b thief_round
        ≡ (b, (if thief_round == round_of b.steal_tail then done else empty), nothing)
  unfolding steal steal_rest
  steal-exhausted b thief_round e = rw (load-exhausted b thief_round e)

  steal-open :
      (b : Block A) (thief_round : ℕ)
      → index_of b.steal_tail < block_size b
      → b.steal_tail ≢ b.tail
      → steal nothing b thief_round ≡ (
        record b { steal_tail = add64 b.steal_tail 1; steal_count = add64 b.steal_count 1 },
        success,
        get_or b.ring_buffer (index_of b.steal_tail) nothing,
      )
  unfolding steal steal_rest steal_claim steal_finish
  steal-open b thief_round below apart =
      let hit = (==_iff b.steal_tail b.steal_tail).1 refl in
      rw (load-open b thief_round below apart, hit)

  -- The words after a claim in a block that the thieves have.
  claim-words :
      (spos count size : ℕ)
      → size < half
      → spos < half * half
      → index_of spos < size
      → count ≡ index_of spos
      → (spos ≢ size)
        × (index_of (add64 spos 1) ≡ suc (index_of spos))
        × (add64 count 1 ≡ suc (index_of spos))
        × (add64 spos 1 < half * half)
        × (round_of (add64 spos 1) ≡ round_of spos)
  unfolding index_of add64 round_of
  claim-words spos count size small word below counted =
      (λ e. omega arith, omega arith, omega arith, omega arith, omega arith)

  stolen_block :
      (b : Block A) (w c : ℕ)
      → IsGranted b
      → index_of b.steal_tail < block_size b
      → index_of w ≡ suc (index_of b.steal_tail)
      → c ≡ suc (index_of b.steal_tail)
      → w < half * half
      → IsGranted (record b { steal_tail = w; steal_count = c })
        × (granted b
            ≡ get_or b.ring_buffer (index_of b.steal_tail) nothing
              ∷ granted (record b { steal_tail = w; steal_count = c }))
  stolen_block b w c g below we ce word = (
    record {
      small = g.small;
      full = g.full;
      word = word;
      within = omega (arith, below, we);
      closed = g.closed;
      counted = ce ∙ sym we;
    },
    drop-suc b.ring_buffer (index_of b.steal_tail) nothing below
        ∙ ap (λ n. get_or b.ring_buffer (index_of b.steal_tail) nothing ∷ drop n b.ring_buffer)
            (sym we),
  )

  -- On a block of the thieves `steal` takes the item at the front and leaves a block of the
  -- thieves with the items behind it; or there is no item, and it leaves the block as it was
  -- and reports `done` if the round is that of the block and `empty` otherwise.
  pub steal-Stolen :
      (b : Block A) (thief_round : ℕ)
      → IsGranted b
      → Stolen b thief_round (steal nothing b thief_round)
  steal-Stolen b thief_round g = elim (Bool-cases (ltb (index_of b.steal_tail) (block_size b))) [
    | inl t ↦
        let below = ltb→lt (index_of b.steal_tail) (block_size b) t in
        let (apart, we, ce, word, _) =
          claim-words b.steal_tail b.steal_count (block_size b) g.small g.word below g.counted in
        let (g', eq) =
          stolen_block b (add64 b.steal_tail 1) (add64 b.steal_count 1) g below we ce word in
        rw (steal-open b thief_round below (λ e. apart (e ∙ g.full)))
          (stolen (get_or b.ring_buffer (index_of b.steal_tail) nothing) refl refl g' eq)
    | inr t ↦
        let e : index_of b.steal_tail ≡ block_size b = ground (arith, g.within) in
        rw (steal-exhausted b thief_round e)
          (exhausted refl refl (drop-all (index_of b.steal_tail) b.ring_buffer (omega (arith, e))))
  ]

  -- The block and the items after so many calls of `steal`.
  abbrev pub steals : ℕ → Block A → ℕ → Block A × List A
  steals zero b thief_round = (b, [])
  steals (suc n) b thief_round =
      let (b', code, v) = steal nothing b thief_round in
      let (end, vs) = steals n b' thief_round in (end, add_item code v vs)

  add_item-exhausted :
      (t : Bool) (v : A) (vs : List A) → add_item (if t then done else empty) v vs ≡ vs
  add_item-exhausted Bool.true v vs = refl
  add_item-exhausted Bool.false v vs = refl

  IsGranted-of : {b c : Block A} → b ≡ c → IsGranted b → IsGranted c
  IsGranted-of e g = rw (← e) g

  Stolen-add_item :
      (b : Block A) (thief_round : ℕ) (r : Block A × Code × A)
      → IsGranted b
      → Stolen b thief_round r
      → IsGranted r.0
        × ((vs rest : List A) → granted r.0 ≡ vs ++ rest → granted b ≡ add_item r.1 r.2 vs ++ rest)
  Stolen-add_item b thief_round (b', code, w) g (stolen v c e g' eq) =
      (g', λ vs rest h. rw (c, e, eq) (ap (λ l. v ∷ l) h))
  Stolen-add_item b thief_round (b', code, w) g (exhausted same c eq) = (
    IsGranted-of (sym same) g,
    λ vs rest h.
        rw (c, add_item-exhausted (thief_round == round_of b.steal_tail) w vs)
          (ap granted (sym same) ∙ h),
  )

  steals-granted :
      (n : ℕ) (b : Block A) (thief_round : ℕ)
      → IsGranted b
      → IsGranted (steals n b thief_round).0
        × (granted b ≡ (steals n b thief_round).1 ++ granted (steals n b thief_round).0)
  steals-granted zero b thief_round g = (g, refl)
  steals-granted (suc n) b thief_round g =
      let r = steal nothing b thief_round in
      let (g', add) = Stolen-add_item b thief_round r g (steal-Stolen b thief_round g) in
      let (end, eq) = steals-granted n r.0 thief_round g' in (end, add _ _ eq)

  -- The owner fills a block and grants it, thieves call `steal` so many times, and the owner takes
  -- it over: then the items were those that the thieves got, from the front, and those that the
  -- owner has.
  pub takeover-steals-grant :
      (b : Block A) (n thief_round : ℕ)
      → IsOwned b
      → b.tail ≡ block_size b
      → b.head < half * half
      → let (b', taken) = steals n (grant b) thief_round in
        IsOwned (takeover b') × (owned b ≡ taken ++ owned (takeover b'))
  takeover-steals-grant b n thief_round o at_end word =
      let (g, e) = grant-IsGranted b o at_end word in
      let (g', split) = steals-granted n (grant b) thief_round g in
      let (o', rest) = takeover-IsOwned (steals n (grant b) thief_round).0 g' in
      (o', sym e ∙ split ∙ ap (λ l. (steals n (grant b) thief_round).1 ++ l) (sym rest))

  -- The owner waits in `reclaim` of a block that the thieves have exactly if it has items left.
  pub reclaim-granted :
      (b : Block A) (round : ℕ) → IsGranted b → (reclaim b round ≡ none) ↔ (granted b ≢ [])
  unfolding reclaim thieves_done
  reclaim-granted b round g =
      let n = length-drop (index_of b.steal_tail) b.ring_buffer in
      elim (Bool-cases (b.steal_count == index_of b.head)) [
        | inl hit ↦
            let e = (==_iff b.steal_count (index_of b.head)).0 hit in
            let none_left : granted b ≡ [] =
              drop-all (index_of b.steal_tail) b.ring_buffer
                (omega (arith, e, g.counted, g.closed)) in
            rw hit (λ eq. absurd (ground (arith, eq)), λ some_left. absurd (some_left none_left))
        | inr miss ↦ rw miss (
          λ eq empty_now.
              let z : length (granted b) ≡ 0 = ap length empty_now in
              absurd (ground (arith, g.counted, g.closed, g.within, n, z)),
          λ some_left. refl,
        )
      ]
