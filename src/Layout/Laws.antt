-- ===== src/Layout/Laws.antt =====
-- What a layout may rely on.
use coro_wayland.Base.{ℕ, ◌+◌, ◌-◌, ◌≤◌, ◌≡◌, ◌↔◌, true, arith}
use coro_wayland.Layout.{Size, BoxConstraints, tight, is_tight, biggest, smallest, constrain}

-- The precondition of `std::clamp`, for both axes.
pub record IsValid (c : BoxConstraints) : Type 0 where
  pub width : c.min_width ≤ c.max_width
  pub height : c.min_height ≤ c.max_height

pub record Satisfies (c : BoxConstraints) (s : Size) : Type 0 where
  pub wide : c.min_width ≤ s.width
  pub not_wider : s.width ≤ c.max_width
  pub high : c.min_height ≤ s.height
  pub not_higher : s.height ≤ c.max_height

-- How far two numbers lie apart.
unfoldable pub distance : ℕ → ℕ → ℕ
distance a b = (a - b) + (b - a)

-- With valid constraints `constrain` gives a size that satisfies them, none that does is nearer to
-- the size asked for, on either axis, and a size that satisfies them is left alone.
pub constrain_nearest :
    (c : BoxConstraints) (s t : Size)
    → IsValid c
    → Satisfies c t
    → Satisfies c (constrain c s)
      × (distance s.width (constrain c s).width ≤ distance s.width t.width)
      × (distance s.height (constrain c s).height ≤ distance s.height t.height)
      × (constrain c t ≡ t)
unfolding constrain distance
constrain_nearest c s t v sat = ground arith

-- Constraints are tight exactly if the smallest and the biggest size are one, and the
-- constraints that `tight` makes of a size turn every size into that one.
pub is_tight_iff :
    (c : BoxConstraints) (s t : Size)
    → ((is_tight c ≡ true) ↔ (smallest c ≡ biggest c)) × (constrain (tight t) s ≡ t)
unfolding is_tight smallest biggest constrain tight
is_tight_iff c s t = ((λ h. ground arith, λ h. ground arith), ground arith)
