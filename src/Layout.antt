-- ===== src/Layout.antt =====
-- `BoxConstraints` of src/widgets/include/BoxConstraints.hpp.
mod Examples
pub mod Laws
use coro_wayland.Base.{ℕ, Bool, ◌&&◌, ltb, ◌==◌, if◌then◌else◌}

pub record Size : Type 0 where
  pub width : ℕ
  pub height : ℕ

pub record BoxConstraints : Type 0 where
  pub min_width : ℕ
  pub max_width : ℕ
  pub min_height : ℕ
  pub max_height : ℕ

unfoldable pub tight : Size → BoxConstraints
tight s = record {
  min_width = s.width;
  max_width = s.width;
  min_height = s.height;
  max_height = s.height;
}

unfoldable pub loose : Size → BoxConstraints
loose s = record { min_width = 0; max_width = s.width; min_height = 0; max_height = s.height }

unfoldable pub bounded : ℕ → ℕ → BoxConstraints
bounded w h = record { min_width = 0; max_width = w; min_height = 0; max_height = h }

unfoldable pub is_tight : BoxConstraints → Bool
is_tight c = c.min_width == c.max_width && c.min_height == c.max_height

unfoldable pub biggest : BoxConstraints → Size
biggest c = record { width = c.max_width; height = c.max_height }

unfoldable pub smallest : BoxConstraints → Size
smallest c = record { width = c.min_width; height = c.min_height }

-- `std::clamp`, which wants `lo` not above `hi`.
unfoldable pub clamp : ℕ → ℕ → ℕ → ℕ
clamp v lo hi = if ltb v lo then lo else if ltb hi v then hi else v

unfoldable pub constrain : BoxConstraints → Size → Size
unfolding clamp
constrain c s = record {
  width = clamp s.width c.min_width c.max_width;
  height = clamp s.height c.min_height c.max_height;
}
