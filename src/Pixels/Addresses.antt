-- ===== src/Pixels/Addresses.antt =====
-- A pixel of a subview is a pixel of its view.
use coro_wayland.Base.{
  ℕ, ◌+◌, ◌-◌, ◌*◌, ◌%◌, ◌^◌, ◌≤◌, ◌<◌, ◌≡◌, refl, Option, none, some, arith, Option-cases, inl,
  inr, ◌⊎◌, ap,
}
use coro_wayland.Pixels.{
  Position, Extents, PixelsView, size_mod, of_span, subview, rest_view, address,
}

-- Sizes are those of a buffer that fits the address space.
pub record IsSized (v : PixelsView) : Type 0 where
  pub columns_fit : v.extents.columns < 2 ^ 63
  pub rows_fit : v.extents.rows < 2 ^ 63

-- What a subview has to do with its view.
pub record Inside (v : PixelsView) (p : Position) (e : Extents) (w : PixelsView) : Type 0 where
  pub columns_in : p.x + e.columns ≤ v.extents.columns
  pub rows_in : p.y + e.rows ≤ v.extents.rows
  pub extents_are : w.extents ≡ e
  pub same_pixels : (x y : ℕ) → address w x y ≡ address v (p.x + x) (p.y + y)

-- The view that `subview` makes where it makes one.
abbrev window : PixelsView → Position → Extents → PixelsView
window v p e = record v {
  handle = v.handle + p.y * v.row_stride + p.x * v.column_stride;
  extents = e;
}

subview-window :
    (v : PixelsView) (p : Position) (e : Extents) {w : PixelsView}
    → p.x + e.columns < size_mod
    → p.y + e.rows < size_mod
    → subview v p e ≡ some w
    → (p.x + e.columns ≤ v.extents.columns) × (p.y + e.rows ≤ v.extents.rows) × (w ≡ window v p e)
unfolding subview
subview-window v p e hx hy h = ground arith

window-subview :
    (v : PixelsView) (p : Position) (e : Extents)
    → IsSized v
    → p.x + e.columns ≤ v.extents.columns
    → p.y + e.rows ≤ v.extents.rows
    → subview v p e ≡ some (window v p e)
unfolding subview
window-subview v p e sized x_in y_in = ground arith

subview-Inside :
    (v : PixelsView) (p : Position) (e : Extents) {w : PixelsView}
    → p.x + e.columns < size_mod
    → p.y + e.rows < size_mod
    → subview v p e ≡ some w
    → Inside v p e w
unfolding address
subview-Inside v p e {w} hx hy h =
    let (columns_in, rows_in, e_w) = subview-window v p e hx hy h in
    rw e_w (record {
      columns_in = columns_in;
      rows_in = rows_in;
      extents_are = refl;
      same_pixels = λ x y. grind arith;
    })

subview-none :
    (v : PixelsView) (p : Position) (e : Extents)
    → p.x + e.columns < size_mod
    → p.y + e.rows < size_mod
    → subview v p e ≡ none
    → (v.extents.columns < p.x + e.columns) ⊎ (v.extents.rows < p.y + e.rows)
unfolding subview
subview-none v p e hx hy h = ground arith

pub data Subview (v : PixelsView) (p : Position) (e : Extents) (r : Option PixelsView)
    : Type 0 where
  made : (w : PixelsView) → r ≡ some w → Inside v p e w → Subview v p e r
  refused :
      r ≡ none
      → (v.extents.columns < p.x + e.columns) ⊎ (v.extents.rows < p.y + e.rows)
      → Subview v p e r

-- A subview whose position and size have sums below 2 ^ 64, so that they do not wrap, is made
-- exactly if it lies in the view; then its pixels are those of the view, shifted by the position.
pub subview-Subview :
    (v : PixelsView) (p : Position) (e : Extents)
    → p.x + e.columns < size_mod
    → p.y + e.rows < size_mod
    → Subview v p e (subview v p e)
subview-Subview v p e hx hy = elim (Option-cases (subview v p e)) [
  | inl none_made ↦ refused none_made (subview-none v p e hx hy none_made)
  | inr (w, some_made) ↦ made w some_made (subview-Inside v p e hx hy some_made)
]

-- In a view of fewer than 2 ^ 63 columns and rows, if a subview is made at `p`, whose position and
-- size have sums below 2 ^ 64, and another one lies in it at `q`, then taking that one in the
-- subview is taking it at `p + q` in the view.
pub subview-subview :
    (v : PixelsView) (p q : Position) (e f : Extents) {w : PixelsView}
    → IsSized v
    → p.x + e.columns < size_mod
    → p.y + e.rows < size_mod
    → q.x + f.columns ≤ e.columns
    → q.y + f.rows ≤ e.rows
    → subview v p e ≡ some w
    → subview w q f ≡ subview v (record { x = p.x + q.x; y = p.y + q.y }) f
subview-subview v p q e f {w} sized hx hy qx qy e_made =
    let (columns_in, rows_in, e_w) = subview-window v p e hx hy e_made in
    let smaller : IsSized (window v p e) = omega arith in
    rw
      (
        e_w,
        window-subview (window v p e) q f smaller qx qy,
        window-subview v (record { x = p.x + q.x; y = p.y + q.y }) f sized (omega arith)
            (omega arith),
      )
      (ap {B = Option PixelsView} (λ n. some (record v { handle = n; extents = f })) (omega arith))

-- For a position right of a view, with its row in the view and all sizes below 2 ^ 63, the
-- overload without a size does not throw: the difference wraps, the sum that is compared with
-- the width wraps back, and a view of more than 2 ^ 63 columns comes back.
pub rest_view_beyond :
    (v : PixelsView) (p : Position)
    → IsSized v
    → v.extents.columns < p.x
    → p.x < 2 ^ 63
    → p.y ≤ v.extents.rows
    → (w : PixelsView) × (rest_view v p ≡ some w) × (2 ^ 63 < w.extents.columns)
unfolding rest_view subview
rest_view_beyond v p sized beyond small inside =
    let beside : Extents = record {
      columns = (v.extents.columns + size_mod - p.x) % size_mod;
      rows = (v.extents.rows + size_mod - p.y) % size_mod;
    } in
    (window v p beside, ground arith, omega arith)

-- In a view of a span every pixel inside lies within the span.
pub address-of_span :
    (start : ℕ) (e : Extents) (x y : ℕ)
    → x < e.columns
    → y < e.rows
    → (start ≤ address (of_span start e) x y)
      × (address (of_span start e) x y < start + e.columns * e.rows)
unfolding address of_span
address-of_span start e x y hx hy = grind arith
