-- ===== src/Pixels.antt =====
-- `PixelsView` of src/renderer/include/PixelsView.hpp and src/renderer/PixelsView.cpp: a window
-- into a buffer of pixels. Sizes are `std::size_t`, so sums and differences wrap at 2 ^ 64.
pub mod Addresses
mod Examples
use coro_wayland.Base.{ℕ, ◌+◌, ◌-◌, ◌*◌, ◌%◌, ◌^◌, Option, none, some, ◌||◌, ltb, if◌then◌else◌}

pub record Position : Type 0 where
  pub x : ℕ
  pub y : ℕ

pub record Extents : Type 0 where
  pub columns : ℕ
  pub rows : ℕ

-- `data` counts the pixels from the start of the buffer.
pub record PixelsView : Type 0 where
  pub handle : ℕ
  pub extents : Extents
  pub column_stride : ℕ
  pub row_stride : ℕ

abbrev pub size_mod : ℕ
size_mod = 2 ^ 64

-- The constructor from a span of pixels: rows follow one another.
unfoldable pub of_span : ℕ → Extents → PixelsView
of_span start e = record { handle = start; extents = e; column_stride = 1; row_stride = e.columns }

-- `none` is the exception `std::out_of_range`.
unfoldable pub subview : PixelsView → Position → Extents → Option PixelsView
subview v p e =
    if ltb v.extents.columns ((p.x + e.columns) % size_mod)
      || ltb v.extents.rows ((p.y + e.rows) % size_mod)
    then none
    else some
        (record v { handle = v.handle + p.y * v.row_stride + p.x * v.column_stride; extents = e })

-- The overload without a size: all that lies right of the position and below it.
unfoldable pub rest_view : PixelsView → Position → Option PixelsView
unfolding subview
rest_view v p = subview v p (record {
  columns = (v.extents.columns + size_mod - p.x) % size_mod;
  rows = (v.extents.rows + size_mod - p.y) % size_mod;
})

-- The pixel that `operator[]` refers to, as an index into the buffer.
unfoldable pub address : PixelsView → ℕ → ℕ → ℕ
address v x y = v.handle + x * v.column_stride + y * v.row_stride
