-- ===== src/Pixels/Examples.antt =====
-- Views of a buffer of four by three pixels, and tests.
use coro_wayland.Base.{◌≡◌, refl, none, some, arith}
use coro_wayland.Pixels.{Position, Extents, PixelsView, of_span, subview, address}
use coro_wayland.Pixels.Addresses.{IsSized, Subview, subview-Subview, subview-subview}

abbrev four_by_three : PixelsView
four_by_three = record {
  handle = 0;
  extents = record { columns = 4; rows = 3 };
  column_stride = 1;
  row_stride = 4;
}

four_by_three-of_span : of_span 0 (record { columns = 4; rows = 3 }) ≡ four_by_three
unfolding of_span
four_by_three-of_span = refl

abbrev two_by_two : Extents
two_by_two = record { columns = 2; rows = 2 }

abbrev one_by_one : Extents
one_by_one = record { columns = 1; rows = 1 }

abbrev centre : Position
centre = record { x = 1; y = 1 }

abbrev middle : PixelsView
middle = record { handle = 5; extents = two_by_two; column_stride = 1; row_stride = 4 }

subview-middle : subview four_by_three centre two_by_two ≡ some middle
unfolding subview
subview-middle = refl

subview_outside : subview four_by_three centre (record { columns = 4; rows = 2 }) ≡ none
unfolding subview
subview_outside = refl

address-middle : address middle 1 1 ≡ 10
unfolding address
address-middle = refl

subview-Subview_example :
    Subview four_by_three centre two_by_two (subview four_by_three centre two_by_two)
subview-Subview_example =
    subview-Subview four_by_three centre two_by_two (omega arith) (omega arith)

four_by_three-IsSized : IsSized four_by_three
four_by_three-IsSized = record { columns_fit = omega arith; rows_fit = omega arith }

subview-subview_example :
    subview middle centre one_by_one ≡ subview four_by_three (record { x = 2; y = 2 }) one_by_one
subview-subview_example =
    subview-subview four_by_three centre centre two_by_two one_by_one four_by_three-IsSized
      (omega arith) (omega arith) (omega arith) (omega arith) subview-middle
