-- ===== src/Layout/Examples.antt =====
-- Constraints at concrete sizes, and tests.
use coro_wayland.Base.{◌≡◌, refl}
use coro_wayland.Layout.{Size, BoxConstraints, loose, bounded, constrain}

abbrev ten_to_twenty : BoxConstraints
ten_to_twenty = record { min_width = 10; max_width = 20; min_height = 0; max_height = 20 }

abbrev large : Size
large = record { width = 30; height = 5 }

abbrev medium : Size
medium = record { width = 15; height = 15 }

constrain-large : constrain ten_to_twenty large ≡ record { width = 20; height = 5 }
unfolding constrain
constrain-large = refl

bounded-loose : bounded 3 4 ≡ loose (record { width = 3; height = 4 })
unfolding bounded loose
bounded-loose = refl
