-- ===== src/Bwos/Words.antt =====
-- 64-bit words that hold a round in their upper and an index in their lower 32 bits.
use coro_wayland.Base.{ℕ, ◌+◌, ◌-◌, ◌*◌, ◌/◌, ◌%◌, ◌^◌, ◌<◌, ◌≡◌, arith}

abbrev pub half : ℕ
half = 2 ^ 32

-- `static_cast<std::uint64_t>(round) << 32 | index`, where the index has 32 bits.
unfoldable pub pack : ℕ → ℕ → ℕ
pack round index = round * half + index

-- `word & 0xFFFF'FFFFu` and `word >> 32`.
unfoldable pub index_of : ℕ → ℕ
index_of word = word % half

unfoldable pub round_of : ℕ → ℕ
round_of word = word / half

-- `round - 1` in `std::uint32_t`.
unfoldable pub previous : ℕ → ℕ
previous round = (round + half - 1) % half

unfoldable pub add64 : ℕ → ℕ → ℕ
add64 a b = (a + b) % 2 ^ 64

unfoldable pub sub64 : ℕ → ℕ → ℕ
sub64 a b = (a + 2 ^ 64 - b) % 2 ^ 64

pub index_of-pack : (r i : ℕ) → i < half → index_of (pack r i) ≡ i
unfolding index_of pack
index_of-pack r i h = omega arith

pub round_of-pack : (r i : ℕ) → i < half → round_of (pack r i) ≡ r
unfolding round_of pack
round_of-pack r i h = omega arith
