-- ===== src/Wire/Bytes.antt =====
-- Bytes in memory: a `char` is a number below 256, a `std::uint32_t` lies in memory with its low
-- byte first, and a span that is being written is a pair of what lies before it and what it covers.
use coro_wayland.Base.{
  ℕ, ◌+◌, ◌*◌, ◌/◌, ◌%◌, ◌^◌, ◌≤◌, ◌<◌, ◌≡◌, List, [], ◌∷◌, ◌++◌, append_assoc, arith, leb,
  if◌then◌else◌, length, length-append, drop, drop-drop,
}

-- What a call can end in. `undefined` is a broken precondition of `std::span` or a write past the
-- end of the storage, for which C++ promises nothing.
pub data Result {ℓ} (A : Type ℓ) : Type ℓ where
  ok : A → Result A
  buffer_too_small : Result A
  no_file_descriptor : Result A
  undefined : Result A

infixl 5 ◌>>=◌
abbrev pub ◌>>=◌ {ℓ κ} : {A : Type ℓ} {B : Type κ} → Result A → (A → Result B) → Result B
ok a >>= f = f a
buffer_too_small >>= f = buffer_too_small
no_file_descriptor >>= f = no_file_descriptor
undefined >>= f = undefined

abbrev pub IsByte : ℕ → Type 0
IsByte b = b < 256

abbrev pub IsU32 : ℕ → Type 0
IsU32 v = v < 2 ^ 32

-- `std::memcpy` of a `std::uint32_t` into bytes, and back.
abbrev pub store_u32 : ℕ → List ℕ
store_u32 v = (v % 256) ∷ (v / 256 % 256) ∷ (v / 65536 % 256) ∷ (v / 16777216 % 256) ∷ []

abbrev pub load_u32 : List ℕ → ℕ
load_u32 (a ∷ b ∷ c ∷ d ∷ _) = a + b * 256 + c * 65536 + d * 16777216
load_u32 _ = 0

-- Reading four bytes back gives the word that was written.
pub load_u32-store_u32 : (v : ℕ) (rest : List ℕ) → IsU32 v → load_u32 (store_u32 v ++ rest) ≡ v
load_u32-store_u32 v rest h = omega arith

-- `(x + n) & ~n` with `unsigned n = 3`: the mask has 32 bits.
unfoldable pub pad4 : ℕ → ℕ
pad4 x = (x + 3) % 2 ^ 32 / 4 * 4

pub pad4_bounds : (x : ℕ) → x + 3 < 2 ^ 32 → (x ≤ pad4 x) × (pad4 x ≤ x + 3)
unfolding pad4
pad4_bounds x h = omega arith

-- The storage is `before ++ rest`, and `rest` is the span.
pub record Span : Type 0 where
  pub before : List ℕ
  pub rest : List ℕ

-- `std::memcpy(buffer.data(), bytes)` and `buffer = buffer.subspan(bytes.size())`.
abbrev pub advance : Span → List ℕ → Span
advance s bytes = record { before = s.before ++ bytes; rest = drop (length bytes) s.rest }

unfoldable pub write : Span → List ℕ → Result Span
write s bytes = if leb (length bytes) (length s.rest) then ok (advance s bytes) else undefined

pub write-fits :
    (s : Span) (bytes : List ℕ)
    → length bytes ≤ length s.rest
    → write s bytes ≡ ok (advance s bytes)
unfolding write
write-fits s bytes h = ground arith

pub advance-advance : (s : Span) (xs ys : List ℕ) → advance (advance s xs) ys ≡ advance s (xs ++ ys)
advance-advance s xs ys = rw (append_assoc, drop-drop (length xs) (length ys), length-append xs ys)
