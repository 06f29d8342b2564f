-- ===== src/Jinja/Identifiers.antt =====
-- The characters of src/code_generator/JinjaTemplateEngine.cpp, searches for them in a string, and
-- `Lexer::validate_identifier`. A string is the list of its characters' codes; the characters are
-- classified as in the C locale.
pub mod Scans
use coro_wayland.Base.{
  ℕ, zero, suc, ◌+◌, Bool, true, false, not, ◌&&◌, ◌||◌, List, [], ◌∷◌, ◌==◌, leb, if◌then◌else◌,
  length,
}
use coro_wayland.Jinja.Errors.{
  Result, ok, template_error, out_of_fuel, invalid_identifier, trailing_dot, unterminated_index,
  invalid_index,
}
use coro_wayland.Jinja.{Location}

unfoldable pub is_space : ℕ → Bool
is_space c = c == b' ' || (leb 9 c && leb c 13)

unfoldable pub is_digit : ℕ → Bool
is_digit c = leb b'0' c && leb c b'9'

unfoldable pub is_alpha : ℕ → Bool
is_alpha c = (leb b'A' c && leb c b'Z') || (leb b'a' c && leb c b'z')

-- The characters that may stand in a part of an identifier, and at its start.
unfoldable pub is_part_char : ℕ → Bool
unfolding is_alpha is_digit
is_part_char c = is_alpha c || is_digit c || c == b'_' || c == b'-'

unfoldable pub is_start_char : ℕ → Bool
unfolding is_alpha
is_start_char c = is_alpha c || c == b'_'

-- The stop characters of the calls of `find_first_of`.
unfoldable pub ends_part : ℕ → Bool
ends_part c = c == b'.' || c == b'['

unfoldable pub ends_variable : ℕ → Bool
ends_variable c = c == b' ' || c == 9 || c == 13 || c == b'}'

unfoldable pub ends_word : ℕ → Bool
ends_word c = c == b' ' || c == 9 || c == 13 || c == 10 || c == b'%' || c == b'}'

-- A string up to the first character of a kind, as `find_first_of` and `substr` cut it: all of it
-- when there is none.
unfoldable pub before : (ℕ → Bool) → List ℕ → List ℕ
before stop [] = []
before stop (c ∷ cs) = let rest = before stop cs in if stop c then [] else c ∷ rest

-- The string from that character on; empty when there is none.
unfoldable pub from : (ℕ → Bool) → List ℕ → List ℕ
from stop [] = []
from stop (c ∷ cs) = let rest = from stop cs in if stop c then c ∷ cs else rest

unfoldable pub all_of : (ℕ → Bool) → List ℕ → Bool
all_of test [] = true
all_of test (c ∷ cs) = test c && all_of test cs

unfoldable pub is_empty : List ℕ → Bool
is_empty [] = true
is_empty (c ∷ cs) = false

unfoldable pub starts_with : ℕ → ℕ → List ℕ → Bool
starts_with a b (c ∷ d ∷ cs) = c == a && d == b
starts_with a b _ = false

unfoldable pub offset : Location → ℕ → Location
offset at n = record { line = at.line; column = at.column + n }

-- The test of a part of an identifier; `part.begin() + 1` skips its first character.
unfoldable pub is_part : List ℕ → Bool
unfolding all_of is_part_char
is_part [] = false
is_part (c ∷ cs) = all_of is_part_char cs

unfoldable pub is_index : List ℕ → Bool
unfolding all_of is_digit is_empty
is_index cs = not (is_empty cs) && all_of is_digit cs

-- `validate_identifier` at a location of the lexer.
module _ (whole : List ℕ) (at : Location) where
  -- A dot at the start of `remaining` is skipped, unless nothing follows it.
  unfoldable pub skip_point : (List ℕ → Result (List ℕ)) → ℕ → List ℕ → Result (List ℕ)
  unfolding offset
  skip_point again position [] = again []
  skip_point again position (c ∷ []) =
      if c == b'.' then template_error trailing_dot (offset at position) else again (c ∷ [])
  skip_point again position (c ∷ d ∷ cs) = if c == b'.' then again (d ∷ cs) else again (c ∷ d ∷ cs)

  -- What follows the index, from its closing bracket on.
  unfoldable pub close_index : (List ℕ → Result (List ℕ)) → ℕ → List ℕ → List ℕ → Result (List ℕ)
  unfolding skip_point is_index
  close_index again position index [] = template_error unterminated_index (offset at position)
  close_index again position index (c ∷ cs) =
      if not (is_index index)
      then template_error invalid_index (offset at (position + 1))
      else skip_point again position cs

  -- What follows a part: the end, a dot or an index.
  unfoldable pub after_part : (List ℕ → Result (List ℕ)) → ℕ → List ℕ → Result (List ℕ)
  unfolding close_index
  after_part again position [] = again []
  after_part again position (c ∷ cs) =
      if c == b'.'
      then skip_point again position (c ∷ cs)
      else if c == b'['
      then close_index again position (before (λ d. d == b']') cs) (from (λ d. d == b']') cs)
      else again (c ∷ cs)

  unfoldable pub validate_parts : ℕ → List ℕ → Result (List ℕ)
  unfolding after_part is_part
  validate_parts zero remaining = out_of_fuel
  validate_parts (suc fuel) [] = ok whole
  validate_parts (suc fuel) (c ∷ cs) =
      if not (is_part (before ends_part (c ∷ cs)))
      then template_error invalid_identifier at
      else after_part (validate_parts fuel) (length (before ends_part (c ∷ cs)))
          (from ends_part (c ∷ cs))

-- A turn of the loop takes one character at least.
unfoldable pub validate_identifier : Location → List ℕ → Result (List ℕ)
unfolding validate_parts
validate_identifier at [] = template_error invalid_identifier at
validate_identifier at (c ∷ cs) =
    if not (is_start_char c)
    then template_error invalid_identifier at
    else validate_parts (c ∷ cs) at (suc (length (c ∷ cs))) (c ∷ cs)
