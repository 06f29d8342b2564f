-- ===== src/Xml/Lexer.antt =====
-- `struct Lexer` of src/code_generator/WaylandXmlParser.cpp and `tokenize`. The text that a function
-- takes is `mInput` from `mPosition` on, and what it returns includes the text that is left.

pub mod Turns
pub mod Settling
pub mod Hanging
use coro_wayland.Base.{
  ℕ, zero, suc, ◌+◌, Bool, true, false, not, ◌&&◌, ◌||◌, Option, none, some, List, [], ◌∷◌, ◌++◌,
  ◌==◌, if◌then◌else◌, length, drop,
}
use coro_wayland.Jinja.Identifiers.{is_space, before, from, is_empty}
use coro_wayland.Xml.{
  open_tag, close_tag, self_close, open_close_tag, tag_name, attribute_name, attribute_value, text,
  end_of_file, Token, token,
}
use coro_wayland.Xml.Errors.{
  Result, ok, runtime_error, out_of_fuel, ◌>>=◌, unterminated_attribute_value, expected_quote,
  expected_equals, unterminated_declaration, unterminated_comment, unexpected_close_inside_tag,
}

unfoldable pub is_solid : ℕ → Bool
is_solid c = not (is_space c)

unfoldable pub skip_whitespace : List ℕ → List ℕ
skip_whitespace cs = from is_solid cs

unfoldable pub starts_with : List ℕ → List ℕ → Bool
starts_with cs [] = true
starts_with [] (p ∷ ps) = false
starts_with (c ∷ cs) (p ∷ ps) = c == p && starts_with cs ps

-- The position of a string that is not empty; none for `npos`.
unfoldable pub find : List ℕ → List ℕ → Option ℕ
unfolding starts_with
find needle [] = none
find needle (c ∷ cs) =
    let rest = find needle cs in
    if starts_with (c ∷ cs) needle
    then some 0
    else elim rest [ some n ↦ some (suc n) | none ↦ none ]

-- The stop characters of the searches.
unfoldable pub ends_tag_name : ℕ → Bool
ends_tag_name c = c == b' ' || c == b'/' || c == b'>'

unfoldable pub ends_attribute_name : ℕ → Bool
ends_attribute_name c = c == b'=' || c == b' ' || c == b'/' || c == b'>'

unfoldable pub is_quote : ℕ → Bool
is_quote c = c == b'"'

unfoldable pub is_open : ℕ → Bool
is_open c = c == b'<'

-- The value of an attribute up to its closing quote, and the text behind the quote.
unfoldable pub close_value : List ℕ → List ℕ → Result (List ℕ × List ℕ)
close_value value [] = runtime_error unterminated_attribute_value
close_value value (c ∷ cs) = ok (value, cs)

unfoldable pub lex_value : List ℕ → Result (List ℕ × List ℕ)
unfolding close_value
lex_value [] = runtime_error expected_quote
lex_value (c ∷ cs) =
    if is_quote c
    then close_value (before is_quote cs) (from is_quote cs)
    else runtime_error expected_quote

-- What stands behind the name of an attribute and the white space there.
unfoldable pub lex_assignment : List ℕ → Result (List ℕ × List ℕ)
unfolding lex_value
lex_assignment [] = runtime_error expected_equals
lex_assignment (c ∷ cs) =
    if c == b'=' then lex_value (skip_whitespace cs) else runtime_error expected_equals

unfoldable pub ends_attributes : List ℕ → Bool
unfolding starts_with is_empty
ends_attributes cs = is_empty cs || starts_with cs (b'>' ∷ []) || starts_with cs (b'/' ∷ b'>' ∷ [])

-- The loop of `add_attribute_tokens`.
unfoldable pub attribute_loop : ℕ → List ℕ → Result (List Token × List ℕ)
unfolding lex_assignment
attribute_loop zero cs = out_of_fuel
attribute_loop (suc fuel) cs =
    if ends_attributes cs
    then ok ([], cs)
    else if is_empty (before ends_attribute_name cs)
    then ok ([], cs)
    else (do
      valued ← lex_assignment (skip_whitespace (from ends_attribute_name cs))
      rest ← attribute_loop fuel (skip_whitespace valued.1)
      ok (
        token attribute_name (before ends_attribute_name cs)
            ∷ token attribute_value valued.0
            ∷ rest.0,
        rest.1,
      ))

-- A turn takes one character at least.
unfoldable pub add_attribute_tokens : List ℕ → Result (List Token × List ℕ)
unfolding attribute_loop
add_attribute_tokens cs = attribute_loop (suc (length cs)) (skip_whitespace cs)

-- What a turn of the loop of `tokenize` adds to the tokens, `mInTag` and the text behind it.
abbrev pub Lexed : Type 0
Lexed = List Token × Bool × List ℕ

unfoldable pub skip_past : Option ℕ → Result Lexed → ℕ → List ℕ → Result Lexed
skip_past none failed size cs = failed
skip_past (some position) failed size cs = ok ([], false, drop (position + size) cs)

unfoldable pub lex_outside : List ℕ → Result Lexed
unfolding starts_with find skip_past
lex_outside cs =
    if starts_with cs (b'<' ∷ b'?' ∷ [])
    then skip_past (find (b'?' ∷ b'>' ∷ []) cs) (runtime_error unterminated_declaration) 2 cs
    else if starts_with cs (b'<' ∷ b'!' ∷ b'-' ∷ b'-' ∷ [])
    then skip_past (find (b'-' ∷ b'-' ∷ b'>' ∷ []) cs) (runtime_error unterminated_comment) 3 cs
    else if starts_with cs (b'<' ∷ b'/' ∷ [])
    then ok (token open_close_tag (b'<' ∷ b'/' ∷ []) ∷ [], true, drop 2 cs)
    else if starts_with cs (b'<' ∷ [])
    then ok (token open_tag (b'<' ∷ []) ∷ [], true, drop 1 cs)
    else ok (token text (before is_open cs) ∷ [], false, from is_open cs)

-- The token of a tag's name; there is none for an empty one.
unfoldable pub name_tokens : List ℕ → List Token
name_tokens [] = []
name_tokens (c ∷ cs) = token tag_name (c ∷ cs) ∷ []

unfoldable pub lex_in_tag : List ℕ → Result Lexed
unfolding starts_with add_attribute_tokens name_tokens
lex_in_tag cs =
    if starts_with cs (b'/' ∷ b'>' ∷ [])
    then ok (token self_close (b'/' ∷ b'>' ∷ []) ∷ [], false, drop 2 cs)
    else if starts_with cs (b'>' ∷ [])
    then ok (token close_tag (b'>' ∷ []) ∷ [], false, drop 1 cs)
    else if starts_with cs (b'<' ∷ b'/' ∷ [])
    then runtime_error unexpected_close_inside_tag
    else (do
      attributes ← add_attribute_tokens (from ends_tag_name cs)
      ok (name_tokens (before ends_tag_name cs) ++ attributes.0, true, attributes.1))

unfoldable pub lex_next : Bool → List ℕ → Result Lexed
unfolding lex_outside lex_in_tag
lex_next true cs = lex_in_tag cs
lex_next false cs = lex_outside cs

-- The loop of `tokenize`, of which a number of turns may not be enough.
unfoldable pub tokenize_loop : ℕ → Bool → List ℕ → Result (List Token)
unfolding lex_next
tokenize_loop zero in_tag cs = out_of_fuel
tokenize_loop (suc fuel) in_tag [] = ok (token end_of_file [] ∷ [])
tokenize_loop (suc fuel) in_tag (c ∷ cs) = (do
  next ← lex_next in_tag (c ∷ cs)
  rest ← tokenize_loop fuel next.1 (skip_whitespace next.2)
  ok (next.0 ++ rest))

unfoldable pub tokenize : ℕ → List ℕ → Result (List Token)
unfolding tokenize_loop
tokenize fuel content = tokenize_loop fuel false (skip_whitespace content)
