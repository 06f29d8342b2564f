-- ===== src/Jinja/Lexer/Examples.antt =====
-- The text `a{{ x }}` and texts that the lexer refuses.
use coro_wayland.Base.{◌≡◌, refl, ℕ, List, [], ◌∷◌}
use coro_wayland.Jinja.{
  Location, Token, text, variable_start, variable_end, identifier, end_of_file,
}
use coro_wayland.Jinja.Errors.{
  ok, template_error, invalid_identifier, trailing_dot, unterminated_variable,
}
use coro_wayland.Jinja.Identifiers.{
  is_space, is_alpha, is_digit, is_part_char, is_start_char, ends_part, ends_variable, before, from,
  is_empty, starts_with, is_part, all_of, skip_point, after_part, validate_parts,
  validate_identifier, offset,
}
use coro_wayland.Jinja.Lexer.{
  behind, advance_from, advance, skip_spaces, skip_whitespace, make_token, close_variable, lex_name,
  lex_variable, find_pair, lex_text, lex_next, tokenize_loop, tokenize,
}
use coro_wayland.Jinja.Lexer.Spelling.{solid, spelling}
use coro_wayland.Jinja.Lexer.Pieces.{Piece, plain, substitution, block}
use coro_wayland.Jinja.Lexer.Outcome.{tokenize_spells}

abbrev place : ℕ → Location
place column = record { line = 1; column = column }

abbrev content : List ℕ
content = b'a' ∷ b'{' ∷ b'{' ∷ b' ' ∷ b'x' ∷ b' ' ∷ b'}' ∷ b'}' ∷ []

abbrev content_tokens : List Token
content_tokens =
    record { token_type = text; value = b'a' ∷ []; location = place 1 }
    ∷ record { token_type = variable_start; value = b'{' ∷ b'{' ∷ []; location = place 2 }
    ∷ record { token_type = identifier; value = b'x' ∷ []; location = place 5 }
    ∷ record { token_type = variable_end; value = b'}' ∷ b'}' ∷ []; location = place 7 }
    ∷ record { token_type = end_of_file; value = []; location = place 9 }
    ∷ []

tokenize-content : tokenize content ≡ ok content_tokens
unfolding tokenize tokenize_loop lex_next lex_variable lex_name lex_text close_variable find_pair
    validate_identifier validate_parts after_part is_start_char is_alpha is_part all_of is_part_char
    is_digit advance advance_from behind skip_whitespace skip_spaces is_space make_token starts_with
    is_empty before from ends_variable ends_part
tokenize-content = refl

-- `{{ a. }}`, `{{ x` and `{{ x` before a line feed.
tokenize-dot :
    tokenize (b'{' ∷ b'{' ∷ b'a' ∷ b'.' ∷ b'}' ∷ b'}' ∷ []) ≡ template_error trailing_dot (place 4)
unfolding tokenize tokenize_loop lex_next lex_variable lex_name lex_text close_variable find_pair
    validate_identifier validate_parts after_part is_start_char is_alpha is_part all_of is_part_char
    is_digit advance advance_from behind skip_whitespace skip_spaces is_space make_token starts_with
    is_empty before from ends_variable ends_part skip_point offset
tokenize-dot = refl

tokenize-open : tokenize (b'{' ∷ b'{' ∷ b'x' ∷ []) ≡ template_error unterminated_variable (place 1)
unfolding tokenize tokenize_loop lex_next lex_variable lex_name is_empty advance advance_from behind
    skip_whitespace skip_spaces is_space starts_with before from ends_variable
tokenize-open = refl

tokenize-line_feed :
    tokenize (b'{' ∷ b'{' ∷ b'x' ∷ b'\n' ∷ b'}' ∷ b'}' ∷ [])
    ≡ template_error invalid_identifier (place 3)
unfolding tokenize tokenize_loop lex_next lex_variable lex_name is_empty advance advance_from behind
    skip_whitespace skip_spaces is_space starts_with before from ends_variable ends_part
    validate_identifier validate_parts is_start_char is_alpha is_part all_of is_part_char is_digit
tokenize-line_feed = refl

tokenize_spells_example : solid (spelling content_tokens) ≡ solid content
tokenize_spells_example = tokenize_spells content content_tokens tokenize-content

-- `a{{ x }}{% if x %}`.
abbrev pieces : List Piece
pieces =
    plain (b'a' ∷ [])
    ∷ substitution (b'x' ∷ [])
    ∷ block ((b'i' ∷ b'f' ∷ []) ∷ (b'x' ∷ []) ∷ [])
    ∷ []
