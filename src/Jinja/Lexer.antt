-- ===== src/Jinja/Lexer.antt =====
-- `struct Lexer` of src/code_generator/JinjaTemplateEngine.cpp and `tokenize`.
pub mod Spelling
pub mod Endings
pub mod Variables
pub mod Progress
pub mod Outcome
pub mod Pieces
pub mod Blocks
pub mod RoundTrip
mod Examples
use coro_wayland.Base.{
  ℕ, zero, suc, ◌+◌, min, Bool, true, false, ◌&&◌, ◌||◌, Option, none, some, List, [], ◌∷◌, ◌++◌,
  ◌==◌, ltb, if◌then◌else◌, length, take,
}
use coro_wayland.Jinja.Errors.{
  Result, ok, template_error, out_of_fuel, ◌>>=◌, unterminated_variable, expected_variable_close,
  unterminated_block, expected_block_close,
}
use coro_wayland.Jinja.{
  Location, TokenType, text, variable_start, variable_end, block_start, block_end, if_word,
  else_word, endif_word, for_word, endfor_word, in_word, identifier, end_of_file, Token,
}
use coro_wayland.Jinja.Identifiers.{
  is_space, ends_variable, ends_word, before, from, is_empty, starts_with, validate_identifier,
}

-- `input` is `mInput` from `mPosition` on.
pub record Lexer : Type 0 where
  pub input : List ℕ
  pub location : Location

-- The location behind a character.
unfoldable pub behind : Location → ℕ → Location
behind at c =
    if c == b'\n'
    then record { line = suc at.line; column = 1 }
    else record { line = at.line; column = suc at.column }

-- `advance` on the input and the location.
unfoldable pub advance_from : ℕ → List ℕ → Location → Lexer
unfolding behind
advance_from zero cs at = record { input = cs; location = at }
advance_from (suc n) [] at = record { input = []; location = at }
advance_from (suc n) (c ∷ cs) at = advance_from n cs (behind at c)

unfoldable pub advance : ℕ → Lexer → Lexer
unfolding advance_from
advance n l = advance_from n l.input l.location

-- The loop of `skip_whitespace` on the input and the location.
unfoldable pub skip_spaces : List ℕ → Location → Lexer
unfolding behind
skip_spaces [] at = record { input = []; location = at }
skip_spaces (c ∷ cs) at =
    let rest = skip_spaces cs (behind at c) in
    if is_space c then rest else record { input = c ∷ cs; location = at }

unfoldable pub skip_whitespace : Lexer → Lexer
unfolding skip_spaces
skip_whitespace l = skip_spaces l.input l.location

unfoldable pub make_token : TokenType → List ℕ → Lexer → Token
make_token t v l = record { token_type = t; value = v; location = l.location }

unfoldable pub same_word : List ℕ → List ℕ → Bool
same_word [] [] = true
same_word (c ∷ cs) (d ∷ ds) = c == d && same_word cs ds
same_word _ _ = false

-- The words `ifLiteral`, `elseLiteral` and so on, in the order of their tests.
unfoldable pub keyword : List ℕ → Option TokenType
unfolding same_word
keyword w =
    if same_word w (b'i' ∷ b'f' ∷ [])
    then some if_word
    else if same_word w (b'e' ∷ b'l' ∷ b's' ∷ b'e' ∷ [])
    then some else_word
    else if same_word w (b'e' ∷ b'n' ∷ b'd' ∷ b'i' ∷ b'f' ∷ [])
    then some endif_word
    else if same_word w (b'f' ∷ b'o' ∷ b'r' ∷ [])
    then some for_word
    else if same_word w (b'e' ∷ b'n' ∷ b'd' ∷ b'f' ∷ b'o' ∷ b'r' ∷ [])
    then some endfor_word
    else if same_word w (b'i' ∷ b'n' ∷ [])
    then some in_word
    else none

-- What a part of the loop of `tokenize` adds to the tokens, and the lexer behind it.
abbrev pub Lexed : Type 0
Lexed = List Token × Lexer

-- The closing braces behind the name of a substitution that starts at `start`.
unfoldable pub close_variable : Location → Lexer → Result Lexed
unfolding advance make_token
close_variable start l =
    if starts_with b'}' b'}' l.input
    then ok (make_token variable_end (b'}' ∷ b'}' ∷ []) l ∷ [], advance 2 l)
    else template_error expected_variable_close start

-- The name of a substitution, from behind the white space in front of it.
unfoldable pub lex_name : Location → Lexer → Result Lexed
unfolding close_variable skip_whitespace
lex_name start l =
    if is_empty (from ends_variable l.input)
    then template_error unterminated_variable start
    else (do
      name ← validate_identifier l.location (before ends_variable l.input)
      closed ← close_variable start (skip_whitespace (advance (length name) l))
      ok (make_token identifier name l ∷ closed.0, closed.1))

unfoldable pub lex_variable : Lexer → Result Lexed
unfolding lex_name
lex_variable l = (do
  named ← lex_name l.location (skip_whitespace (advance 2 l))
  ok (make_token variable_start (b'{' ∷ b'{' ∷ []) l ∷ named.0, named.1))

-- The word of a block at the position of the lexer.
unfoldable pub lex_identifier : Location → Lexer → Result Token
unfolding make_token
lex_identifier start l =
    if is_empty (from ends_word l.input) then template_error unterminated_block start else (do
      name ← validate_identifier l.location (before ends_word l.input)
      ok (make_token identifier name l))

unfoldable pub word_or_identifier : Location → Lexer → Option TokenType → Result Token
unfolding lex_identifier
word_or_identifier start l none = lex_identifier start l
word_or_identifier start l (some t) = ok (make_token t (before ends_word l.input) l)

unfoldable pub lex_word : Location → Lexer → Result Token
unfolding word_or_identifier keyword
lex_word start l = word_or_identifier start l (keyword (before ends_word l.input))

-- The loop over the words of a block.
unfoldable pub lex_words : ℕ → Location → Lexer → Result Lexed
unfolding lex_word skip_whitespace advance
lex_words zero start l = out_of_fuel
lex_words (suc fuel) start l =
    if is_empty l.input || starts_with b'%' b'}' l.input then ok ([], l) else (do
      word ← lex_word start l
      rest ← lex_words fuel start (skip_whitespace (advance (length word.value) l))
      ok (word ∷ rest.0, rest.1))

unfoldable pub close_block : Location → Lexed → Result Lexed
unfolding advance make_token
close_block start words =
    if starts_with b'%' b'}' words.1.input
    then ok (words.0 ++ make_token block_end (b'%' ∷ b'}' ∷ []) words.1 ∷ [], advance 2 words.1)
    else template_error expected_block_close start

unfoldable pub lex_block : Lexer → Result Lexed
unfolding lex_words close_block
lex_block l =
    let inside = skip_whitespace (advance 2 l) in
    (do
      words ← lex_words (suc (length inside.input)) l.location inside
      closed ← close_block l.location words
      ok (make_token block_start (b'{' ∷ b'%' ∷ []) l ∷ closed.0, closed.1))

-- The position of two characters in a string; its length when they are not there, which is what
-- `textEnd` makes of `npos`.
unfoldable pub find_pair : ℕ → ℕ → List ℕ → ℕ
unfolding starts_with
find_pair a b [] = 0
find_pair a b (c ∷ cs) =
    let rest = find_pair a b cs in if starts_with a b (c ∷ cs) then 0 else suc rest

unfoldable pub lex_text : Lexer → Lexed
unfolding advance make_token find_pair
lex_text l =
    let end = min (find_pair b'{' b'{' l.input) (find_pair b'{' b'%' l.input) in
    (make_token text (take end l.input) l ∷ [], advance end l)

-- A turn of the loop of `tokenize`.
unfoldable pub lex_next : Lexer → Result Lexed
unfolding lex_variable lex_block lex_text
lex_next l =
    if starts_with b'{' b'{' l.input
    then lex_variable l
    else if starts_with b'{' b'%' l.input
    then lex_block l
    else ok (lex_text l)

unfoldable pub tokenize_loop : ℕ → Lexer → Result (List Token)
unfolding lex_next
tokenize_loop zero l = out_of_fuel
tokenize_loop (suc fuel) l =
    if is_empty l.input
    then ok (make_token end_of_file [] l ∷ [])
    else (do next ← lex_next l; rest ← tokenize_loop fuel next.1; ok (next.0 ++ rest))

-- `tokenize`: a turn of the loop takes one character at least.
unfoldable pub tokenize : List ℕ → Result (List Token)
unfolding tokenize_loop
tokenize content =
    tokenize_loop (suc (length content))
      (record { input = content; location = record { line = 1; column = 1 } })
