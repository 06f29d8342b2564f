-- ===== src/Jinja/Lexer/Pieces.antt =====
-- Source text as a sequence of texts, substitutions and blocks, and the tokens that they are, each
-- at its location. This describes the language of the lexer independently of it.
use coro_wayland.Base.{ℕ, ◌≡◌, Bool, false, Option, none, some, List, [], ◌∷◌, ◌++◌, ◌==◌}
use coro_wayland.Jinja.{
  Location, TokenType, Token, text, variable_start, variable_end, block_start, block_end,
  identifier, end_of_file,
}
use coro_wayland.Jinja.Errors.{ok}
use coro_wayland.Jinja.Identifiers.{is_space, ends_variable, ends_word, validate_identifier}
use coro_wayland.Jinja.Identifiers.Scans.{Free}
use coro_wayland.Jinja.Lexer.{behind, keyword}

pub data Piece : Type 0 where
  plain : List ℕ → Piece
  substitution : List ℕ → Piece
  block : List (List ℕ) → Piece

-- The words of a block, each with a space behind it.
abbrev pub spell_words : List (List ℕ) → List ℕ
spell_words [] = []
spell_words (w ∷ ws) = w ++ b' ' ∷ spell_words ws

abbrev pub spell : Piece → List ℕ
spell (plain cs) = cs
spell (substitution name) = b'{' ∷ b'{' ∷ b' ' ∷ name ++ b' ' ∷ b'}' ∷ b'}' ∷ []
spell (block words) = b'{' ∷ b'%' ∷ b' ' ∷ spell_words words ++ b'%' ∷ b'}' ∷ []

unfoldable pub spell_all : List Piece → List ℕ
spell_all [] = []
spell_all (p ∷ ps) = spell p ++ spell_all ps

-- The location behind a string.
unfoldable pub after : List ℕ → Location → Location
after [] at = at
after (c ∷ cs) at = after cs (behind at c)

abbrev pub token : TokenType → List ℕ → Location → Token
token t v at = record { token_type = t; value = v; location = at }

abbrev pub or_identifier : Option TokenType → TokenType
or_identifier none = identifier
or_identifier (some t) = t

unfoldable pub word_tokens : List (List ℕ) → Location → List Token
word_tokens [] at = []
word_tokens (w ∷ ws) at =
    token (or_identifier (keyword w)) w at ∷ word_tokens ws (after (w ++ b' ' ∷ []) at)

abbrev pub piece_tokens : Piece → Location → List Token
piece_tokens (plain cs) at = token text cs at ∷ []
piece_tokens (substitution name) at =
    token variable_start (b'{' ∷ b'{' ∷ []) at
    ∷ token identifier name (after (b'{' ∷ b'{' ∷ b' ' ∷ []) at)
    ∷ token variable_end (b'}' ∷ b'}' ∷ []) (after (b'{' ∷ b'{' ∷ b' ' ∷ name ++ b' ' ∷ []) at)
    ∷ []
piece_tokens (block words) at =
    token block_start (b'{' ∷ b'%' ∷ []) at ∷ word_tokens words (after (b'{' ∷ b'%' ∷ b' ' ∷ []) at)
    ++ token block_end (b'%' ∷ b'}' ∷ []) (after (b'{' ∷ b'%' ∷ b' ' ∷ spell_words words) at) ∷ []

unfoldable pub all_tokens : List Piece → Location → List Token
all_tokens [] at = token end_of_file [] at ∷ []
all_tokens (p ∷ ps) at = piece_tokens p at ++ all_tokens ps (after (spell p) at)

-- The string starts with a character that is no white space.
abbrev pub Solid : List ℕ → Type 0
Solid [] = ⊥
Solid (c ∷ cs) = is_space c ≡ false

-- A name that `validate_identifier` takes wherever it stands.
pub record IsName (stop : ℕ → Bool) (name : List ℕ) : Type 0 where
  pub solid : Solid name
  pub free : Free stop name
  pub valid : (at : Location) → validate_identifier at name ≡ ok name

abbrev pub AreNames : List (List ℕ) → Type 0
AreNames [] = Unit
AreNames (w ∷ ws) = IsName ends_word w × AreNames ws

abbrev pub is_brace : ℕ → Bool
is_brace c = c == b'{'

-- A text is not empty and has no opening brace; behind it stands no other text.
abbrev pub IsPiece : Piece → Type 0
IsPiece (plain []) = ⊥
IsPiece (plain (c ∷ cs)) = Free is_brace (c ∷ cs)
IsPiece (substitution name) = IsName ends_variable name
IsPiece (block words) = AreNames words

abbrev pub MayFollow : Piece → List Piece → Type 0
MayFollow (plain cs) (plain ds ∷ ps) = ⊥
MayFollow _ _ = Unit

abbrev pub ArePieces : List Piece → Type 0
ArePieces [] = Unit
ArePieces (p ∷ ps) = IsPiece p × MayFollow p ps × ArePieces ps
