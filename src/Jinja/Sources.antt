-- ===== src/Jinja/Sources.antt =====
-- `make_document` of src/code_generator/JinjaTemplateEngine.cpp on the text of a template, and
-- templates as they are written, without locations: their text, and the trees that they stand for.
pub mod Tokens
pub mod RoundTrip
mod Examples
use coro_wayland.Base.{ℕ, suc, ◌≡◌, none, List, [], ◌∷◌, ◌++◌, length}
use coro_wayland.Jinja.{Location, Document}
use coro_wayland.Jinja.Errors.{Result, ◌>>=◌}
use coro_wayland.Jinja.Identifiers.{ends_variable, ends_word}
use coro_wayland.Jinja.Lexer.{keyword, tokenize}
use coro_wayland.Jinja.Lexer.Pieces.{
  Piece, plain, substitution, block, spell, spell_all, after, IsName, IsPiece,
}
use coro_wayland.Jinja.Parser.{make_document}
use coro_wayland.Jinja.Templates.{Template}

-- `make_document` on text; the number of the tokens is enough for the depth of the blocks.
unfoldable pub compile : List ℕ → Result Document
compile content = (do tokens ← tokenize content; make_document (suc (length tokens)) tokens)

-- A sequence of nodes; `rest` is what follows the first one.
pub data Source : Type 0 where
  blank : Source
  words : (content : List ℕ) → (rest : Source) → Source
  variable : (path : List ℕ) → (rest : Source) → Source
  when : (condition : List ℕ) → (body rest : Source) → Source
  when_else : (condition : List ℕ) → (body other rest : Source) → Source
  each : (item array : List ℕ) → (body rest : Source) → Source

abbrev pub if_text : List ℕ
if_text = b'i' ∷ b'f' ∷ []

abbrev pub else_text : List ℕ
else_text = b'e' ∷ b'l' ∷ b's' ∷ b'e' ∷ []

abbrev pub endif_text : List ℕ
endif_text = b'e' ∷ b'n' ∷ b'd' ∷ b'i' ∷ b'f' ∷ []

abbrev pub for_text : List ℕ
for_text = b'f' ∷ b'o' ∷ b'r' ∷ []

abbrev pub endfor_text : List ℕ
endfor_text = b'e' ∷ b'n' ∷ b'd' ∷ b'f' ∷ b'o' ∷ b'r' ∷ []

abbrev pub in_text : List ℕ
in_text = b'i' ∷ b'n' ∷ []

abbrev pub if_block : List ℕ → Piece
if_block condition = block (if_text ∷ condition ∷ [])

abbrev pub for_block : List ℕ → List ℕ → Piece
for_block item array = block (for_text ∷ item ∷ in_text ∷ array ∷ [])

abbrev pub word_block : List ℕ → Piece
word_block w = block (w ∷ [])

-- The pieces of a source, in front of others.
unfoldable pub pieces : Source → List Piece → List Piece
pieces blank ps = ps
pieces (words content rest) ps = plain content ∷ pieces rest ps
pieces (variable path rest) ps = substitution path ∷ pieces rest ps
pieces (when c body rest) ps = if_block c ∷ pieces body (word_block endif_text ∷ pieces rest ps)
pieces (when_else c body other rest) ps =
    if_block c
    ∷ pieces body (word_block else_text ∷ pieces other (word_block endif_text ∷ pieces rest ps))
pieces (each i a body rest) ps =
    for_block i a ∷ pieces body (word_block endfor_text ∷ pieces rest ps)

-- The text of a source.
unfoldable pub write : Source → List ℕ
write s = spell_all (pieces s [])

-- The location behind a source.
unfoldable pub behind_source : Source → Location → Location
behind_source blank at = at
behind_source (words content rest) at = behind_source rest (after content at)
behind_source (variable path rest) at = behind_source rest (after (spell (substitution path)) at)
behind_source (when c body rest) at =
    behind_source rest
      (after (spell (word_block endif_text)) (behind_source body (after (spell (if_block c)) at)))
behind_source (when_else c body other rest) at = behind_source rest (
    after (spell (word_block endif_text)) (
      behind_source other (
        after (spell (word_block else_text)) (behind_source body (after (spell (if_block c)) at)))))
behind_source (each i a body rest) at =
    behind_source rest (
      after (spell (word_block endfor_text))
        (behind_source body (after (spell (for_block i a)) at)))

-- The location of the second word of a block whose first one is `w`, and of the one behind it.
abbrev pub next_word : List ℕ → Location → Location
next_word w at = after (w ++ b' ' ∷ []) at

abbrev pub inside_block : Location → Location
inside_block at = after (b'{' ∷ b'%' ∷ b' ' ∷ []) at

-- The tree of a source that starts at a location.
unfoldable pub tree : Source → Location → Template
unfolding behind_source
tree blank at = Template.blank
tree (words content rest) at = Template.plain content at (tree rest (after content at))
tree (variable path rest) at =
    Template.variable path (after (b'{' ∷ b'{' ∷ b' ' ∷ []) at)
      (tree rest (after (spell (substitution path)) at))
tree (when c body rest) at =
    let start = after (spell (if_block c)) at in
    let end = after (spell (word_block endif_text)) (behind_source body start) in
    Template.when c (next_word if_text (inside_block at)) (tree body start) (tree rest end)
tree (when_else c body other rest) at =
    let start = after (spell (if_block c)) at in
    let middle = after (spell (word_block else_text)) (behind_source body start) in
    let end = after (spell (word_block endif_text)) (behind_source other middle) in
    Template.when_else c (next_word if_text (inside_block at)) (tree body start) (tree other middle)
      (tree rest end)
tree (each i a body rest) at =
    let start = after (spell (for_block i a)) at in
    let end = after (spell (word_block endfor_text)) (behind_source body start) in
    let item = next_word for_text (inside_block at) in
    Template.each i item a (next_word in_text (next_word i item)) (tree body start) (tree rest end)

-- A name in a block is no keyword.
abbrev pub IsWord : List ℕ → Type 0
IsWord w = IsName ends_word w × (keyword w ≡ none)

abbrev pub NoWords : Source → Type 0
NoWords (words content rest) = ⊥
NoWords _ = Unit

unfoldable pub IsSource : Source → Type 0
IsSource blank = Unit
IsSource (words content rest) = IsPiece (plain content) × NoWords rest × IsSource rest
IsSource (variable path rest) = IsName ends_variable path × IsSource rest
IsSource (when c body rest) = IsWord c × IsSource body × IsSource rest
IsSource (when_else c body other rest) = IsWord c × IsSource body × IsSource other × IsSource rest
IsSource (each i a body rest) = IsWord i × IsWord a × IsSource body × IsSource rest
