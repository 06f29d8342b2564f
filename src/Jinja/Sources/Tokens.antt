-- ===== src/Jinja/Sources/Tokens.antt =====
-- The lexer makes of the text of a source the tokens of its tree.
use coro_wayland.Base.{ℕ, ◌≡◌, refl, sym, ap, ◌∙◌, none, List, [], ◌∷◌, ◌++◌, append_assoc}
use coro_wayland.Jinja.{
  Location, TokenType, text, variable_start, variable_end, block_start, block_end, if_word,
  else_word, endif_word, for_word, endfor_word, in_word, is, Token,
}
use coro_wayland.Jinja.Lexer.{keyword, same_word}
use coro_wayland.Jinja.Lexer.Pieces.{
  Piece, substitution, spell, after, token, word_tokens, all_tokens, or_identifier,
}
use coro_wayland.Jinja.Parser.Marks.{unmark, unmark_all}
use coro_wayland.Jinja.Sources.{
  Source, blank, words, variable, when, when_else, each, if_text, else_text, endif_text, for_text,
  endfor_text, in_text, if_block, for_block, word_block, pieces, behind_source, next_word,
  inside_block, tree, IsSource,
}
use coro_wayland.Jinja.Templates.{tokens, symbol, name}

module _ (z : Location) where
  -- The tokens behind a source.
  abbrev rest_tokens : List Piece → Location → List Token
  rest_tokens ps at = unmark_all z (all_tokens ps at)

  word-token :
      (w : List ℕ) (at : Location)
      → keyword w ≡ none
      → unmark z (token (or_identifier (keyword w)) w at) ≡ name z w at
  unfolding unmark is
  word-token w at h = rw h

  -- The tokens of the head of a block, in front of others.
  abbrev if_head : List ℕ → Location → List Token → List Token
  if_head c at r =
      symbol z block_start
      ∷ symbol z if_word
      ∷ name z c (next_word if_text (inside_block at))
      ∷ symbol z block_end
      ∷ r

  abbrev for_head : List ℕ → List ℕ → Location → List Token → List Token
  for_head i a at r =
      symbol z block_start
      ∷ symbol z for_word
      ∷ name z i (next_word for_text (inside_block at))
      ∷ symbol z in_word
      ∷ name z a (next_word in_text (next_word i (next_word for_text (inside_block at))))
      ∷ symbol z block_end
      ∷ r

  head-if :
      (c : List ℕ) (ps : List Piece) (at : Location)
      → keyword c ≡ none
      → rest_tokens (if_block c ∷ ps) at
        ≡ if_head c at (rest_tokens ps (after (spell (if_block c)) at))
  unfolding all_tokens word_tokens keyword same_word unmark is
  head-if c ps at h =
      ap
        (λ t.
          symbol z block_start
          ∷ symbol z if_word
          ∷ t
          ∷ symbol z block_end
          ∷ rest_tokens ps (after (spell (if_block c)) at))
        (word-token c (next_word if_text (inside_block at)) h)

  head-for :
      (i a : List ℕ) (ps : List Piece) (at : Location)
      → keyword i ≡ none
      → keyword a ≡ none
      → rest_tokens (for_block i a ∷ ps) at
        ≡ for_head i a at (rest_tokens ps (after (spell (for_block i a)) at))
  unfolding all_tokens word_tokens keyword same_word unmark is
  head-for i a ps at h k =
      let item = next_word for_text (inside_block at) in
      let array = next_word in_text (next_word i item) in
      let end = symbol z block_end ∷ rest_tokens ps (after (spell (for_block i a)) at) in
      ap
        (λ t.
          symbol z block_start
          ∷ symbol z for_word
          ∷ t
          ∷ symbol z in_word
          ∷ unmark z (token (or_identifier (keyword a)) a array)
          ∷ end)
        (word-token i item h)
      ∙ ap
          (λ t.
            symbol z block_start ∷ symbol z for_word ∷ name z i item ∷ symbol z in_word ∷ t ∷ end)
          (word-token a array k)

  -- The tokens of a block of one word.
  abbrev mark : TokenType → List Token → List Token
  mark w r = symbol z block_start ∷ symbol z w ∷ symbol z block_end ∷ r

  -- A body, and what follows its end.
  body-tokens :
      (w : TokenType) (xs ys zs ts rs : List Token)
      → xs ≡ ys ++ mark w zs
      → zs ≡ ts ++ rs
      → xs ≡ (ys ++ mark w ts) ++ rs
  body-tokens w xs ys zs ts rs h k =
      h ∙ ap (λ r. ys ++ mark w r) k ∙ sym (append_assoc ys (mark w ts) rs)

  pub tree-tokens :
      (s : Source) (ps : List Piece) (at : Location)
      → IsSource s
      → rest_tokens (pieces s ps) at ≡ tokens z (tree s at) ++ rest_tokens ps (behind_source s at)
  unfolding tree tokens pieces behind_source IsSource all_tokens word_tokens keyword same_word
      unmark is
  tree-tokens blank ps at h = refl
  tree-tokens (words content rest) ps at h =
      ap (λ r. token text content at ∷ r) (tree-tokens rest ps (after content at) h.2)
  tree-tokens (variable path rest) ps at h =
      ap
        (λ r.
          symbol z variable_start
          ∷ name z path (after (b'{' ∷ b'{' ∷ b' ' ∷ []) at)
          ∷ symbol z variable_end
          ∷ r)
        (tree-tokens rest ps (after (spell (substitution path)) at) h.1)
  tree-tokens (when c body rest) ps at h =
      let start = after (spell (if_block c)) at in
      let end = after (spell (word_block endif_text)) (behind_source body start) in
      head-if c (pieces body (word_block endif_text ∷ pieces rest ps)) at h.0.1
      ∙ ap (if_head c at) (
          body-tokens endif_word _ (tokens z (tree body start)) _ (tokens z (tree rest end))
            (rest_tokens ps (behind_source rest end))
            (tree-tokens body (word_block endif_text ∷ pieces rest ps) start h.1)
            (tree-tokens rest ps end h.2))
  tree-tokens (when_else c body other rest) ps at h =
      let start = after (spell (if_block c)) at in
      let middle = after (spell (word_block else_text)) (behind_source body start) in
      let end = after (spell (word_block endif_text)) (behind_source other middle) in
      let others = pieces other (word_block endif_text ∷ pieces rest ps) in
      let behind = rest_tokens ps (behind_source rest end) in
      let inner =
        body-tokens else_word _ (tokens z (tree body start)) _ (tokens z (tree other middle))
          (mark endif_word (rest_tokens (pieces rest ps) end))
          (tree-tokens body (word_block else_text ∷ others) start h.1)
          (tree-tokens other (word_block endif_text ∷ pieces rest ps) middle h.2) in
      head-if c (pieces body (word_block else_text ∷ others)) at h.0.1
      ∙ ap (if_head c at) (
          body-tokens endif_word _
            (tokens z (tree body start) ++ mark else_word (tokens z (tree other middle))) _
            (tokens z (tree rest end)) behind inner (tree-tokens rest ps end h.3))
  tree-tokens (each i a body rest) ps at h =
      let start = after (spell (for_block i a)) at in
      let end = after (spell (word_block endfor_text)) (behind_source body start) in
      head-for i a (pieces body (word_block endfor_text ∷ pieces rest ps)) at h.0.1 h.1.1
      ∙ ap (for_head i a at) (
          body-tokens endfor_word _ (tokens z (tree body start)) _ (tokens z (tree rest end))
            (rest_tokens ps (behind_source rest end))
            (tree-tokens body (word_block endfor_text ∷ pieces rest ps) start h.2)
            (tree-tokens rest ps end h.3))
