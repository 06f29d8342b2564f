-- ===== src/Jinja/Parser/Nodes.antt =====
-- One node off the front of the tokens of a template.
use coro_wayland.Base.{
  ℕ, suc, ◌≡◌, ap, ◌∙◌, List, [], ◌∷◌, ◌++◌, append_assoc, arith, length, length-append,
}
use coro_wayland.Jinja.Errors.{Result, ok}
use coro_wayland.Jinja.{
  Location, block_start, block_end, if_word, else_word, endif_word, for_word, endfor_word, in_word,
  is, Token, Document, empty_document, if_else_node, for_each_node,
}
use coro_wayland.Jinja.Templates.{Template, symbol, name, tokens}
use coro_wayland.Jinja.Parser.{
  find_matching_token, parse_if_else, parse_for_head, parse_for_each, parse_block, parse_token,
  parse_next_document,
}
use coro_wayland.Jinja.Parser.Blocks.{
  parse_if_body-block, parse_for_body-block, parse_clause-when, parse_clause-when_else,
}
use coro_wayland.Jinja.Parser.Searches.{
  endif_found, else_absent, else_found, endfor_found, endif_found_after_else,
}

module _ (at : Location) where
  -- One document off the front, if `make` does right by what the block holds.
  pub next-when :
      (make : List Token → Result Document) (c : List ℕ) (l : Location) (body : Template)
      (r : List Token) (d : Document)
      → make (tokens at body) ≡ ok d
      → parse_next_document make (
          symbol at block_start
          ∷ symbol at if_word
          ∷ name at c l
          ∷ symbol at block_end
          ∷ (tokens at body
              ++ symbol at block_start ∷ symbol at endif_word ∷ symbol at block_end ∷ r))
        ≡ ok (if_else_node c d empty_document l, r)
  unfolding parse_next_document parse_token parse_block parse_if_else is
  next-when make c l body r d made = rw (
    endif_found at body (symbol at block_end ∷ r),
    parse_if_body-block make at at (tokens at body) r (name at c l) _ (d, empty_document)
        (else_absent at body)
        (parse_clause-when make at at (tokens at body) _ d (omega arith) made),
  )

  pub next-when_else :
      (make : List Token → Result Document) (c : List ℕ) (l : Location) (body other : Template)
      (r : List Token) (d e : Document)
      → make (tokens at body) ≡ ok d
      → make (tokens at other) ≡ ok e
      → parse_next_document make (
          symbol at block_start
          ∷ symbol at if_word
          ∷ name at c l
          ∷ symbol at block_end
          ∷ ((tokens at body
                ++ symbol at block_start
                  ∷ symbol at else_word
                  ∷ symbol at block_end
                  ∷ tokens at other)
              ++ symbol at block_start ∷ symbol at endif_word ∷ symbol at block_end ∷ r))
        ≡ ok (if_else_node c d e l, r)
  unfolding parse_next_document parse_token parse_block parse_if_else is
  next-when_else make c l body other r d e made made' =
      let middle =
        symbol at block_start ∷ symbol at else_word ∷ symbol at block_end ∷ tokens at other in
      let clause = tokens at body ++ middle in
      let end = symbol at block_start ∷ symbol at endif_word ∷ symbol at block_end ∷ r in
      let stop = symbol at block_start ∷ symbol at endif_word ∷ [] in
      let found : find_matching_token if_word endif_word endif_word (clause ++ end)
          ≡ ok (suc (length clause)) =
        ap (find_matching_token if_word endif_word endif_word)
          (append_assoc (tokens at body) middle end)
        ∙ endif_found_after_else at body other (symbol at block_end ∷ r)
        ∙ ap ok (omega (arith, length-append (tokens at body) middle)) in
      let found_else : find_matching_token if_word else_word endif_word (clause ++ stop)
          ≡ ok (suc (length (tokens at body))) =
        ap (find_matching_token if_word else_word endif_word)
          (append_assoc (tokens at body) middle stop)
        ∙ else_found at body (symbol at block_end ∷ (tokens at other ++ stop)) in
      rw (
        found,
        parse_if_body-block make at at clause r (name at c l) _ (d, e) found_else
            (parse_clause-when_else make at at (tokens at body) (tokens at other) d e made made'),
      )

  pub next-each :
      (make : List Token → Result Document) (x a : List ℕ) (l k : Location) (body : Template)
      (r : List Token) (d : Document)
      → make (tokens at body) ≡ ok d
      → parse_next_document make (
          symbol at block_start
          ∷ symbol at for_word
          ∷ name at x l
          ∷ symbol at in_word
          ∷ name at a k
          ∷ symbol at block_end
          ∷ (tokens at body
              ++ symbol at block_start ∷ symbol at endfor_word ∷ symbol at block_end ∷ r))
        ≡ ok (for_each_node a x d l k, r)
  unfolding parse_next_document parse_token parse_block parse_for_each parse_for_head is
  next-each make x a l k body r d made = rw (
    endfor_found at body (symbol at block_end ∷ r),
    parse_for_body-block make at at (tokens at body) r (name at x l) (name at a k) d made,
  )
