-- ===== src/Jinja/Parser/Searches.antt =====
-- Where the searches for `endif`, `else` and `endfor` stop in the tokens behind the head of a block.
use coro_wayland.Base.{ℕ, suc, ◌+◌, ◌≡◌, refl, ap, ◌∙◌, List, [], ◌∷◌, ◌++◌, arith, length}
use coro_wayland.Jinja.Errors.{ok}
use coro_wayland.Jinja.{
  Location, TokenType, block_start, block_end, if_word, else_word, endif_word, for_word,
  endfor_word, is, Token,
}
use coro_wayland.Jinja.Templates.{Template, symbol, tokens}
use coro_wayland.Jinja.Parser.{find_loop, find_matching_token, nested_after}
use coro_wayland.Jinja.Parser.Matching.{Search, for_endif, for_else, for_endfor, find, find-tokens}

module _ (start_type needle end_type : TokenType) where
  -- The search starts at index 0 with no nesting.
  begin :
      (w r : List Token) (x : Token)
      → (from : Location) × (find_matching_token start_type needle end_type (w ++ x ∷ r)
          ≡ find_loop start_type needle end_type from 0 0 (w ++ x ∷ r))
  unfolding find_matching_token
  begin [] r x = (x.location, refl)
  begin (y ∷ w) r x = (y.location, refl)

module _ (at : Location) where
  find-front :
      (from : Location) (s : Search) (t : Template) (r : List Token)
      → find at from s 0 0 (tokens at t ++ r) ≡ find at from s 0 (length (tokens at t)) r
  find-front from s t r =
      find-tokens at from s t 0 0 r ∙ ap (λ n. find at from s 0 n r) (omega arith)

  at_endif :
      (from : Location) (i : ℕ) (r : List Token)
      → find at from for_endif 0 i (symbol at block_start ∷ symbol at endif_word ∷ r) ≡ ok (suc i)
  unfolding find find_loop nested_after is
  at_endif from i r = refl

  past_else :
      (from : Location) (i : ℕ) (r : List Token)
      → find at from for_endif 0 i
          (symbol at block_start ∷ symbol at else_word ∷ symbol at block_end ∷ r)
        ≡ find at from for_endif 0 (suc (suc (suc i))) r
  unfolding find find_loop nested_after is
  past_else from i r = refl

  at_else :
      (from : Location) (i : ℕ) (r : List Token)
      → find at from for_else 0 i (symbol at block_start ∷ symbol at else_word ∷ r) ≡ ok (suc i)
  unfolding find find_loop nested_after is
  at_else from i r = refl

  no_else :
      (from : Location) (i : ℕ)
      → find at from for_else 0 i (symbol at block_start ∷ symbol at endif_word ∷ [])
        ≡ ok (suc i + 1)
  unfolding find find_loop nested_after is
  no_else from i = refl

  at_endfor :
      (from : Location) (i : ℕ) (r : List Token)
      → find at from for_endfor 0 i (symbol at block_start ∷ symbol at endfor_word ∷ r) ≡ ok (suc i)
  unfolding find find_loop nested_after is
  at_endfor from i r = refl

  pub endif_found :
      (t : Template) (r : List Token)
      → find_matching_token if_word endif_word endif_word
          (tokens at t ++ symbol at block_start ∷ symbol at endif_word ∷ r)
        ≡ ok (suc (length (tokens at t)))
  unfolding find
  endif_found t r =
      let (from, e) =
        begin if_word endif_word endif_word (tokens at t) (symbol at endif_word ∷ r)
          (symbol at block_start) in
      e
      ∙ find-front from for_endif t (symbol at block_start ∷ symbol at endif_word ∷ r)
      ∙ at_endif from (length (tokens at t)) r

  pub else_absent :
      (t : Template)
      → find_matching_token if_word else_word endif_word
          (tokens at t ++ symbol at block_start ∷ symbol at endif_word ∷ [])
        ≡ ok (suc (length (tokens at t)) + 1)
  unfolding find
  else_absent t =
      let (from, e) =
        begin if_word else_word endif_word (tokens at t) (symbol at endif_word ∷ [])
          (symbol at block_start) in
      e
      ∙ find-front from for_else t (symbol at block_start ∷ symbol at endif_word ∷ [])
      ∙ no_else from (length (tokens at t))

  pub endfor_found :
      (t : Template) (r : List Token)
      → find_matching_token for_word endfor_word endfor_word
          (tokens at t ++ symbol at block_start ∷ symbol at endfor_word ∷ r)
        ≡ ok (suc (length (tokens at t)))
  unfolding find
  endfor_found t r =
      let (from, e) =
        begin for_word endfor_word endfor_word (tokens at t) (symbol at endfor_word ∷ r)
          (symbol at block_start) in
      e
      ∙ find-front from for_endfor t (symbol at block_start ∷ symbol at endfor_word ∷ r)
      ∙ at_endfor from (length (tokens at t)) r

  pub else_found :
      (t : Template) (r : List Token)
      → find_matching_token if_word else_word endif_word
          (tokens at t ++ symbol at block_start ∷ symbol at else_word ∷ r)
        ≡ ok (suc (length (tokens at t)))
  unfolding find
  else_found t r =
      let (from, e) =
        begin if_word else_word endif_word (tokens at t) (symbol at else_word ∷ r)
          (symbol at block_start) in
      e
      ∙ find-front from for_else t (symbol at block_start ∷ symbol at else_word ∷ r)
      ∙ at_else from (length (tokens at t)) r

  pub endif_found_after_else :
      (t u : Template) (r : List Token)
      → find_matching_token if_word endif_word endif_word (
          tokens at t
          ++ (symbol at block_start
              ∷ symbol at else_word
              ∷ symbol at block_end
              ∷ (tokens at u ++ symbol at block_start ∷ symbol at endif_word ∷ r)))
        ≡ ok (suc (suc (suc (suc (length (tokens at t)))) + length (tokens at u)))
  unfolding find
  endif_found_after_else t u r =
      let end = tokens at u ++ symbol at block_start ∷ symbol at endif_word ∷ r in
      let rest = symbol at else_word ∷ symbol at block_end ∷ end in
      let i = length (tokens at t) in
      let (from, e) =
        begin if_word endif_word endif_word (tokens at t) rest (symbol at block_start) in
      e
      ∙ find-front from for_endif t (symbol at block_start ∷ rest)
      ∙ past_else from i end
      ∙ find-tokens at from for_endif u 0 (suc (suc (suc i)))
          (symbol at block_start ∷ symbol at endif_word ∷ r)
      ∙ at_endif from (suc (suc (suc i)) + length (tokens at u)) r
      ∙ ap ok (omega arith)
