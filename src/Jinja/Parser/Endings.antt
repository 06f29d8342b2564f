-- ===== src/Jinja/Parser/Endings.antt =====
-- The parts of the parser end, and leave no more tokens than they are given.
use coro_wayland.Base.{
  ℕ, suc, ◌+◌, ◌-◌, ◌≤◌, not, ◌&&◌, List, [], ◌∷◌, arith, length, length-take, length-drop, ◌==◌,
  leb, take, drop,
}
use coro_wayland.Jinja.Errors.{Ends, returns, fails, breaks, Any, bind-Ends, if-Ends, Result}
use coro_wayland.Jinja.{
  Location, TokenType, variable_end, block_start, block_end, if_word, else_word, endif_word,
  for_word, endfor_word, in_word, identifier, is, Token, Document,
}
use coro_wayland.Jinja.Parser.{
  token_at, nested_after, ParserResult, find_loop, find_matching_token, parse_branches,
  parse_clause, parse_if_body, parse_if_else, parse_for_body, parse_for_head, parse_for_each,
  parse_block, parse_substitution,
}

module _ (start_type needle end_type : TokenType) where
  find_loop-Ends :
      (at : Location) (nested i : ℕ) (ts : List Token)
      → Ends Any (find_loop start_type needle end_type at nested i ts)
  unfolding find_loop
  find_loop-Ends at nested i [] = fails _ _
  find_loop-Ends at nested i (t ∷ ts) =
      let rest =
        find_loop-Ends at (nested_after start_type needle end_type t.token_type nested) (suc i)
          ts in
      if-Ends (is t.token_type start_type) rest (
        if-Ends (is t.token_type needle && nested == 0) (returns i tt) (
          if-Ends (is t.token_type end_type && nested == 0) (returns (i + suc (length ts)) tt)
            rest))

  find_matching_token-Ends :
      (ts : List Token) → Ends Any (find_matching_token start_type needle end_type ts)
  unfolding find_matching_token
  find_matching_token-Ends [] = breaks
  find_matching_token-Ends (t ∷ ts) = find_loop-Ends t.location 0 0 (t ∷ ts)

-- The rest that the parser leaves has at most `n` tokens.
abbrev pub AtMost : ℕ → ParserResult → Type 0
AtMost n r = length r.1 ≤ n

module _ (make : List Token → Result Document) (n : ℕ)
    (made : (w : List Token) → length w ≤ n → Ends Any (make w)) where
  parse_branches-Ends :
      (clause : List Token) (e : ℕ) → length clause ≤ n → Ends Any (parse_branches make clause e)
  unfolding parse_branches
  parse_branches-Ends clause e h =
      if-Ends (not (is (token_at clause (e - 1)).token_type block_start)) (fails _ _) (
        if-Ends (leb (length clause) (e + 1)) (fails _ _) (
          if-Ends (not (is (token_at clause (e + 1)).token_type block_end)) (fails _ _) (
            bind-Ends _ (made (take (e - 1) clause) (omega (arith, length-take (e - 1) clause, h)))
              (λ d p.
                bind-Ends _
                  (made (drop (e + 2) clause) (omega (arith, length-drop (e + 2) clause, h)))
                  (λ d' p'. returns (d, d') tt)))))

  parse_clause-Ends :
      (clause : List Token) (i : ℕ) (l : Location) (e : ℕ)
      → length clause ≤ n
      → Ends Any (parse_clause make clause i l e)
  unfolding parse_clause
  parse_clause-Ends clause i l e h = if-Ends (e == 0) (fails _ _) (
      if-Ends (leb i e) (bind-Ends _ (made clause h) (λ d p. returns _ tt))
        (parse_branches-Ends clause e h))

  parse_if_body-Ends :
      (ts : List Token) (c : Token) (l : Location) (i : ℕ)
      → length ts ≤ n
      → Ends (AtMost n) (parse_if_body make ts c l i)
  unfolding parse_if_body
  parse_if_body-Ends ts c l i h = if-Ends (i == length ts) (fails _ _) (
      if-Ends (i == 0) breaks (
        if-Ends (leb (length ts) (i + 1)) (fails _ _) (
          if-Ends (not (is (token_at ts (i - 1)).token_type block_start)) (fails _ _) (
            if-Ends (not (is (token_at ts (i + 1)).token_type block_end)) (fails _ _) (
              bind-Ends _ (find_matching_token-Ends if_word else_word endif_word (take (i + 1) ts))
                (λ e p.
                  bind-Ends _
                    (parse_clause-Ends (take (i - 1) ts) i l e
                      (omega (arith, length-take (i - 1) ts, h)))
                    (λ d q. returns _ (omega (arith, h, length-drop (i + 2) ts)))))))))

  parse_if_else-Ends :
      (at : Location) (ts : List Token) → length ts ≤ n → Ends (AtMost n) (parse_if_else make at ts)
  unfolding parse_if_else
  parse_if_else-Ends at [] h = fails _ _
  parse_if_else-Ends at (c ∷ []) h =
      if-Ends (not (is c.token_type identifier)) (fails _ _) (fails _ _)
  parse_if_else-Ends at (c ∷ e ∷ ts) h = if-Ends (not (is c.token_type identifier)) (fails _ _) (
      if-Ends (not (is e.token_type block_end)) (fails _ _) (
        bind-Ends _ (find_matching_token-Ends if_word endif_word endif_word ts)
          (λ i p. parse_if_body-Ends ts c at i (omega (arith, h)))))

  parse_for_body-Ends :
      (ts : List Token) (item loop : Token) (l : Location) (i : ℕ)
      → length ts ≤ n
      → Ends (AtMost n) (parse_for_body make ts item loop l i)
  unfolding parse_for_body
  parse_for_body-Ends ts item loop l i h = if-Ends (i == length ts) (fails _ _) (
      if-Ends (i == 0) breaks (
        if-Ends (not (is (token_at ts (i - 1)).token_type block_start)) (fails _ _) (
          if-Ends (leb (length ts) (i + 1)) (fails _ _) (
            if-Ends (not (is (token_at ts (i + 1)).token_type block_end)) (fails _ _) (
              bind-Ends _ (made (take (i - 1) ts) (omega (arith, length-take (i - 1) ts, h)))
                (λ d q. returns _ (omega (arith, h, length-drop (i + 2) ts))))))))

  parse_for_head-Ends :
      (at : Location) (item loop : Token) (ts : List Token)
      → length ts ≤ n
      → Ends (AtMost n) (parse_for_head make at item loop ts)
  unfolding parse_for_head
  parse_for_head-Ends at item loop [] h = fails _ _
  parse_for_head-Ends at item loop (e ∷ ts) h =
      if-Ends (not (is e.token_type block_end)) (fails _ _) (
        bind-Ends _ (find_matching_token-Ends for_word endfor_word endfor_word ts)
          (λ i p. parse_for_body-Ends ts item loop at i (omega (arith, h))))

  parse_for_each-Ends :
      (at : Location) (ts : List Token)
      → length ts ≤ n
      → Ends (AtMost n) (parse_for_each make at ts)
  unfolding parse_for_each
  parse_for_each-Ends at [] h = fails _ _
  parse_for_each-Ends at (a ∷ []) h = fails _ _
  parse_for_each-Ends at (a ∷ b ∷ []) h = fails _ _
  parse_for_each-Ends at (a ∷ b ∷ c ∷ ts) h =
      if-Ends (is a.token_type identifier && is b.token_type in_word && is c.token_type identifier)
        (parse_for_head-Ends at a c ts (omega (arith, h))) (fails _ _)

  pub parse_block-Ends :
      (at : Location) (ts : List Token) → length ts ≤ n → Ends (AtMost n) (parse_block make at ts)
  unfolding parse_block
  parse_block-Ends at [] h = fails _ _
  parse_block-Ends at (t ∷ ts) h =
      if-Ends (is t.token_type if_word) (parse_if_else-Ends t.location ts (omega (arith, h))) (
        if-Ends (is t.token_type for_word) (parse_for_each-Ends t.location ts (omega (arith, h)))
          (fails _ _))

pub parse_substitution-Ends :
    (n : ℕ) (at : Location) (ts : List Token)
    → length ts ≤ n
    → Ends (AtMost n) (parse_substitution at ts)
unfolding parse_substitution
parse_substitution-Ends n at [] h = fails _ _
parse_substitution-Ends n at (i ∷ []) h = fails _ _
parse_substitution-Ends n at (i ∷ e ∷ ts) h =
    if-Ends (not (is i.token_type identifier)) (fails _ _)
      (if-Ends (not (is e.token_type variable_end)) (fails _ _) (returns _ (omega (arith, h))))
