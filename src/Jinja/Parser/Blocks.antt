-- ===== src/Jinja/Parser/Blocks.antt =====
-- Blocks cut out of the tokens at the place where the search for their end stopped.
use coro_wayland.Base.{
  ℕ, zero, suc, ◌+◌, ◌-◌, ◌≤◌, ◌≡◌, sym, ap, ◌∙◌, true, false, List, [], ◌∷◌, ◌++◌, append_assoc,
  arith, length, length-append, ◌==◌, leb, get_or, take, drop, take-append, drop-append,
}
use coro_wayland.Jinja.Errors.{Result, ok}
use coro_wayland.Jinja.{
  Location, TokenType, block_start, block_end, if_word, else_word, endif_word, endfor_word, is,
  Token, Document, empty_document, if_else_node, for_each_node,
}
use coro_wayland.Jinja.Templates.{symbol}
use coro_wayland.Jinja.Parser.{
  token_at, find_matching_token, parse_branches, parse_clause, parse_if_body, parse_for_body,
}

get_or-append {ℓ} :
    {A : Type ℓ} (xs ys : List A) (n k : ℕ) (d : A)
    → n ≡ length xs + k
    → get_or (xs ++ ys) n d ≡ get_or ys k d
get_or-append [] ys n k d e = ap (λ i. get_or ys i d) (omega arith)
get_or-append (x ∷ xs) ys zero k d e = absurd (omega arith)
get_or-append (x ∷ xs) ys (suc n) k d e = get_or-append xs ys n k d (omega arith)

-- What the parser reads around the end of a block, where `w` is what the block holds.
record End (at : Location) (word : TokenType) (w r : List Token) : Type 0 where
  not_last :
      (suc (length w)
        == length (w ++ symbol at block_start ∷ symbol at word ∷ symbol at block_end ∷ r))
      ≡ false
  not_cut :
      leb
        (length (w ++ symbol at block_start ∷ symbol at word ∷ symbol at block_end ∷ r))
        (suc (length w) + 1)
      ≡ false
  not_first : (suc (length w) == 0) ≡ false
  before :
      token_at
        (w ++ symbol at block_start ∷ symbol at word ∷ symbol at block_end ∷ r)
        (suc (length w) - 1)
      ≡ symbol at block_start
  behind :
      token_at
        (w ++ symbol at block_start ∷ symbol at word ∷ symbol at block_end ∷ r)
        (suc (length w) + 1)
      ≡ symbol at block_end
  held :
      take
        (suc (length w) - 1)
        (w ++ symbol at block_start ∷ symbol at word ∷ symbol at block_end ∷ r)
      ≡ w
  rest :
      drop
        (suc (length w) + 2)
        (w ++ symbol at block_start ∷ symbol at word ∷ symbol at block_end ∷ r)
      ≡ r

end_at : (at : Location) (word : TokenType) (w r : List Token) → End at word w r
end_at at word w r =
    let around = symbol at block_start ∷ symbol at word ∷ symbol at block_end ∷ [] in
    let size = length-append w (around ++ r) in
    record {
      not_last = ground (arith, size);
      not_cut = ground (arith, size);
      not_first = ground arith;
      before = get_or-append w (around ++ r) (suc (length w) - 1) 0 _ (omega arith);
      behind = get_or-append w (around ++ r) (suc (length w) + 1) 2 _ (omega arith);
      held = take-append (suc (length w) - 1) w (around ++ r) (omega arith);
      rest =
          ap (drop (suc (length w) + 2)) (sym (append_assoc w around r))
          ∙ drop-append (suc (length w) + 2) (w ++ around) r
              (omega (arith, length-append w around));
    }

take_to :
    (at : Location) (word : TokenType) (w r : List Token) (n : ℕ)
    → n ≡ length w + 2
    → take n (w ++ symbol at block_start ∷ symbol at word ∷ symbol at block_end ∷ r)
      ≡ w ++ symbol at block_start ∷ symbol at word ∷ []
take_to at word w r n e =
    let start = symbol at block_start ∷ symbol at word ∷ [] in
    ap (take n) (sym (append_assoc w start (symbol at block_end ∷ r)))
    ∙ take-append n (w ++ start) (symbol at block_end ∷ r) (omega (arith, length-append w start))

module _ (make : List Token → Result Document) (at from : Location) where
  pub parse_if_body-block :
      (w r : List Token) (c : Token) (e : ℕ) (d : Document × Document)
      → find_matching_token if_word else_word endif_word
          (w ++ symbol at block_start ∷ symbol at endif_word ∷ [])
        ≡ ok e
      → parse_clause make w (suc (length w)) from e ≡ ok d
      → parse_if_body make
          (w ++ symbol at block_start ∷ symbol at endif_word ∷ symbol at block_end ∷ r)
          c
          from
          (suc (length w))
        ≡ ok (if_else_node c.value d.0 d.1 c.location, r)
  unfolding parse_if_body is
  parse_if_body-block w r c e d found clause =
      let v = end_at at endif_word w r in
      rw (
        v.not_last,
        v.not_cut,
        v.not_first,
        v.before,
        v.behind,
        take_to at endif_word w r (suc (length w) + 1) (omega arith),
        found,
        v.held,
        clause,
        v.rest,
      )

  pub parse_for_body-block :
      (w r : List Token) (item loop : Token) (d : Document)
      → make w ≡ ok d
      → parse_for_body make
          (w ++ symbol at block_start ∷ symbol at endfor_word ∷ symbol at block_end ∷ r)
          item
          loop
          from
          (suc (length w))
        ≡ ok (for_each_node loop.value item.value d item.location loop.location, r)
  unfolding parse_for_body is
  parse_for_body-block w r item loop d made =
      let v = end_at at endfor_word w r in
      rw (v.not_last, v.not_first, v.before, v.not_cut, v.behind, v.held, made, v.rest)

  -- The two forms of a conditional block.
  pub parse_clause-when :
      (w : List Token) (e : ℕ) (d : Document)
      → suc (length w) ≤ e
      → make w ≡ ok d
      → parse_clause make w (suc (length w)) from e ≡ ok (d, empty_document)
  unfolding parse_clause
  parse_clause-when w e d h made =
      let c1 : (e == 0) ≡ false = ground arith in
      let c2 : leb (suc (length w)) e ≡ true = ground arith in rw (c1, c2, made)

  pub parse_clause-when_else :
      (v w : List Token) (d e : Document)
      → make v ≡ ok d
      → make w ≡ ok e
      → parse_clause make
          (v ++ symbol at block_start ∷ symbol at else_word ∷ symbol at block_end ∷ w)
          (suc
            (length (v ++ symbol at block_start ∷ symbol at else_word ∷ symbol at block_end ∷ w)))
          from
          (suc (length v))
        ≡ ok (d, e)
  unfolding parse_clause parse_branches is
  parse_clause-when_else v w d e first second =
      let f = end_at at else_word v w in
      let size =
        length-append v (symbol at block_start ∷ symbol at else_word ∷ symbol at block_end ∷ w) in
      let inside : leb
            (suc
              (length (v ++ symbol at block_start ∷ symbol at else_word ∷ symbol at block_end ∷ w)))
            (suc (length v))
          ≡ false =
        ground (arith, size) in
      rw (f.not_first, inside, f.before, f.not_cut, f.behind, f.held, first, f.rest, second)
