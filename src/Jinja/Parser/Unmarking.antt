-- ===== src/Jinja/Parser/Unmarking.antt =====
-- The parser of blocks looks at nothing but the types of tokens that are neither texts nor
-- identifiers.
use coro_wayland.Base.{
  ℕ, ◌+◌, ◌-◌, ◌≡◌, refl, sym, Bool, true, false, not, ◌&&◌, List, [], ◌∷◌, ◌==◌, leb, length, take,
  drop,
}
use coro_wayland.Jinja.Errors.{Result}
use coro_wayland.Jinja.{
  Location, block_start, block_end, if_word, else_word, endif_word, for_word, endfor_word, in_word,
  identifier, is, Token, Document,
}
use coro_wayland.Jinja.Parser.{
  ParserResult, token_at, parse_branches, parse_clause, parse_if_body, parse_if_else,
  parse_for_body, parse_for_head, parse_for_each, parse_block,
}
use coro_wayland.Jinja.Parser.Follows.{
  Follows, goes, if-Follows, error-Follows, undefined-Follows, Same, bind-Same,
}
use coro_wayland.Jinja.Parser.Marks.{
  unmark-type, unmark-identifier, unmark_all, length-unmark, take-unmark, drop-unmark, type-unmark,
  find-unmark,
}

module _ (at : Location) where
  -- What a part of the parser returns: the same document, and the rest of the tokens.
  abbrev pub SameRest : ParserResult → ParserResult → Type 0
  SameRest r s = (r.0 ≡ s.0) × (r.1 ≡ unmark_all at s.1)

  pub not-false : (b : Bool) → not b ≡ false → b ≡ true
  not-false true h = refl
  not-false false h = sym h

  pub and-first : (a b : Bool) → (a && b) ≡ true → a ≡ true
  and-first true b h = refl
  and-first false b h = h

  pub and-last : (a b : Bool) → (a && b) ≡ true → b ≡ true
  and-last true b h = h
  and-last false b h = absurd cc

  module _ (make again : List Token → Result Document)
      (made : (ts : List Token) → Follows Same (make (unmark_all at ts)) (again ts)) where
    made-take :
        (n : ℕ) (ts : List Token)
        → Follows Same (make (take n (unmark_all at ts))) (again (take n ts))
    made-take n ts = rw (take-unmark at n ts) (made (take n ts))

    made-drop :
        (n : ℕ) (ts : List Token)
        → Follows Same (make (drop n (unmark_all at ts))) (again (drop n ts))
    made-drop n ts = rw (drop-unmark at n ts) (made (drop n ts))

    branches-unmark :
        (ts : List Token) (i : ℕ)
        → Follows Same (parse_branches make (unmark_all at ts) i) (parse_branches again ts i)
    unfolding parse_branches
    branches-unmark ts i =
        rw (type-unmark at ts (i - 1), type-unmark at ts (i + 1), length-unmark at ts)
          (if-Follows (not (is (token_at ts (i - 1)).token_type block_start))
            (λ h. error-Follows _ _ _)
            (λ h.
              if-Follows (leb (length ts) (i + 1)) (λ h. error-Follows _ _ _)
                (λ h.
                  if-Follows (not (is (token_at ts (i + 1)).token_type block_end))
                    (λ h. error-Follows _ _ _)
                    (λ h.
                      bind-Same _ _ (made-take (i - 1) ts)
                        (λ d. bind-Same _ _ (made-drop (i + 2) ts) (λ e. goes _ _ refl))))))

    clause-unmark :
        (ts : List Token) (n : ℕ) (k l : Location) (i : ℕ)
        → Follows Same (parse_clause make (unmark_all at ts) n k i) (parse_clause again ts n l i)
    unfolding parse_clause
    clause-unmark ts n k l i =
        if-Follows (i == 0) (λ h. error-Follows _ _ _)
          (λ h.
            if-Follows (leb n i) (λ h. bind-Same _ _ (made ts) (λ d. goes _ _ refl))
              (λ h. branches-unmark ts i))

    if_body-unmark :
        (ts : List Token) (c : Token) (k l : Location) (i : ℕ)
        → Follows SameRest
            (parse_if_body make (unmark_all at ts) c k i)
            (parse_if_body again ts c l i)
    unfolding parse_if_body
    if_body-unmark ts c k l i =
        rw
          (
            type-unmark at ts (i - 1),
            type-unmark at ts (i + 1),
            length-unmark at ts,
            take-unmark at (i + 1) ts,
            take-unmark at (i - 1) ts,
            drop-unmark at (i + 2) ts,
          )
          (if-Follows (i == length ts) (λ h. error-Follows _ _ _)
            (λ h.
              if-Follows (i == 0) (λ h. undefined-Follows _)
                (λ h.
                  if-Follows (leb (length ts) (i + 1)) (λ h. error-Follows _ _ _)
                    (λ h.
                      if-Follows (not (is (token_at ts (i - 1)).token_type block_start))
                        (λ h. error-Follows _ _ _)
                        (λ h.
                          if-Follows (not (is (token_at ts (i + 1)).token_type block_end))
                            (λ h. error-Follows _ _ _)
                            (λ h.
                              bind-Same _ _
                                (find-unmark at if_word else_word endif_word (take (i + 1) ts))
                                (λ j.
                                  bind-Same _ _ (clause-unmark (take (i - 1) ts) i k l j)
                                    (λ b. goes _ _ (refl, refl)))))))))

    if_else-unmark :
        (k l : Location) (ts : List Token)
        → Follows SameRest (parse_if_else make k (unmark_all at ts)) (parse_if_else again l ts)
    unfolding parse_if_else
    if_else-unmark k l [] = error-Follows _ _ _
    if_else-unmark k l (c ∷ []) = rw (unmark-type at c) (
        if-Follows (not (is c.token_type identifier)) (λ h. error-Follows _ _ _)
          (λ h. error-Follows _ _ _))
    if_else-unmark k l (c ∷ e ∷ ts) =
        rw (unmark-type at c, unmark-type at e)
          (if-Follows (not (is c.token_type identifier)) (λ h. error-Follows _ _ _)
            (λ h.
              if-Follows (not (is e.token_type block_end)) (λ h. error-Follows _ _ _)
                (λ i. rw (unmark-identifier at c (not-false _ h)) (
                  bind-Same _ _ (find-unmark at if_word endif_word endif_word ts)
                    (λ j. if_body-unmark ts c k l j)))))

    for_body-unmark :
        (ts : List Token) (x a : Token) (k l : Location) (i : ℕ)
        → Follows SameRest
            (parse_for_body make (unmark_all at ts) x a k i)
            (parse_for_body again ts x a l i)
    unfolding parse_for_body
    for_body-unmark ts x a k l i =
        rw
          (
            type-unmark at ts (i - 1),
            type-unmark at ts (i + 1),
            length-unmark at ts,
            drop-unmark at (i + 2) ts,
          )
          (if-Follows (i == length ts) (λ h. error-Follows _ _ _)
            (λ h.
              if-Follows (i == 0) (λ h. undefined-Follows _)
                (λ h.
                  if-Follows (not (is (token_at ts (i - 1)).token_type block_start))
                    (λ h. error-Follows _ _ _)
                    (λ h.
                      if-Follows (leb (length ts) (i + 1)) (λ h. error-Follows _ _ _)
                        (λ h.
                          if-Follows (not (is (token_at ts (i + 1)).token_type block_end))
                            (λ h. error-Follows _ _ _)
                            (λ h.
                              bind-Same _ _ (made-take (i - 1) ts)
                                (λ d. goes _ _ (refl, refl))))))))

    for_head-unmark :
        (k l : Location) (x a : Token) (ts : List Token)
        → Follows SameRest
            (parse_for_head make k x a (unmark_all at ts))
            (parse_for_head again l x a ts)
    unfolding parse_for_head
    for_head-unmark k l x a [] = error-Follows _ _ _
    for_head-unmark k l x a (e ∷ ts) = rw (unmark-type at e) (
        if-Follows (not (is e.token_type block_end)) (λ h. error-Follows _ _ _)
          (λ h.
            bind-Same _ _ (find-unmark at for_word endfor_word endfor_word ts)
              (λ i. for_body-unmark ts x a k l i)))

    for_each-unmark :
        (k l : Location) (ts : List Token)
        → Follows SameRest (parse_for_each make k (unmark_all at ts)) (parse_for_each again l ts)
    unfolding parse_for_each
    for_each-unmark k l [] = error-Follows _ _ _
    for_each-unmark k l (x ∷ []) = error-Follows _ _ _
    for_each-unmark k l (x ∷ w ∷ []) = error-Follows _ _ _
    for_each-unmark k l (x ∷ w ∷ a ∷ ts) =
        rw (unmark-type at x, unmark-type at w, unmark-type at a)
          (if-Follows
            (is x.token_type identifier && is w.token_type in_word && is a.token_type identifier)
            (λ h.
              let front =
                and-first (is x.token_type identifier && is w.token_type in_word)
                  (is a.token_type identifier) h in
              let first =
                unmark-identifier at x
                  (and-first (is x.token_type identifier) (is w.token_type in_word) front) in
              let last = unmark-identifier at a (
                and-last (is x.token_type identifier && is w.token_type in_word)
                  (is a.token_type identifier) h) in
              rw (first, last) (for_head-unmark k l x a ts))
            (λ h. error-Follows _ _ _))

    pub block-unmark :
        (k l : Location) (ts : List Token)
        → Follows SameRest (parse_block make k (unmark_all at ts)) (parse_block again l ts)
    unfolding parse_block
    block-unmark k l [] = error-Follows _ _ _
    block-unmark k l (t ∷ ts) = rw (unmark-type at t) (
        if-Follows (is t.token_type if_word) (λ h. if_else-unmark _ _ ts)
          (λ h.
            if-Follows (is t.token_type for_word) (λ h. for_each-unmark _ _ ts)
              (λ h. error-Follows _ _ _)))
