-- ===== src/Jinja/Parser/Matching.antt =====
-- The search for the end of a block passes over the tokens of whole templates.
use coro_wayland.Base.{
  ℕ, suc, ◌+◌, ◌-◌, ◌≡◌, refl, ap, ◌∙◌, List, [], ◌∷◌, ◌++◌, append_assoc, arith, false, length,
  length-append, ◌==◌,
}
use coro_wayland.Jinja.Errors.{Result}
use coro_wayland.Jinja.{
  Location, text, variable_start, variable_end, block_start, block_end, if_word, else_word,
  endif_word, for_word, endfor_word, in_word, is, Token,
}
use coro_wayland.Jinja.Templates.{
  Template, blank, plain, variable, when, when_else, each, symbol, name, tokens,
}
use coro_wayland.Jinja.Parser.{find_loop, nested_after}

-- The three searches of the parser.
pub data Search : Type 0 where
  for_endif for_else for_endfor : Search

-- `nestedCount` in the body of an `if` and of a `for`.
abbrev in_if : Search → ℕ → ℕ
in_if for_endfor k = k
in_if _ k = suc k

abbrev in_for : Search → ℕ → ℕ
in_for for_endfor k = suc k
in_for _ k = k

apart : (k : ℕ) → (suc k == 0) ≡ false
apart k = ground arith

back : (k : ℕ) → suc k - 1 ≡ k
back k = omega arith

module _ (at from : Location) where
  unfoldable pub find : Search → ℕ → ℕ → List Token → Result ℕ
  unfolding find_loop
  find for_endif k i ts = find_loop if_word endif_word endif_word from k i ts
  find for_else k i ts = find_loop if_word else_word endif_word from k i ts
  find for_endfor k i ts = find_loop for_word endfor_word endfor_word from k i ts

  find-plain :
      (s : Search) (v : List ℕ) (l : Location) (k i : ℕ) (r : List Token)
      → find s k i (record { token_type = text; value = v; location = l } ∷ r) ≡ find s k (suc i) r
  unfolding find nested_after is
  find-plain for_endif v l k i r = refl
  find-plain for_else v l k i r = refl
  find-plain for_endfor v l k i r = refl

  find-variable :
      (s : Search) (v : List ℕ) (l : Location) (k i : ℕ) (r : List Token)
      → find s k i (symbol at variable_start ∷ name at v l ∷ symbol at variable_end ∷ r)
        ≡ find s k (suc (suc (suc i))) r
  unfolding find nested_after is
  find-variable for_endif v l k i r = refl
  find-variable for_else v l k i r = refl
  find-variable for_endfor v l k i r = refl

  find-if :
      (s : Search) (v : List ℕ) (l : Location) (k i : ℕ) (r : List Token)
      → find s k i
          (symbol at block_start ∷ symbol at if_word ∷ name at v l ∷ symbol at block_end ∷ r)
        ≡ find s (in_if s k) (suc (suc (suc (suc i)))) r
  unfolding find nested_after is
  find-if for_endif v l k i r = refl
  find-if for_else v l k i r = refl
  find-if for_endfor v l k i r = refl

  find-else :
      (s : Search) (k i : ℕ) (r : List Token)
      → find s (in_if s k) i (symbol at block_start ∷ symbol at else_word ∷ symbol at block_end ∷ r)
        ≡ find s (in_if s k) (suc (suc (suc i))) r
  unfolding find nested_after is
  find-else for_endif k i r = refl
  find-else for_else k i r = rw (apart k)
  find-else for_endfor k i r = refl

  find-endif :
      (s : Search) (k i : ℕ) (r : List Token)
      → find s
          (in_if s k)
          i
          (symbol at block_start ∷ symbol at endif_word ∷ symbol at block_end ∷ r)
        ≡ find s k (suc (suc (suc i))) r
  unfolding find nested_after is
  find-endif for_endif k i r = rw (apart k, back k)
  find-endif for_else k i r = rw (apart k, back k)
  find-endif for_endfor k i r = refl

  find-for :
      (s : Search) (v w : List ℕ) (l m : Location) (k i : ℕ) (r : List Token)
      → find s k i (
          symbol at block_start
          ∷ symbol at for_word
          ∷ name at v l
          ∷ symbol at in_word
          ∷ name at w m
          ∷ symbol at block_end
          ∷ r)
        ≡ find s (in_for s k) (suc (suc (suc (suc (suc (suc i)))))) r
  unfolding find nested_after is
  find-for for_endif v w l m k i r = refl
  find-for for_else v w l m k i r = refl
  find-for for_endfor v w l m k i r = refl

  find-endfor :
      (s : Search) (k i : ℕ) (r : List Token)
      → find s
          (in_for s k)
          i
          (symbol at block_start ∷ symbol at endfor_word ∷ symbol at block_end ∷ r)
        ≡ find s k (suc (suc (suc i))) r
  unfolding find nested_after is
  find-endfor for_endif k i r = refl
  find-endfor for_else k i r = refl
  find-endfor for_endfor k i r = rw (apart k, back k)

  -- Every search passes over a template.
  pub find-tokens :
      (s : Search) (t : Template) (k i : ℕ) (r : List Token)
      → find s k i (tokens at t ++ r) ≡ find s k (i + length (tokens at t)) r
  unfolding tokens
  find-tokens s blank k i r = ap (λ n. find s k n r) (omega arith)
  find-tokens s (plain v l t) k i r =
      find-plain s v l k i _ ∙ find-tokens s t k (suc i) r ∙ ap (λ n. find s k n r) (omega arith)
  find-tokens s (variable v l t) k i r =
      find-variable s v l k i _
      ∙ find-tokens s t k (suc (suc (suc i))) r
      ∙ ap (λ n. find s k n r) (omega arith)
  find-tokens s (when c l body t) k i r =
      let j = suc (suc (suc (suc i))) in
      let end = symbol at block_start ∷ symbol at endif_word ∷ symbol at block_end ∷ [] in
      rw (append_assoc (tokens at body) (end ++ tokens at t) r) (
        find-if s c l k i (tokens at body ++ (end ++ (tokens at t ++ r)))
        ∙ find-tokens s body (in_if s k) j (end ++ (tokens at t ++ r))
        ∙ find-endif s k (j + length (tokens at body)) (tokens at t ++ r)
        ∙ find-tokens s t k (suc (suc (suc (j + length (tokens at body))))) r
        ∙ ap (λ n. find s k n r)
            (omega (arith, length-append (tokens at body) (end ++ tokens at t))))
  find-tokens s (when_else c l body other t) k i r =
      let j = suc (suc (suc (suc i))) in
      let middle = symbol at block_start ∷ symbol at else_word ∷ symbol at block_end ∷ [] in
      let end = symbol at block_start ∷ symbol at endif_word ∷ symbol at block_end ∷ [] in
      let m = suc (suc (suc (j + length (tokens at body)))) in
      rw
        (
          append_assoc (tokens at body ++ (middle ++ tokens at other)) (end ++ tokens at t) r,
          append_assoc (tokens at body) (middle ++ tokens at other) (end ++ (tokens at t ++ r)),
        )
        (find-if s c l k i
            (tokens at body ++ (middle ++ (tokens at other ++ (end ++ (tokens at t ++ r)))))
          ∙ find-tokens s body (in_if s k) j
              (middle ++ (tokens at other ++ (end ++ (tokens at t ++ r))))
          ∙ find-else s k (j + length (tokens at body))
              (tokens at other ++ (end ++ (tokens at t ++ r)))
          ∙ find-tokens s other (in_if s k) m (end ++ (tokens at t ++ r))
          ∙ find-endif s k (m + length (tokens at other)) (tokens at t ++ r)
          ∙ find-tokens s t k (suc (suc (suc (m + length (tokens at other))))) r
          ∙ ap (λ n. find s k n r)
              (omega (
                arith,
                length-append (tokens at body ++ (middle ++ tokens at other)) (end ++ tokens at t),
                length-append (tokens at body) (middle ++ tokens at other),
              )))
  find-tokens s (each x l a m body t) k i r =
      let j = suc (suc (suc (suc (suc (suc i))))) in
      let end = symbol at block_start ∷ symbol at endfor_word ∷ symbol at block_end ∷ [] in
      rw (append_assoc (tokens at body) (end ++ tokens at t) r) (
        find-for s x a l m k i (tokens at body ++ (end ++ (tokens at t ++ r)))
        ∙ find-tokens s body (in_for s k) j (end ++ (tokens at t ++ r))
        ∙ find-endfor s k (j + length (tokens at body)) (tokens at t ++ r)
        ∙ find-tokens s t k (suc (suc (suc (j + length (tokens at body))))) r
        ∙ ap (λ n. find s k n r)
            (omega (arith, length-append (tokens at body) (end ++ tokens at t))))
