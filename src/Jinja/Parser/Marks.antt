-- ===== src/Jinja/Parser/Marks.antt =====
-- Tokens without their values and locations, where the parser does not look at them.
use coro_wayland.Base.{
  ℕ, zero, suc, ◌≡◌, refl, ap, Bool, true, false, ◌&&◌, ◌||◌, Bool-cases, inl, inr, List, [], ◌∷◌,
  map, ◌==◌, if◌then◌else◌, length, take, drop,
}
use coro_wayland.Jinja.{Location, TokenType, text, identifier, is, Token}
use coro_wayland.Jinja.Templates.{symbol}
use coro_wayland.Jinja.Parser.{token_at, nested_after, find_loop, find_matching_token}
use coro_wayland.Jinja.Parser.Follows.{
  Follows, goes, if-Follows, error-Follows, undefined-Follows, Same,
}

module _ (at : Location) where
  -- A token without its value and its location, unless it is a text or an identifier.
  unfoldable pub unmark : Token → Token
  unmark t =
      if is t.token_type text || is t.token_type identifier then t else symbol at t.token_type

  pub unmark-type : (t : Token) → (unmark t).token_type ≡ t.token_type
  unfolding unmark
  unmark-type t = elim (Bool-cases (is t.token_type text || is t.token_type identifier)) [
    | inl e ↦ rw e
    | inr e ↦ rw e
  ]

  pub or-right : (a b : Bool) → b ≡ true → (a || b) ≡ true
  or-right true b h = refl
  or-right false b h = h

  pub unmark-identifier : (t : Token) → is t.token_type identifier ≡ true → unmark t ≡ t
  unfolding unmark
  unmark-identifier t h = rw (or-right (is t.token_type text) (is t.token_type identifier) h)

  pub unmark-text : (t : Token) → is t.token_type text ≡ true → unmark t ≡ t
  unfolding unmark
  unmark-text t h = rw h

  abbrev pub unmark_all : List Token → List Token
  unmark_all ts = map unmark ts

  pub length-unmark : (ts : List Token) → length (unmark_all ts) ≡ length ts
  length-unmark [] = refl
  length-unmark (t ∷ ts) = ap suc (length-unmark ts)

  pub take-unmark : (n : ℕ) (ts : List Token) → take n (unmark_all ts) ≡ unmark_all (take n ts)
  take-unmark zero ts = refl
  take-unmark (suc n) [] = refl
  take-unmark (suc n) (t ∷ ts) = ap (λ r. unmark t ∷ r) (take-unmark n ts)

  pub drop-unmark : (n : ℕ) (ts : List Token) → drop n (unmark_all ts) ≡ unmark_all (drop n ts)
  drop-unmark zero ts = refl
  drop-unmark (suc n) [] = refl
  drop-unmark (suc n) (t ∷ ts) = drop-unmark n ts

  pub type-unmark :
      (ts : List Token) (i : ℕ)
      → (token_at (unmark_all ts) i).token_type ≡ (token_at ts i).token_type
  type-unmark [] i = refl
  type-unmark (t ∷ ts) zero = unmark-type t
  type-unmark (t ∷ ts) (suc i) = type-unmark ts i

  pub find_loop-unmark :
      (a b c : TokenType) (k l : Location) (n i : ℕ) (ts : List Token)
      → Follows Same (find_loop a b c k n i (unmark_all ts)) (find_loop a b c l n i ts)
  unfolding find_loop
  find_loop-unmark a b c k l n i [] = error-Follows _ _ _
  find_loop-unmark a b c k l n i (t ∷ ts) =
      rw (unmark-type t, length-unmark ts)
        (let rest = find_loop-unmark a b c k l (nested_after a b c t.token_type n) (suc i) ts in
          if-Follows (is t.token_type a) (λ h. rest)
            (λ h.
              if-Follows (is t.token_type b && n == 0) (λ h. goes _ _ refl)
                (λ h. if-Follows (is t.token_type c && n == 0) (λ h. goes _ _ refl) (λ h. rest))))

  pub find-unmark :
      (a b c : TokenType) (ts : List Token)
      → Follows Same (find_matching_token a b c (unmark_all ts)) (find_matching_token a b c ts)
  unfolding find_matching_token
  find-unmark a b c [] = undefined-Follows _
  find-unmark a b c (t ∷ ts) = find_loop-unmark a b c (unmark t).location t.location 0 0 (t ∷ ts)
