-- ===== src/Jinja/Parser/Independence.antt =====
-- The parser looks at nothing but the types of tokens that are neither texts nor identifiers.
use coro_wayland.Base.{ℕ, zero, suc, ◌≡◌, refl, sym, ap, ◌∙◌, not, List, [], ◌∷◌, length}
use coro_wayland.Jinja.Errors.{Result, ok}
use coro_wayland.Jinja.{
  Location, TokenType, text, variable_start, variable_end, block_start, block_end, if_word,
  else_word, endif_word, for_word, endfor_word, in_word, identifier, end_of_file, is, Token,
  Document, Documents, no_documents, document_then,
}
use mathlib.Core.Path.{subst}
use coro_wayland.Jinja.Parser.{
  parse_substitution, go_on, parse_token, parse_next_document, parse_documents, make_document,
}
use coro_wayland.Jinja.Parser.Follows.{
  is_ok, Follows, stops, goes, bind-Follows, if-Follows, error-Follows, Same, bind-Same,
}
use coro_wayland.Jinja.Parser.Marks.{
  unmark, unmark-type, unmark-identifier, unmark-text, unmark_all, length-unmark,
}
use coro_wayland.Jinja.Parser.Unmarking.{SameRest, not-false, block-unmark}

module _ (at : Location) where
  substitution-unmark :
      (k l : Location) (ts : List Token)
      → Follows (SameRest at) (parse_substitution k (unmark_all at ts)) (parse_substitution l ts)
  unfolding parse_substitution
  substitution-unmark k l [] = error-Follows _ _ _
  substitution-unmark k l (i ∷ []) = error-Follows _ _ _
  substitution-unmark k l (i ∷ e ∷ ts) =
      rw (unmark-type at i, unmark-type at e)
        (if-Follows (not (is i.token_type identifier)) (λ h. error-Follows _ _ _)
          (λ h.
            if-Follows (not (is e.token_type variable_end)) (λ g. error-Follows _ _ _)
              (λ g. rw (unmark-identifier at i (not-false at _ h)) (goes _ _ (refl, refl)))))

  go_on-unmark :
      (make again : List Token → Result Documents)
      → ((ts : List Token) → Follows Same (make (unmark_all at ts)) (again ts))
      → (d e : Document) (us ts : List Token) → d ≡ e
      → us ≡ unmark_all at ts
      → Follows Same (go_on make (d, us)) (go_on again (e, ts))
  unfolding go_on
  go_on-unmark make again made d e us [] p q =
      subst (λ us. Follows Same (go_on make (d, us)) (go_on again (e, []))) (sym q)
        (goes _ _ (ap (λ x. document_then x no_documents) p))
  go_on-unmark make again made d e us (t ∷ ts) p q =
      subst (λ us. Follows Same (go_on make (d, us)) (go_on again (e, t ∷ ts))) (sym q)
        (bind-Same _ _ (made (t ∷ ts)) (λ ds. goes _ _ (ap (λ x. document_then x ds) p)))

  module _ (make again : List Token → Result Document)
      (made : (ts : List Token) → Follows Same (make (unmark_all at ts)) (again ts)) where
    token-unmark :
        (type : TokenType) (t : Token) (ts : List Token)
        → t.token_type ≡ type
        → Follows
            (SameRest at)
            (parse_token make type (unmark at t) (unmark_all at ts))
            (parse_token again type t ts)
    unfolding parse_token is
    token-unmark text t ts h =
        rw (unmark-text at t (ap (λ type. is type text) h)) (goes _ _ (refl, refl))
    token-unmark variable_start t ts h = substitution-unmark _ _ ts
    token-unmark block_start t ts h = block-unmark at make again made _ _ ts
    token-unmark end_of_file t ts h = goes _ _ (refl, refl)
    token-unmark variable_end t ts h = error-Follows _ _ _
    token-unmark block_end t ts h = error-Follows _ _ _
    token-unmark if_word t ts h = error-Follows _ _ _
    token-unmark else_word t ts h = error-Follows _ _ _
    token-unmark endif_word t ts h = error-Follows _ _ _
    token-unmark for_word t ts h = error-Follows _ _ _
    token-unmark endfor_word t ts h = error-Follows _ _ _
    token-unmark in_word t ts h = error-Follows _ _ _
    token-unmark identifier t ts h = error-Follows _ _ _

    next-unmark :
        (ts : List Token)
        → Follows
            (SameRest at)
            (parse_next_document make (unmark_all at ts))
            (parse_next_document again ts)
    unfolding parse_next_document
    next-unmark [] = goes _ _ (refl, refl)
    next-unmark (t ∷ ts) =
        subst
          (λ type.
            Follows (SameRest at) (parse_token make type (unmark at t) (unmark_all at ts))
              (parse_token again t.token_type t ts))
          (sym (unmark-type at t)) (token-unmark t.token_type t ts refl)

    documents-unmark :
        (n : ℕ) (ts : List Token)
        → Follows Same (parse_documents make n (unmark_all at ts)) (parse_documents again n ts)
    unfolding parse_documents is_ok
    documents-unmark zero ts = stops _ _ refl
    documents-unmark (suc n) ts = bind-Follows _ _ (next-unmark ts) (λ (d, us) (e, vs) p.
        go_on-unmark (parse_documents make n) (parse_documents again n) (documents-unmark n) d e us
          vs p.0 p.1)

  make_document-unmark :
      (n : ℕ) (ts : List Token)
      → Follows Same (make_document n (unmark_all at ts)) (make_document n ts)
  unfolding make_document is_ok
  make_document-unmark zero ts = stops _ _ refl
  make_document-unmark (suc n) ts = rw (length-unmark at ts) (
      bind-Same _ _
        (documents-unmark (make_document n) (make_document n) (make_document-unmark n)
          (suc (length ts)) ts)
        (λ ds. goes _ _ refl))

  Follows-ok : {A : Type 0} {r s : Result A} (a : A) → Follows Same r s → r ≡ ok a → s ≡ ok a
  unfolding is_ok
  Follows-ok a (stops r s h) e = absurd (let f = sym h ∙ ap is_ok e in cc)
  Follows-ok a (goes b c p) e = ap ok (sym p) ∙ e

  -- A document that the parser makes of tokens without their values and locations, it makes of the
  -- tokens themselves.
  pub make_document-unmark_all :
      (n : ℕ) (ts : List Token) (d : Document)
      → make_document n (unmark_all at ts) ≡ ok d
      → make_document n ts ≡ ok d
  make_document-unmark_all n ts d e = Follows-ok d (make_document-unmark n ts) e
