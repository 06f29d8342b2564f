-- ===== src/Jinja/Parser/Termination.antt =====
-- The parser ends on every list of tokens.
use coro_wayland.Base.{ℕ, zero, suc, ◌≤◌, ◌<◌, ◌≢◌, List, [], ◌∷◌, arith, length}
use coro_wayland.Jinja.Errors.{
  Ends-out_of_fuel, Result, out_of_fuel, Ends, returns, fails, Any, bind-Ends,
}
use coro_wayland.Jinja.{
  TokenType, text, variable_start, variable_end, block_start, block_end, if_word, else_word,
  endif_word, for_word, endfor_word, in_word, identifier, end_of_file, Token, Document, Documents,
}
use coro_wayland.Jinja.Parser.{
  ParserResult, parse_token, parse_next_document, go_on, parse_documents, make_document,
}
use coro_wayland.Jinja.Parser.Endings.{AtMost, parse_block-Ends, parse_substitution-Ends}

module _ (make : List Token → Result Document) (n : ℕ)
    (made : (w : List Token) → length w ≤ n → Ends Any (make w)) where
  parse_token-Ends :
      (type : TokenType) (t : Token) (ts : List Token)
      → length ts ≤ n
      → Ends (AtMost n) (parse_token make type t ts)
  unfolding parse_token
  parse_token-Ends text t ts h = returns _ h
  parse_token-Ends variable_start t ts h = parse_substitution-Ends n t.location ts h
  parse_token-Ends block_start t ts h = parse_block-Ends make n made t.location ts h
  parse_token-Ends end_of_file t ts h = returns _ (omega arith)
  parse_token-Ends variable_end t ts h = fails _ _
  parse_token-Ends block_end t ts h = fails _ _
  parse_token-Ends if_word t ts h = fails _ _
  parse_token-Ends else_word t ts h = fails _ _
  parse_token-Ends endif_word t ts h = fails _ _
  parse_token-Ends for_word t ts h = fails _ _
  parse_token-Ends endfor_word t ts h = fails _ _
  parse_token-Ends in_word t ts h = fails _ _
  parse_token-Ends identifier t ts h = fails _ _

go_on-Ends :
    (again : List Token → Result Documents) (n : ℕ)
    → ((ts : List Token) → length ts ≤ n → Ends Any (again ts))
    → (r : ParserResult) → AtMost n r
    → Ends Any (go_on again r)
unfolding go_on
go_on-Ends again n more (d, []) h = returns _ tt
go_on-Ends again n more (d, t ∷ ts) h = bind-Ends _ (more (t ∷ ts) h) (λ ds p. returns _ tt)

parse_documents-Ends :
    (make : List Token → Result Document) (k n : ℕ) (ts : List Token)
    → length ts < k
    → length ts ≤ suc n
    → ((w : List Token) → length w ≤ n → Ends Any (make w))
    → Ends Any (parse_documents make k ts)
unfolding parse_documents parse_next_document go_on
parse_documents-Ends make zero n ts h i made = absurd (omega arith)
parse_documents-Ends make (suc k) n [] h i made = returns _ tt
parse_documents-Ends make (suc k) n (t ∷ ts) h i made =
    bind-Ends (go_on (parse_documents make k))
      (parse_token-Ends make (length ts) (λ w q. made w (omega (arith, i, q))) t.token_type t ts
        (omega arith))
      (go_on-Ends (parse_documents make k) (length ts)
        (λ us q. parse_documents-Ends make k n us (omega (arith, h, q)) (omega (arith, i, q)) made))

make_document-Ends : (n : ℕ) (ts : List Token) → length ts < n → Ends Any (make_document n ts)
unfolding make_document parse_documents parse_next_document go_on
make_document-Ends zero ts h = absurd (omega arith)
make_document-Ends (suc zero) [] h = returns _ tt
make_document-Ends (suc zero) (t ∷ ts) h = absurd (omega arith)
make_document-Ends (suc (suc n)) ts h =
    bind-Ends _
      (parse_documents-Ends (make_document (suc n)) (suc (length ts)) n ts (omega arith)
        (omega (arith, h)) (λ w q. make_document-Ends (suc n) w (omega (arith, q))))
      (λ ds p. returns _ tt)

-- `make_document` ends on every list of tokens, with a document, an error, a failed assertion or an
-- access out of bounds: more fuel than there are tokens is enough.
pub make_document_ends :
    (n : ℕ) (ts : List Token) → length ts < n → make_document n ts ≢ out_of_fuel
make_document_ends n ts h = Ends-out_of_fuel (make_document-Ends n ts h)
