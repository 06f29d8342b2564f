-- ===== src/Jinja/Lexer/Variables.antt =====
-- What the lexer passes over, and what it does with substitutions.
use coro_wayland.Base.{
  ℕ, suc, ◌+◌, ◌≤◌, ◌<◌, ◌≡◌, refl, sym, ap, ◌∙◌, Bool, true, List, [], ◌∷◌, ◌++◌, append-nil,
  append_assoc, arith, length, length-append, drop, drop-append,
}
use coro_wayland.Jinja.{Location, TokenType, Token, variable_start, variable_end, identifier}
use coro_wayland.Jinja.Errors.{Ends, returns, fails, bind-Ends, if-Ends, test-Ends}
use coro_wayland.Jinja.Identifiers.{ends_variable, before, from, is_empty, starts_with}
use coro_wayland.Jinja.Lexer.{
  Lexer, advance, skip_whitespace, make_token, Lexed, close_variable, lex_name, lex_variable,
}
use coro_wayland.Jinja.Lexer.Spelling.{
  solid, spelling, solid-append, spelling-append, before-append-from, advance-input, Skipped,
  skip_whitespace-Skipped,
}
use coro_wayland.Jinja.Lexer.Endings.{validate_identifier-Ends}

-- The tokens `ts` and white space lead from `cs` to its rest `ds`.
abbrev pub Took : List ℕ → List Token → List ℕ → Type 0
Took cs ts ds =
    (solid (spelling ts) ++ solid ds ≡ solid cs) × (length (spelling ts) + length ds ≤ length cs)

pub take-Took : (t : Token) (cs ds : List ℕ) → t.value ++ ds ≡ cs → Took cs (t ∷ []) ds
unfolding spelling
take-Took t cs ds e = rw append-nil (
  sym (solid-append t.value ds) ∙ ap solid e,
  omega (arith, length-append t.value ds, ap length e),
)

pub skip-Took :
    (cs : List ℕ) (ts : List Token) (ds es : List ℕ) → Took cs ts ds → Skipped ds es → Took cs ts es
skip-Took cs ts ds es p q = (
  ap (λ r. solid (spelling ts) ++ r) q.0 ∙ p.0,
  let a = p.1 in let b = q.1 in omega (arith, a, b),
)

pub append-Took :
    (cs : List ℕ) (ts : List Token) (ds : List ℕ) (us : List Token) (es : List ℕ)
    → Took cs ts ds
    → Took ds us es
    → Took cs (ts ++ us) es
append-Took cs ts ds us es p q = (
  ap (λ r. solid r ++ solid es) (spelling-append ts us)
      ∙ ap (λ r. r ++ solid es) (solid-append (spelling ts) (spelling us))
      ∙ append_assoc (solid (spelling ts)) (solid (spelling us)) (solid es)
      ∙ ap (λ r. solid (spelling ts) ++ r) q.0
      ∙ p.0,
  let a = p.1 in
      let b = q.1 in
      omega
        (arith, a, b, ap length (spelling-append ts us), length-append (spelling ts) (spelling us)),
)

-- A token with the first characters of the input as its value.
pub advance-Took :
    (t : Token) (l : Lexer) (ds : List ℕ)
    → t.value ++ ds ≡ l.input
    → Took l.input (t ∷ []) (advance (length t.value) l).input
advance-Took t l ds e = take-Took t l.input (advance (length t.value) l).input (
    ap (λ r. t.value ++ r)
      (advance-input (length t.value) l
        ∙ ap (drop (length t.value)) (sym e)
        ∙ drop-append (length t.value) t.value ds refl)
    ∙ e)

pub starts_with-eq : (a b : ℕ) (cs : List ℕ) → starts_with a b cs ≡ true → a ∷ b ∷ drop 2 cs ≡ cs
unfolding starts_with
starts_with-eq a b [] e = absurd (ground arith)
starts_with-eq a b (c ∷ []) e = absurd (ground arith)
starts_with-eq a b (c ∷ d ∷ cs) e =
    let p : c ≡ a = ground arith in let q : d ≡ b = ground arith in rw (p, q)

-- What a part of the lexer gives at a position.
abbrev pub From : Lexer → Lexed → Type 0
From l r = Took l.input r.0 r.1.input

pub close_variable-Ends : (start : Location) (l : Lexer) → Ends (From l) (close_variable start l)
unfolding close_variable make_token
close_variable-Ends start l =
    test-Ends (starts_with b'}' b'}' l.input)
      (λ e. returns _ (
        advance-Took (make_token variable_end (b'}' ∷ b'}' ∷ []) l) l (drop 2 l.input)
          (starts_with-eq b'}' b'}' l.input e)))
      (λ e. fails _ _)

-- A token of type `t` whose value is cut off at a stop character.
pub cut-Took :
    (stop : ℕ → Bool) (t : TokenType) (l : Lexer)
    → From l (make_token t (before stop l.input) l ∷ [], advance (length (before stop l.input)) l)
unfolding make_token
cut-Took stop t l =
    advance-Took (make_token t (before stop l.input) l) l (from stop l.input)
      (before-append-from stop l.input)

pub lex_name-Ends : (start : Location) (l : Lexer) → Ends (From l) (lex_name start l)
unfolding lex_name
lex_name-Ends start l = if-Ends (is_empty (from ends_variable l.input)) (fails _ _) (
    bind-Ends _ (validate_identifier-Ends l.location (before ends_variable l.input)) (λ n e. rw e (
      let closing = skip_whitespace (advance (length (before ends_variable l.input)) l) in
      bind-Ends _ (close_variable-Ends start closing) (λ r p. returns _ (
        append-Took l.input (make_token identifier (before ends_variable l.input) l ∷ [])
          closing.input r.0 r.1.input
          (skip-Took l.input _ _ closing.input (cut-Took ends_variable identifier l)
            (skip_whitespace-Skipped (advance (length (before ends_variable l.input)) l)))
          p)))))

-- An opening, the white space behind it, and what follows.
pub open-Took :
    (t : TokenType) (a b : ℕ) (l : Lexer) (r : Lexed)
    → starts_with a b l.input ≡ true
    → From (skip_whitespace (advance 2 l)) r
    → From l (make_token t (a ∷ b ∷ []) l ∷ r.0, r.1)
unfolding make_token
open-Took t a b l r e p =
    append-Took l.input (make_token t (a ∷ b ∷ []) l ∷ []) (skip_whitespace (advance 2 l)).input r.0
      r.1.input
      (skip-Took l.input _ _ (skip_whitespace (advance 2 l)).input
        (advance-Took (make_token t (a ∷ b ∷ []) l) l (drop 2 l.input)
          (starts_with-eq a b l.input e))
        (skip_whitespace-Skipped (advance 2 l)))
      p

-- A part of the lexer that goes on by a character at least.
abbrev pub Step : Lexer → Lexed → Type 0
Step l r = From l r × (length r.1.input < length l.input)

pub open-Step :
    (t : TokenType) (a b : ℕ) (l : Lexer) (r : Lexed)
    → starts_with a b l.input ≡ true
    → From (skip_whitespace (advance 2 l)) r
    → Step l (make_token t (a ∷ b ∷ []) l ∷ r.0, r.1)
unfolding spelling make_token
open-Step t a b l r e p =
    let took = open-Took t a b l r e p in
    let h : suc (suc (length (spelling r.0))) + length r.1.input ≤ length l.input = took.1 in
    (took, omega (arith, h))

pub lex_variable-Ends :
    (l : Lexer) → starts_with b'{' b'{' l.input ≡ true → Ends (Step l) (lex_variable l)
unfolding lex_variable
lex_variable-Ends l e =
    bind-Ends _ (lex_name-Ends l.location (skip_whitespace (advance 2 l)))
      (λ r p. returns _ (open-Step variable_start b'{' b'{' l r e p))
