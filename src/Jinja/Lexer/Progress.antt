-- ===== src/Jinja/Lexer/Progress.antt =====
-- What each part of the lexer passes over, and the end of its loops.
use coro_wayland.Base.{
  ℕ, zero, suc, ◌-◌, ◌≤◌, ◌<◌, min, ◌≡◌, refl, ap, ◌∙◌, true, false, ◌||◌, some, List, [], ◌∷◌,
  ◌++◌, arith, length, length-drop, take, drop, take-append-drop, inl, inr, Option-cases,
}
use coro_wayland.Jinja.{Location, TokenType, Token, text, block_start, block_end, end_of_file}
use coro_wayland.Jinja.Errors.{Ends, returns, fails, bind-Ends, if-Ends, map-Ends, test-Ends}
use coro_wayland.Jinja.Identifiers.{
  ends_word, before, from, is_empty, starts_with, validate_identifier,
}
use coro_wayland.Jinja.Lexer.{
  Lexer, advance, skip_whitespace, make_token, keyword, same_word, Lexed, lex_identifier,
  word_or_identifier, lex_word, lex_words, close_block, lex_block, find_pair, lex_text, lex_next,
  tokenize_loop, tokenize,
}
use coro_wayland.Jinja.Lexer.Spelling.{
  solid, spelling, solid-append, spelling-append, before-append-from, advance-input, length-before,
  skip_whitespace-Skipped,
}
use coro_wayland.Jinja.Lexer.Endings.{validate_identifier-Ends}
use coro_wayland.Jinja.Lexer.Variables.{
  take-Took, skip-Took, append-Took, advance-Took, starts_with-eq, From, Step, open-Step,
  lex_variable-Ends,
}

-- A word of a block: the input up to a stop character, which is not empty.
abbrev Word : Lexer → Token → Type 0
Word l t = (t.value ≡ before ends_word l.input) × (0 < length t.value)

name-Ends :
    (at : Location) (cs : List ℕ)
    → Ends (λ n. (n ≡ cs) × (0 < length n)) (validate_identifier at cs)
unfolding validate_identifier
name-Ends at [] = fails _ _
name-Ends at (c ∷ cs) =
    map-Ends (validate_identifier-Ends at (c ∷ cs)) (λ n e. (e, omega (arith, ap length e)))

keyword-nonempty : (w : List ℕ) (t : TokenType) → keyword w ≡ some t → 0 < length w
unfolding keyword same_word
keyword-nonempty [] t e = absurd (ground arith)
keyword-nonempty (c ∷ cs) t e = omega arith

lex_word-Ends : (start : Location) (l : Lexer) → Ends (Word l) (lex_word start l)
unfolding lex_word word_or_identifier lex_identifier make_token
lex_word-Ends start l = elim (Option-cases (keyword (before ends_word l.input))) [
  | inl e ↦ rw e (
      if-Ends (is_empty (from ends_word l.input)) (fails _ _)
        (bind-Ends _ (name-Ends l.location (before ends_word l.input)) (λ n p. returns _ p)))
  | inr (t, e) ↦ rw e (returns _ (refl, keyword-nonempty (before ends_word l.input) t e))
]

-- A word, the white space behind it, and what follows.
word-Took :
    (l : Lexer) (t : Token) (r : Lexed)
    → t.value ≡ before ends_word l.input
    → From (skip_whitespace (advance (length t.value) l)) r
    → From l (t ∷ r.0, r.1)
word-Took l t r e p =
    append-Took l.input (t ∷ []) (skip_whitespace (advance (length t.value) l)).input r.0 r.1.input
      (skip-Took l.input _ _ (skip_whitespace (advance (length t.value) l)).input
        (advance-Took t l (from ends_word l.input)
          (ap (λ v. v ++ from ends_word l.input) e ∙ before-append-from ends_word l.input))
        (skip_whitespace-Skipped (advance (length t.value) l)))
      p

advance-length :
    (n : ℕ) (l : Lexer) → length (skip_whitespace (advance n l)).input ≤ length l.input - n
advance-length n l =
    let h = (skip_whitespace-Skipped (advance n l)).1 in
    omega (arith, h, ap length (advance-input n l), length-drop n l.input)

lex_words-Ends :
    (k : ℕ) (start : Location) (l : Lexer)
    → length l.input < k
    → Ends (From l) (lex_words k start l)
unfolding lex_words spelling solid
lex_words-Ends zero start l h = absurd (omega arith)
lex_words-Ends (suc k) start l h =
    if-Ends (is_empty l.input || starts_with b'%' b'}' l.input)
      (returns ([], l) (refl, omega arith))
      (bind-Ends _ (lex_word-Ends start l) (λ t w.
        bind-Ends _
          (lex_words-Ends k start (skip_whitespace (advance (length t.value) l)) (
            let positive = w.1 in
            omega (
              arith,
              h,
              positive,
              advance-length (length t.value) l,
              ap length w.0,
              length-before ends_word l.input,
            )))
          (λ r p. returns _ (word-Took l t r w.0 p))))

close_block-Ends :
    (start : Location) (l : Lexer) (words : Lexed)
    → From l words
    → Ends (From l) (close_block start words)
unfolding close_block make_token
close_block-Ends start l words p =
    test-Ends (starts_with b'%' b'}' words.1.input)
      (λ e. returns _ (
        append-Took l.input words.0 words.1.input
          (make_token block_end (b'%' ∷ b'}' ∷ []) words.1 ∷ []) (advance 2 words.1).input p
          (advance-Took (make_token block_end (b'%' ∷ b'}' ∷ []) words.1) words.1
            (drop 2 words.1.input) (starts_with-eq b'%' b'}' words.1.input e))))
      (λ e. fails _ _)

lex_block-Ends : (l : Lexer) → starts_with b'{' b'%' l.input ≡ true → Ends (Step l) (lex_block l)
unfolding lex_block
lex_block-Ends l e =
    let inside = skip_whitespace (advance 2 l) in
    bind-Ends _ (lex_words-Ends (suc (length inside.input)) l.location inside (omega arith))
      (λ words p.
        bind-Ends _ (close_block-Ends l.location inside words p)
          (λ r q. returns _ (open-Step block_start b'{' b'%' l r e q)))

find_pair-suc :
    (a b c : ℕ) (cs : List ℕ)
    → starts_with a b (c ∷ cs) ≡ false
    → find_pair a b (c ∷ cs) ≡ suc (find_pair a b cs)
unfolding find_pair
find_pair-suc a b c cs e = rw e

lex_text-From : (l : Lexer) → From l (lex_text l)
unfolding lex_text make_token
lex_text-From l =
    let end = min (find_pair b'{' b'{' l.input) (find_pair b'{' b'%' l.input) in
    let t = make_token text (take end l.input) l in
    take-Took t l.input (advance end l).input
      (ap (λ r. take end l.input ++ r) (advance-input end l) ∙ take-append-drop end l.input)

abbrev pub lexer_at : List ℕ → Location → Lexer
lexer_at cs at = record { input = cs; location = at }

lex_text-Step :
    (c : ℕ) (cs : List ℕ) (at : Location)
    → starts_with b'{' b'{' (c ∷ cs) ≡ false
    → starts_with b'{' b'%' (c ∷ cs) ≡ false
    → Step (lexer_at (c ∷ cs) at) (lex_text (lexer_at (c ∷ cs) at))
unfolding lex_text
lex_text-Step c cs at e f =
    let l = lexer_at (c ∷ cs) at in
    let end = min (find_pair b'{' b'{' (c ∷ cs)) (find_pair b'{' b'%' (c ∷ cs)) in
    (
      lex_text-From l,
      omega (
        arith,
        ap length (advance-input end l),
        length-drop end (c ∷ cs),
        find_pair-suc b'{' b'{' c cs e,
        find_pair-suc b'{' b'%' c cs f,
      ),
    )

lex_next-Ends :
    (c : ℕ) (cs : List ℕ) (at : Location)
    → Ends (Step (lexer_at (c ∷ cs) at)) (lex_next (lexer_at (c ∷ cs) at))
unfolding lex_next
lex_next-Ends c cs at =
    let l = lexer_at (c ∷ cs) at in
    test-Ends (starts_with b'{' b'{' (c ∷ cs)) (lex_variable-Ends l) (λ e.
      test-Ends (starts_with b'{' b'%' (c ∷ cs)) (lex_block-Ends l)
        (λ f. returns (lex_text l) (lex_text-Step c cs at e f)))

-- All of the text is in the tokens.
abbrev pub Spelled : List ℕ → List Token → Type 0
Spelled cs ts = solid (spelling ts) ≡ solid cs

tokenize_loop-Ends :
    (k : ℕ) (cs : List ℕ) (at : Location)
    → length cs < k
    → Ends (Spelled cs) (tokenize_loop k (lexer_at cs at))
unfolding tokenize_loop is_empty make_token spelling solid
tokenize_loop-Ends zero cs at h = absurd (omega arith)
tokenize_loop-Ends (suc k) [] at h = returns (make_token end_of_file [] (lexer_at [] at) ∷ []) refl
tokenize_loop-Ends (suc k) (c ∷ cs) at h = bind-Ends _ (lex_next-Ends c cs at) (λ r p.
    bind-Ends _ (tokenize_loop-Ends k r.1.input r.1.location (let i = p.1 in omega (arith, h, i)))
      (λ ts q. returns _ (
        ap solid (spelling-append r.0 ts)
        ∙ solid-append (spelling r.0) (spelling ts)
        ∙ ap (λ x. solid (spelling r.0) ++ x) q
        ∙ p.0.0)))

pub tokenize-Ends : (content : List ℕ) → Ends (Spelled content) (tokenize content)
unfolding tokenize
tokenize-Ends content =
    tokenize_loop-Ends (suc (length content)) content (record { line = 1; column = 1 })
      (omega arith)
