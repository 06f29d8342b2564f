-- ===== src/Jinja/Lexer/Blocks.antt =====
-- The lexer reads the words of a block back.
use coro_wayland.Base.{
  ℕ, zero, suc, ◌+◌, ◌<◌, ◌≡◌, refl, sym, ap, ◌∙◌, arith, true, false, Option, none, some, List, [],
  ◌∷◌, ◌++◌, append_assoc, ◌==◌, length, length-append,
}
use coro_wayland.Jinja.{Location, TokenType, identifier}
use coro_wayland.Jinja.Errors.{ok, ◌>>=◌}
use coro_wayland.Jinja.Identifiers.{is_space, ends_word, is_empty, starts_with}
use coro_wayland.Jinja.Identifiers.Scans.{Free, Stops, before-append, from-append}
use coro_wayland.Jinja.Lexer.{
  behind, advance_from, advance, skip_spaces, skip_whitespace, make_token, keyword, lex_identifier,
  word_or_identifier, lex_word, lex_words, close_block, lex_block, find_pair,
}
use coro_wayland.Jinja.Lexer.Spelling.{skip_spaces-space, skip_spaces-stop}
use coro_wayland.Jinja.Lexer.Progress.{lexer_at}
use coro_wayland.Jinja.Lexer.Pieces.{
  block, spell_words, after, token, or_identifier, word_tokens, piece_tokens, Solid, IsName,
  AreNames,
}

pub advance-after :
    (xs ys : List ℕ) (at : Location)
    → advance_from (length xs) (xs ++ ys) at ≡ lexer_at ys (after xs at)
unfolding advance_from after
advance-after [] ys at = refl
advance-after (x ∷ xs) ys at = advance-after xs ys (behind at x)

pub after-append : (xs ys : List ℕ) (at : Location) → after (xs ++ ys) at ≡ after ys (after xs at)
unfolding after
after-append [] ys at = refl
after-append (x ∷ xs) ys at = after-append xs ys (behind at x)

pub skip-solid : (cs : List ℕ) (at : Location) → Solid cs → skip_spaces cs at ≡ lexer_at cs at
skip-solid [] at h = absurd h
skip-solid (c ∷ cs) at h = skip_spaces-stop c cs at h

-- One space in front of another character.
pub space : is_space b' ' ≡ true
unfolding is_space
space = refl

pub skip-space :
    (cs : List ℕ) (at : Location)
    → Solid cs
    → skip_spaces (b' ' ∷ cs) at ≡ lexer_at cs (behind at b' ')
skip-space cs at h = skip_spaces-space b' ' cs at space ∙ skip-solid cs (behind at b' ') h

pub Solid-append : (xs ys : List ℕ) → Solid xs → Solid (xs ++ ys)
Solid-append [] ys h = absurd h
Solid-append (x ∷ xs) ys h = h

pub starts_with-ne : (a b c : ℕ) (cs : List ℕ) → (c == a) ≡ false → starts_with a b (c ∷ cs) ≡ false
unfolding starts_with
starts_with-ne a b c [] h = refl
starts_with-ne a b c (d ∷ cs) h = rw h

-- No pair stands in front of its first character.
pub find_pair-append :
    (a b : ℕ) (cs ds : List ℕ)
    → Free (λ c. c == a) cs
    → find_pair a b (cs ++ ds) ≡ length cs + find_pair a b ds
unfolding find_pair Free
find_pair-append a b [] ds f = omega arith
find_pair-append a b (c ∷ cs) ds f =
    rw (starts_with-ne a b c (cs ++ ds) f.0, find_pair-append a b cs ds f.1) (omega arith)

pub lex_identifier-name :
    (start : Location) (w ys : List ℕ) (at : Location)
    → IsName ends_word w
    → lex_identifier start (lexer_at (w ++ b' ' ∷ ys) at) ≡ ok (token identifier w at)
unfolding lex_identifier make_token is_empty Stops ends_word
lex_identifier-name start w ys at n = rw (
  before-append ends_word w (b' ' ∷ ys) n.free refl,
  from-append ends_word w (b' ' ∷ ys) n.free refl,
  n.valid at,
)

pub word_or_identifier-name :
    (start : Location) (w ys : List ℕ) (at : Location) (k : Option TokenType)
    → IsName ends_word w
    → word_or_identifier start (lexer_at (w ++ b' ' ∷ ys) at) k ≡ ok (token (or_identifier k) w at)
unfolding word_or_identifier make_token Stops ends_word
word_or_identifier-name start w ys at none n = lex_identifier-name start w ys at n
word_or_identifier-name start w ys at (some t) n =
    rw (before-append ends_word w (b' ' ∷ ys) n.free refl)

pub lex_word-name :
    (start : Location) (w ys : List ℕ) (at : Location)
    → IsName ends_word w
    → lex_word start (lexer_at (w ++ b' ' ∷ ys) at) ≡ ok (token (or_identifier (keyword w)) w at)
unfolding lex_word Stops ends_word
lex_word-name start w ys at n =
    ap (λ v. word_or_identifier start (lexer_at (w ++ b' ' ∷ ys) at) (keyword v))
      (before-append ends_word w (b' ' ∷ ys) n.free refl)
    ∙ word_or_identifier-name start w ys at (keyword w) n

-- The lexer behind a word and the space that follows it.
pub word-skipped :
    (w ys : List ℕ) (at : Location)
    → Solid ys
    → skip_whitespace (advance (length w) (lexer_at (w ++ b' ' ∷ ys) at))
      ≡ lexer_at ys (after (w ++ b' ' ∷ []) at)
unfolding skip_whitespace advance after
word-skipped w ys at h =
    ap (λ l. skip_spaces l.input l.location) (advance-after w (b' ' ∷ ys) at)
    ∙ skip-space ys (after w at) h
    ∙ ap (lexer_at ys) (sym (after-append w (b' ' ∷ []) at))

-- The words of a block and its end.
abbrev pub to_end : List (List ℕ) → List ℕ → List ℕ
to_end ws ds = spell_words ws ++ b'%' ∷ b'}' ∷ ds

pub percent : is_space b'%' ≡ false
unfolding is_space
percent = refl

pub closing : is_space b'}' ≡ false
unfolding is_space
closing = refl

pub to_end-Solid : (ws : List (List ℕ)) (ds : List ℕ) → AreNames ws → Solid (to_end ws ds)
to_end-Solid [] ds n = percent
to_end-Solid (w ∷ ws) ds n =
    Solid-append (w ++ b' ' ∷ spell_words ws) (b'%' ∷ b'}' ∷ ds)
      (Solid-append w (b' ' ∷ spell_words ws) n.0.solid)

-- A word goes on: it is not the end of the block.
pub goes_on :
    (w ys : List ℕ)
    → IsName ends_word w
    → (is_empty (w ++ ys) ≡ false) × (starts_with b'%' b'}' (w ++ ys) ≡ false)
unfolding is_empty Free ends_word
goes_on [] ys n = absurd n.solid
goes_on (c ∷ cs) ys n =
    let f = n.free.0 in (refl, starts_with-ne b'%' b'}' c (cs ++ ys) (ground (arith, f)))

pub lex_words-cons :
    (k : ℕ) (start : Location) (w ys : List ℕ) (at : Location)
    → IsName ends_word w
    → Solid ys
    → lex_words (suc k) start (lexer_at (w ++ b' ' ∷ ys) at) ≡ (
        lex_words k start (lexer_at ys (after (w ++ b' ' ∷ []) at)) >>= λ rest.
        ok (token (or_identifier (keyword w)) w at ∷ rest.0, rest.1))
unfolding lex_words
lex_words-cons k start w ys at n h =
    let more = goes_on w (b' ' ∷ ys) n in
    rw (more.0, more.1, lex_word-name start w ys at n, word-skipped w ys at h)

-- A string in two parts, of which the first one ends in a space.
pub after-space :
    (w xs : List ℕ) (at : Location)
    → after xs (after (w ++ b' ' ∷ []) at) ≡ after (w ++ b' ' ∷ xs) at
after-space w xs at =
    sym (after-append (w ++ b' ' ∷ []) xs at) ∙ ap (λ s. after s at) (append_assoc w (b' ' ∷ []) xs)

pub lex_words-names :
    (k : ℕ) (start : Location) (ws : List (List ℕ)) (ds : List ℕ) (at : Location)
    → AreNames ws
    → length (to_end ws ds) < k
    → lex_words k start (lexer_at (to_end ws ds) at)
      ≡ ok (word_tokens ws at, lexer_at (b'%' ∷ b'}' ∷ ds) (after (spell_words ws) at))
unfolding lex_words word_tokens after is_empty starts_with
lex_words-names zero start ws ds at n h = absurd (omega arith)
lex_words-names (suc k) start [] ds at n h = refl
lex_words-names (suc k) start (w ∷ ws) ds at n h =
    let e = append_assoc w (b' ' ∷ spell_words ws) (b'%' ∷ b'}' ∷ ds) in
    let t = token (or_identifier (keyword w)) w at in
    let next = after (w ++ b' ' ∷ []) at in
    ap (λ s. lex_words (suc k) start (lexer_at s at)) e
    ∙ lex_words-cons k start w (to_end ws ds) at n.0 (to_end-Solid ws ds n.1)
    ∙ ap (λ r. r >>= λ rest. ok (t ∷ rest.0, rest.1))
        (lex_words-names k start ws ds next n.1
          (omega (arith, h, ap length e, length-append w (b' ' ∷ to_end ws ds))))
    ∙ ap (λ l. ok (t ∷ word_tokens ws next, lexer_at (b'%' ∷ b'}' ∷ ds) l))
        (after-space w (spell_words ws) at)

pub lex_block-block :
    (ws : List (List ℕ)) (ds : List ℕ) (at : Location)
    → AreNames ws
    → lex_block (lexer_at (b'{' ∷ b'%' ∷ b' ' ∷ to_end ws ds) at)
      ≡ ok (
        piece_tokens (block ws) at,
        lexer_at ds (after (b'{' ∷ b'%' ∷ b' ' ∷ spell_words ws ++ b'%' ∷ b'}' ∷ []) at),
      )
unfolding lex_block skip_whitespace advance advance_from make_token close_block starts_with after
lex_block-block ws ds at n =
    let inside = behind (behind (behind at b'{') b'%') b' ' in
    rw (
      skip-space (to_end ws ds) (behind (behind at b'{') b'%') (to_end-Solid ws ds n),
      lex_words-names (suc (length (to_end ws ds))) at ws ds inside n (omega arith),
      after-append (spell_words ws) (b'%' ∷ b'}' ∷ []) inside,
    )
