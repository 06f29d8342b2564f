-- ===== src/Jinja/Lexer/RoundTrip.antt =====
-- The lexer reads source text back as the pieces that it was written from.
use coro_wayland.Base.{
  ℕ, zero, suc, ◌<◌, min, ◌≡◌, refl, ap, ◌∙◌, arith, Bool, false, List, [], ◌∷◌, ◌++◌, append_assoc,
  if◌then◌else◌, length, length-append, take-append,
}
use coro_wayland.Jinja.{Location, identifier, variable_end}
use coro_wayland.Jinja.Errors.{ok, ◌>>=◌}
use coro_wayland.Jinja.Identifiers.{ends_variable, is_empty, starts_with}
use coro_wayland.Jinja.Identifiers.Scans.{Free, Stops, before-append, from-append}
use coro_wayland.Jinja.Lexer.{
  behind, advance_from, advance, skip_whitespace, make_token, close_variable, lex_name,
  lex_variable, lex_block, find_pair, lex_text, lex_next, tokenize_loop, tokenize,
}
use coro_wayland.Jinja.Lexer.Progress.{lexer_at}
use coro_wayland.Jinja.Lexer.Pieces.{
  Piece, plain, substitution, block, spell_words, spell, spell_all, after, token, piece_tokens,
  all_tokens, IsName, AreNames, is_brace, IsPiece, MayFollow, ArePieces,
}
use coro_wayland.Jinja.Lexer.Blocks.{
  advance-after, skip-space, Solid-append, starts_with-ne, find_pair-append, word-skipped, closing,
  after-space, lex_block-block,
}

close-name :
    (start : Location) (name ds : List ℕ) (at : Location)
    → close_variable start
        (skip_whitespace (advance (length name) (lexer_at (name ++ b' ' ∷ b'}' ∷ b'}' ∷ ds) at)))
      ≡ ok (
        token variable_end (b'}' ∷ b'}' ∷ []) (after (name ++ b' ' ∷ []) at) ∷ [],
        lexer_at ds (after (name ++ b' ' ∷ b'}' ∷ b'}' ∷ []) at),
      )
unfolding close_variable starts_with make_token advance advance_from after
close-name start name ds at =
    ap (close_variable start) (word-skipped name (b'}' ∷ b'}' ∷ ds) at closing)
    ∙ ap
        (λ l. ok (
          token variable_end (b'}' ∷ b'}' ∷ []) (after (name ++ b' ' ∷ []) at) ∷ [],
          lexer_at ds l,
        ))
        (after-space name (b'}' ∷ b'}' ∷ []) at)

lex_name-name :
    (start : Location) (name ds : List ℕ) (at : Location)
    → IsName ends_variable name
    → lex_name start (lexer_at (name ++ b' ' ∷ b'}' ∷ b'}' ∷ ds) at)
      ≡ ok (
        token identifier name at
            ∷ token variable_end (b'}' ∷ b'}' ∷ []) (after (name ++ b' ' ∷ []) at)
            ∷ [],
        lexer_at ds (after (name ++ b' ' ∷ b'}' ∷ b'}' ∷ []) at),
      )
unfolding lex_name make_token is_empty Stops ends_variable
lex_name-name start name ds at n =
    let rest = b' ' ∷ b'}' ∷ b'}' ∷ ds in
    rw (
      before-append ends_variable name rest n.free refl,
      from-append ends_variable name rest n.free refl,
      n.valid at,
      close-name start name ds at,
    )

lex_variable-substitution :
    (name ds : List ℕ) (at : Location)
    → IsName ends_variable name
    → lex_variable (lexer_at (b'{' ∷ b'{' ∷ b' ' ∷ name ++ b' ' ∷ b'}' ∷ b'}' ∷ ds) at)
      ≡ ok (piece_tokens (substitution name) at, lexer_at ds (after (spell (substitution name)) at))
unfolding lex_variable skip_whitespace advance advance_from make_token after
lex_variable-substitution name ds at n =
    let rest = b' ' ∷ b'}' ∷ b'}' ∷ ds in
    let inside = behind (behind (behind at b'{') b'{') b' ' in
    rw (
      skip-space (name ++ rest) (behind (behind at b'{') b'{') (Solid-append name rest n.solid),
      lex_name-name at name ds inside n,
    )

-- Behind a text the source ends, or a substitution or a block starts.
Opens : List ℕ → Type 0
Opens ds = min (find_pair b'{' b'{' ds) (find_pair b'{' b'%' ds) ≡ 0

lex_text-plain :
    (cs ds : List ℕ) (at : Location)
    → Free is_brace cs
    → Opens ds
    → lex_text (lexer_at (cs ++ ds) at) ≡ (piece_tokens (plain cs) at, lexer_at ds (after cs at))
unfolding lex_text advance make_token Opens
lex_text-plain cs ds at f o =
    let e : min (find_pair b'{' b'{' (cs ++ ds)) (find_pair b'{' b'%' (cs ++ ds)) ≡ length cs =
      omega (arith, find_pair-append b'{' b'{' cs ds f, find_pair-append b'{' b'%' cs ds f, o) in
    rw (e, take-append (length cs) cs ds refl, advance-after cs ds at)

if-false {ℓ} : {A : Type ℓ} (b : Bool) (x y : A) → b ≡ false → (if b then x else y) ≡ y
if-false b x y e = rw e

lex_next-plain :
    (c : ℕ) (cs ds : List ℕ) (at : Location)
    → Free is_brace (c ∷ cs)
    → Opens ds
    → lex_next (lexer_at (c ∷ cs ++ ds) at)
      ≡ ok (piece_tokens (plain (c ∷ cs)) at, lexer_at ds (after (c ∷ cs) at))
unfolding lex_next Free
lex_next-plain c cs ds at f o =
    if-false _ _ _ (starts_with-ne b'{' b'{' c (cs ++ ds) f.0)
    ∙ if-false _ _ _ (starts_with-ne b'{' b'%' c (cs ++ ds) f.0)
    ∙ ap ok (lex_text-plain (c ∷ cs) ds at f o)

lex_next-substitution :
    (name ds : List ℕ) (at : Location)
    → IsName ends_variable name
    → lex_next (lexer_at (spell (substitution name) ++ ds) at)
      ≡ ok (piece_tokens (substitution name) at, lexer_at ds (after (spell (substitution name)) at))
unfolding lex_next starts_with
lex_next-substitution name ds at n =
    ap (λ s. lex_variable (lexer_at (b'{' ∷ b'{' ∷ b' ' ∷ s) at))
      (append_assoc name (b' ' ∷ b'}' ∷ b'}' ∷ []) ds)
    ∙ lex_variable-substitution name ds at n

lex_next-block :
    (ws : List (List ℕ)) (ds : List ℕ) (at : Location)
    → AreNames ws
    → lex_next (lexer_at (spell (block ws) ++ ds) at)
      ≡ ok (piece_tokens (block ws) at, lexer_at ds (after (spell (block ws)) at))
unfolding lex_next starts_with
lex_next-block ws ds at n =
    ap (λ s. lex_block (lexer_at (b'{' ∷ b'%' ∷ b' ' ∷ s) at))
      (append_assoc (spell_words ws) (b'%' ∷ b'}' ∷ []) ds)
    ∙ lex_block-block ws ds at n

OpensAfter : Piece → List ℕ → Type 0
OpensAfter (plain cs) ds = Opens ds
OpensAfter _ ds = Unit

lex_next-piece :
    (p : Piece) (ds : List ℕ) (at : Location)
    → IsPiece p
    → OpensAfter p ds
    → lex_next (lexer_at (spell p ++ ds) at)
      ≡ ok (piece_tokens p at, lexer_at ds (after (spell p) at))
unfolding OpensAfter
lex_next-piece (plain []) ds at h o = absurd h
lex_next-piece (plain (c ∷ cs)) ds at h o = lex_next-plain c cs ds at h o
lex_next-piece (substitution name) ds at h o = lex_next-substitution name ds at h
lex_next-piece (block ws) ds at h o = lex_next-block ws ds at h

opens : (cs : List ℕ) (ps : List Piece) → MayFollow (plain cs) ps → Opens (spell_all ps)
unfolding Opens spell_all find_pair starts_with
opens cs [] h = omega arith
opens cs (plain ds ∷ ps) h = absurd h
opens cs (substitution name ∷ ps) h = omega arith
opens cs (block ws ∷ ps) h = omega arith

opens_after : (p : Piece) (ps : List Piece) → MayFollow p ps → OpensAfter p (spell_all ps)
unfolding OpensAfter
opens_after (plain cs) ps h = opens cs ps h
opens_after (substitution name) ps h = tt
opens_after (block ws) ps h = tt

spell-nonempty : (p : Piece) → IsPiece p → (c : ℕ) × (cs : List ℕ) × (spell p ≡ c ∷ cs)
spell-nonempty (plain []) h = absurd h
spell-nonempty (plain (c ∷ cs)) h = (c, cs, refl)
spell-nonempty (substitution name) h = (_, _, refl)
spell-nonempty (block ws) h = (_, _, refl)

tokenize_loop-pieces :
    (k : ℕ) (ps : List Piece) (at : Location)
    → ArePieces ps
    → length (spell_all ps) < k
    → tokenize_loop k (lexer_at (spell_all ps) at) ≡ ok (all_tokens ps at)
unfolding tokenize_loop spell_all all_tokens is_empty make_token
tokenize_loop-pieces zero ps at h g = absurd (omega arith)
tokenize_loop-pieces (suc k) [] at h g = refl
tokenize_loop-pieces (suc k) (p ∷ ps) at h g =
    let (c, cs, e) = spell-nonempty p h.0 in
    let full : is_empty (spell p ++ spell_all ps) ≡ false =
      ap (λ s. is_empty (s ++ spell_all ps)) e in
    if-false _ _ _ full
    ∙ ap (λ r. r >>= λ next. tokenize_loop k next.1 >>= λ rest. ok (next.0 ++ rest))
        (lex_next-piece p (spell_all ps) at h.0 (opens_after p ps h.1))
    ∙ ap (λ r. r >>= λ rest. ok (piece_tokens p at ++ rest))
        (tokenize_loop-pieces k ps (after (spell p) at) h.2
          (omega (arith, g, ap length e, length-append (spell p) (spell_all ps))))

pub tokenize-spell_all :
    (ps : List Piece)
    → ArePieces ps
    → tokenize (spell_all ps) ≡ ok (all_tokens ps (record { line = 1; column = 1 }))
unfolding tokenize
tokenize-spell_all ps h =
    tokenize_loop-pieces (suc (length (spell_all ps))) ps (record { line = 1; column = 1 }) h
      (omega arith)
