-- ===== src/Xml/Lexer/Hanging.antt =====
-- Whether the loop of `tokenize` ends.
use coro_wayland.Base.{
  ℕ, zero, suc, ◌≤◌, ◌<◌, ◌≡◌, refl, sym, ap, ◌∙◌, arith, inl, inr, Bool, true, false, Bool-cases,
  List, [], ◌∷◌, ◌++◌, length,
}
use coro_wayland.Jinja.Identifiers.{is_space, before, from, is_empty}
use coro_wayland.Jinja.Identifiers.Scans.{Stops}
use coro_wayland.Xml.{Token, token, open_tag, tag_name}
use coro_wayland.Xml.Errors.{Result, ok, out_of_fuel, ◌>>=◌, Ends, returns, fails}
use coro_wayland.Xml.Lexer.{
  is_solid, skip_whitespace, starts_with, ends_tag_name, ends_attribute_name, ends_attributes,
  attribute_loop, add_attribute_tokens, name_tokens, lex_in_tag, lex_next, tokenize_loop, tokenize,
}
use coro_wayland.Xml.Lexer.Turns.{length-skip, skip-solid, outside-open, tag-name}
use coro_wayland.Xml.Lexer.Settling.{lex_next-Turned}
use coro_wayland.Xml.Printing.{IsTagName}

-- A turn that changes nothing is repeated for ever.
stuck-out_of_fuel :
    (n : ℕ) (in_tag : Bool) (c : ℕ) (cs : List ℕ)
    → is_space c ≡ false
    → lex_next in_tag (c ∷ cs) ≡ ok ([], in_tag, c ∷ cs)
    → tokenize_loop n in_tag (c ∷ cs) ≡ out_of_fuel
unfolding tokenize_loop
stuck-out_of_fuel zero in_tag c cs s e = refl
stuck-out_of_fuel (suc n) in_tag c cs s e =
    rw (e, skip-solid c cs s, stuck-out_of_fuel n in_tag c cs s e)

bind-agree {ℓ κ} :
    {A : Type ℓ} {B : Type κ} {P : A → Type 0} {r : Result A} (f g : A → Result B)
    → Ends P r
    → ((a : A) → P a → r ≡ ok a → f a ≡ g a)
    → (r >>= f) ≡ (r >>= g)
bind-agree f g (returns a p) k = k a p refl
bind-agree f g (fails m) k = refl

abbrev IsSkipped : List ℕ → Type 0
IsSkipped [] = Unit
IsSkipped (c ∷ cs) = is_space c ≡ false

skip-IsSkipped : (cs : List ℕ) → IsSkipped (skip_whitespace cs)
unfolding skip_whitespace from is_solid
skip-IsSkipped [] = tt
skip-IsSkipped (c ∷ cs) = elim (Bool-cases (is_space c)) [
  | inl e ↦ rw e (skip-IsSkipped cs)
  | inr e ↦ rw e e
]

loop-settles :
    (n m : ℕ) (in_tag : Bool) (cs : List ℕ)
    → IsSkipped cs
    → length cs < n
    → length cs < m
    → tokenize_loop n in_tag cs ≡ tokenize_loop m in_tag cs
unfolding tokenize_loop
loop-settles zero m in_tag cs s g h = absurd (omega arith)
loop-settles (suc n) zero in_tag cs s g h = absurd (omega arith)
loop-settles (suc n) (suc m) in_tag [] s g h = refl
loop-settles (suc n) (suc m) in_tag (c ∷ cs) s g h =
    bind-agree _ _ (lex_next-Turned in_tag c cs s) (λ next t e.
      ap (λ r. r >>= λ rest. ok (next.0 ++ rest))
        (elim t [
          | inl q ↦
              loop-settles n m next.1 (skip_whitespace next.2) (skip-IsSkipped next.2)
                (omega (arith, q, g, length-skip next.2)) (omega (arith, q, h, length-skip next.2))
          | inr q ↦
              let stuck = λ (k : ℕ).
                ap (λ r. tokenize_loop k r.1 (skip_whitespace r.2)) q
                ∙ ap (tokenize_loop k in_tag) (skip-solid c cs s)
                ∙ stuck-out_of_fuel k in_tag c cs s (e ∙ ap ok q) in
              stuck n ∙ sym (stuck m)
        ]))

-- After as many turns as the text has characters and one more, further turns change nothing: the
-- loop has ended with the same tokens or error, or it never ends.
pub tokenize_settles :
    (n m : ℕ) (content : List ℕ)
    → length content < n
    → n ≤ m
    → tokenize n content ≡ tokenize m content
unfolding tokenize
tokenize_settles n m content g h =
    loop-settles n m false (skip_whitespace content) (skip-IsSkipped content)
      (omega (arith, g, length-skip content)) (omega (arith, g, h, length-skip content))

no_attributes :
    (r : List ℕ)
    → starts_with r (b'>' ∷ []) ≡ false
    → add_attribute_tokens (b'/' ∷ r) ≡ ok ([], b'/' ∷ r)
unfolding add_attribute_tokens attribute_loop skip_whitespace from is_solid is_space ends_attributes
    starts_with ends_attribute_name before is_empty
no_attributes r h = rw h

slash-Stops : (r : List ℕ) → Stops ends_tag_name (b'/' ∷ r)
unfolding Stops ends_tag_name
slash-Stops r = refl

slash-turn :
    (r : List ℕ)
    → starts_with r (b'>' ∷ []) ≡ false
    → lex_next true (b'/' ∷ r) ≡ ok ([], true, b'/' ∷ r)
unfolding lex_next lex_in_tag starts_with before from ends_tag_name name_tokens
slash-turn r h = rw (h, no_attributes r h)

-- A turn in front of a place from which the loop does not end.
turn-out_of_fuel :
    (in_tag after : Bool) (c : ℕ) (cs : List ℕ) (d : ℕ) (ds : List ℕ) (us : List Token)
    → is_space d ≡ false
    → lex_next in_tag (c ∷ cs) ≡ ok (us, after, d ∷ ds)
    → ((k : ℕ) → tokenize_loop k after (d ∷ ds) ≡ out_of_fuel)
    → (n : ℕ) → tokenize_loop n in_tag (c ∷ cs) ≡ out_of_fuel
unfolding tokenize_loop
turn-out_of_fuel in_tag after c cs d ds us s e k zero = refl
turn-out_of_fuel in_tag after c cs d ds us s e k (suc n) = rw (e, skip-solid d ds s, k n)

-- The turns of the loop come from one place to another, each with the text behind white space.
pub data Comes : Bool → List ℕ → Bool → List ℕ → Type 0 where
  stays : (in_tag : Bool) (cs : List ℕ) → Comes in_tag cs in_tag cs
  turns :
      (in_tag between after : Bool) (c : ℕ) (cs ds es : List ℕ) (us : List Token)
      → lex_next in_tag (c ∷ cs) ≡ ok (us, between, ds)
      → Comes between (skip_whitespace ds) after es
      → Comes in_tag (c ∷ cs) after es

Comes-out_of_fuel :
    (in_tag after : Bool) (cs es : List ℕ)
    → Comes in_tag cs after es
    → ((k : ℕ) → tokenize_loop k after es ≡ out_of_fuel)
    → (n : ℕ) → tokenize_loop n in_tag cs ≡ out_of_fuel
unfolding tokenize_loop
Comes-out_of_fuel _ _ _ _ (stays in_tag cs) k n = k n
Comes-out_of_fuel _ _ _ _ (turns in_tag between after c cs ds es us e w) k zero = refl
Comes-out_of_fuel _ _ _ _ (turns in_tag between after c cs ds es us e w) k (suc n) =
    rw (e, Comes-out_of_fuel between after (skip_whitespace ds) es w k n)

slash-out_of_fuel :
    (c : ℕ) (cs r : List ℕ)
    → IsTagName (c ∷ cs)
    → starts_with r (b'>' ∷ []) ≡ false
    → (n : ℕ) → tokenize_loop n false (b'<' ∷ c ∷ (cs ++ b'/' ∷ r)) ≡ out_of_fuel
unfolding is_space
slash-out_of_fuel c cs r h g n =
    let slash = b'/' ∷ r in
    let stuck = λ (k : ℕ). stuck-out_of_fuel k true b'/' r refl (slash-turn r g) in
    let name = λ (k : ℕ).
      turn-out_of_fuel true true c (cs ++ slash) b'/' r (token tag_name (c ∷ cs) ∷ []) refl
        (tag-name c cs slash slash [] h (slash-Stops r) (no_attributes r g)) stuck k in
    turn-out_of_fuel false true b'<' (c ∷ (cs ++ slash)) c (cs ++ slash)
      (token open_tag (b'<' ∷ []) ∷ []) h.0 (outside-open c cs slash h) name n

-- Where the turns of `tokenize` come, outside of tags, to an opening tag whose name is followed at
-- once by a slash that does not close the tag, as in `<a/ >`, it never ends, whatever number of
-- turns it takes.
pub tokenize-slash :
    (n : ℕ) (content : List ℕ) (c : ℕ) (cs r : List ℕ)
    → IsTagName (c ∷ cs)
    → starts_with r (b'>' ∷ []) ≡ false
    → Comes false (skip_whitespace content) false (b'<' ∷ c ∷ (cs ++ b'/' ∷ r))
    → tokenize n content ≡ out_of_fuel
unfolding tokenize
tokenize-slash n content c cs r h g w =
    Comes-out_of_fuel false false (skip_whitespace content) (b'<' ∷ c ∷ (cs ++ b'/' ∷ r)) w
      (slash-out_of_fuel c cs r h g) n
