-- ===== src/Xml/Lexer/Turns.antt =====
-- The turns of the loop of `tokenize` on the parts of a tag.
use coro_wayland.Base.{
  ℕ, zero, suc, ◌≤◌, ◌<◌, ◌≡◌, refl, ap, ◌∙◌, arith, Bool, true, false, List, [], ◌∷◌, ◌++◌, ◌==◌,
  length, length-append,
}
use coro_wayland.Jinja.Identifiers.{is_space, from, is_empty}
use coro_wayland.Jinja.Identifiers.Scans.{Free, Stops, before-append, from-append}
use coro_wayland.Jinja.Lexer.Spelling.{length-from}
use coro_wayland.Xml.{
  open_tag, close_tag, self_close, open_close_tag, tag_name, attribute_name, attribute_value, text,
  Token, token, Attribute,
}
use coro_wayland.Xml.Errors.{ok, ◌>>=◌}
use coro_wayland.Xml.Lexer.{
  is_solid, skip_whitespace, starts_with, ends_tag_name, ends_attribute_name, is_quote, is_open,
  close_value, lex_value, lex_assignment, ends_attributes, attribute_loop, add_attribute_tokens,
  lex_outside, name_tokens, lex_in_tag, lex_next, tokenize_loop,
}
use coro_wayland.Xml.Printing.{
  write_attributes, attribute_tokens, IsTagName, IsAttributeName, AreAttributes, IsText,
}

-- The loop gives these tokens with any fuel above the length of the text.
unfoldable pub Lexes : Bool → List ℕ → List Token → Type 0
Lexes in_tag cs ts =
    (n : ℕ) → length (skip_whitespace cs) < n → tokenize_loop n in_tag (skip_whitespace cs) ≡ ok ts

pub skip-solid : (c : ℕ) (cs : List ℕ) → is_space c ≡ false → skip_whitespace (c ∷ cs) ≡ c ∷ cs
unfolding skip_whitespace from is_solid
skip-solid c cs h = rw h

pub skip-space :
    (c : ℕ) (cs : List ℕ) → is_space c ≡ true → skip_whitespace (c ∷ cs) ≡ skip_whitespace cs
unfolding skip_whitespace from is_solid
skip-space c cs h = rw h

pub skip-gap :
    (gap cs : List ℕ) → Free is_solid gap → skip_whitespace (gap ++ cs) ≡ skip_whitespace cs
unfolding skip_whitespace from Free
skip-gap [] cs h = refl
skip-gap (c ∷ gap) cs h = rw h.0 (skip-gap gap cs h.1)

-- White space in front changes nothing.
pub Lexes-gap :
    (in_tag : Bool) (gap cs : List ℕ) (ts : List Token)
    → Free is_solid gap
    → Lexes in_tag cs ts
    → Lexes in_tag (gap ++ cs) ts
unfolding Lexes
Lexes-gap in_tag gap cs ts h k n g =
    ap (tokenize_loop n in_tag) (skip-gap gap cs h)
    ∙ k n (omega (arith, g, ap length (skip-gap gap cs h)))

pub length-skip : (cs : List ℕ) → length (skip_whitespace cs) ≤ length cs
unfolding skip_whitespace
length-skip cs = length-from is_solid cs

-- A turn that takes a character.
pub Lexes-turn :
    (in_tag after : Bool) (c : ℕ) (cs ds : List ℕ) (us ts : List Token)
    → is_space c ≡ false
    → lex_next in_tag (c ∷ cs) ≡ ok (us, after, ds)
    → length ds ≤ length cs
    → Lexes after ds ts
    → Lexes in_tag (c ∷ cs) (us ++ ts)
unfolding Lexes tokenize_loop
Lexes-turn in_tag after c cs ds us ts s e l k zero g = absurd (omega arith)
Lexes-turn in_tag after c cs ds us ts s e l k (suc n) g =
    ap (tokenize_loop (suc n) in_tag) (skip-solid c cs s)
    ∙ ap
        (λ r. r >>= λ next.
          tokenize_loop n next.1 (skip_whitespace next.2) >>= λ rest. ok (next.0 ++ rest))
        e
    ∙ ap (λ r. r >>= λ rest. ok (us ++ rest))
        (k n (omega (arith, l, length-skip ds, g, ap length (skip-solid c cs s))))

not_slash : (c : ℕ) → ends_tag_name c ≡ false → (c == b'/') ≡ false
unfolding ends_tag_name
not_slash c h = ground arith

not_close : (c : ℕ) → ends_tag_name c ≡ false → (c == b'>') ≡ false
unfolding ends_tag_name
not_close c h = ground arith

pub outside-open :
    (c : ℕ) (cs r : List ℕ)
    → IsTagName (c ∷ cs)
    → lex_next false (b'<' ∷ c ∷ (cs ++ r))
      ≡ ok (token open_tag (b'<' ∷ []) ∷ [], true, c ∷ (cs ++ r))
unfolding lex_next lex_outside starts_with Free
outside-open c cs r h = rw (h.2, h.3, not_slash c h.4.0)

pub outside-close :
    (r : List ℕ)
    → lex_next false (b'<' ∷ b'/' ∷ r) ≡ ok (token open_close_tag (b'<' ∷ b'/' ∷ []) ∷ [], true, r)
unfolding lex_next lex_outside starts_with
outside-close r = refl

pub outside-text :
    (c : ℕ) (cs r : List ℕ)
    → IsText (c ∷ cs)
    → Stops is_open r
    → lex_next false (c ∷ (cs ++ r)) ≡ ok (token text (c ∷ cs) ∷ [], false, r)
unfolding lex_next lex_outside starts_with Free is_open
outside-text c cs r h s =
    rw (before-append is_open (c ∷ cs) r h.1 s, from-append is_open (c ∷ cs) r h.1 s, h.1.0)

pub tag-end :
    (r : List ℕ) → lex_next true (b'>' ∷ r) ≡ ok (token close_tag (b'>' ∷ []) ∷ [], false, r)
unfolding lex_next lex_in_tag starts_with
tag-end r = refl

pub tag-self_close :
    (r : List ℕ)
    → lex_next true (b'/' ∷ b'>' ∷ r) ≡ ok (token self_close (b'/' ∷ b'>' ∷ []) ∷ [], false, r)
unfolding lex_next lex_in_tag starts_with
tag-self_close r = refl

pub tag-name :
    (c : ℕ) (cs r ds : List ℕ) (us : List Token)
    → IsTagName (c ∷ cs)
    → Stops ends_tag_name r
    → add_attribute_tokens r ≡ ok (us, ds)
    → lex_next true (c ∷ (cs ++ r)) ≡ ok (token tag_name (c ∷ cs) ∷ us, true, ds)
unfolding lex_next lex_in_tag starts_with Free name_tokens
tag-name c cs r ds us h s e = rw (
  before-append ends_tag_name (c ∷ cs) r h.4 s,
  from-append ends_tag_name (c ∷ cs) r h.4 s,
  e,
  h.1,
  not_slash c h.4.0,
  not_close c h.4.0,
)

value-reads :
    (value rest : List ℕ)
    → Free is_quote value
    → lex_assignment (b'=' ∷ b'"' ∷ (value ++ b'"' ∷ rest)) ≡ ok (value, rest)
unfolding lex_assignment lex_value close_value skip_whitespace from is_solid is_space Stops is_quote
value-reads value rest h = rw (
  before-append is_quote value (b'"' ∷ rest) h refl,
  from-append is_quote value (b'"' ∷ rest) h refl,
)

ends_attributes-name :
    (c : ℕ) (cs : List ℕ) → ends_attribute_name c ≡ false → ends_attributes (c ∷ cs) ≡ false
unfolding ends_attributes starts_with ends_attribute_name is_empty
ends_attributes-name c cs h =
    let e : (c == b'>') ≡ false = ground arith in
    let d : (c == b'/') ≡ false = ground arith in rw (e, d)

attribute-reads :
    (k c : ℕ) (cs value rest : List ℕ)
    → IsAttributeName (c ∷ cs)
    → Free is_quote value
    → attribute_loop (suc k) (c ∷ (cs ++ b'=' ∷ b'"' ∷ (value ++ b'"' ∷ rest))) ≡ (
        attribute_loop k (skip_whitespace rest) >>= λ us.
        ok (token attribute_name (c ∷ cs) ∷ token attribute_value value ∷ us.0, us.1))
unfolding attribute_loop Free Stops is_empty ends_attribute_name is_space
attribute-reads k c cs value rest h q =
    let ds = b'=' ∷ b'"' ∷ (value ++ b'"' ∷ rest) in
    rw (
      ends_attributes-name c (cs ++ ds) h.1.0,
      before-append ends_attribute_name (c ∷ cs) ds h.1 refl,
      from-append ends_attribute_name (c ∷ cs) ds h.1 refl,
      skip-solid b'=' (b'"' ∷ (value ++ b'"' ∷ rest)) refl,
      value-reads value rest q,
    )

attribute_loop-end :
    (k : ℕ) (r : List ℕ) → ends_attributes r ≡ true → attribute_loop (suc k) r ≡ ok ([], r)
unfolding attribute_loop
attribute_loop-end k r h = rw h

-- The attributes in front of the end of a tag.
loop-reads :
    (k : ℕ) (attributes : List Attribute) (r : List ℕ)
    → AreAttributes attributes
    → ends_attributes r ≡ true
    → skip_whitespace r ≡ r
    → length (skip_whitespace (write_attributes attributes r)) < k
    → attribute_loop k (skip_whitespace (write_attributes attributes r))
      ≡ ok (attribute_tokens attributes [], r)
unfolding attribute_loop write_attributes attribute_tokens is_space
loop-reads zero attributes r h e s g = absurd (omega arith)
loop-reads (suc k) [] r h e s g = ap (attribute_loop (suc k)) s ∙ attribute_loop-end k r e
loop-reads (suc k) (([], value) ∷ attributes) r h e s g = absurd h.0
loop-reads (suc k) ((c ∷ cs, value) ∷ attributes) r h e s g =
    let rest = write_attributes attributes r in
    let tail = cs ++ b'=' ∷ b'"' ∷ (value ++ b'"' ∷ rest) in
    let skipped : skip_whitespace (b' ' ∷ c ∷ tail) ≡ c ∷ tail =
      skip-space b' ' (c ∷ tail) refl ∙ skip-solid c tail h.0.0 in
    ap (attribute_loop (suc k)) skipped
    ∙ attribute-reads k c cs value rest h.0 h.1
    ∙ ap
        (λ us. us >>= λ vs.
          ok (token attribute_name (c ∷ cs) ∷ token attribute_value value ∷ vs.0, vs.1))
        (loop-reads k attributes r h.2 e s (
          omega (
            arith,
            g,
            ap length skipped,
            length-skip rest,
            length-append cs (b'=' ∷ b'"' ∷ (value ++ b'"' ∷ rest)),
            length-append value (b'"' ∷ rest),
          )))

pub add_attribute_tokens-reads :
    (attributes : List Attribute) (r : List ℕ)
    → AreAttributes attributes
    → ends_attributes r ≡ true
    → skip_whitespace r ≡ r
    → add_attribute_tokens (write_attributes attributes r) ≡ ok (attribute_tokens attributes [], r)
unfolding add_attribute_tokens
add_attribute_tokens-reads attributes r h e s =
    let cs = write_attributes attributes r in
    loop-reads (suc (length cs)) attributes r h e s (omega (arith, length-skip cs))
