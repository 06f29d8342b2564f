-- ===== src/Generator/Camel.antt =====
-- `to_camel_case` of src/code_generator/code_generator.cpp on words joined by lines.
use coro_wayland.Base.{
  ℕ, ◌≡◌, refl, ap, ◌∙◌, Bool, true, false, List, [], ◌∷◌, ◌++◌, ◌==◌, if◌then◌else◌,
}
use coro_wayland.Generator.{to_upper, camel_loop, to_camel_case}
use coro_wayland.Jinja.Identifiers.Scans.{Free}
use coro_wayland.Xml.Lexer.{starts_with}

unfoldable pub is_line : ℕ → Bool
is_line c = c == b'_'

-- A word with its first letter in upper case.
unfoldable pub capitalize : List ℕ → List ℕ
capitalize [] = []
capitalize (c ∷ cs) = to_upper c ∷ cs

-- Words with a line between any two of them.
unfoldable pub join : List ℕ → List (List ℕ) → List ℕ
join w [] = w
join w (v ∷ ws) = w ++ b'_' ∷ join v ws

unfoldable pub capitalize_all : List ℕ → List (List ℕ) → List ℕ
unfolding capitalize
capitalize_all w [] = capitalize w
capitalize_all w (v ∷ ws) = capitalize w ++ capitalize_all v ws

abbrev pub AreWords : List (List ℕ) → Type 0
AreWords [] = Unit
AreWords (w ∷ ws) = Free is_line w × AreWords ws

loop-word :
    (w r : List ℕ) → Free is_line w → camel_loop false (w ++ b'_' ∷ r) ≡ w ++ camel_loop true r
unfolding camel_loop Free is_line
loop-word [] r h = refl
loop-word (c ∷ w) r h = rw (h.0, loop-word w r h.1)

loop-last : (w : List ℕ) → Free is_line w → camel_loop false w ≡ w
unfolding camel_loop Free is_line
loop-last [] h = refl
loop-last (c ∷ w) h = rw (h.0, loop-last w h.1)

loop-first :
    (w r : List ℕ)
    → Free is_line w
    → camel_loop true (w ++ b'_' ∷ r) ≡ capitalize w ++ camel_loop true r
unfolding camel_loop Free is_line capitalize
loop-first [] r h = refl
loop-first (c ∷ w) r h = rw (h.0, loop-word w r h.1)

loop-only : (w : List ℕ) → Free is_line w → camel_loop true w ≡ capitalize w
unfolding camel_loop Free is_line capitalize
loop-only [] h = refl
loop-only (c ∷ w) h = rw (h.0, loop-last w h.1)

loop-join :
    (w : List ℕ) (ws : List (List ℕ))
    → AreWords (w ∷ ws)
    → camel_loop true (join w ws) ≡ capitalize_all w ws
unfolding join capitalize_all
loop-join w [] h = loop-only w h.0
loop-join w (v ∷ ws) h =
    loop-first w (join v ws) h.0 ∙ ap (λ r. capitalize w ++ r) (loop-join v ws h.1)

abbrev pub prefix : List ℕ
prefix = b'w' ∷ b'l' ∷ b'_' ∷ []

with_prefix : (cs : List ℕ) → starts_with (prefix ++ cs) prefix ≡ true
unfolding starts_with
with_prefix cs = refl

if-true : {A : Type 0} (b : Bool) (x y : A) → b ≡ true → (if b then x else y) ≡ x
if-true b x y e = rw e

if-false : {A : Type 0} (b : Bool) (x y : A) → b ≡ false → (if b then x else y) ≡ y
if-false b x y e = rw e

-- The name of words joined by lines is the words with their first letters in upper case, one behind
-- the other, with the prefix `wl_` as without it.
pub to_camel_case-join :
    (w : List ℕ) (ws : List (List ℕ))
    → AreWords (w ∷ ws)
    → starts_with (join w ws) prefix ≡ false
    → (to_camel_case (join w ws) ≡ capitalize_all w ws)
      × (to_camel_case (prefix ++ join w ws) ≡ capitalize_all w ws)
unfolding to_camel_case
to_camel_case-join w ws h p = (
  if-false _ _ _ p ∙ loop-join w ws h,
  if-true _ _ _ (with_prefix (join w ws)) ∙ loop-join w ws h,
)
