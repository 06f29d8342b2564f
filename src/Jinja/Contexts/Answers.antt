-- ===== src/Jinja/Contexts/Answers.antt =====
-- What a path of names and indices leads to, told by rules, for `get_destination_context` of
-- src/code_generator/JinjaTemplateEngine.cpp.
use coro_wayland.Base.{ℕ, ◌<◌, ◌^◌, ◌≡◌, true, false, Option, none, some, List, [], ◌∷◌, ◌++◌, ◌==◌}
use coro_wayland.Jinja.{Location}
use coro_wayland.Jinja.Identifiers.{ends_part, is_index}
use coro_wayland.Jinja.Identifiers.Scans.{Free, Stops}
use coro_wayland.Jinja.Contexts.{
  Context, string, object, array, Fields, Items, find, get_item, RenderMessage, property_of_string,
  expected_point, expected_bracket, unclosed_bracket, out_of_bounds, Outcome, value, render_error,
  digits_value, is_bracket,
}

-- A number in decimal digits, which fits into 64 bits.
abbrev pub IsDigits : List ℕ → ℕ → Type 0
IsDigits ds n = (is_index ds ≡ true) × (digits_value ds 0 ≡ n) × (n < 2 ^ 64)

-- What a path leads to: a context, nothing where a name has no member, or an exception.
pub data Answer : Type 0 where
  found : Context → Answer
  missing : Answer
  refused : RenderMessage → Answer

-- The look-up ended with the answer; an exception has a location.
abbrev pub Answers : Answer → Outcome (Option Context) → Type 0
Answers (found c) o = o ≡ value (some c)
Answers missing o = o ≡ value none
Answers (refused m) o = (l : Location) × (o ≡ render_error m l)

-- What the path leads to from the context, or from the array behind an opening bracket. Nothing
-- follows a string; a dot follows an object and a bracket an array, unless the path ends at a name.
mutual
  pub data Leads : Context → List ℕ → Answer → Type 0 where
    whole : (c : Context) → Leads c [] (found c)
    here :
        (members : Fields) (x : ℕ) (xs : List ℕ) (target : Context)
        → Free ends_part (x ∷ xs)
        → find members (x ∷ xs) ≡ some target
        → Leads (object members) (x ∷ xs) (found target)
    absent :
        (members : Fields) (x : ℕ) (xs path : List ℕ)
        → Free ends_part (x ∷ xs)
        → Stops ends_part path
        → find members (x ∷ xs) ≡ none
        → Leads (object members) (x ∷ xs ++ path) missing
    member :
        (members inner : Fields) (x : ℕ) (xs path : List ℕ) (a : Answer)
        → Free ends_part (x ∷ xs)
        → find members (x ∷ xs) ≡ some (object inner)
        → Leads (object inner) path a
        → Leads (object members) (x ∷ xs ++ b'.' ∷ path) a
    indexed :
        (members : Fields) (entries : Items) (x : ℕ) (xs path : List ℕ) (a : Answer)
        → Free ends_part (x ∷ xs)
        → find members (x ∷ xs) ≡ some (array entries)
        → LeadsItem entries path a
        → Leads (object members) (x ∷ xs ++ b'[' ∷ path) a
    behind_string :
        (members : Fields) (s : List ℕ) (x : ℕ) (xs : List ℕ) (d : ℕ) (path : List ℕ)
        → Free ends_part (x ∷ xs)
        → ends_part d ≡ true
        → find members (x ∷ xs) ≡ some (string s)
        → Leads (object members) (x ∷ xs ++ d ∷ path) (refused property_of_string)
    no_index :
        (members inner : Fields) (x : ℕ) (xs path : List ℕ)
        → Free ends_part (x ∷ xs)
        → find members (x ∷ xs) ≡ some (object inner)
        → Leads (object members) (x ∷ xs ++ b'[' ∷ path) (refused expected_point)
    no_member :
        (members : Fields) (entries : Items) (x : ℕ) (xs path : List ℕ)
        → Free ends_part (x ∷ xs)
        → find members (x ∷ xs) ≡ some (array entries)
        → Leads (object members) (x ∷ xs ++ b'.' ∷ path) (refused expected_bracket)

  pub data LeadsItem : Items → List ℕ → Answer → Type 0 where
    outside :
        (entries : Items) (ds : List ℕ) (n : ℕ) (path : List ℕ)
        → IsDigits ds n
        → get_item entries n ≡ none
        → LeadsItem entries (ds ++ b']' ∷ path) (refused out_of_bounds)
    item_string :
        (entries : Items) (ds : List ℕ) (n : ℕ) (s : List ℕ)
        → IsDigits ds n
        → get_item entries n ≡ some (string s)
        → LeadsItem entries (ds ++ b']' ∷ []) (found (string s))
    item_behind_string :
        (entries : Items) (ds : List ℕ) (n : ℕ) (s : List ℕ) (d : ℕ) (path : List ℕ)
        → IsDigits ds n
        → get_item entries n ≡ some (string s)
        → LeadsItem entries (ds ++ b']' ∷ d ∷ path) (refused property_of_string)
    item_object :
        (entries : Items) (ds : List ℕ) (n : ℕ) (inner : Fields)
        → IsDigits ds n
        → get_item entries n ≡ some (object inner)
        → LeadsItem entries (ds ++ b']' ∷ []) (refused expected_point)
    item_array :
        (entries : Items) (ds : List ℕ) (n : ℕ) (inner : Items)
        → IsDigits ds n
        → get_item entries n ≡ some (array inner)
        → LeadsItem entries (ds ++ b']' ∷ []) (refused expected_bracket)
    item_no_index :
        (entries : Items) (ds : List ℕ) (n : ℕ) (inner : Fields) (d : ℕ) (path : List ℕ)
        → IsDigits ds n
        → (d == b'.') ≡ false
        → get_item entries n ≡ some (object inner)
        → LeadsItem entries (ds ++ b']' ∷ d ∷ path) (refused expected_point)
    item_no_member :
        (entries : Items) (ds : List ℕ) (n : ℕ) (inner : Items) (d : ℕ) (path : List ℕ)
        → IsDigits ds n
        → (d == b'[') ≡ false
        → get_item entries n ≡ some (array inner)
        → LeadsItem entries (ds ++ b']' ∷ d ∷ path) (refused expected_bracket)
    unclosed :
        (entries : Items) (path : List ℕ)
        → Free is_bracket path
        → LeadsItem entries path (refused unclosed_bracket)
    item_member :
        (entries : Items) (ds : List ℕ) (n : ℕ) (inner : Fields) (path : List ℕ) (a : Answer)
        → IsDigits ds n
        → get_item entries n ≡ some (object inner)
        → Leads (object inner) path a
        → LeadsItem entries (ds ++ b']' ∷ b'.' ∷ path) a
    item_item :
        (entries : Items) (ds : List ℕ) (n : ℕ) (inner : Items) (path : List ℕ) (a : Answer)
        → IsDigits ds n
        → get_item entries n ≡ some (array inner)
        → LeadsItem inner path a
        → LeadsItem entries (ds ++ b']' ∷ b'[' ∷ path) a
