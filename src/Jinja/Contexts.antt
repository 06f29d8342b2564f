-- ===== src/Jinja/Contexts.antt =====
-- `JinjaContext`, and the look-up of a path in a context: `MapObject`, `ContextObject` and
-- `SubstitutionNode::get_destination_context` of src/code_generator/JinjaTemplateEngine.cpp.
pub mod Answers
pub mod Paths
pub mod Fuel
use coro_wayland.Base.{
  ℕ, zero, suc, ◌+◌, ◌-◌, ◌*◌, ◌^◌, Bool, true, false, not, Option, none, some, List, [], ◌∷◌, ◌==◌,
  leb, if◌then◌else◌, length, drop,
}
use coro_wayland.Jinja.{Location}
use coro_wayland.Jinja.Identifiers.{is_digit, ends_part, before, from, is_empty, offset}
use coro_wayland.Jinja.Lexer.{same_word}

-- An object is the list of its members, of which the first one with a name counts: a
-- `ContextObject` is its map in front of the members of its base.
mutual
  pub data Context : Type 0 where
    string : List ℕ → Context
    object : Fields → Context
    array : Items → Context

  pub data Fields : Type 0 where
    no_fields : Fields
    field : (key : List ℕ) → Context → Fields → Fields

  pub data Items : Type 0 where
    no_items : Items
    item : Context → Items → Items

unfoldable pub find : Fields → List ℕ → Option Context
find no_fields key = none
find (field k c rest) key = let found = find rest key in if same_word k key then some c else found

unfoldable pub get_item : Items → ℕ → Option Context
get_item no_items i = none
get_item (item c rest) zero = some c
get_item (item c rest) (suc i) = get_item rest i

-- The context of the body of a loop: `itemVariable` in front of the context of the loop.
abbrev pub overlay : List ℕ → Context → Fields → Fields
overlay key c base = field key c base

-- The messages of `RenderError`, and the exceptions of `std::get` and `std::stoul`.
pub data RenderMessage : Type 0 where
  property_of_string expected_point expected_bracket unclosed_bracket out_of_bounds : RenderMessage
  not_found not_a_string not_an_array : RenderMessage
  bad_variant_access invalid_argument out_of_range : RenderMessage

-- What a look-up or a rendering ends in. The exceptions of the standard library have no location
-- of their own; the location is that of the call.
pub data Outcome {ℓ} (A : Type ℓ) : Type ℓ where
  value : A → Outcome A
  render_error : RenderMessage → Location → Outcome A
  no_fuel : Outcome A

infixl 5 ◌>>=◌
abbrev pub ◌>>=◌ {ℓ κ} : {A : Type ℓ} {B : Type κ} → Outcome A → (A → Outcome B) → Outcome B
value a >>= f = f a
render_error m l >>= f = render_error m l
no_fuel >>= f = no_fuel

-- `std::stoul` on a string that starts with a digit or is refused; the lexer lets no other
-- characters into an index. `so_far` is the number read.
unfoldable pub digits_value : List ℕ → ℕ → ℕ
digits_value [] so_far = so_far
digits_value (c ∷ cs) so_far =
    let rest = digits_value cs (so_far * 10 + (c - b'0')) in if is_digit c then rest else so_far

unfoldable pub stoul : Location → List ℕ → Outcome ℕ
stoul at [] = render_error invalid_argument at
stoul at (c ∷ cs) =
    if not (is_digit c)
    then render_error invalid_argument at
    else if leb (2 ^ 64) (digits_value (c ∷ cs) 0)
    then render_error out_of_range at
    else value (digits_value (c ∷ cs) 0)

-- `get_next_identifier`.
unfoldable pub next_identifier : List ℕ → List ℕ
next_identifier path = before ends_part path

unfoldable pub is_bracket : ℕ → Bool
is_bracket c = c == b']'

-- `get_destination_context`. The result `none` is the null pointer. A walk is the rest of a
-- path's look-up: from a context, the rest `prevVar` of the path, and its position `index`.
abbrev pub Walk : Type 0
Walk = Context → List ℕ → ℕ → Outcome (Option Context)

module _ (at : Location) where
  -- The dot behind an object; `found` is the position for the message, `next` the one behind it.
  unfoldable pub step_object : Walk → Context → List ℕ → ℕ → ℕ → Outcome (Option Context)
  unfolding offset
  step_object again c [] found next = render_error expected_point (offset at found)
  step_object again c (d ∷ path) found next =
      if d == b'.' then again c path next else render_error expected_point (offset at found)

  -- What follows the index of an array; `width` is `closingBracket + 1`.
  unfoldable pub step_item :
      (again : Walk) (again_array : Items → List ℕ → ℕ → Outcome (Option Context))
      → Context
      → List ℕ
      → (index width : ℕ) → Outcome (Option Context)
  unfolding step_object offset
  step_item again again_array (string s) path index width =
      if is_empty path
      then value (some (string s))
      else render_error property_of_string (offset at (index + width))
  step_item again again_array (object members) path index width =
      step_object again (object members) path (index + 1) (index + width + 1)
  step_item again again_array (array entries) path index width =
      again_array entries path (index + width)

  unfoldable pub step_index :
      (again : Walk) (again_array : Items → List ℕ → ℕ → Outcome (Option Context))
      → Option Context
      → List ℕ
      → (index width : ℕ) → Outcome (Option Context)
  unfolding step_item
  step_index again again_array none path index width = render_error out_of_bounds (offset at index)
  step_index again again_array (some c) path index width =
      step_item again again_array c path index width

  -- The opening bracket, the digits, the closing bracket and what follows.
  unfoldable pub step_bracket :
      (again : Walk) (again_array : Items → List ℕ → ℕ → Outcome (Option Context))
      → Items
      → List ℕ
      → ℕ
      → Outcome (Option Context)
  unfolding step_index stoul
  step_bracket again again_array entries path index =
      if is_empty (from is_bracket path)
      then render_error unclosed_bracket (offset at index)
      else (do
        i ← stoul at (before is_bracket path)
        step_index again again_array (get_item entries i) (drop 1 (from is_bracket path)) index
            (length (before is_bracket path) + 2))

  -- The inner loop, over the indices of an array of arrays.
  unfoldable pub walk_array : Walk → ℕ → Items → List ℕ → ℕ → Outcome (Option Context)
  unfolding step_bracket
  walk_array again zero entries path index = no_fuel
  walk_array again (suc fuel) entries [] index = render_error expected_bracket (offset at index)
  walk_array again (suc fuel) entries (c ∷ path) index =
      if c == b'['
      then step_bracket again (walk_array again fuel) entries path index
      else render_error expected_bracket (offset at index)

  -- What follows a variable that is found; `width` is the length of its name.
  unfoldable pub step_variable :
      Walk → Context → List ℕ → (index width : ℕ) → Outcome (Option Context)
  unfolding walk_array step_object
  step_variable again c [] index width = value (some c)
  step_variable again (string s) (d ∷ path) index width =
      render_error property_of_string (offset at index)
  step_variable again (object members) (d ∷ path) index width =
      step_object again (object members) (d ∷ path) (index + width + 1) (index + width + 1)
  step_variable again (array entries) (d ∷ path) index width =
      walk_array again (suc (length (d ∷ path))) entries (d ∷ path) (index + width)

  unfoldable pub step_found :
      Walk → Option Context → List ℕ → (index width : ℕ) → Outcome (Option Context)
  unfolding step_variable
  step_found again none path index width = value none
  step_found again (some c) path index width = step_variable again c path index width

  -- A turn of the outer loop: the next variable, which a string or an array has not.
  unfoldable pub step_member : Walk → Context → List ℕ → ℕ → Outcome (Option Context)
  unfolding step_found find next_identifier
  step_member again (object members) path index =
      step_found again (find members (next_identifier path)) (from ends_part path) index
        (length (next_identifier path))
  step_member again c path index = render_error bad_variant_access at

  unfoldable pub walk : ℕ → Walk
  unfolding step_member
  walk zero c path index = no_fuel
  walk (suc fuel) c [] index = value (some c)
  walk (suc fuel) c (d ∷ path) index = step_member (walk fuel) c (d ∷ path) index

-- A turn of each loop takes one character at least.
unfoldable pub get_destination_context : Context → List ℕ → Location → Outcome (Option Context)
unfolding walk
get_destination_context c path at = walk at (suc (length path)) c path 0
