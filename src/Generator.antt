-- ===== src/Generator.antt =====
-- The context that src/code_generator/code_generator.cpp makes of a description: `to_camel_case`,
-- `make_subcontext` and `make_context`. Characters are classified as in the C locale. An exception
-- of `std::map::at` or of `std::get` is `none`.

pub mod Words
pub mod Messages
pub mod Protocol
pub mod Keys
pub mod Arrays
pub mod Numbers
pub mod Camel
mod Examples
use coro_wayland.Base.Options.{◌>>=◌}
use coro_wayland.Base.{
  ℕ, suc, ◌+◌, ◌-◌, Bool, true, false, not, ◌&&◌, Option, none, some, List, [], ◌∷◌, ◌++◌, ◌==◌,
  leb, ltb, if◌then◌else◌, drop,
}
use coro_wayland.Jinja.Contexts.{
  Context, string, object, array, Fields, no_fields, field, Items, no_items, item, find,
}
use coro_wayland.Jinja.Identifiers.{is_digit}
use coro_wayland.Jinja.Lexer.{same_word}
use coro_wayland.Xml.{Attribute, XmlTag, xml_tag, XmlNodes, no_nodes, text_then, tag_then}
use coro_wayland.Xml.Lexer.{starts_with}

-- `std::toupper`.
unfoldable pub to_upper : ℕ → ℕ
to_upper c = if leb b'a' c && leb c b'z' then c - 32 else c

-- The loop of `to_camel_case`.
unfoldable pub camel_loop : Bool → List ℕ → List ℕ
unfolding to_upper
camel_loop upper_next [] = []
camel_loop upper_next (c ∷ cs) =
    let after_line = camel_loop true cs in
    let after_letter = camel_loop false cs in
    if c == b'_' then after_line else (if upper_next then to_upper c else c) ∷ after_letter

unfoldable pub to_camel_case : List ℕ → List ℕ
unfolding camel_loop
to_camel_case str =
    if starts_with str (b'w' ∷ b'l' ∷ b'_' ∷ [])
    then camel_loop true (drop 3 str)
    else camel_loop true str

-- `std::map::emplace`: a key that is there keeps its value.
unfoldable pub emplace : List ℕ → Context → Fields → Fields
emplace key c members = elim (find members key) [ none ↦ field key c members | some d ↦ members ]

unfoldable pub erase : List ℕ → Fields → Fields
erase key no_fields = no_fields
erase key (field k c rest) =
    let others = erase key rest in if same_word k key then others else field k c others

unfoldable pub as_string : Context → Option (List ℕ)
as_string (string s) = some s
as_string _ = none

-- `at` and `asString`.
unfoldable pub string_at : Fields → List ℕ → Option (List ℕ)
unfolding as_string
string_at members key = find members key >>= as_string

unfoldable pub emplace_attributes : List Attribute → Fields → Fields
unfolding emplace
emplace_attributes [] members = members
emplace_attributes ((name, value) ∷ attributes) members =
    emplace_attributes attributes (emplace name (string value) members)

-- `emplace_back`.
unfoldable pub push_item : Items → Context → Items
push_item no_items c = item c no_items
push_item (item d rest) c = item d (push_item rest c)

unfoldable pub is_empty : Items → Bool
is_empty no_items = true
is_empty (item c rest) = false

unfoldable pub size : Items → ℕ
size no_items = 0
size (item c rest) = suc (size rest)

unfoldable pub count_nodes : XmlNodes → ℕ
count_nodes no_nodes = 0
count_nodes (text_then content rest) = suc (count_nodes rest)
count_nodes (tag_then tag rest) = suc (count_nodes rest)
