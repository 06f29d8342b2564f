-- ===== src/Generator/Messages.antt =====
-- `make_subcontext` of src/code_generator/code_generator.cpp: requests, events and enums.
use coro_wayland.Base.Options.{◌>>=◌}
use coro_wayland.Base.{ℕ, suc, Bool, Option, none, some, List, [], ◌∷◌, ltb, if◌then◌else◌}
use coro_wayland.Generator.{
  to_camel_case, emplace, erase, string_at, emplace_attributes, push_item, is_empty, count_nodes,
}
use coro_wayland.Generator.Words.{
  name_key, cppname_key, bind_name, not_last_key, true_text, description_key, arg_tag, type_key,
  interface_key, new_id_type, return_type_key, tail_key, version_name, object_id_name, object_type,
  uint_type, uint32_name, int_type, int32_name, string_type, string_name, array_type, vector_name,
  fixed_type, fd_type, handle_name, entry_tag, default_name, k_default_name, args_key, entries_key,
}
use coro_wayland.Jinja.Contexts.{
  Context, string, object, array, Fields, no_fields, field, Items, no_items,
}
use coro_wayland.Jinja.Identifiers.{is_digit}
use coro_wayland.Jinja.Lexer.{same_word}
use coro_wayland.Xml.{XmlTag, xml_tag, XmlNodes, no_nodes, text_then, tag_then}

-- What becomes of an argument: the type that the request returns, the three arguments of `bind`,
-- its own type, or another one.
pub data ArgKind : Type 0 where
  returned : (interface : List ℕ) → ArgKind
  expanded unchanged : ArgKind
  renamed : (type : List ℕ) → ArgKind

-- The names of the types that do not depend on an interface.
unfoldable pub plain_kind : List ℕ → ArgKind
plain_kind type =
    if same_word type uint_type
    then renamed uint32_name
    else if same_word type int_type
    then renamed int32_name
    else if same_word type string_type
    then renamed string_name
    else if same_word type array_type
    then renamed vector_name
    else if same_word type fixed_type
    then renamed uint32_name
    else if same_word type fd_type
    then renamed handle_name
    else unchanged

-- The tests of `type` and `interface`, for an argument of `bind` or another one.
unfoldable pub arg_kind : Bool → Option (List ℕ) → Option (List ℕ) → ArgKind
unfolding plain_kind
arg_kind is_bind none interface = unchanged
arg_kind is_bind (some type) (some interface) =
    if same_word type new_id_type
    then returned interface
    else if same_word type object_type
    then renamed (to_camel_case interface)
    else plain_kind type
arg_kind is_bind (some type) none =
    if same_word type new_id_type
    then if is_bind then expanded else renamed object_id_name
    else if same_word type object_type
    then renamed object_id_name
    else plain_kind type

-- The variables of the loop over the children: `root`, `args`, `entries` and `count`.
pub record Progress : Type 0 where
  pub root : Fields
  pub args : Items
  pub entries : Items
  pub count : ℕ

-- An argument that `bind` has in the place of its new id.
unfoldable pub bind_arg : List ℕ → List ℕ → Context
bind_arg name type = object (
    field name_key (string name)
      (field type_key (string type) (field tail_key (string true_text) no_fields)))

-- The end of the branch for arguments.
unfoldable pub push_arg : Progress → Fields → Progress
push_arg p members =
    let pushed = if is_empty p.args then members else emplace tail_key (string true_text) members in
    record p { args = push_item p.args (object pushed); count = suc p.count }

unfoldable pub add_arg : ArgKind → Progress → Fields → Progress
unfolding bind_arg push_arg
add_arg (returned interface) p members = record p {
  root = emplace return_type_key (string (to_camel_case interface)) p.root;
  count = suc p.count;
}
add_arg expanded p members = record p {
  args =
      push_item
        (push_item (push_item p.args (bind_arg interface_key string_name))
          (bind_arg version_name uint32_name))
        (bind_arg new_id_type object_id_name);
  count = suc p.count;
}
add_arg unchanged p members = push_arg p members
add_arg (renamed type) p members =
    push_arg p (emplace type_key (string type) (erase type_key members))

-- The texts of a description.
unfoldable pub describe : XmlNodes → Fields → Fields
describe no_nodes root = root
describe (text_then content rest) root =
    describe rest (emplace description_key (string content) root)
describe (tag_then tag rest) root = describe rest root

-- The name of an entry; of an empty one `name[0]` is the terminating zero.
unfoldable pub entry_name : List ℕ → List ℕ
entry_name [] = []
entry_name (c ∷ cs) =
    if is_digit c
    then b'k' ∷ c ∷ cs
    else if same_word (c ∷ cs) default_name
    then k_default_name
    else c ∷ cs

unfoldable pub add_entry : Progress → Fields → Option Progress
unfolding entry_name
add_entry p members = (do
  name ← string_at members name_key
  some (record p {
    entries =
        push_item p.entries
          (object (emplace name_key (string (entry_name name)) (erase name_key members)));
    count = suc p.count;
  }))

-- A turn of the loop for a child of `children` nodes in all.
unfoldable pub add_child : Bool → ℕ → Progress → XmlTag → Option Progress
unfolding add_arg describe add_entry
add_child is_bind children p (xml_tag name attributes nodes) =
    let marked =
      if ltb (suc p.count) children
      then field not_last_key (string true_text) no_fields
      else no_fields in
    let members = emplace_attributes attributes marked in
    if same_word name description_key
    then some (record p { root = describe nodes p.root; count = suc p.count })
    else if same_word name arg_tag
    then some (
        add_arg (arg_kind is_bind (string_at members type_key) (string_at members interface_key)) p
          members)
    else if same_word name entry_tag
    then add_entry p members
    else some (record p { count = suc p.count })

unfoldable pub add_children : Bool → ℕ → Progress → XmlNodes → Option Progress
unfolding add_child
add_children is_bind children p no_nodes = some p
add_children is_bind children p (text_then content rest) = add_children is_bind children p rest
add_children is_bind children p (tag_then tag rest) = (do
  next ← add_child is_bind children p tag
  add_children is_bind children next rest)

unfoldable pub make_subcontext : XmlTag → Option Fields
unfolding add_children
make_subcontext (xml_tag tag attributes nodes) =
    let named = emplace_attributes attributes no_fields in
    (do
      name ← string_at named name_key
      p ←
          add_children (same_word name bind_name) (count_nodes nodes)
            (record {
              root = emplace cppname_key (string (to_camel_case name)) named;
              args = no_items;
              entries = no_items;
              count = 0;
            })
            nodes
      some (emplace entries_key (array p.entries) (emplace args_key (array p.args) p.root)))
