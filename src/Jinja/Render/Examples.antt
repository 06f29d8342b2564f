-- ===== src/Jinja/Render/Examples.antt =====
-- The document of `{% for x in xs %}{{ x.n }}{% endfor %}`, look-ups in its context, and a document that ends
-- with an exception.
use coro_wayland.Base.{◌≡◌, refl, ℕ, List, [], ◌∷◌, some, arith}
use coro_wayland.Jinja.{
  Location, Document, text_node, substitution_node, if_else_node, for_each_node, multiple_nodes,
  no_documents, document_then,
}
use coro_wayland.Jinja.Identifiers.{
  is_digit, ends_part, before, from, is_empty, offset, is_index, all_of,
}
use coro_wayland.Jinja.Identifiers.Scans.{Free}
use coro_wayland.Jinja.Lexer.{same_word}
use coro_wayland.Jinja.Contexts.{
  Context, string, object, array, Fields, no_fields, field, Items, no_items, item, find, get_item,
  value, render_error, out_of_bounds, digits_value, stoul, is_bracket, next_identifier, step_object,
  step_index, step_bracket, walk_array, step_variable, step_found, step_member, walk,
  get_destination_context,
}
use coro_wayland.Jinja.Contexts.Answers.{Leads, found, here, indexed, item_member}
use coro_wayland.Jinja.Contexts.Paths.{get_destination_context_lem}
use coro_wayland.Jinja.Render.{
  sequence, looked_up, found_or_throw, get_destination_context_or_throw, write_string, render_items,
  render_array, render,
}

abbrev place : Location
place = record { line = 1; column = 4 }

abbrev entry : List ℕ → Context
entry s = object (field (b'n' ∷ []) (string s) no_fields)

abbrev entries : Items
entries = item (entry (b'A' ∷ [])) (item (entry (b'B' ∷ [])) no_items)

abbrev members : Fields
members = field (b'x' ∷ b's' ∷ []) (array entries) no_fields

-- `xs[1].n`, in the parts behind `xs[`.
abbrev path : List ℕ
path = b'x' ∷ b's' ∷ b'[' ∷ b'1' ∷ b']' ∷ b'.' ∷ b'n' ∷ []

path-Leads : Leads (object members) path (found (string (b'B' ∷ [])))
unfolding find same_word get_item Free ends_part is_index is_empty all_of is_digit digits_value
path-Leads =
    indexed members entries b'x' (b's' ∷ []) (b'1' ∷ b']' ∷ b'.' ∷ b'n' ∷ [])
      (found (string (b'B' ∷ []))) (refl, (refl, tt)) refl
      (item_member entries (b'1' ∷ []) 1 (field (b'n' ∷ []) (string (b'B' ∷ [])) no_fields)
        (b'n' ∷ []) (found (string (b'B' ∷ []))) (refl, refl, omega arith) refl
        (here (field (b'n' ∷ []) (string (b'B' ∷ [])) no_fields) b'n' [] (string (b'B' ∷ []))
          (refl, tt) refl))

get_destination_context_lem_example :
    get_destination_context (object members) path place ≡ value (some (string (b'B' ∷ [])))
get_destination_context_lem_example =
    get_destination_context_lem (object members) path (found (string (b'B' ∷ []))) place path-Leads

get_destination_context-bounds :
    get_destination_context (object members) (b'x' ∷ b's' ∷ b'[' ∷ b'2' ∷ b']' ∷ []) place
    ≡ render_error out_of_bounds (record { line = 1; column = 6 })
unfolding get_destination_context walk step_member step_found step_variable walk_array step_bracket
    step_index stoul digits_value find same_word get_item before from ends_part is_bracket is_digit
    is_empty next_identifier offset
get_destination_context-bounds = refl

abbrev loop : Document
loop =
    for_each_node (b'x' ∷ b's' ∷ []) (b'x' ∷ []) (substitution_node (b'x' ∷ b'.' ∷ b'n' ∷ []) place)
      place place

render-loop : render loop (object members) ≡ (b'A' ∷ b'B' ∷ [], value tt)
unfolding render get_destination_context walk step_member step_found step_variable step_object find
    same_word get_item before from ends_part next_identifier looked_up found_or_throw write_string
    render_array render_items sequence get_destination_context_or_throw
render-loop = refl

-- `{% for x in xs %}{% if x.n %}{{ x.n }}{% else %}-{% endif %}{% endfor %}{{ z }}` for two items,
-- the second one with an empty name, and no `z`.
abbrev name_path : List ℕ
name_path = b'x' ∷ b'.' ∷ b'n' ∷ []

abbrev body : Document
body =
    if_else_node name_path (substitution_node name_path place) (text_node (b'-' ∷ []) place) place

abbrev page : Document
page = multiple_nodes (
    document_then (for_each_node (b'x' ∷ b's' ∷ []) (b'x' ∷ []) body place place)
      (document_then (substitution_node (b'z' ∷ []) place) no_documents))

abbrev named : Items
named = item (entry (b'A' ∷ [])) (item (entry []) no_items)

abbrev top : Fields
top = field (b'x' ∷ b's' ∷ []) (array named) no_fields
