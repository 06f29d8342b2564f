-- ===== src/Jinja/Render.antt =====
-- The methods `render` of the nodes of src/code_generator/JinjaTemplateEngine.cpp.
pub mod Rules
pub mod Meaning
pub mod Endings
mod Examples
use coro_wayland.Base.{
  ℕ, Bool, true, false, not, Option, none, some, List, [], ◌∷◌, ◌++◌, if◌then◌else◌, length,
}
use coro_wayland.Jinja.{
  Location, Document, empty_document, text_node, substitution_node, if_else_node, for_each_node,
  multiple_nodes, Documents, no_documents, document_then,
}
use coro_wayland.Jinja.Identifiers.{is_empty, offset}
use coro_wayland.Jinja.Contexts.{
  Context, string, object, array, Fields, Items, no_items, item, overlay, RenderMessage, not_found,
  not_a_string, not_an_array, bad_variant_access, Outcome, value, render_error, no_fuel, ◌>>=◌,
  get_destination_context,
}

-- What a rendering writes to the stream, and how it ends.
abbrev pub Rendering : Type 0
Rendering = List ℕ × Outcome Unit

abbrev pub nothing_written : Rendering
nothing_written = ([], value tt)

-- One rendering behind another; an exception ends both.
unfoldable pub sequence : Rendering → Rendering → Rendering
sequence (out, value u) r = (out ++ r.0, r.1)
sequence (out, render_error m l) r = (out, render_error m l)
sequence (out, no_fuel) r = (out, no_fuel)

-- What follows a look-up, whose exception is passed on.
unfoldable pub looked_up {ℓ} : {A : Type ℓ} → Outcome A → (A → Rendering) → Rendering
looked_up (value a) k = k a
looked_up (render_error m l) k = ([], render_error m l)
looked_up no_fuel k = ([], no_fuel)

unfoldable pub found_or_throw : Location → Option Context → Outcome Context
found_or_throw at none = render_error not_found at
found_or_throw at (some c) = value c

unfoldable pub get_destination_context_or_throw : Context → List ℕ → Location → Outcome Context
unfolding get_destination_context found_or_throw
get_destination_context_or_throw c path at = (do
  found ← get_destination_context c path at
  found_or_throw at found)

-- `SubstitutionNode::render` behind the look-up.
unfoldable pub write_string : Location → Context → Rendering
write_string at (string s) = (s, value tt)
write_string at _ = ([], render_error not_a_string at)

-- The condition of `IfElseNode::render`.
unfoldable pub is_true : Option Context → Bool
unfolding is_empty
is_true none = false
is_true (some (string s)) = not (is_empty s)
is_true (some (object members)) = true
is_true (some (array no_items)) = false
is_true (some (array (item c entries))) = true

-- The loop of `ForEachNode::render`; `body` renders the body of the loop.
module _ (body : Context → Rendering) (item_variable : List ℕ) (at : Location) where
  unfoldable pub render_items : Context → Items → Rendering
  unfolding sequence
  render_items context no_items = nothing_written
  render_items (object base) (item c rest) =
      sequence (body (object (overlay item_variable c base))) (render_items (object base) rest)
  render_items _ (item c rest) = ([], render_error bad_variant_access at)

  unfoldable pub render_array : Context → Context → Rendering
  unfolding render_items
  render_array context (array entries) = render_items context entries
  render_array context _ = ([], render_error not_an_array at)

unfoldable mutual
  unfolding sequence looked_up write_string is_true render_array get_destination_context_or_throw

  pub render : Document → Context → Rendering
  render empty_document c = nothing_written
  render (text_node content at) c = (content, value tt)
  render (substitution_node path at) c =
      looked_up (get_destination_context_or_throw c path at) (write_string at)
  render (if_else_node condition true_branch false_branch at) c =
      looked_up (get_destination_context c condition at)
        (λ found. if is_true found then render true_branch c else render false_branch c)
  render (for_each_node loop item_variable body item_at loop_at) c =
      looked_up (get_destination_context_or_throw c loop loop_at)
        (render_array (render body) item_variable loop_at c)
  render (multiple_nodes ds) c = render_all ds c

  -- `MultipleNodes::render`.
  pub render_all : Documents → Context → Rendering
  render_all no_documents c = nothing_written
  render_all (document_then d ds) c = sequence (render d c) (render_all ds c)
