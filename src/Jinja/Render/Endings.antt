-- ===== src/Jinja/Render/Endings.antt =====
-- Rendering ends.
use coro_wayland.Base.{ℕ, ◌≢◌, Bool, true, false, Option, none, some, List, if◌then◌else◌}
use coro_wayland.Jinja.{
  Location, Document, empty_document, text_node, substitution_node, if_else_node, for_each_node,
  multiple_nodes, Documents, no_documents, document_then,
}
use coro_wayland.Jinja.Contexts.{
  Context, string, object, array, Items, no_items, item, overlay, Outcome, value, render_error,
  no_fuel,
}
use coro_wayland.Jinja.Contexts.Fuel.{
  Settled, gives, throws, Settled-no_fuel, bind-Settled, get_destination_context-Settled,
}
use coro_wayland.Jinja.Render.{
  Rendering, sequence, looked_up, found_or_throw, get_destination_context_or_throw, write_string,
  is_true, render_items, render_array, render, render_all,
}

-- A rendering that ends with the document or with an exception.
abbrev pub Done : Rendering → Type 0
Done r = Settled r.1

sequence-Done : (r s : Rendering) → Done r → Done s → Done (sequence r s)
unfolding sequence
sequence-Done (out, value u) s p q = q
sequence-Done (out, render_error m l) s p q = p
sequence-Done (out, no_fuel) s p q = p

looked_up-Done {ℓ} :
    {A : Type ℓ} {o : Outcome A} (k : A → Rendering)
    → Settled o
    → ((a : A) → Done (k a))
    → Done (looked_up o k)
unfolding looked_up
looked_up-Done k (gives a) more = more a
looked_up-Done k (throws m l) more = throws m l

found_or_throw-Settled :
    (at : Location) (found : Option Context) → Settled (found_or_throw at found)
unfolding found_or_throw
found_or_throw-Settled at none = throws _ _
found_or_throw-Settled at (some c) = gives c

or_throw-Settled :
    (c : Context) (path : List ℕ) (at : Location)
    → Settled (get_destination_context_or_throw c path at)
unfolding get_destination_context_or_throw
or_throw-Settled c path at =
    bind-Settled _ (get_destination_context-Settled c path at) (found_or_throw-Settled at)

write_string-Done : (at : Location) (c : Context) → Done (write_string at c)
unfolding write_string
write_string-Done at (string s) = gives tt
write_string-Done at (object members) = throws _ _
write_string-Done at (array entries) = throws _ _

module _ (body : Context → Rendering) (done : (c : Context) → Done (body c)) (key : List ℕ)
    (at : Location) where
  render_items-Done : (c : Context) (entries : Items) → Done (render_items body key at c entries)
  unfolding render_items
  render_items-Done c no_items = gives tt
  render_items-Done (object base) (item c rest) =
      sequence-Done (body (object (overlay key c base)))
        (render_items body key at (object base) rest) (done (object (overlay key c base)))
        (render_items-Done (object base) rest)
  render_items-Done (string s) (item c rest) = throws _ _
  render_items-Done (array entries) (item c rest) = throws _ _

  render_array-Done : (c a : Context) → Done (render_array body key at c a)
  unfolding render_array
  render_array-Done c (array entries) = render_items-Done c entries
  render_array-Done c (string s) = throws _ _
  render_array-Done c (object members) = throws _ _

if-Done : (b : Bool) (r s : Rendering) → Done r → Done s → Done (if b then r else s)
if-Done true r s p q = p
if-Done false r s p q = q

mutual
  unfolding render

  render-Done : (d : Document) (c : Context) → Done (render d c)
  render-Done empty_document c = gives tt
  render-Done (text_node content at) c = gives tt
  render-Done (substitution_node path at) c =
      looked_up-Done (write_string at) (or_throw-Settled c path at) (write_string-Done at)
  render-Done (if_else_node condition true_branch false_branch at) c =
      looked_up-Done _ (get_destination_context-Settled c condition at) (λ found.
        if-Done (is_true found) _ _ (render-Done true_branch c) (render-Done false_branch c))
  render-Done (for_each_node loop key body item_at loop_at) c =
      looked_up-Done _ (or_throw-Settled c loop loop_at)
        (render_array-Done (render body) (render-Done body) key loop_at c)
  render-Done (multiple_nodes ds) c = render_all-Done ds c

  render_all-Done : (ds : Documents) (c : Context) → Done (render_all ds c)
  render_all-Done no_documents c = gives tt
  render_all-Done (document_then d ds) c =
      sequence-Done (render d c) (render_all ds c) (render-Done d c) (render_all-Done ds c)

-- Rendering a document ends in every context: the fuel of the look-ups does not run out.
pub render_ends : (d : Document) (c : Context) → (render d c).1 ≢ no_fuel
render_ends d c = Settled-no_fuel (render-Done d c)
