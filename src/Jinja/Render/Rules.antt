-- ===== src/Jinja/Render/Rules.antt =====
-- What a document says about its output, told by rules, for the methods `render` of
-- src/code_generator/JinjaTemplateEngine.cpp.
use coro_wayland.Base.{ℕ, ◌≡◌, Bool, true, false, Option, none, some, List, [], ◌∷◌, ◌++◌}
use coro_wayland.Jinja.{
  Location, Document, empty_document, text_node, substitution_node, if_else_node, for_each_node,
  multiple_nodes, Documents, no_documents, document_then,
}
use coro_wayland.Jinja.Contexts.{
  Context, string, object, array, Fields, Items, no_items, item, overlay, RenderMessage, not_found,
  not_a_string, not_an_array, value, render_error,
}
use coro_wayland.Jinja.Contexts.Answers.{Answer, found, missing, refused, Leads}
use coro_wayland.Jinja.Render.{Rendering}

-- The truth of a condition: a name without a member, the empty string and the empty array are
-- false.
pub data IsTruth : Answer → Bool → Type 0 where
  no_member : IsTruth missing false
  no_text : IsTruth (found (string [])) false
  some_text : (c : ℕ) (cs : List ℕ) → IsTruth (found (string (c ∷ cs))) true
  any_object : (f : Fields) → IsTruth (found (object f)) true
  no_entry : IsTruth (found (array no_items)) false
  some_entry : (c : Context) (entries : Items) → IsTruth (found (array (item c entries))) true

-- A string is what a substitution wants, and an array what a loop wants; else the exception.
pub data NoString : Answer → RenderMessage → Type 0 where
  string_refused : (m : RenderMessage) → NoString (refused m) m
  string_missing : NoString missing not_found
  object_for_string : (f : Fields) → NoString (found (object f)) not_a_string
  array_for_string : (entries : Items) → NoString (found (array entries)) not_a_string

pub data NoArray : Answer → RenderMessage → Type 0 where
  array_refused : (m : RenderMessage) → NoArray (refused m) m
  array_missing : NoArray missing not_found
  object_for_array : (f : Fields) → NoArray (found (object f)) not_an_array
  string_for_array : (s : List ℕ) → NoArray (found (string s)) not_an_array

-- What a document writes in an object, and the exception that ends it, if there is one.
mutual
  pub data Writes : Document → Fields → List ℕ → Option RenderMessage → Type 0 where
    nothing : (f : Fields) → Writes empty_document f [] none
    text :
        (content : List ℕ) (at : Location) (f : Fields)
        → Writes (text_node content at) f content none
    substituted :
        (path : List ℕ) (at : Location) (f : Fields) (s : List ℕ)
        → Leads (object f) path (found (string s))
        → Writes (substitution_node path at) f s none
    no_substitute :
        (path : List ℕ) (at : Location) (f : Fields) (a : Answer) (m : RenderMessage)
        → Leads (object f) path a
        → NoString a m
        → Writes (substitution_node path at) f [] (some m)
    first_branch :
        (path : List ℕ) (d d' : Document) (at : Location) (f : Fields) (a : Answer) (out : List ℕ)
        (e : Option RenderMessage)
        → Leads (object f) path a
        → IsTruth a true
        → Writes d f out e
        → Writes (if_else_node path d d' at) f out e
    second_branch :
        (path : List ℕ) (d d' : Document) (at : Location) (f : Fields) (a : Answer) (out : List ℕ)
        (e : Option RenderMessage)
        → Leads (object f) path a
        → IsTruth a false
        → Writes d' f out e
        → Writes (if_else_node path d d' at) f out e
    no_condition :
        (path : List ℕ) (d d' : Document) (at : Location) (f : Fields) (m : RenderMessage)
        → Leads (object f) path (refused m)
        → Writes (if_else_node path d d' at) f [] (some m)
    repeated :
        (path key : List ℕ) (d : Document) (at at' : Location) (f : Fields) (entries : Items)
        (out : List ℕ) (e : Option RenderMessage)
        → Leads (object f) path (found (array entries))
        → WritesEach d key f entries out e
        → Writes (for_each_node path key d at at') f out e
    no_loop :
        (path key : List ℕ) (d : Document) (at at' : Location) (f : Fields) (a : Answer)
        (m : RenderMessage)
        → Leads (object f) path a
        → NoArray a m
        → Writes (for_each_node path key d at at') f [] (some m)
    several :
        (ds : Documents) (f : Fields) (out : List ℕ) (e : Option RenderMessage)
        → WritesAll ds f out e
        → Writes (multiple_nodes ds) f out e

  -- The body of a loop, once for each item in order, with the item under the name of the loop.
  pub data WritesEach
      : Document → List ℕ → Fields → Items → List ℕ → Option RenderMessage → Type 0 where
    no_turn : (d : Document) (key : List ℕ) (f : Fields) → WritesEach d key f no_items [] none
    turn :
        (d : Document) (key : List ℕ) (f : Fields) (c : Context) (rest : Items) (out out' : List ℕ)
        (e : Option RenderMessage)
        → Writes d (overlay key c f) out none
        → WritesEach d key f rest out' e
        → WritesEach d key f (item c rest) (out ++ out') e
    last_turn :
        (d : Document) (key : List ℕ) (f : Fields) (c : Context) (rest : Items) (out : List ℕ)
        (m : RenderMessage)
        → Writes d (overlay key c f) out (some m)
        → WritesEach d key f (item c rest) out (some m)

  -- Documents in order, up to the first exception.
  pub data WritesAll : Documents → Fields → List ℕ → Option RenderMessage → Type 0 where
    no_more : (f : Fields) → WritesAll no_documents f [] none
    next :
        (d : Document) (ds : Documents) (f : Fields) (out out' : List ℕ) (e : Option RenderMessage)
        → Writes d f out none
        → WritesAll ds f out' e
        → WritesAll (document_then d ds) f (out ++ out') e
    stop :
        (d : Document) (ds : Documents) (f : Fields) (out : List ℕ) (m : RenderMessage)
        → Writes d f out (some m)
        → WritesAll (document_then d ds) f out (some m)

-- The output of a rendering, and its end: with the document, or with an exception at a location.
abbrev pub Gives : List ℕ → Option RenderMessage → Rendering → Type 0
Gives out none r = r ≡ (out, value tt)
Gives out (some m) r = (l : Location) × (r ≡ (out, render_error m l))
