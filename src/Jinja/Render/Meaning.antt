-- ===== src/Jinja/Render/Meaning.antt =====
-- The methods `render` of src/code_generator/JinjaTemplateEngine.cpp against the rules for
-- documents.
use coro_wayland.Base.{ℕ, ◌≡◌, refl, Bool, true, false, Option, none, some, List, [], ◌++◌}
use coro_wayland.Jinja.{Location, Document, Documents}
use coro_wayland.Jinja.Contexts.{
  Context, object, Fields, Items, overlay, RenderMessage, value, get_destination_context,
}
use coro_wayland.Jinja.Contexts.Answers.{Answer, Leads}
use coro_wayland.Jinja.Contexts.Paths.{get_destination_context_lem}
use coro_wayland.Jinja.Render.{
  Rendering, sequence, looked_up, found_or_throw, get_destination_context_or_throw, write_string,
  is_true, render_items, render_array, render, render_all,
}
use coro_wayland.Jinja.Render.Rules.{
  IsTruth, no_member, no_text, some_text, any_object, no_entry, some_entry, NoString,
  string_refused, string_missing, object_for_string, array_for_string, NoArray, array_refused,
  array_missing, object_for_array, string_for_array, Writes, nothing, text, substituted,
  no_substitute, first_branch, second_branch, no_condition, repeated, no_loop, several, WritesEach,
  no_turn, turn, last_turn, WritesAll, no_more, next, stop, Gives,
}

sequence-next :
    (out out' : List ℕ) (e : Option RenderMessage) (r r' : Rendering)
    → Gives out none r
    → Gives out' e r'
    → Gives (out ++ out') e (sequence r r')
unfolding sequence
sequence-next out out' none r r' h h' = rw (h, h')
sequence-next out out' (some m) r r' h (l, h') = (l, rw (h, h'))

sequence-stop :
    (out : List ℕ) (m : RenderMessage) (r r' : Rendering)
    → Gives out (some m) r
    → Gives out (some m) (sequence r r')
unfolding sequence
sequence-stop out m r r' (l, h) = (l, rw h)

module _ (at : Location) where
  substitution-NoString :
      (c : Context) (path : List ℕ) (a : Answer) (m : RenderMessage)
      → Leads c path a
      → NoString a m
      → Gives [] (some m) (looked_up (get_destination_context_or_throw c path at) (write_string at))
  unfolding get_destination_context_or_throw found_or_throw looked_up write_string
  substitution-NoString c path _ m r (string_refused _) =
      let (l, e) = get_destination_context_lem c path _ at r in (l, rw e)
  substitution-NoString c path _ _ r string_missing =
      let e = get_destination_context_lem c path _ at r in (at, rw e)
  substitution-NoString c path _ _ r (object_for_string f) =
      let e = get_destination_context_lem c path _ at r in (at, rw e)
  substitution-NoString c path _ _ r (array_for_string entries) =
      let e = get_destination_context_lem c path _ at r in (at, rw e)

  loop-NoArray :
      (body : Context → Rendering) (key : List ℕ) (c : Context) (path : List ℕ) (a : Answer)
      (m : RenderMessage)
      → Leads c path a
      → NoArray a m
      → Gives []
          (some m)
          (looked_up (get_destination_context_or_throw c path at) (render_array body key at c))
  unfolding get_destination_context_or_throw found_or_throw looked_up render_array
  loop-NoArray body key c path _ m r (array_refused _) =
      let (l, e) = get_destination_context_lem c path _ at r in (l, rw e)
  loop-NoArray body key c path _ _ r array_missing =
      let e = get_destination_context_lem c path _ at r in (at, rw e)
  loop-NoArray body key c path _ _ r (object_for_array f) =
      let e = get_destination_context_lem c path _ at r in (at, rw e)
  loop-NoArray body key c path _ _ r (string_for_array s) =
      let e = get_destination_context_lem c path _ at r in (at, rw e)

  -- The look-up of a condition is taken for its truth.
  condition-IsTruth :
      (b : Bool) (c : Context) (path : List ℕ) (a : Answer)
      → Leads c path a
      → IsTruth a b
      → (o : Option Context) × (get_destination_context c path at ≡ value o) × (is_true o ≡ b)
  unfolding is_true
  condition-IsTruth _ c path _ r no_member = (none, get_destination_context_lem c path _ at r, refl)
  condition-IsTruth _ c path _ r no_text = (some _, get_destination_context_lem c path _ at r, refl)
  condition-IsTruth _ c path _ r (some_text _ _) =
      (some _, get_destination_context_lem c path _ at r, refl)
  condition-IsTruth _ c path _ r (any_object _) =
      (some _, get_destination_context_lem c path _ at r, refl)
  condition-IsTruth _ c path _ r no_entry =
      (some _, get_destination_context_lem c path _ at r, refl)
  condition-IsTruth _ c path _ r (some_entry _ _) =
      (some _, get_destination_context_lem c path _ at r, refl)

Gives-eq :
    (out : List ℕ) (e : Option RenderMessage) {r r' : Rendering}
    → r ≡ r'
    → Gives out e r'
    → Gives out e r
Gives-eq out e h g = rw h g

mutual
  unfolding render render_items render_array looked_up write_string get_destination_context_or_throw
      found_or_throw

  writes :
      (d : Document) (f : Fields) (out : List ℕ) (e : Option RenderMessage)
      → Writes d f out e
      → Gives out e (render d (object f))
  writes _ f _ _ (nothing _) = refl
  writes _ f _ _ (text content at _) = refl
  writes _ f _ _ (substituted path at _ s r) =
      let h = get_destination_context_lem (object f) path _ at r in rw h
  writes _ f _ _ (no_substitute path at _ a m r n) =
      substitution-NoString at (object f) path a m r n
  writes _ f _ _ (first_branch path d d' at _ a out e r t w) =
      let (o, h, g) = condition-IsTruth at true (object f) path a r t in
      rw (h, g) (writes d f out e w)
  writes _ f _ _ (second_branch path d d' at _ a out e r t w) =
      let (o, h, g) = condition-IsTruth at false (object f) path a r t in
      rw (h, g) (writes d' f out e w)
  writes _ f _ _ (no_condition path d d' at _ m r) =
      let (l, h) = get_destination_context_lem (object f) path _ at r in (l, rw h)
  writes _ f _ _ (repeated path key d at at' _ entries out e r w) =
      let h = get_destination_context_lem (object f) path _ at' r in
      rw h (writes_each d key at' f entries out e w)
  writes _ f _ _ (no_loop path key d at at' _ a m r n) =
      loop-NoArray at' (render d) key (object f) path a m r n
  writes _ f _ _ (several ds _ out e w) = writes_all ds f out e w

  writes_each :
      (d : Document) (key : List ℕ) (at : Location) (f : Fields) (entries : Items) (out : List ℕ)
      (e : Option RenderMessage)
      → WritesEach d key f entries out e
      → Gives out e (render_items (render d) key at (object f) entries)
  writes_each _ _ at _ _ _ _ (no_turn d key f) = refl
  writes_each _ _ at _ _ _ _ (turn d key f c rest out out' e w ws) =
      sequence-next out out' e _ _ (writes d (overlay key c f) out none w)
        (writes_each d key at f rest out' e ws)
  writes_each _ _ at _ _ _ _ (last_turn d key f c rest out m w) =
      sequence-stop out m _ _ (writes d (overlay key c f) out (some m) w)

  writes_all :
      (ds : Documents) (f : Fields) (out : List ℕ) (e : Option RenderMessage)
      → WritesAll ds f out e
      → Gives out e (render_all ds (object f))
  writes_all _ _ _ _ (no_more f) = refl
  writes_all _ _ _ _ (next d ds f out out' e w ws) =
      sequence-next out out' e _ _ (writes d f out none w) (writes_all ds f out' e ws)
  writes_all _ _ _ _ (stop d ds f out m w) = sequence-stop out m _ _ (writes d f out (some m) w)
