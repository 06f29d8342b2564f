-- ===== src/Generator/Examples.antt =====
-- Runs of the functions of src/code_generator/code_generator.cpp.
use coro_wayland.Base.{ℕ, ◌+◌, ◌≡◌, refl, Option, none, some, List, [], ◌∷◌, ◌++◌}
use coro_wayland.Generator.{size, string_at, emplace_attributes, to_camel_case}
use coro_wayland.Generator.Arrays.{tags_named, NoNumbers, HasNumber}
use coro_wayland.Generator.Camel.{is_line, capitalize_all, join, prefix, to_camel_case-join}
use coro_wayland.Generator.Messages.{make_subcontext}
use coro_wayland.Generator.Numbers.{add_members_number}
use coro_wayland.Generator.Protocol.{Members, add_members}
use coro_wayland.Generator.Words.{name_key, request_tag, event_tag}
use coro_wayland.Jinja.Contexts.{Context, no_items, find, get_item}
use coro_wayland.Jinja.Identifiers.Scans.{Free}
use coro_wayland.Jinja.Lexer.{same_word}
use coro_wayland.Xml.{xml_tag, XmlNodes, no_nodes, tag_then}
use coro_wayland.Xml.Lexer.{starts_with}

-- `ab_c` and `wl_ab_c` are named `AbC`.
to_camel_case-join_example :
    (to_camel_case (join (b'a' ∷ b'b' ∷ []) ((b'c' ∷ []) ∷ []))
      ≡ capitalize_all (b'a' ∷ b'b' ∷ []) ((b'c' ∷ []) ∷ []))
    × (to_camel_case (prefix ++ join (b'a' ∷ b'b' ∷ []) ((b'c' ∷ []) ∷ []))
        ≡ capitalize_all (b'a' ∷ b'b' ∷ []) ((b'c' ∷ []) ∷ []))
unfolding Free is_line starts_with join
to_camel_case-join_example =
    to_camel_case-join (b'a' ∷ b'b' ∷ []) ((b'c' ∷ []) ∷ []) ((refl, (refl, tt)), ((refl, tt), tt))
      refl

abbrev digit : ℕ → List ℕ
digit n = (b'0' + n) ∷ []

-- Two requests and an event.
abbrev nodes : XmlNodes
nodes = tag_then (xml_tag request_tag ((name_key, b'a' ∷ []) ∷ []) no_nodes) (
    tag_then (xml_tag event_tag ((name_key, b'b' ∷ []) ∷ []) no_nodes)
      (tag_then (xml_tag request_tag ((name_key, b'c' ∷ []) ∷ []) no_nodes) no_nodes))

abbrev nothing : Members
nothing = record { requests = no_items; events = no_items; enums = no_items }

abbrev members_or_nothing : Option Members → Members
members_or_nothing none = nothing
members_or_nothing (some m) = m

abbrev members : Members
members = members_or_nothing (add_members digit nothing nodes)

members_made : add_members digit nothing nodes ≡ some members
unfolding add_members same_word make_subcontext string_at find emplace_attributes
members_made = refl

nodes-NoNumbers : NoNumbers nodes
unfolding NoNumbers same_word
nodes-NoNumbers = ((refl, tt), ((refl, tt), ((refl, tt), tt)))

add_members_number_example :
    ((i : ℕ) (c : Context) → get_item members.requests i ≡ some c → HasNumber digit i c)
    × ((i : ℕ) (c : Context) → get_item members.events i ≡ some c → HasNumber digit i c)
    × (size members.requests ≡ tags_named request_tag nodes)
    × (size members.events ≡ tags_named event_tag nodes)
add_members_number_example = add_members_number digit nodes members nodes-NoNumbers members_made
