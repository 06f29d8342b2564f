-- ===== src/Generator/Protocol.antt =====
-- `make_context` of src/code_generator/code_generator.cpp: interfaces and the whole description.
use coro_wayland.Base.Options.{◌>>=◌}
use coro_wayland.Base.{ℕ, Option, some, List, ◌++◌, if◌then◌else◌}
use coro_wayland.Generator.{
  to_camel_case, emplace, erase, string_at, emplace_attributes, push_item, is_empty, size,
}
use coro_wayland.Generator.Messages.{make_subcontext}
use coro_wayland.Generator.Words.{
  name_key, cppname_key, true_text, tail_key, extension_key, request_tag, event_tag, enum_tag,
  num_key, event_suffix, requests_key, events_key, enums_key, interface_key, interfaces_key,
}
use coro_wayland.Jinja.Contexts.{Context, string, object, array, Fields, no_fields, Items, no_items}
use coro_wayland.Jinja.Lexer.{same_word}
use coro_wayland.Xml.{XmlTag, xml_tag, XmlNodes, no_nodes, text_then, tag_then}

-- The arrays of an interface.
pub record Members : Type 0 where
  pub requests : Items
  pub events : Items
  pub enums : Items

-- `to_string` is `std::to_string`.
module _ (to_string : ℕ → List ℕ) where
  unfoldable pub add_request : Members → Fields → Members
  add_request m message = record m {
    requests =
        push_item m.requests
          (object (emplace num_key (string (to_string (size m.requests))) message));
  }

  unfoldable pub add_event : Members → Fields → Option Members
  add_event m message = (do
    name ← string_at message cppname_key
    some (
        let renamed =
          emplace cppname_key (string (name ++ event_suffix)) (erase cppname_key message) in
        let marked =
          if is_empty m.events then renamed else emplace tail_key (string true_text) renamed in
        record m {
          events =
              push_item m.events
                (object (emplace num_key (string (to_string (size m.events))) marked));
        }))

  -- A turn of the loop over the children of an interface.
  unfoldable pub add_member : Members → XmlTag → Option Members
  unfolding add_request add_event
  add_member m (xml_tag name attributes nodes) =
      if same_word name request_tag
      then (do
        message ← make_subcontext (xml_tag name attributes nodes)
        some (add_request m message))
      else if same_word name event_tag
      then make_subcontext (xml_tag name attributes nodes) >>= add_event m
      else if same_word name enum_tag
      then (do
        message ← make_subcontext (xml_tag name attributes nodes)
        some (record m { enums = push_item m.enums (object message) }))
      else some m

  unfoldable pub add_members : Members → XmlNodes → Option Members
  unfolding add_member
  add_members m no_nodes = some m
  add_members m (text_then content rest) = add_members m rest
  add_members m (tag_then tag rest) = (do next ← add_member m tag; add_members next rest)

  unfoldable pub make_interface : XmlTag → Option Fields
  unfolding add_members
  make_interface (xml_tag tag attributes nodes) =
      let named = emplace_attributes attributes no_fields in
      (do
        name ← string_at named name_key
        m ← add_members (record { requests = no_items; events = no_items; enums = no_items }) nodes
        some (
            emplace enums_key (array m.enums) (
              emplace events_key (array m.events) (
                emplace requests_key (array m.requests)
                  (emplace cppname_key (string (to_camel_case name)) named)))))

  -- The loop over the children of the protocol.
  unfoldable pub add_interfaces : Items → XmlNodes → Option Items
  unfolding make_interface
  add_interfaces interfaces no_nodes = some interfaces
  add_interfaces interfaces (text_then content rest) = add_interfaces interfaces rest
  add_interfaces interfaces (tag_then (xml_tag name attributes nodes) rest) =
      let skipped = add_interfaces interfaces rest in
      if same_word name interface_key
      then (do
        made ← make_interface (xml_tag name attributes nodes)
        add_interfaces (push_item interfaces (object made)) rest)
      else skipped

  unfoldable pub make_context : XmlTag → List ℕ → Option Context
  unfolding add_interfaces
  make_context (xml_tag tag attributes nodes) extension = (do
    interfaces ← add_interfaces no_items nodes
    some (
        object (
          emplace interfaces_key (array interfaces)
            (emplace_attributes attributes (emplace extension_key (string extension) no_fields)))))
