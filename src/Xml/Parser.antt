-- ===== src/Xml/Parser.antt =====
-- The parser of src/code_generator/WaylandXmlParser.cpp: `parse_tag`, `parse_xml_tag` and
-- `parse_wayland_xml`.
pub mod Tags
pub mod Reading
pub mod Cuts
pub mod Closing
pub mod Accepting
use coro_wayland.Base.{
  ℕ, zero, suc, ◌-◌, not, ◌&&◌, List, [], ◌∷◌, if◌then◌else◌, length, get_or, take, drop,
}
use coro_wayland.Jinja.Lexer.{same_word}
use coro_wayland.Xml.{
  TokenType, open_tag, close_tag, self_close, open_close_tag, tag_name, attribute_name,
  attribute_value, text, end_of_file, is, Token, token, Attribute, XmlTag, xml_tag, XmlNodes,
  no_nodes, text_then, tag_then,
}
use coro_wayland.Xml.Errors.{
  Result, ok, runtime_error, undefined, out_of_fuel, ◌>>=◌, unexpected_end_of_tokens,
  expected_open_tag, expected_tag_name, expected_attribute_value, unexpected_token_in_tag,
  expected_tag_end, unexpected_token, expected_close_tag, mismatched_close_tag,
}
use coro_wayland.Xml.Lexer.{tokenize}

-- A token of a span whose length has been tested.
abbrev pub token_at : List Token → ℕ → Token
token_at ts i = get_or ts i (token end_of_file [])

-- The branches of the loop of `parse_tag` for a token that is no name of an attribute, in a tag
-- that starts with a token of type `head`.
unfoldable pub end_tag : TokenType → ℕ → TokenType → Result ℕ
end_tag head index type =
    if is type self_close && is head open_tag
    then ok (suc index)
    else if is type close_tag
    then ok (suc index)
    else runtime_error unexpected_token_in_tag

-- The loop of `parse_tag` from `index` on.
unfoldable pub tag_loop : TokenType → ℕ → List Token → Result ℕ
unfolding end_tag
tag_loop head index [] = ok index
tag_loop head index (t ∷ []) =
    if is t.token_type attribute_name && is head open_tag
    then runtime_error expected_attribute_value
    else end_tag head index t.token_type
tag_loop head index (t ∷ u ∷ ts) =
    let rest = tag_loop head (suc (suc index)) ts in
    if is t.token_type attribute_name && is head open_tag
    then (if is u.token_type attribute_value then rest else runtime_error expected_attribute_value)
    else end_tag head index t.token_type

-- What follows the loop.
unfoldable pub cut_tag : List Token → ℕ → Result (List Token)
cut_tag ts index =
    let last = token_at ts (index - 1) in
    if not (is last.token_type self_close) && not (is last.token_type close_tag)
    then runtime_error expected_tag_end
    else ok (take index ts)

-- `parse_tag` returns the tokens of the tag.
unfoldable pub parse_tag : List Token → Result (List Token)
unfolding tag_loop cut_tag
parse_tag [] = runtime_error unexpected_end_of_tokens
parse_tag (t ∷ []) =
    if not (is t.token_type open_tag) && not (is t.token_type open_close_tag)
    then runtime_error expected_open_tag
    else runtime_error expected_tag_name
parse_tag (t ∷ u ∷ ts) =
    if not (is t.token_type open_tag) && not (is t.token_type open_close_tag)
    then runtime_error expected_open_tag
    else if not (is u.token_type tag_name)
    then runtime_error expected_tag_name
    else (do index ← tag_loop t.token_type 2 ts; cut_tag (t ∷ u ∷ ts) index)

-- The loop of `parse_xml_tag` over the tokens of a tag behind its name.
unfoldable pub attributes_of : List Token → Result (List Attribute)
attributes_of [] = ok []
attributes_of (t ∷ []) = if is t.token_type attribute_name then undefined else ok []
attributes_of (t ∷ u ∷ ts) =
    let after_value = attributes_of ts in
    let after_token = attributes_of (u ∷ ts) in
    if is t.token_type attribute_name
    then (do rest ← after_value; ok ((t.value, u.value) ∷ rest))
    else after_token

-- The tokens behind a closing tag, whose name must be that of the opening tag.
unfoldable pub after_close : List ℕ → List Token → List Token → Result (List Token)
after_close name ts tag =
    if not (same_word (token_at tag 1).value name)
    then runtime_error (mismatched_close_tag name (token_at tag 1).value)
    else ok (drop (length tag) ts)

-- The closing tag at the start of the tokens behind the children.
unfoldable pub parse_close : List ℕ → List Token → Result (List Token)
unfolding parse_tag after_close
parse_close name ts =
    if is (token_at ts 0).token_type open_close_tag
    then parse_tag ts >>= after_close name ts
    else runtime_error expected_close_tag

-- What `parse_xml_tag` returns: `ParseXmlResult`.
abbrev pub ParseXmlResult : Type 0
ParseXmlResult = XmlTag × List Token

module _ (parse : List Token → Result ParseXmlResult) where
  -- The loop over the children.
  unfoldable pub parse_children : ℕ → List Token → Result (XmlNodes × List Token)
  parse_children zero ts = out_of_fuel
  parse_children (suc fuel) [] = ok (no_nodes, [])
  parse_children (suc fuel) (t ∷ ts) =
      if is t.token_type open_close_tag
      then ok (no_nodes, t ∷ ts)
      else if is t.token_type open_tag
      then (do
        child ← parse (t ∷ ts)
        rest ← parse_children fuel child.1
        ok (tag_then child.0 rest.0, rest.1))
      else if is t.token_type text
      then (do rest ← parse_children fuel ts; ok (text_then t.value rest.0, rest.1))
      else runtime_error unexpected_token

  -- What follows the tokens `tag` of the opening tag; `ts` are those behind it.
  unfoldable pub parse_element : List Token → List Attribute → List Token → Result ParseXmlResult
  unfolding parse_children parse_close
  parse_element tag attributes ts =
      let name = (token_at tag 1).value in
      if is (token_at tag (length tag - 1)).token_type self_close
      then ok (xml_tag name attributes no_nodes, ts)
      else (do
        children ← parse_children (suc (length ts)) ts
        rest ← parse_close name children.1
        ok (xml_tag name attributes children.0, rest))

-- Fuel for the depth of the tags.
unfoldable pub parse_xml_tag : ℕ → List Token → Result ParseXmlResult
unfolding parse_tag attributes_of parse_element
parse_xml_tag zero ts = out_of_fuel
parse_xml_tag (suc fuel) ts = (do
  tag ← parse_tag ts
  attributes ← attributes_of (drop 2 tag)
  parse_element (parse_xml_tag fuel) tag attributes (drop (length tag) ts))

-- The number of the tokens is enough for the depth.
unfoldable pub parse_wayland_xml : ℕ → List ℕ → Result XmlTag
unfolding tokenize parse_xml_tag
parse_wayland_xml fuel content = (do
  tokens ← tokenize fuel content
  parsed ← parse_xml_tag (suc (length tokens)) tokens
  ok parsed.0)
