-- ===== src/Xml/Examples.antt =====
-- Runs of the parser of src/code_generator/WaylandXmlParser.cpp.
use coro_wayland.Base.{ℕ, ◌≡◌, ◌≢◌, refl, true, false, arith, List, [], ◌∷◌, ◌++◌}
use coro_wayland.Jinja.Identifiers.{is_space, from, before, is_empty}
use coro_wayland.Jinja.Identifiers.Scans.{Free}
use coro_wayland.Jinja.Lexer.{same_word}
use coro_wayland.Xml.{
  open_tag, self_close, tag_name, end_of_file, is, Token, token, XmlTag, xml_tag, no_nodes,
  text_then, tag_then,
}
use coro_wayland.Xml.Errors.{ok, out_of_fuel, undefined}
use coro_wayland.Xml.Language.{no_attributes, Writes, alone}
use coro_wayland.Xml.Lexer.{
  skip_whitespace, starts_with, is_solid, ends_attributes, ends_tag_name, ends_attribute_name,
  is_quote, is_open, tokenize, lex_next, lex_in_tag, lex_outside, add_attribute_tokens,
  attribute_loop, name_tokens,
}
use coro_wayland.Xml.Lexer.Hanging.{Comes, turns, stays, tokenize_settles, tokenize-slash}
use coro_wayland.Xml.Parser.{parse_xml_tag, parse_wayland_xml}
use coro_wayland.Xml.Parser.Accepting.{parse_xml_tag_ends, parse_xml_tag_sound}
use coro_wayland.Xml.Parser.Reading.{parse_xml_tag-Writes}
use coro_wayland.Xml.Printing.{
  write_attributes, write_close, write_tag, attribute_tokens, tag_tokens, IsWritable,
}
use coro_wayland.Xml.Printing.RoundTrip.{parse_wayland_xml-write_tag}

-- `<a b="c"><d/>e</a>` behind a declaration.
parse_small :
    parse_wayland_xml 20 (
      b'<' ∷ b'?' ∷ b'x' ∷ b'?' ∷ b'>' ∷ b'\n' ∷ b'<' ∷ b'a' ∷ b' ' ∷ b'b' ∷ b'=' ∷ b'"' ∷ b'c'
      ∷ b'"' ∷ b'>' ∷ b'<' ∷ b'd' ∷ b'/' ∷ b'>' ∷ b'e' ∷ b'<' ∷ b'/' ∷ b'a' ∷ b'>' ∷ [])
    ≡ ok (
        xml_tag
          (b'a' ∷ [])
          ((b'b' ∷ [], b'c' ∷ []) ∷ [])
          (tag_then (xml_tag (b'd' ∷ []) [] no_nodes) (text_then (b'e' ∷ []) no_nodes)))
unfolding parse_wayland_xml skip_whitespace from is_solid is_space ends_attributes ends_tag_name
    before ends_attribute_name is_quote is_open is same_word
parse_small = refl

-- A tag with an attribute, a tag inside it and a text.
abbrev small : XmlTag
small =
    xml_tag (b'a' ∷ []) ((b'b' ∷ [], b'c' ∷ []) ∷ [])
      (tag_then (xml_tag (b'd' ∷ []) [] no_nodes) (text_then (b'e' ∷ []) no_nodes))

small-IsWritable : IsWritable small
unfolding IsWritable Free is_space ends_tag_name ends_attribute_name is_quote is_open
small-IsWritable = (
  (refl, refl, refl, refl, (refl, tt)),
  ((refl, (refl, tt)), (refl, tt), tt),
  (((refl, refl, refl, refl, (refl, tt)), tt, tt), ((refl, (refl, tt)), tt, tt)),
)

parse_wayland_xml-write_tag_example :
    parse_wayland_xml 100 (write_tag (b'\n' ∷ b' ' ∷ []) small []) ≡ ok small
unfolding Free is_solid is_space write_tag write_attributes write_close
parse_wayland_xml-write_tag_example =
    parse_wayland_xml-write_tag (b'\n' ∷ b' ' ∷ []) small 100 (refl, (refl, tt)) small-IsWritable
      (omega arith)

-- The tokens of `small`, with a token behind them.
abbrev small_tokens : List Token
small_tokens = tag_tokens small (token end_of_file [] ∷ [])

parse_xml_tag-Writes_example :
    parse_xml_tag 4 (
      (token open_tag [] ∷ token tag_name (b'a' ∷ []) ∷ token self_close [] ∷ [])
      ++ token end_of_file [] ∷ [])
    ≡ ok (xml_tag (b'a' ∷ []) [] no_nodes, token end_of_file [] ∷ [])
parse_xml_tag-Writes_example =
    parse_xml_tag-Writes 4
      (token open_tag [] ∷ token tag_name (b'a' ∷ []) ∷ token self_close [] ∷ [])
      (xml_tag (b'a' ∷ []) [] no_nodes) (token end_of_file [] ∷ [])
      (alone (token open_tag []) (token tag_name (b'a' ∷ [])) (token self_close []) [] []
        (record { opens = refl; names = refl }) no_attributes refl)
      (omega arith)

small_parsed : parse_xml_tag 20 small_tokens ≡ ok (small, token end_of_file [] ∷ [])
unfolding parse_xml_tag is same_word tag_tokens attribute_tokens
small_parsed = refl

parse_xml_tag_sound_example :
    (w : List Token) × Writes w small × (small_tokens ≡ w ++ token end_of_file [] ∷ [])
unfolding tag_tokens attribute_tokens
parse_xml_tag_sound_example =
    parse_xml_tag_sound 20 small_tokens small (token end_of_file [] ∷ []) refl (omega arith)
      small_parsed

parse_xml_tag_ends_example :
    (parse_xml_tag 20 small_tokens ≢ out_of_fuel) × (parse_xml_tag 20 small_tokens ≢ undefined)
unfolding tag_tokens attribute_tokens
parse_xml_tag_ends_example = parse_xml_tag_ends 20 small_tokens (omega arith)

-- `<a/ >`, of which no number of turns is enough.
abbrev slash : List ℕ
slash = b'<' ∷ b'a' ∷ b'/' ∷ b' ' ∷ b'>' ∷ []

tokenize_settles_example : tokenize 6 slash ≡ tokenize 1000 slash
tokenize_settles_example = tokenize_settles 6 1000 slash (omega arith) (omega arith)

-- ` <b>x<a/ >`.
abbrev nested_slash : List ℕ
nested_slash = b' ' ∷ b'<' ∷ b'b' ∷ b'>' ∷ b'x' ∷ slash

nested_slash-Comes : Comes false (skip_whitespace nested_slash) false slash
unfolding lex_next lex_in_tag lex_outside starts_with skip_whitespace from is_solid is_space
    ends_tag_name before add_attribute_tokens attribute_loop ends_attributes ends_attribute_name
    is_empty name_tokens is_open
nested_slash-Comes =
    turns false true false b'<' (b'b' ∷ b'>' ∷ b'x' ∷ slash) (b'b' ∷ b'>' ∷ b'x' ∷ slash) slash _
      refl
      (turns true true false b'b' (b'>' ∷ b'x' ∷ slash) (b'>' ∷ b'x' ∷ slash) slash _ refl (
        turns true false false b'>' (b'x' ∷ slash) (b'x' ∷ slash) slash _ refl
          (turns false false false b'x' slash slash slash _ refl (stays false slash))))

tokenize-slash_example : tokenize 1000 nested_slash ≡ out_of_fuel
unfolding Free starts_with is_space ends_tag_name
tokenize-slash_example =
    tokenize-slash 1000 nested_slash b'a' [] (b' ' ∷ b'>' ∷ []) (refl, refl, refl, refl, (refl, tt))
      refl nested_slash-Comes

-- A closing tag is taken for an opening one at the start of the text: `</a></a>`.
parse_closed :
    parse_wayland_xml 20 (b'<' ∷ b'/' ∷ b'a' ∷ b'>' ∷ b'<' ∷ b'/' ∷ b'a' ∷ b'>' ∷ [])
    ≡ ok (xml_tag (b'a' ∷ []) [] no_nodes)
unfolding parse_wayland_xml skip_whitespace from is_solid is_space ends_attributes ends_tag_name
    before ends_attribute_name is_quote is_open is same_word
parse_closed = refl
