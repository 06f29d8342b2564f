-- ===== src/Xml/Printing.antt =====
-- The text of a tag and its tokens, for the parser of src/code_generator/WaylandXmlParser.cpp. This
-- describes the text independently of the lexer.
pub mod Tokens
pub mod RoundTrip
use coro_wayland.Base.{ℕ, ◌≡◌, Bool, true, false, List, [], ◌∷◌, ◌++◌, ◌==◌}
use coro_wayland.Jinja.Identifiers.{is_space}
use coro_wayland.Jinja.Identifiers.Scans.{Free}
use coro_wayland.Xml.{
  open_tag, close_tag, self_close, open_close_tag, tag_name, attribute_name, attribute_value, text,
  Token, token, Attribute, XmlTag, xml_tag, XmlNodes, no_nodes, text_then, tag_then,
}
use coro_wayland.Xml.Lexer.{is_solid, ends_tag_name, ends_attribute_name, is_quote, is_open}

-- The attributes, in front of `rest`.
unfoldable pub write_attributes : List Attribute → List ℕ → List ℕ
write_attributes [] rest = rest
write_attributes ((name, value) ∷ attributes) rest =
    b' ' ∷ (name ++ b'=' ∷ b'"' ∷ (value ++ b'"' ∷ write_attributes attributes rest))

-- `gap` is the white space behind each tag.
module _ (gap : List ℕ) where
  unfoldable pub write_close : List ℕ → List ℕ → List ℕ
  write_close name rest = b'<' ∷ b'/' ∷ (name ++ b'>' ∷ (gap ++ rest))

  unfoldable mutual
    -- A tag in front of `rest`; one without children closes itself.
    pub write_tag : XmlTag → List ℕ → List ℕ
    write_tag (xml_tag name attributes children) rest =
        b'<' ∷ (name ++ write_attributes attributes (write_body name children rest))

    pub write_body : List ℕ → XmlNodes → List ℕ → List ℕ
    write_body name no_nodes rest = b'/' ∷ b'>' ∷ (gap ++ rest)
    write_body name (text_then content more) rest =
        b'>' ∷ (gap ++ (content ++ write_nodes more (write_close name rest)))
    write_body name (tag_then tag more) rest =
        b'>' ∷ (gap ++ write_tag tag (write_nodes more (write_close name rest)))

    pub write_nodes : XmlNodes → List ℕ → List ℕ
    write_nodes no_nodes rest = rest
    write_nodes (text_then content more) rest = content ++ write_nodes more rest
    write_nodes (tag_then tag more) rest = write_tag tag (write_nodes more rest)

unfoldable pub attribute_tokens : List Attribute → List Token → List Token
attribute_tokens [] rest = rest
attribute_tokens ((name, value) ∷ attributes) rest =
    token attribute_name name ∷ token attribute_value value ∷ attribute_tokens attributes rest

abbrev pub close_tokens : List ℕ → List Token → List Token
close_tokens name rest =
    token open_close_tag (b'<' ∷ b'/' ∷ [])
    ∷ token tag_name name
    ∷ token close_tag (b'>' ∷ [])
    ∷ rest

unfoldable mutual
  pub tag_tokens : XmlTag → List Token → List Token
  tag_tokens (xml_tag name attributes children) rest =
      token open_tag (b'<' ∷ [])
      ∷ token tag_name name
      ∷ attribute_tokens attributes (body_tokens name children rest)

  pub body_tokens : List ℕ → XmlNodes → List Token → List Token
  body_tokens name no_nodes rest = token self_close (b'/' ∷ b'>' ∷ []) ∷ rest
  body_tokens name (text_then content more) rest =
      token close_tag (b'>' ∷ []) ∷ token text content ∷ nodes_tokens more (close_tokens name rest)
  body_tokens name (tag_then tag more) rest =
      token close_tag (b'>' ∷ []) ∷ tag_tokens tag (nodes_tokens more (close_tokens name rest))

  pub nodes_tokens : XmlNodes → List Token → List Token
  nodes_tokens no_nodes rest = rest
  nodes_tokens (text_then content more) rest = token text content ∷ nodes_tokens more rest
  nodes_tokens (tag_then tag more) rest = tag_tokens tag (nodes_tokens more rest)

-- A name of a tag is not empty, has no space, slash or closing bracket, and its first character is
-- no white space and none of `<`, `?` and `!`.
abbrev pub IsTagName : List ℕ → Type 0
IsTagName [] = ⊥
IsTagName (c ∷ cs) =
    (is_space c ≡ false)
    × ((c == b'<') ≡ false)
    × ((c == b'?') ≡ false)
    × ((c == b'!') ≡ false)
    × Free ends_tag_name (c ∷ cs)

-- A name of an attribute has no equals sign besides; a value has no quote.
abbrev pub IsAttributeName : List ℕ → Type 0
IsAttributeName [] = ⊥
IsAttributeName (c ∷ cs) = (is_space c ≡ false) × Free ends_attribute_name (c ∷ cs)

abbrev pub AreAttributes : List Attribute → Type 0
AreAttributes [] = Unit
AreAttributes ((name, value) ∷ attributes) =
    IsAttributeName name × Free is_quote value × AreAttributes attributes

-- A text has no opening bracket, its first character is no white space, and no text follows it.
abbrev pub IsText : List ℕ → Type 0
IsText [] = ⊥
IsText (c ∷ cs) = (is_space c ≡ false) × Free is_open (c ∷ cs)

abbrev pub NoText : XmlNodes → Type 0
NoText (text_then content more) = ⊥
NoText _ = Unit

unfoldable mutual
  pub IsWritable : XmlTag → Type 0
  IsWritable (xml_tag name attributes children) =
      IsTagName name × AreAttributes attributes × AreWritable children

  pub AreWritable : XmlNodes → Type 0
  AreWritable no_nodes = Unit
  AreWritable (text_then content more) = IsText content × NoText more × AreWritable more
  AreWritable (tag_then tag more) = IsWritable tag × AreWritable more
