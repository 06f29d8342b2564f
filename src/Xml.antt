-- ===== src/Xml.antt =====
-- The parser of the protocol descriptions, src/code_generator/WaylandXmlParser.cpp and its header:
-- tokens and trees. A string is the list of its characters' codes.
pub mod Errors
pub mod Lexer
pub mod Parser
pub mod Language
pub mod Printing
mod Examples
use coro_wayland.Base.{ℕ, Bool, List, ◌==◌}

-- `Token::Type`.
pub data TokenType : Type 0 where
  open_tag close_tag self_close open_close_tag tag_name attribute_name : TokenType
  attribute_value text end_of_file : TokenType

abbrev code : TokenType → ℕ
code open_tag = 0
code close_tag = 1
code self_close = 2
code open_close_tag = 3
code tag_name = 4
code attribute_name = 5
code attribute_value = 6
code text = 7
code end_of_file = 8

-- `==` on `Token::Type`.
unfoldable pub is : TokenType → TokenType → Bool
is a b = code a == code b

pub record Token : Type 0 where
  pub token_type : TokenType
  pub value : List ℕ

abbrev pub token : TokenType → List ℕ → Token
token t v = record { token_type = t; value = v }

-- The name and the value of an attribute.
abbrev pub Attribute : Type 0
Attribute = List ℕ × List ℕ

-- A tag, and a sequence of `XmlNode`s: each is a text or a tag.
mutual
  pub data XmlTag : Type 0 where
    xml_tag : (name : List ℕ) → (attributes : List Attribute) → (children : XmlNodes) → XmlTag

  pub data XmlNodes : Type 0 where
    no_nodes : XmlNodes
    text_then : (content : List ℕ) → (rest : XmlNodes) → XmlNodes
    tag_then : XmlTag → (rest : XmlNodes) → XmlNodes
