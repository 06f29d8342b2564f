-- ===== src/Xml/Language.antt =====
-- The language of the parser of src/code_generator/WaylandXmlParser.cpp: which sequences of tokens
-- write a tag. This describes the language independently of the parser.
use coro_wayland.Base.{ℕ, ◌≡◌, List, [], ◌∷◌, ◌++◌}
use coro_wayland.Xml.{
  TokenType, open_tag, close_tag, self_close, open_close_tag, tag_name, attribute_name,
  attribute_value, text, Token, Attribute, XmlTag, xml_tag, XmlNodes, no_nodes, text_then, tag_then,
}

abbrev pub Has : TokenType → Token → Type 0
Has type t = t.token_type ≡ type

-- Names of attributes, each with its value behind it.
pub data WritesAttributes : List Token → List Attribute → Type 0 where
  no_attributes : WritesAttributes [] []
  attribute_then :
      (name value : Token)
      → Has attribute_name name
      → Has attribute_value value
      → (w : List Token) (attributes : List Attribute) → WritesAttributes w attributes
      → WritesAttributes (name ∷ value ∷ w) ((name.value, value.value) ∷ attributes)

-- The first tokens of a tag.
pub record IsHead (bracket name : Token) : Type 0 where
  pub opens : Has open_tag bracket
  pub names : Has tag_name name

-- The tokens behind the children of a tag with this name.
pub record IsClose (tag : List ℕ) (bracket name end : Token) : Type 0 where
  pub opens : Has open_close_tag bracket
  pub names : Has tag_name name
  pub matches : name.value ≡ tag
  pub closes : Has close_tag end

mutual
  pub data Writes : List Token → XmlTag → Type 0 where
    alone :
        (bracket name end : Token) (w : List Token) (attributes : List Attribute)
        → IsHead bracket name
        → WritesAttributes w attributes
        → Has self_close end
        → Writes (bracket ∷ name ∷ (w ++ end ∷ [])) (xml_tag name.value attributes no_nodes)
    around :
        (bracket name end o n c : Token) (w v : List Token) (attributes : List Attribute)
        (children : XmlNodes)
        → IsHead bracket name
        → WritesAttributes w attributes
        → Has close_tag end
        → WritesNodes v children
        → IsClose name.value o n c
        → Writes
            (bracket ∷ name ∷ (w ++ end ∷ (v ++ o ∷ n ∷ c ∷ [])))
            (xml_tag name.value attributes children)

  pub data WritesNodes : List Token → XmlNodes → Type 0 where
    nothing : WritesNodes [] no_nodes
    some_text :
        (t : Token) (v : List Token) (rest : XmlNodes)
        → Has text t
        → WritesNodes v rest
        → WritesNodes (t ∷ v) (text_then t.value rest)
    some_tag :
        (w v : List Token) (tag : XmlTag) (rest : XmlNodes)
        → Writes w tag
        → WritesNodes v rest
        → WritesNodes (w ++ v) (tag_then tag rest)
