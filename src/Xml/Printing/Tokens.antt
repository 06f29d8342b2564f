-- ===== src/Xml/Printing/Tokens.antt =====
-- The tokens of a tag write it.
use coro_wayland.Base.{ℕ, ◌≡◌, refl, ap, sym, ◌∙◌, List, [], ◌∷◌, ◌++◌, append_assoc}
use coro_wayland.Xml.{
  open_tag, close_tag, self_close, tag_name, attribute_name, attribute_value, text, Token, token,
  Attribute, XmlTag, xml_tag, XmlNodes, no_nodes, text_then, tag_then,
}
use coro_wayland.Xml.Language.{
  WritesAttributes, no_attributes, attribute_then, Writes, alone, around, WritesNodes, nothing,
  some_text, some_tag,
}
use coro_wayland.Xml.Printing.{attribute_tokens, tag_tokens, close_tokens, nodes_tokens}

abbrev OfAttributes : List Attribute → Type 0
OfAttributes attributes =
    (w : List Token) × WritesAttributes w attributes
    × ((rest : List Token) → attribute_tokens attributes rest ≡ w ++ rest)

abbrev OfTag : XmlTag → Type 0
OfTag tag =
    (w : List Token) × Writes w tag × ((rest : List Token) → tag_tokens tag rest ≡ w ++ rest)

abbrev OfNodes : XmlNodes → Type 0
OfNodes nodes =
    (w : List Token) × WritesNodes w nodes
    × ((rest : List Token) → nodes_tokens nodes rest ≡ w ++ rest)

attributes-Writes : (attributes : List Attribute) → OfAttributes attributes
unfolding attribute_tokens
attributes-Writes [] = ([], no_attributes, λ rest. refl)
attributes-Writes ((name, value) ∷ attributes) =
    let (w, h, e) = attributes-Writes attributes in
    (
      token attribute_name name ∷ token attribute_value value ∷ w,
      attribute_then _ _ refl refl w attributes h,
      λ rest. ap (λ s. token attribute_name name ∷ token attribute_value value ∷ s) (e rest),
    )

around-tokens :
    (name : List ℕ) (attributes : List Attribute) (nodes : XmlNodes)
    → OfNodes nodes
    → (w : List Token) × Writes w (xml_tag name attributes nodes)
      × ((rest : List Token)
          → token open_tag (b'<' ∷ [])
              ∷ token tag_name name
              ∷ attribute_tokens attributes
                  (token close_tag (b'>' ∷ []) ∷ nodes_tokens nodes (close_tokens name rest))
            ≡ w ++ rest)
around-tokens name attributes nodes (v, h, e) =
    let (w, k, d) = attributes-Writes attributes in
    let front = λ (s : List Token). token open_tag (b'<' ∷ []) ∷ token tag_name name ∷ s in
    let end = token close_tag (b'>' ∷ []) in
    let close = close_tokens name [] in
    (
      front (w ++ end ∷ (v ++ close)),
      around _ _ _ _ _ _ w v attributes nodes (record { opens = refl; names = refl }) k refl h
          (record { opens = refl; names = refl; matches = refl; closes = refl }),
      λ rest. ap front (
          d (end ∷ nodes_tokens nodes (close_tokens name rest))
          ∙ ap (λ s. w ++ end ∷ s) (e (close_tokens name rest) ∙ sym (append_assoc v close rest))
          ∙ sym (append_assoc w (end ∷ (v ++ close)) rest)),
    )

mutual
  unfolding tag_tokens

  pub tag-Writes : (tag : XmlTag) → OfTag tag
  tag-Writes (xml_tag name attributes no_nodes) =
      let (w, k, d) = attributes-Writes attributes in
      let front = λ (s : List Token). token open_tag (b'<' ∷ []) ∷ token tag_name name ∷ s in
      let end = token self_close (b'/' ∷ b'>' ∷ []) in
      (
        front (w ++ end ∷ []),
        alone _ _ _ w attributes (record { opens = refl; names = refl }) k refl,
        λ rest. ap front (d (end ∷ rest) ∙ sym (append_assoc w (end ∷ []) rest)),
      )
  tag-Writes (xml_tag name attributes (text_then content more)) =
      around-tokens name attributes (text_then content more) (nodes-Writes (text_then content more))
  tag-Writes (xml_tag name attributes (tag_then tag more)) =
      around-tokens name attributes (tag_then tag more) (nodes-Writes (tag_then tag more))

  nodes-Writes : (nodes : XmlNodes) → OfNodes nodes
  nodes-Writes no_nodes = ([], nothing, λ rest. refl)
  nodes-Writes (text_then content more) =
      let (w, h, e) = nodes-Writes more in
      (
        token text content ∷ w,
        some_text _ w more refl h,
        λ rest. ap (λ s. token text content ∷ s) (e rest),
      )
  nodes-Writes (tag_then tag more) =
      let (w, h, e) = nodes-Writes more in
      let (v, k, d) = tag-Writes tag in
      (
        v ++ w,
        some_tag v w tag more k h,
        λ rest.
            d (nodes_tokens more rest) ∙ ap (λ s. v ++ s) (e rest) ∙ sym (append_assoc v w rest),
      )
