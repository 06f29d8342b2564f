-- ===== src/Xml/Parser/Reading.antt =====
-- The parser reads every sequence of tokens that writes a tag.
use coro_wayland.Base.{
  ℕ, zero, suc, ◌-◌, ◌<◌, ◌≡◌, refl, sym, ap, ◌∙◌, arith, inl, inr, true, List, [], ◌∷◌, ◌++◌,
  append_assoc, length, length-append, drop, drop-append, ◌==◌, ==_iff,
}
use coro_wayland.Jinja.Lexer.{same_word}
use coro_wayland.Xml.{
  open_tag, close_tag, self_close, open_close_tag, text, is, Token, Attribute, XmlTag, xml_tag,
  XmlNodes, no_nodes, text_then, tag_then,
}
use coro_wayland.Xml.Errors.{Result, ok}
use coro_wayland.Xml.Language.{
  Has, WritesAttributes, IsHead, IsClose, Writes, alone, around, WritesNodes, nothing, some_text,
  some_tag,
}
use coro_wayland.Xml.Parser.{
  token_at, after_close, parse_close, ParseXmlResult, parse_children, parse_element, parse_xml_tag,
}
use coro_wayland.Xml.Parser.Tags.{
  Closes, token_at-append, parse_tag-attributes, parse_tag-close, attributes_of-attributes,
}

pub same_word_self : (w : List ℕ) → same_word w w ≡ true
unfolding same_word
same_word_self [] = refl
same_word_self (c ∷ w) = let e : (c == c) ≡ true = (==_iff c c).1 refl in rw (e, same_word_self w)

close-reads :
    (tag : List ℕ) (o n c : Token) (r : List Token)
    → IsClose tag o n c
    → parse_close tag (o ∷ n ∷ c ∷ r) ≡ ok r
unfolding parse_close after_close is
close-reads tag o n c r h =
    rw (parse_tag-close tag o n c r h, h.opens, h.matches, same_word_self tag)

pub starts :
    (w : List Token) (tag : XmlTag)
    → Writes w tag
    → (t : Token) × (ts : List Token) × (w ≡ t ∷ ts) × Has open_tag t
starts _ _ (alone bracket name end w attributes h a e) =
    (bracket, name ∷ (w ++ end ∷ []), refl, h.opens)
starts _ _ (around bracket name end o n c w v attributes children h a e ws k) =
    (bracket, name ∷ (w ++ end ∷ (v ++ o ∷ n ∷ c ∷ [])), refl, h.opens)

pub last :
    (bracket name end : Token) (w : List Token)
    → token_at (bracket ∷ name ∷ (w ++ end ∷ [])) (length (bracket ∷ name ∷ (w ++ end ∷ [])) - 1)
      ≡ end
last bracket name end w =
    let i : length (bracket ∷ name ∷ (w ++ end ∷ [])) - 1 ≡ suc (suc (length w)) =
      omega (arith, length-append w (end ∷ [])) in
    ap (token_at (bracket ∷ name ∷ (w ++ end ∷ []))) i ∙ token_at-append (bracket ∷ name ∷ w) end []

module _ (parse : List Token → Result ParseXmlResult) where
  children-end :
      (k : ℕ) (o : Token) (r : List Token)
      → Has open_close_tag o
      → parse_children parse (suc k) (o ∷ r) ≡ ok (no_nodes, o ∷ r)
  unfolding parse_children is
  children-end k o r h = rw h

  children-text :
      (k : ℕ) (t : Token) (ts r : List Token) (rest : XmlNodes)
      → Has text t
      → parse_children parse k ts ≡ ok (rest, r)
      → parse_children parse (suc k) (t ∷ ts) ≡ ok (text_then t.value rest, r)
  unfolding parse_children is
  children-text k t ts r rest h e = rw (e, h)

  children-tag :
      (k : ℕ) (t : Token) (ts us r : List Token) (tag : XmlTag) (rest : XmlNodes)
      → Has open_tag t
      → parse (t ∷ ts) ≡ ok (tag, us)
      → parse_children parse k us ≡ ok (rest, r)
      → parse_children parse (suc k) (t ∷ ts) ≡ ok (tag_then tag rest, r)
  unfolding parse_children is
  children-tag k t ts us r tag rest h d e = rw (d, h, e)

  element-alone :
      (bracket name end : Token) (w r : List Token) (attributes : List Attribute)
      → Has self_close end
      → parse_element parse (bracket ∷ name ∷ (w ++ end ∷ [])) attributes r
        ≡ ok (xml_tag name.value attributes no_nodes, r)
  unfolding parse_element is
  element-alone bracket name end w r attributes h = rw (last bracket name end w, h)

  element-around :
      (bracket name end : Token) (w ts us r : List Token) (attributes : List Attribute)
      (children : XmlNodes)
      → Has close_tag end
      → parse_children parse (suc (length ts)) ts ≡ ok (children, us)
      → parse_close name.value us ≡ ok r
      → parse_element parse (bracket ∷ name ∷ (w ++ end ∷ [])) attributes ts
        ≡ ok (xml_tag name.value attributes children, r)
  unfolding parse_element is
  element-around bracket name end w ts us r attributes children h d e =
      rw (last bracket name end w, h, d, e)

tag-reads :
    (n : ℕ) (bracket name end : Token) (w r : List Token) (attributes : List Attribute)
    → IsHead bracket name
    → WritesAttributes w attributes
    → Closes end
    → parse_xml_tag (suc n) (bracket ∷ name ∷ (w ++ end ∷ r))
      ≡ parse_element (parse_xml_tag n) (bracket ∷ name ∷ (w ++ end ∷ [])) attributes r
unfolding parse_xml_tag
tag-reads n bracket name end w r attributes h a c =
    let tag = bracket ∷ name ∷ (w ++ end ∷ []) in
    let rest : drop (length tag) (bracket ∷ name ∷ (w ++ end ∷ r)) ≡ r =
      ap (λ s. drop (length tag) (bracket ∷ name ∷ s)) (sym (append_assoc w (end ∷ []) r))
      ∙ drop-append (length tag) tag r refl in
    rw (
      parse_tag-attributes bracket name end w r attributes h a c,
      attributes_of-attributes w attributes end a c,
      rest,
    )

mutual
  tag-Writes :
      (n : ℕ) (w : List Token) (tag : XmlTag) (r : List Token)
      → Writes w tag
      → length w < n
      → parse_xml_tag n (w ++ r) ≡ ok (tag, r)
  tag-Writes zero w tag r h g = absurd (omega arith)
  tag-Writes (suc n) _ _ r (alone bracket name end w attributes h a e) g =
      ap (λ s. parse_xml_tag (suc n) (bracket ∷ name ∷ s)) (append_assoc w (end ∷ []) r)
      ∙ tag-reads n bracket name end w r attributes h a (inl e)
      ∙ element-alone (parse_xml_tag n) bracket name end w r attributes e
  tag-Writes (suc n) _ _ r (around bracket name end o m c w v attributes children h a e ws k) g =
      let ts = v ++ o ∷ m ∷ c ∷ r in
      ap (λ s. parse_xml_tag (suc n) (bracket ∷ name ∷ s))
        (append_assoc w (end ∷ (v ++ o ∷ m ∷ c ∷ [])) r
          ∙ ap (λ s. w ++ end ∷ s) (append_assoc v (o ∷ m ∷ c ∷ []) r))
      ∙ tag-reads n bracket name end w ts attributes h a (inr e)
      ∙ element-around (parse_xml_tag n) bracket name end w ts (o ∷ m ∷ c ∷ r) r attributes children
          e
          (nodes-Writes n (suc (length ts)) v children o (m ∷ c ∷ r) ws k.opens
            (omega (
              arith,
              g,
              length-append w (end ∷ (v ++ o ∷ m ∷ c ∷ [])),
              length-append v (o ∷ m ∷ c ∷ []),
            ))
            (omega (arith, length-append v (o ∷ m ∷ c ∷ r))))
          (close-reads name.value o m c r k)

  nodes-Writes :
      (n k : ℕ) (v : List Token) (nodes : XmlNodes) (o : Token) (r : List Token)
      → WritesNodes v nodes
      → Has open_close_tag o
      → length v < n
      → length v < k
      → parse_children (parse_xml_tag n) k (v ++ o ∷ r) ≡ ok (nodes, o ∷ r)
  nodes-Writes n zero v nodes o r h q g i = absurd (omega arith)
  nodes-Writes n (suc k) _ _ o r nothing q g i = children-end (parse_xml_tag n) k o r q
  nodes-Writes n (suc k) _ _ o r (some_text t v rest h ws) q g i =
      children-text (parse_xml_tag n) k t (v ++ o ∷ r) (o ∷ r) rest h
        (nodes-Writes n k v rest o r ws q (omega (arith, g)) (omega (arith, i)))
  nodes-Writes n (suc k) _ _ o r (some_tag w v tag rest h ws) q g i =
      let (t, ts, e, f) = starts w tag h in
      let apart : (w ++ v) ++ o ∷ r ≡ t ∷ (ts ++ (v ++ o ∷ r)) =
        append_assoc w v (o ∷ r) ∙ ap (λ s. s ++ (v ++ o ∷ r)) e in
      let inner : parse_xml_tag n (t ∷ (ts ++ (v ++ o ∷ r))) ≡ ok (tag, v ++ o ∷ r) =
        ap (λ s. parse_xml_tag n (s ++ (v ++ o ∷ r))) (sym e)
        ∙ tag-Writes n w tag (v ++ o ∷ r) h (omega (arith, g, length-append w v)) in
      ap (parse_children (parse_xml_tag n) (suc k)) apart
      ∙ children-tag (parse_xml_tag n) k t (ts ++ (v ++ o ∷ r)) (v ++ o ∷ r) (o ∷ r) tag rest f
          inner
          (nodes-Writes n k v rest o r ws q (omega (arith, g, length-append w v))
            (omega (arith, i, length-append w v, ap length e)))

-- The parser reads every sequence of tokens that writes a tag, whatever tokens follow, and leaves
-- the tokens that follow. More fuel than the tag has tokens is enough.
pub parse_xml_tag-Writes :
    (n : ℕ) (w : List Token) (tag : XmlTag) (r : List Token)
    → Writes w tag
    → length w < n
    → parse_xml_tag n (w ++ r) ≡ ok (tag, r)
parse_xml_tag-Writes n w tag r h g = tag-Writes n w tag r h g
