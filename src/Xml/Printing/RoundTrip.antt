-- ===== src/Xml/Printing/RoundTrip.antt =====
-- The text of a tag is read back as the tag.
use coro_wayland.Base.{
  ℕ, zero, suc, ◌≤◌, ◌<◌, ◌≡◌, refl, ap, ◌∙◌, arith, true, false, List, [], ◌∷◌, ◌++◌, length,
  length-append,
}
use coro_wayland.Jinja.Identifiers.{is_space, from}
use coro_wayland.Jinja.Identifiers.Scans.{Free, Stops}
use coro_wayland.Jinja.Lexer.Spelling.{length-from}
use coro_wayland.Xml.{
  open_tag, close_tag, self_close, open_close_tag, tag_name, attribute_name, attribute_value, text,
  end_of_file, Token, token, Attribute, XmlTag, xml_tag, XmlNodes, no_nodes, text_then, tag_then,
}
use coro_wayland.Xml.Errors.{ok, ◌>>=◌}
use coro_wayland.Xml.Lexer.{
  is_solid, skip_whitespace, starts_with, ends_tag_name, is_open, ends_attributes, tokenize_loop,
  tokenize,
}
use coro_wayland.Xml.Lexer.Turns.{
  Lexes, Lexes-gap, Lexes-turn, skip-solid, outside-open, outside-close, outside-text, tag-end,
  tag-self_close, tag-name, add_attribute_tokens-reads,
}
use coro_wayland.Xml.Parser.{parse_xml_tag, parse_wayland_xml}
use coro_wayland.Xml.Parser.Reading.{parse_xml_tag-Writes}
use coro_wayland.Xml.Printing.{
  write_attributes, write_close, write_tag, write_body, write_nodes, attribute_tokens, close_tokens,
  tag_tokens, body_tokens, nodes_tokens, IsTagName, AreAttributes, NoText, IsWritable, AreWritable,
}
use coro_wayland.Xml.Printing.Tokens
use mathlib.Core.Path.{subst}

length-attributes :
    (attributes : List Attribute) (r : List ℕ) → length r ≤ length (write_attributes attributes r)
unfolding write_attributes
length-attributes [] r = omega arith
length-attributes ((name, value) ∷ attributes) r =
    let rest = write_attributes attributes r in
    omega (
      arith,
      length-attributes attributes r,
      length-append value (b'"' ∷ rest),
      length-append name (b'=' ∷ b'"' ∷ (value ++ b'"' ∷ rest)),
    )

attribute_tokens-append :
    (attributes : List Attribute) (ts : List Token)
    → attribute_tokens attributes [] ++ ts ≡ attribute_tokens attributes ts
unfolding attribute_tokens
attribute_tokens-append [] ts = refl
attribute_tokens-append ((name, value) ∷ attributes) ts =
    ap (λ s. token attribute_name name ∷ token attribute_value value ∷ s)
      (attribute_tokens-append attributes ts)

attributes-Stops :
    (attributes : List Attribute) (r : List ℕ)
    → Stops ends_tag_name r
    → Stops ends_tag_name (write_attributes attributes r)
unfolding write_attributes Stops ends_tag_name
attributes-Stops [] r h = h
attributes-Stops ((name, value) ∷ attributes) r h = refl

-- The name of a tag with its attributes.
name-Lexes :
    (c : ℕ) (cs r : List ℕ) (attributes : List Attribute) (ts : List Token)
    → IsTagName (c ∷ cs)
    → AreAttributes attributes
    → ends_attributes r ≡ true
    → skip_whitespace r ≡ r
    → Stops ends_tag_name r
    → Lexes true r ts
    → Lexes true
        (c ∷ (cs ++ write_attributes attributes r))
        (token tag_name (c ∷ cs) ∷ attribute_tokens attributes ts)
name-Lexes c cs r attributes ts h a e s p k =
    let ds = write_attributes attributes r in
    let turn =
      Lexes-turn true true c (cs ++ ds) r (token tag_name (c ∷ cs) ∷ attribute_tokens attributes [])
        ts h.0
        (tag-name c cs ds r (attribute_tokens attributes []) h (attributes-Stops attributes r p)
          (add_attribute_tokens-reads attributes r a e s))
        (omega (arith, length-attributes attributes r, length-append cs ds)) k in
    subst (Lexes true (c ∷ (cs ++ ds)))
      (ap (λ us. token tag_name (c ∷ cs) ∷ us) (attribute_tokens-append attributes ts)) turn

last-Lexes : Lexes false [] (token end_of_file [] ∷ [])
unfolding Lexes tokenize_loop skip_whitespace from
last-Lexes zero g = absurd (omega arith)
last-Lexes (suc n) g = refl

module _ (gap : List ℕ) (spaces : Free is_solid gap) where
  end-Lexes :
      (rest : List ℕ) (ts : List Token)
      → Lexes false rest ts
      → Lexes true (b'>' ∷ (gap ++ rest)) (token close_tag (b'>' ∷ []) ∷ ts)
  unfolding is_space
  end-Lexes rest ts k =
      Lexes-turn true false b'>' (gap ++ rest) (gap ++ rest) (token close_tag (b'>' ∷ []) ∷ []) ts
        refl (tag-end (gap ++ rest)) (omega arith) (Lexes-gap false gap rest ts spaces k)

  close-Lexes :
      (name rest : List ℕ) (ts : List Token)
      → IsTagName name
      → Lexes false rest ts
      → Lexes false (write_close gap name rest) (close_tokens name ts)
  unfolding write_close is_space write_attributes attribute_tokens ends_attributes starts_with Stops
      ends_tag_name
  close-Lexes [] rest ts h k = absurd h
  close-Lexes (c ∷ cs) rest ts h k =
      let ds = b'>' ∷ (gap ++ rest) in
      Lexes-turn false true b'<' (b'/' ∷ c ∷ (cs ++ ds)) (c ∷ (cs ++ ds))
        (token open_close_tag (b'<' ∷ b'/' ∷ []) ∷ [])
        (token tag_name (c ∷ cs) ∷ token close_tag (b'>' ∷ []) ∷ ts) refl
        (outside-close (c ∷ (cs ++ ds))) (omega arith)
        (name-Lexes c cs ds [] (token close_tag (b'>' ∷ []) ∷ ts) h tt refl
          (skip-solid b'>' (gap ++ rest) refl) refl (end-Lexes rest ts k))

  abbrev IsBody : List ℕ → Type 0
  IsBody r = (ends_attributes r ≡ true) × (skip_whitespace r ≡ r) × Stops ends_tag_name r

  write_body-IsBody :
      (name : List ℕ) (nodes : XmlNodes) (rest : List ℕ) → IsBody (write_body gap name nodes rest)
  unfolding write_body is_space ends_attributes starts_with Stops ends_tag_name
  write_body-IsBody name no_nodes rest = (refl, skip-solid _ _ refl, refl)
  write_body-IsBody name (text_then content more) rest = (refl, skip-solid _ _ refl, refl)
  write_body-IsBody name (tag_then tag more) rest = (refl, skip-solid _ _ refl, refl)

  nodes-Stops :
      (nodes : XmlNodes) (rest : List ℕ)
      → NoText nodes
      → Stops is_open rest
      → Stops is_open (write_nodes gap nodes rest)
  unfolding write_nodes Stops is_open
  nodes-Stops no_nodes rest h s = s
  nodes-Stops (text_then content more) rest h s = absurd h
  nodes-Stops (tag_then (xml_tag name attributes children) more) rest h s = refl

  close-Stops : (name rest : List ℕ) → Stops is_open (write_close gap name rest)
  unfolding write_close Stops is_open
  close-Stops name rest = refl

  bracket-solid : is_space b'<' ≡ false
  unfolding is_space
  bracket-solid = refl

  slash-solid : is_space b'/' ≡ false
  unfolding is_space
  slash-solid = refl

  body-Lexes :
      (name : List ℕ) (nodes : XmlNodes) (rest : List ℕ) (ts : List Token)
      → Lexes false rest ts
      → Lexes false
          (write_nodes gap nodes (write_close gap name rest))
          (nodes_tokens nodes (close_tokens name ts))
      → Lexes true (write_body gap name nodes rest) (body_tokens name nodes ts)
  unfolding write_body body_tokens
  body-Lexes name no_nodes rest ts k i =
      Lexes-turn true false b'/' (b'>' ∷ (gap ++ rest)) (gap ++ rest)
        (token self_close (b'/' ∷ b'>' ∷ []) ∷ []) ts slash-solid (tag-self_close (gap ++ rest))
        (omega arith) (Lexes-gap false gap rest ts spaces k)
  body-Lexes name (text_then content more) rest ts k i = end-Lexes _ _ i
  body-Lexes name (tag_then tag more) rest ts k i = end-Lexes _ _ i

  mutual
    unfolding write_tag tag_tokens IsWritable

    tag-Lexes :
        (tag : XmlTag) (rest : List ℕ) (ts : List Token)
        → IsWritable tag
        → Lexes false rest ts
        → Lexes false (write_tag gap tag rest) (tag_tokens tag ts)
    tag-Lexes (xml_tag [] attributes children) rest ts h k = absurd h.0
    tag-Lexes (xml_tag (c ∷ cs) attributes children) rest ts h k =
        let body = write_body gap (c ∷ cs) children rest in
        let is_body = write_body-IsBody (c ∷ cs) children rest in
        let ds = cs ++ write_attributes attributes body in
        Lexes-turn false true b'<' (c ∷ ds) (c ∷ ds) (token open_tag (b'<' ∷ []) ∷ [])
          (token tag_name (c ∷ cs) ∷ attribute_tokens attributes (body_tokens (c ∷ cs) children ts))
          bracket-solid (outside-open c cs (write_attributes attributes body) h.0) (omega arith)
          (name-Lexes c cs body attributes (body_tokens (c ∷ cs) children ts) h.0 h.1 is_body.0
            is_body.1 is_body.2
            (body-Lexes (c ∷ cs) children rest ts k (
              nodes-Lexes children (write_close gap (c ∷ cs) rest) (close_tokens (c ∷ cs) ts) h.2
                (close-Stops (c ∷ cs) rest) (close-Lexes (c ∷ cs) rest ts h.0 k))))

    nodes-Lexes :
        (nodes : XmlNodes) (rest : List ℕ) (ts : List Token)
        → AreWritable nodes
        → Stops is_open rest
        → Lexes false rest ts
        → Lexes false (write_nodes gap nodes rest) (nodes_tokens nodes ts)
    nodes-Lexes no_nodes rest ts h s k = k
    nodes-Lexes (text_then [] more) rest ts h s k = absurd h.0
    nodes-Lexes (text_then (c ∷ cs) more) rest ts h s k =
        let ds = write_nodes gap more rest in
        Lexes-turn false false c (cs ++ ds) ds (token text (c ∷ cs) ∷ []) (nodes_tokens more ts)
          h.0.0 (outside-text c cs ds h.0 (nodes-Stops more rest h.1 s))
          (omega (arith, length-append cs ds)) (nodes-Lexes more rest ts h.2 s k)
    nodes-Lexes (tag_then tag more) rest ts h s k =
        tag-Lexes tag (write_nodes gap more rest) (nodes_tokens more ts) h.0
          (nodes-Lexes more rest ts h.1 s k)

-- The parser reads the text of a tag back as the tag, with any number of turns above the length of
-- the text. Behind each tag of the text may stand white space. Names, values and texts are ones
-- that end where the lexer ends them, no text starts with white space, and none follows another.
pub parse_wayland_xml-write_tag :
    (gap : List ℕ) (tag : XmlTag) (n : ℕ)
    → Free is_solid gap
    → IsWritable tag
    → length (write_tag gap tag []) < n
    → parse_wayland_xml n (write_tag gap tag []) ≡ ok tag
unfolding parse_wayland_xml tokenize Lexes skip_whitespace
parse_wayland_xml-write_tag gap tag n spaces h g =
    let end = token end_of_file [] ∷ [] in
    let (w, k, e) = Tokens.tag-Writes tag in
    let lexed =
      tag-Lexes gap spaces tag [] end h last-Lexes n
        (omega (arith, g, length-from is_solid (write_tag gap tag []))) in
    let parsed =
      parse_xml_tag-Writes (suc (length (w ++ end))) w tag end k
        (omega (arith, length-append w end)) in
    ap (λ r. r >>= λ ts. parse_xml_tag (suc (length ts)) ts >>= λ p. ok p.0) (lexed ∙ ap ok (e end))
    ∙ ap (λ r. r >>= λ p. ok p.0) parsed
