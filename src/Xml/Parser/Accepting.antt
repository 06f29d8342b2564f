-- ===== src/Xml/Parser/Accepting.antt =====
-- What the parser accepts writes the tag that it returns, and the parser ends on every list of
-- tokens.
use coro_wayland.Base.{
  ℕ, zero, suc, ◌≤◌, ◌<◌, ◌≢◌, ◌≡◌, refl, sym, ap, ◌∙◌, arith, inl, inr, true, false, List, [], ◌∷◌,
  ◌++◌, append_assoc, length, length-append, drop, drop-append,
}
use coro_wayland.Xml.{
  open_tag, self_close, open_close_tag, text, is, Token, Attribute, XmlTag, xml_tag,
}
use coro_wayland.Xml.Errors.{
  Result, ok, out_of_fuel, undefined, ◌>>=◌, Ends, returns, fails, bind-Ends, map-Ends, if-Ends,
  Ends-ok, Ends-out_of_fuel, Ends-undefined,
}
use coro_wayland.Xml.Language.{
  Has, WritesAttributes, no_attributes, IsHead, Writes, alone, around, nothing, some_text, some_tag,
}
use coro_wayland.Xml.Parser.{
  token_at, parse_tag, attributes_of, parse_close, ParseXmlResult, parse_children, parse_element,
  parse_xml_tag,
}
use coro_wayland.Xml.Parser.Tags.{Closes, attributes_of-attributes}
use coro_wayland.Xml.Parser.Reading.{last}
use coro_wayland.Xml.Parser.Cuts.{is→eq, Cut, opening, closing, parse_tag-Cut}
use mathlib.Core.Path.{subst}
use coro_wayland.Xml.Parser.Closing.{
  Opens, Parsed, Listed, absurd_type, parse_close-Closed, Rest, shorter,
}

module _ (parse : List Token → Result ParseXmlResult) (n : ℕ)
    (made : (ts : List Token) → length ts ≤ n → Ends (Parsed ts) (parse ts)) where
  parse_children-Listed :
      (k : ℕ) (ts : List Token)
      → length ts < k
      → length ts ≤ n
      → Ends (Listed ts) (parse_children parse k ts)
  unfolding parse_children
  parse_children-Listed zero ts h g = absurd (omega arith)
  parse_children-Listed (suc k) [] h g = returns _ ([], nothing, refl)
  parse_children-Listed (suc k) (t ∷ ts) h g =
      if-Ends (is t.token_type open_close_tag) (λ e. returns _ ([], nothing, refl))
        (λ e.
          if-Ends (is t.token_type open_tag)
            (λ e. bind-Ends _ (made (t ∷ ts) g) (λ child p.
              let (w, d, q) = p.1 (is→eq _ _ e) in
              let less = shorter w child.0 d in
              bind-Ends _
                (parse_children-Listed k child.1
                  (omega (arith, h, less, ap length q, length-append w child.1))
                  (omega (arith, g, less, ap length q, length-append w child.1)))
                (λ rest i. returns _ (
                  w ++ i.0,
                  some_tag w i.0 child.0 rest.0 d i.1,
                  q ∙ ap (λ s. w ++ s) i.2 ∙ sym (append_assoc w i.0 rest.1),
                ))))
            (λ e.
              if-Ends (is t.token_type text)
                (λ e.
                  bind-Ends _ (parse_children-Listed k ts (omega (arith, h)) (omega (arith, g)))
                    (λ rest p.
                      returns _
                        (t ∷ p.0, some_text t p.0 rest.0 (is→eq _ _ e) p.1, ap (λ s. t ∷ s) p.2)))
                (λ e. fails _)))

  around-Rest :
      (name : List ℕ) (end : Token) (attributes : List Attribute) (ts : List Token)
      → length ts ≤ n
      → is end.token_type self_close ≡ false
      → Ends (Rest name end attributes ts) (do
        children ← parse_children parse (suc (length ts)) ts
        rest ← parse_close name children.1
        ok (xml_tag name attributes children.0, rest))
  around-Rest name end attributes ts g e =
      bind-Ends _ (parse_children-Listed (suc (length ts)) ts (omega arith) g) (λ children l.
        bind-Ends _ (parse_close-Closed name children.1)
          (λ rest c. returns _ (inr (e, children.0, l.0, children.1, l.1, l.2, refl, c))))

  parse_element-Rest :
      (bracket name end : Token) (w : List Token) (attributes : List Attribute) (ts : List Token)
      → length ts ≤ n
      → Ends
          (Rest name.value end attributes ts)
          (parse_element parse (bracket ∷ name ∷ (w ++ end ∷ [])) attributes ts)
  unfolding parse_element
  parse_element-Rest bracket name end w attributes ts g = rw (last bracket name end w) (
      if-Ends (is end.token_type self_close) (λ e. returns _ (inl (is→eq _ _ e, refl)))
        (λ e. around-Rest name.value end attributes ts g e))

Rest-length :
    (name : List ℕ) (end : Token) (attributes : List Attribute) (ts : List Token)
    (r : ParseXmlResult)
    → Rest name end attributes ts r
    → length r.1 ≤ length ts
Rest-length name end attributes ts r (inl (h, e)) = omega (arith, ap (λ s. length s.1) e)
Rest-length name end attributes ts r (inr (h, children, v, us, w, e, d, (o, n, c, k, q))) =
    omega (arith, ap length e, length-append v us, ap length q)

not_self_close : (t : Token) → is t.token_type self_close ≡ false → Has self_close t → ⊥
unfolding is
not_self_close t h e = let f : false ≡ true = sym h ∙ ap (λ type. is type self_close) e in cc

-- The rest makes a tag of its head.
Rest-Writes :
    (bracket name end : Token) (w ts : List Token) (attributes : List Attribute)
    (r : ParseXmlResult)
    → IsHead bracket name
    → WritesAttributes w attributes
    → Closes end
    → Rest name.value end attributes ts r
    → (u : List Token) × Writes u r.0 × (bracket ∷ name ∷ (w ++ end ∷ ts) ≡ u ++ r.1)
Rest-Writes bracket name end w ts attributes r h a c (inl (k, e)) = (
  bracket ∷ name ∷ (w ++ end ∷ []),
  subst (Writes (bracket ∷ name ∷ (w ++ end ∷ []))) (sym (ap (λ s. s.0) e))
      (alone bracket name end w attributes h a k),
  ap (λ s. bracket ∷ name ∷ s) (sym (append_assoc w (end ∷ []) ts))
      ∙ ap (λ s. bracket ∷ name ∷ (w ++ end ∷ []) ++ s) (sym (ap (λ s. s.1) e)),
)
Rest-Writes bracket name end w ts attributes r h a (inl i)
      (inr (k, children, v, us, m, e, d, (o, n, c, l, q))) =
    absurd (not_self_close end k i)
Rest-Writes bracket name end w ts attributes r h a (inr i)
      (inr (k, children, v, us, m, e, d, (o, n, c, l, q))) =
    (
      bracket ∷ name ∷ (w ++ end ∷ (v ++ o ∷ n ∷ c ∷ [])),
      subst (Writes (bracket ∷ name ∷ (w ++ end ∷ (v ++ o ∷ n ∷ c ∷ [])))) (sym d)
          (around bracket name end o n c w v attributes children h a i m l),
      ap (λ s. bracket ∷ name ∷ s)
          (ap (λ s. w ++ end ∷ s)
              (e ∙ ap (λ s. v ++ s) q ∙ sym (append_assoc v (o ∷ n ∷ c ∷ []) r.1))
            ∙ sym (append_assoc w (end ∷ (v ++ o ∷ n ∷ c ∷ [])) r.1)),
    )

-- What `parse_xml_tag` returns behind the tokens `tag` of the first tag.
element-Parsed :
    (n : ℕ)
    → ((us : List Token) → length us ≤ n → Ends (Parsed us) (parse_xml_tag (suc n) us))
    → (ts tag : List Token) → length ts ≤ suc n
    → Cut ts tag
    → Ends (Parsed ts) (do
      attributes ← attributes_of (drop 2 tag)
      parse_element (parse_xml_tag (suc n)) tag attributes (drop (length tag) ts))
element-Parsed n made ts _ g (opening b m e w rest attributes h a c p) =
    let tag = b ∷ m ∷ (w ++ e ∷ []) in
    let behind : drop (length tag) ts ≡ rest =
      ap (drop (length tag)) (p ∙ ap (λ s. b ∷ m ∷ s) (sym (append_assoc w (e ∷ []) rest)))
      ∙ drop-append (length tag) tag rest refl in
    rw (attributes_of-attributes w attributes e a c, behind)
      (map-Ends
        (parse_element-Rest (parse_xml_tag (suc n)) n made b m e w attributes rest
          (omega (arith, g, ap length p, length-append w (e ∷ rest))))
        (λ r i. (
          omega (
            arith,
            ap length p,
            length-append w (e ∷ rest),
            Rest-length m.value e attributes rest r i,
          ),
          λ o. let (u, k, q) = Rest-Writes b m e w rest attributes r h a c i in (u, k, p ∙ q),
        )))
element-Parsed n made ts _ g (closing b m e rest h k l p) =
    let behind : drop 3 ts ≡ rest = ap (drop 3) p in
    rw (attributes_of-attributes [] [] e no_attributes (inr l), behind)
      (map-Ends
        (parse_element-Rest (parse_xml_tag (suc n)) n made b m e [] [] rest
          (omega (arith, g, ap length p)))
        (λ r i. (
          omega (arith, ap length p, Rest-length m.value e [] rest r i),
          λ o. absurd_type (sym o ∙ ap (λ s. (token_at s 0).token_type) p ∙ h),
        )))

parse_xml_tag-Parsed :
    (n : ℕ) (ts : List Token) → length ts ≤ n → Ends (Parsed ts) (parse_xml_tag (suc n) ts)
unfolding parse_xml_tag parse_tag
parse_xml_tag-Parsed zero [] g = fails _
parse_xml_tag-Parsed zero (t ∷ ts) g = absurd (omega arith)
parse_xml_tag-Parsed (suc n) ts g =
    bind-Ends _ (parse_tag-Cut ts) (λ tag c. element-Parsed n (parse_xml_tag-Parsed n) ts tag g c)

-- The parser ends on every list of tokens, with a tag or an error and without an access out of
-- bounds: more fuel than there are tokens is enough.
pub parse_xml_tag_ends :
    (n : ℕ) (ts : List Token)
    → length ts < n
    → (parse_xml_tag n ts ≢ out_of_fuel) × (parse_xml_tag n ts ≢ undefined)
parse_xml_tag_ends zero ts h = absurd (omega arith)
parse_xml_tag_ends (suc n) ts h =
    let e = parse_xml_tag-Parsed n ts (omega (arith, h)) in (Ends-out_of_fuel e, Ends-undefined e)

-- What the parser returns of tokens that start with an opening tag is written by the tokens that it
-- has taken: every tag in it is closed by one of the same name.
pub parse_xml_tag_sound :
    (n : ℕ) (ts : List Token) (tag : XmlTag) (rest : List Token)
    → Opens ts
    → length ts < n
    → parse_xml_tag n ts ≡ ok (tag, rest)
    → (w : List Token) × Writes w tag × (ts ≡ w ++ rest)
parse_xml_tag_sound zero ts tag rest o h e = absurd (omega arith)
parse_xml_tag_sound (suc n) ts tag rest o h e =
    (Ends-ok (tag, rest) (parse_xml_tag-Parsed n ts (omega (arith, h))) e).1 o
