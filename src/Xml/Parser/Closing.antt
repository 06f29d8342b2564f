-- ===== src/Xml/Parser/Closing.antt =====
-- The closing tag, and what the parser takes behind an opening one.
use coro_wayland.Base.{
  ℕ, ◌≤◌, ◌<◌, ◌≡◌, refl, sym, ap, ◌∙◌, arith, ◌⊎◌, inl, inr, true, false, not, ◌&&◌, Bool-cases,
  List, [], ◌∷◌, ◌++◌, ◌==◌, ==_iff, length, drop,
}
use coro_wayland.Jinja.Lexer.{same_word}
use coro_wayland.Xml.{
  open_tag, self_close, open_close_tag, is, Token, Attribute, XmlTag, xml_tag, XmlNodes, no_nodes,
}
use coro_wayland.Xml.Errors.{Ends, returns, fails, bind-Ends, if-Ends}
use coro_wayland.Xml.Language.{Has, IsClose, Writes, WritesNodes}
use coro_wayland.Xml.Parser.{token_at, after_close, parse_close, ParseXmlResult}
use coro_wayland.Xml.Parser.Reading.{starts}
use coro_wayland.Xml.Parser.Cuts.{is→eq, not-false, Cut, opening, closing, parse_tag-Cut}

pub same_word→eq : (v w : List ℕ) → same_word v w ≡ true → v ≡ w
unfolding same_word
same_word→eq [] [] h = refl
same_word→eq [] (d ∷ w) h = absurd cc
same_word→eq (c ∷ v) [] h = absurd cc
same_word→eq (c ∷ v) (d ∷ w) h = elim (Bool-cases (c == d)) [
  | inl e ↦
      let k : same_word v w ≡ true = sym (ap (λ b. b && same_word v w) e) ∙ h in
      ap (λ x. x ∷ v) ((==_iff c d).0 e) ∙ ap (λ l. d ∷ l) (same_word→eq v w k)
  | inr e ↦ absurd (let k = sym (ap (λ b. b && same_word v w) e) ∙ h in cc)
]

-- The tokens start with an opening tag.
abbrev pub Opens : List Token → Type 0
Opens ts = Has open_tag (token_at ts 0)

-- A closing tag with this name in front of `rest`.
abbrev pub Closed : List ℕ → List Token → List Token → Type 0
Closed name ts rest =
    (o : Token) × (n : Token) × (c : Token) × IsClose name o n c × (ts ≡ o ∷ n ∷ c ∷ rest)

-- What a call of `parse_xml_tag` returns: fewer tokens and, if it was an opening tag, the tokens
-- that write the tag are gone.
abbrev pub Parsed : List Token → ParseXmlResult → Type 0
Parsed ts r =
    (length r.1 ≤ length ts) × (Opens ts → (w : List Token) × Writes w r.0 × (ts ≡ w ++ r.1))

abbrev pub Listed : List Token → XmlNodes × List Token → Type 0
Listed ts r = (v : List Token) × WritesNodes v r.0 × (ts ≡ v ++ r.1)

pub absurd_type : {A : Type 0} → (open_tag ≡ open_close_tag) → A
absurd_type e = absurd cc

pub close-Closed :
    (name ts tag : List Token) (w : List ℕ)
    → Has open_close_tag (token_at ts 0)
    → Cut ts tag
    → Ends (Closed w ts) (after_close w ts tag)
unfolding after_close
close-Closed name ts _ w h (opening b n e v rest attributes k a c p) =
    absurd_type (sym k.opens ∙ sym (ap (λ s. (token_at s 0).token_type) p) ∙ h)
close-Closed name ts _ w h (closing b n e rest k l m p) =
    if-Ends (not (same_word n.value w)) (λ f. fails _)
      (λ f. returns _ (
        b,
        n,
        e,
        record {
          opens = k;
          names = l;
          matches = same_word→eq n.value w (not-false _ f);
          closes = m;
        },
        p ∙ ap (λ s. b ∷ n ∷ e ∷ s) (sym (ap (drop 3) p)),
      ))

pub parse_close-Closed : (w : List ℕ) (ts : List Token) → Ends (Closed w ts) (parse_close w ts)
unfolding parse_close
parse_close-Closed w ts =
    if-Ends (is (token_at ts 0).token_type open_close_tag)
      (λ h.
        bind-Ends (after_close w ts) (parse_tag-Cut ts)
          (λ tag k. close-Closed ts ts tag w (is→eq _ _ h) k))
      (λ h. fails _)

-- What follows an opening tag whose end is `end`.
abbrev pub Rest : List ℕ → Token → List Attribute → List Token → ParseXmlResult → Type 0
Rest name end attributes ts r =
    (Has self_close end × (r ≡ (xml_tag name attributes no_nodes, ts)))
    ⊎ ((is end.token_type self_close ≡ false)
        × (children : XmlNodes) × (v : List Token) × (us : List Token) × WritesNodes v children
        × (ts ≡ v ++ us)
        × (r.0 ≡ xml_tag name attributes children)
        × Closed name us r.1)

pub shorter : (w : List Token) (tag : XmlTag) → Writes w tag → 0 < length w
shorter w tag h = let (t, ts, e, k) = starts w tag h in omega (arith, ap length e)
