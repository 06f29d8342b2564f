-- ===== src/Xml/Parser/Tags.antt =====
-- What `parse_tag` cuts out of tokens that start with a tag, and the attributes there.
use coro_wayland.Base.{
  ℕ, suc, ◌+◌, ◌-◌, ◌≡◌, refl, sym, true, Bool-cases, ap, ◌∙◌, arith, ◌⊎◌, inl, inr, List, [], ◌∷◌,
  ◌++◌, append_assoc, length, length-append, take, take-append,
}
use coro_wayland.Xml.{
  open_tag, close_tag, self_close, open_close_tag, tag_name, attribute_name, attribute_value, is,
  Token, Attribute,
}
use coro_wayland.Xml.Errors.{ok, ◌>>=◌}
use coro_wayland.Xml.Language.{
  Has, WritesAttributes, no_attributes, attribute_then, IsHead, IsClose,
}
use coro_wayland.Xml.Parser.{token_at, tag_loop, cut_tag, parse_tag, attributes_of}

-- The end of a tag.
abbrev pub Closes : Token → Type 0
Closes c = Has self_close c ⊎ Has close_tag c

tag_loop-end :
    (i : ℕ) (c : Token) (r : List Token) → Closes c → tag_loop open_tag i (c ∷ r) ≡ ok (suc i)
unfolding tag_loop is
tag_loop-end i c [] (inl h) = rw h
tag_loop-end i c (t ∷ r) (inl h) = rw h
tag_loop-end i c [] (inr h) = rw h
tag_loop-end i c (t ∷ r) (inr h) = rw h

tag_loop-attribute :
    (i : ℕ) (n v : Token) (r : List Token)
    → Has attribute_name n
    → Has attribute_value v
    → tag_loop open_tag i (n ∷ v ∷ r) ≡ tag_loop open_tag (suc (suc i)) r
unfolding tag_loop is
tag_loop-attribute i n v r h k = rw (h, k)

tag_loop-attributes :
    (i : ℕ) (w : List Token) (attributes : List Attribute) (c : Token) (r : List Token)
    → WritesAttributes w attributes
    → Closes c
    → tag_loop open_tag i (w ++ c ∷ r) ≡ ok (i + suc (length w))
tag_loop-attributes i _ _ c r no_attributes h = tag_loop-end i c r h ∙ ap ok (omega arith)
tag_loop-attributes i _ _ c r (attribute_then n v p q w attributes a) h =
    tag_loop-attribute i n v (w ++ c ∷ r) p q
    ∙ tag_loop-attributes (suc (suc i)) w attributes c r a h
    ∙ ap ok (omega arith)

-- The token behind `w`.
pub token_at-append :
    (w : List Token) (c : Token) (r : List Token) → token_at (w ++ c ∷ r) (length w) ≡ c
token_at-append [] c r = refl
token_at-append (x ∷ w) c r = token_at-append w c r

pub cut_tag-end :
    (w : List Token) (c : Token) (r : List Token)
    → Closes c
    → cut_tag (w ++ c ∷ r) (suc (length w)) ≡ ok (w ++ c ∷ [])
unfolding cut_tag is
cut_tag-end w c r h =
    let cut = sym (append_assoc w (c ∷ []) r) in
    let front : take (suc (length w)) (w ++ c ∷ r) ≡ w ++ c ∷ [] =
      ap (take (suc (length w))) cut
      ∙ take-append (suc (length w)) (w ++ c ∷ []) r (omega (arith, length-append w (c ∷ []))) in
    let last : suc (length w) - 1 ≡ length w = omega arith in
    elim h [
      | inl e ↦ rw (last, token_at-append w c r, front, e)
      | inr e ↦ rw (last, token_at-append w c r, front, e)
    ]

closing_loop :
    (o c : Token) (r : List Token)
    → Has open_close_tag o
    → Has close_tag c
    → tag_loop o.token_type 2 (c ∷ r) ≡ ok 3
unfolding tag_loop is
closing_loop o c [] h k = rw (h, k)
closing_loop o c (t ∷ r) h k = rw (h, k)

attributes_of-attribute :
    (n v : Token) (r : List Token)
    → Has attribute_name n
    → attributes_of (n ∷ v ∷ r) ≡ (attributes_of r >>= λ rest. ok ((n.value, v.value) ∷ rest))
unfolding attributes_of is
attributes_of-attribute n v r h = rw h

parse_tag-head :
    (bracket name : Token) (ts : List Token)
    → Has tag_name name
    → ((is bracket.token_type open_tag ≡ true) ⊎ (is bracket.token_type open_close_tag ≡ true))
    → parse_tag (bracket ∷ name ∷ ts)
      ≡ (tag_loop bracket.token_type 2 ts >>= cut_tag (bracket ∷ name ∷ ts))
unfolding parse_tag is
parse_tag-head bracket name ts h (inl e) = rw (h, e)
parse_tag-head bracket name ts h (inr e) = elim (Bool-cases (is bracket.token_type open_tag)) [
  | inl d ↦ rw (h, d)
  | inr d ↦ rw (h, d, e)
]

pub parse_tag-attributes :
    (bracket name end : Token) (w r : List Token) (attributes : List Attribute)
    → IsHead bracket name
    → WritesAttributes w attributes
    → Closes end
    → parse_tag (bracket ∷ name ∷ (w ++ end ∷ r)) ≡ ok (bracket ∷ name ∷ (w ++ end ∷ []))
unfolding is
parse_tag-attributes bracket name end w r attributes h a c =
    let looped : tag_loop bracket.token_type 2 (w ++ end ∷ r) ≡ ok (suc (suc (suc (length w)))) =
      ap (λ t. tag_loop t 2 (w ++ end ∷ r)) h.opens
      ∙ tag_loop-attributes 2 w attributes end r a c
      ∙ ap ok (omega arith) in
    parse_tag-head bracket name (w ++ end ∷ r) h.names (inl (ap (λ t. is t open_tag) h.opens))
    ∙ ap (λ i. i >>= cut_tag (bracket ∷ name ∷ (w ++ end ∷ r))) looped
    ∙ cut_tag-end (bracket ∷ name ∷ w) end r c

pub parse_tag-close :
    (tag : List ℕ) (o n c : Token) (r : List Token)
    → IsClose tag o n c
    → parse_tag (o ∷ n ∷ c ∷ r) ≡ ok (o ∷ n ∷ c ∷ [])
unfolding is tag_loop
parse_tag-close tag o n c r h =
    parse_tag-head o n (c ∷ r) h.names (inr (ap (λ t. is t open_close_tag) h.opens))
    ∙ ap (λ i. i >>= cut_tag (o ∷ n ∷ c ∷ r)) (closing_loop o c r h.opens h.closes)
    ∙ cut_tag-end (o ∷ n ∷ []) c r (inr h.closes)

-- The attributes of a tag.
pub attributes_of-attributes :
    (w : List Token) (attributes : List Attribute) (end : Token)
    → WritesAttributes w attributes
    → Closes end
    → attributes_of (w ++ end ∷ []) ≡ ok attributes
unfolding attributes_of is
attributes_of-attributes _ _ end no_attributes (inl h) = rw h
attributes_of-attributes _ _ end no_attributes (inr h) = rw h
attributes_of-attributes _ _ end (attribute_then n v p q w attributes a) h =
    attributes_of-attribute n v (w ++ end ∷ []) p
    ∙ ap (λ r. r >>= λ rest. ok ((n.value, v.value) ∷ rest))
        (attributes_of-attributes w attributes end a h)
