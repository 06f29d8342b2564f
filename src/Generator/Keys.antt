-- ===== src/Generator/Keys.antt =====
-- Keys that the maps of src/code_generator/code_generator.cpp have or lack.
use coro_wayland.Base.{
  ℕ, suc, ◌≡◌, refl, sym, ap, ◌∙◌, Bool, true, false, Bool-cases, Option, none, some, Option-cases,
  inl, inr, List, [], ◌∷◌, if◌then◌else◌,
}
use coro_wayland.Base.Options.{OnSome, present, bind-OnSome, any-OnSome}
use coro_wayland.Generator.{emplace, erase, string_at, emplace_attributes, to_camel_case}
use coro_wayland.Generator.Messages.{
  ArgKind, returned, expanded, unchanged, renamed, Progress, push_arg, add_arg, describe, add_entry,
  add_child, add_children, make_subcontext,
}
use coro_wayland.Generator.Words.{
  name_key, cppname_key, description_key, return_type_key, args_key, entries_key, type_key, num_key,
  arg_tag, entry_tag,
}
use coro_wayland.Jinja.Contexts.{Context, string, array, Fields, no_fields, field, find}
use coro_wayland.Jinja.Lexer.{same_word}
use coro_wayland.Xml.{Attribute, XmlTag, xml_tag, XmlNodes, no_nodes, text_then, tag_then}
use coro_wayland.Xml.Parser.Reading.{same_word_self}

abbrev pub Lacks : List ℕ → Fields → Type 0
Lacks k m = find m k ≡ none

emplace_absent :
    (key : List ℕ) (c : Context) (m : Fields) → Lacks key m → emplace key c m ≡ field key c m
unfolding emplace
emplace_absent key c m e = rw (emplace, e)

emplace_present :
    (key : List ℕ) (c d : Context) (m : Fields) → find m key ≡ some d → emplace key c m ≡ m
unfolding emplace
emplace_present key c d m e = rw (emplace, e)

find-field_ne :
    (k key : List ℕ) (c : Context) (m : Fields)
    → same_word key k ≡ false
    → find (field key c m) k ≡ find m k
unfolding find
find-field_ne k key c m h = rw h

find-field_self : (k : List ℕ) (c : Context) (m : Fields) → find (field k c m) k ≡ some c
unfolding find
find-field_self k c m = rw (same_word_self k)

pub emplace-Lacks :
    (k key : List ℕ) (c : Context) (m : Fields)
    → same_word key k ≡ false
    → Lacks k m
    → Lacks k (emplace key c m)
emplace-Lacks k key c m h l = elim (Option-cases (find m key)) [
  | inl e ↦ ap (λ f. find f k) (emplace_absent key c m e) ∙ find-field_ne k key c m h ∙ l
  | inr (d, e) ↦ ap (λ f. find f k) (emplace_present key c d m e) ∙ l
]

pub find-emplace_self :
    (k : List ℕ) (c : Context) (m : Fields) → Lacks k m → find (emplace k c m) k ≡ some c
find-emplace_self k c m l = ap (λ f. find f k) (emplace_absent k c m l) ∙ find-field_self k c m

no_fields-Lacks : Lacks num_key no_fields
unfolding find
no_fields-Lacks = refl

pub erase-Lacks : (k key : List ℕ) (m : Fields) → Lacks k m → Lacks k (erase key m)
unfolding erase find
erase-Lacks k key no_fields l = refl
erase-Lacks k key (field j c rest) l = elim (Bool-cases (same_word j k)) [
  | inl e ↦ absurd (let f = sym (ap (λ b. if b then some c else find rest k) e) ∙ l in cc)
  | inr e ↦
      let behind : Lacks k rest = sym (ap (λ b. if b then some c else find rest k) e) ∙ l in
      elim (Bool-cases (same_word j key)) [
        | inl d ↦ rw d (erase-Lacks k key rest behind)
        | inr d ↦ rw (d, e) (erase-Lacks k key rest behind)
      ]
]

-- None of the attributes has this name.
abbrev pub NoKey : List ℕ → List Attribute → Type 0
NoKey k [] = Unit
NoKey k ((name, value) ∷ attributes) = (same_word name k ≡ false) × NoKey k attributes

emplace_attributes-Lacks :
    (k : List ℕ) (attributes : List Attribute) (m : Fields)
    → NoKey k attributes
    → Lacks k m
    → Lacks k (emplace_attributes attributes m)
unfolding emplace_attributes
emplace_attributes-Lacks k [] m h l = l
emplace_attributes-Lacks k ((name, value) ∷ attributes) m h l =
    emplace_attributes-Lacks k attributes (emplace name (string value) m) h.1
      (emplace-Lacks k name (string value) m h.0 l)

describe-Lacks :
    (nodes : XmlNodes) (m : Fields) → Lacks num_key m → Lacks num_key (describe nodes m)
unfolding describe same_word
describe-Lacks no_nodes m l = l
describe-Lacks (text_then content rest) m l =
    describe-Lacks rest (emplace description_key (string content) m)
      (emplace-Lacks num_key description_key (string content) m refl l)
describe-Lacks (tag_then tag rest) m l = describe-Lacks rest m l

push_arg-Lacks :
    (p : Progress) (m : Fields) → Lacks num_key p.root → Lacks num_key (push_arg p m).root
unfolding push_arg
push_arg-Lacks p m l = l

add_arg-Lacks :
    (kind : ArgKind) (p : Progress) (m : Fields)
    → Lacks num_key p.root
    → Lacks num_key (add_arg kind p m).root
unfolding add_arg same_word
add_arg-Lacks (returned interface) p m l =
    emplace-Lacks num_key return_type_key (string (to_camel_case interface)) p.root refl l
add_arg-Lacks expanded p m l = l
add_arg-Lacks unchanged p m l = push_arg-Lacks p m l
add_arg-Lacks (renamed type) p m l =
    push_arg-Lacks p (emplace type_key (string type) (erase type_key m)) l

abbrev RootLacks : Progress → Type 0
RootLacks p = Lacks num_key p.root

pub if-OnSome {ℓ} :
    {A : Type ℓ} {P : A → Type 0} (b : Bool) {o q : Option A}
    → OnSome P o
    → OnSome P q
    → OnSome P (if b then o else q)
if-OnSome true h k = h
if-OnSome false h k = k

add_entry-Lacks : (p : Progress) (m : Fields) → RootLacks p → OnSome RootLacks (add_entry p m)
unfolding add_entry
add_entry-Lacks p m l = bind-OnSome _ (any-OnSome (string_at m name_key)) (λ s u. present _ l)

add_child-Lacks :
    (b : Bool) (n : ℕ) (p : Progress) (tag : XmlTag)
    → RootLacks p
    → OnSome RootLacks (add_child b n p tag)
unfolding add_child
add_child-Lacks b n p (xml_tag name attributes nodes) l =
    if-OnSome (same_word name description_key)
      (present (record p { root = describe nodes p.root; count = suc p.count })
        (describe-Lacks nodes p.root l))
      (if-OnSome (same_word name arg_tag) (present _ (add_arg-Lacks _ p _ l)) (
        if-OnSome (same_word name entry_tag) (add_entry-Lacks p _ l)
          (present (record p { count = suc p.count }) l)))

add_children-Lacks :
    (b : Bool) (n : ℕ) (p : Progress) (nodes : XmlNodes)
    → RootLacks p
    → OnSome RootLacks (add_children b n p nodes)
unfolding add_children
add_children-Lacks b n p no_nodes l = present p l
add_children-Lacks b n p (text_then content rest) l = add_children-Lacks b n p rest l
add_children-Lacks b n p (tag_then tag rest) l =
    bind-OnSome _ (add_child-Lacks b n p tag l) (λ q k. add_children-Lacks b n q rest k)

-- A message whose tag has no attribute `num` has no number of its own.
pub make_subcontext-Lacks :
    (name : List ℕ) (attributes : List Attribute) (nodes : XmlNodes)
    → NoKey num_key attributes
    → OnSome (Lacks num_key) (make_subcontext (xml_tag name attributes nodes))
unfolding make_subcontext same_word
make_subcontext-Lacks name attributes nodes h =
    let named = emplace_attributes attributes no_fields in
    bind-OnSome _ (any-OnSome (string_at named name_key)) (λ s u.
      bind-OnSome _
        (add_children-Lacks _ _ _ nodes (
          emplace-Lacks num_key cppname_key (string (to_camel_case s)) named refl
            (emplace_attributes-Lacks num_key attributes no_fields h no_fields-Lacks)))
        (λ p l. present _ (
          emplace-Lacks num_key entries_key (array p.entries) _ refl
            (emplace-Lacks num_key args_key (array p.args) p.root refl l))))
