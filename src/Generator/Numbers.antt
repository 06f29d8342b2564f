-- ===== src/Generator/Numbers.antt =====
-- The numbers of requests and events: their positions, which are the op codes of the protocol.
use coro_wayland.Base.{
  ℕ, ◌+◌, ◌≡◌, refl, ap, ◌∙◌, arith, Bool, true, false, Bool-cases, Option, some, inl, inr, List,
  ◌++◌, if◌then◌else◌,
}
use coro_wayland.Base.Options.{OnSome, absent, present, bind-OnSome, any-OnSome, OnSome-some}
use coro_wayland.Generator.{emplace, erase, string_at, is_empty, size}
use coro_wayland.Generator.Keys.{
  Lacks, NoKey, if-OnSome, emplace-Lacks, find-emplace_self, erase-Lacks, make_subcontext-Lacks,
}
use coro_wayland.Generator.Protocol.{Members, add_request, add_event, add_member, add_members}
use coro_wayland.Generator.Words.{
  cppname_key, tail_key, true_text, request_tag, event_tag, enum_tag, num_key, event_suffix,
}
use coro_wayland.Jinja.Contexts.{Context, string, object, Fields, Items, no_items, get_item}
use coro_wayland.Jinja.Lexer.{same_word}
use coro_wayland.Xml.{Attribute, XmlTag, xml_tag, XmlNodes, no_nodes, text_then, tag_then}
use mathlib.Core.Path.{subst}
use coro_wayland.Xml.Parser.Closing.{same_word→eq}
use coro_wayland.Generator.Arrays.{
  tags_named, NoNumbers, HasNumber, Numbered, push_item-Numbered, get_item-Numbered, size-push_item,
}

module _ (to_string : ℕ → List ℕ) where
  -- The arrays of `n` after tags have been added to those of `m`.
  record Grown (m : Members) (nodes : XmlNodes) (n : Members) : Type 0 where
    requests : Numbered to_string 0 n.requests
    events : Numbered to_string 0 n.events
    request_count : size n.requests ≡ size m.requests + tags_named request_tag nodes
    event_count : size n.events ≡ size m.events + tags_named event_tag nodes

  named-one :
      (w n : List ℕ) (attributes : List Attribute) (nodes : XmlNodes)
      → same_word n w ≡ true
      → tags_named w (tag_then (xml_tag n attributes nodes) no_nodes) ≡ 1
  unfolding tags_named
  named-one w n attributes nodes h = rw h

  named-none :
      (w n : List ℕ) (attributes : List Attribute) (nodes : XmlNodes)
      → same_word n w ≡ false
      → tags_named w (tag_then (xml_tag n attributes nodes) no_nodes) ≡ 0
  unfolding tags_named
  named-none w n attributes nodes h = rw h

  tags_named-then :
      (w : List ℕ) (tag : XmlTag) (rest : XmlNodes)
      → tags_named w (tag_then tag rest) ≡ tags_named w (tag_then tag no_nodes) + tags_named w rest
  unfolding tags_named
  tags_named-then w (xml_tag n attributes nodes) rest = elim (Bool-cases (same_word n w)) [
    | inl e ↦ rw e (omega arith)
    | inr e ↦ rw e (omega arith)
  ]

  -- A tag of the one kind is none of the other.
  not_event : (n : List ℕ) → same_word n request_tag ≡ true → same_word n event_tag ≡ false
  unfolding same_word
  not_event n h = ap (λ w. same_word w event_tag) (same_word→eq n request_tag h)

  module _ (m : Members) (n : List ℕ) (attributes : List Attribute) (nodes : XmlNodes)
      (h : Numbered to_string 0 m.requests) (k : Numbered to_string 0 m.events) where
    abbrev this : XmlNodes
    this = tag_then (xml_tag n attributes nodes) no_nodes

    request-Grown :
        (f : Fields)
        → same_word n request_tag ≡ true
        → Lacks num_key f
        → Grown m this (add_request to_string m f)
    unfolding add_request
    request-Grown f e l =
        let c = object (emplace num_key (string (to_string (size m.requests))) f) in
        record {
          requests = push_item-Numbered to_string 0 m.requests c h (
            _,
            refl,
            (find-emplace_self num_key _ f l ∙ ap (λ i. some (string (to_string i))) (omega arith)),
          );
          events = k;
          request_count = omega (
            arith,
            size-push_item to_string m.requests c,
            named-one request_tag n attributes nodes e,
          );
          event_count = omega (arith, named-none event_tag n attributes nodes (not_event n e));
        }

    marked-Lacks :
        (b : Bool) (s : List ℕ) (f : Fields)
        → Lacks num_key f
        → Lacks num_key (
            if b
            then emplace cppname_key (string s) (erase cppname_key f)
            else emplace tail_key
                (string true_text)
                (emplace cppname_key (string s) (erase cppname_key f)))
    unfolding same_word
    marked-Lacks true s f l =
        emplace-Lacks num_key cppname_key (string s) _ refl (erase-Lacks num_key cppname_key f l)
    marked-Lacks false s f l =
        emplace-Lacks num_key tail_key (string true_text) _ refl (
          emplace-Lacks num_key cppname_key (string s) _ refl (erase-Lacks num_key cppname_key f l))

    event-Grown :
        (f : Fields)
        → same_word n request_tag ≡ false
        → same_word n event_tag ≡ true
        → Lacks num_key f
        → OnSome (Grown m this) (add_event to_string m f)
    unfolding add_event
    event-Grown f d e l = bind-OnSome _ (any-OnSome (string_at f cppname_key)) (λ s u.
        let numbered = marked-Lacks (is_empty m.events) (s ++ event_suffix) f l in
        present _ (record {
          requests = h;
          events = push_item-Numbered to_string 0 m.events _ k (
            _,
            refl,
            (find-emplace_self num_key _ _ numbered
                ∙ ap (λ i. some (string (to_string i))) (omega arith)),
          );
          request_count = omega (arith, named-none request_tag n attributes nodes d);
          event_count = omega (
            arith,
            size-push_item to_string m.events _,
            named-one event_tag n attributes nodes e,
          );
        }))

    other-Grown :
        (items : Items)
        → same_word n request_tag ≡ false
        → same_word n event_tag ≡ false
        → Grown m this (record m { enums = items })
    other-Grown items d e = record {
      requests = h;
      events = k;
      request_count = omega (arith, named-none request_tag n attributes nodes d);
      event_count = omega (arith, named-none event_tag n attributes nodes e);
    }

    add_member-Grown :
        NoKey num_key attributes
        → OnSome (Grown m this) (add_member to_string m (xml_tag n attributes nodes))
    unfolding add_member
    add_member-Grown a =
        let made = make_subcontext-Lacks n attributes nodes a in
        elim (Bool-cases (same_word n request_tag)) [
          | inl e ↦ rw e (bind-OnSome _ made (λ f l. present _ (request-Grown f e l)))
          | inr d ↦ rw d (elim (Bool-cases (same_word n event_tag)) [
            | inl e ↦ rw e (bind-OnSome _ made (λ f l. event-Grown f d e l))
            | inr e ↦ rw e (
                if-OnSome (same_word n enum_tag)
                  (bind-OnSome _ made (λ f l. present _ (other-Grown _ d e)))
                  (present _ (other-Grown m.enums d e)))
          ])
        ]

  text-Grown :
      (m : Members) (content : List ℕ) (rest : XmlNodes) {o : Option Members}
      → OnSome (Grown m rest) o
      → OnSome (Grown m (text_then content rest)) o
  unfolding tags_named
  text-Grown m content rest absent = absent
  text-Grown m content rest (present n g) = present n (record {
    requests = g.requests;
    events = g.events;
    request_count = g.request_count;
    event_count = g.event_count;
  })

  tag-Grown :
      (m next : Members) (tag : XmlTag) (rest : XmlNodes) {o : Option Members}
      → Grown m (tag_then tag no_nodes) next
      → OnSome (Grown next rest) o
      → OnSome (Grown m (tag_then tag rest)) o
  tag-Grown m next tag rest g absent = absent
  tag-Grown m next tag rest g (present n f) = present n (record {
    requests = f.requests;
    events = f.events;
    request_count =
        omega (arith, g.request_count, f.request_count, tags_named-then request_tag tag rest);
    event_count = omega (arith, g.event_count, f.event_count, tags_named-then event_tag tag rest);
  })

  add_members-Grown :
      (m : Members) (nodes : XmlNodes)
      → Numbered to_string 0 m.requests
      → Numbered to_string 0 m.events
      → NoNumbers nodes
      → OnSome (Grown m nodes) (add_members to_string m nodes)
  unfolding add_members NoNumbers tags_named
  add_members-Grown m no_nodes h k a =
      present m (record {
        requests = h;
        events = k;
        request_count = omega arith;
        event_count = omega arith;
      })
  add_members-Grown m (text_then content rest) h k a =
      text-Grown m content rest (add_members-Grown m rest h k a)
  add_members-Grown m (tag_then (xml_tag n attributes nodes) rest) h k a =
      bind-OnSome _ (add_member-Grown m n attributes nodes h k a.0) (λ next g.
        tag-Grown m next (xml_tag n attributes nodes) rest g
          (add_members-Grown next rest g.requests g.events a.1))

-- In an interface of which no message has an attribute `num`, the message at each position of the
-- requests has that position as its `num`, and so has the one at each position of the events; there
-- are as many requests and events as the interface has tags of these names.
pub add_members_number :
    (to_string : ℕ → List ℕ) (nodes : XmlNodes) (m : Members)
    → NoNumbers nodes
    → add_members to_string
        (record { requests = no_items; events = no_items; enums = no_items })
        nodes
      ≡ some m
    → ((i : ℕ) (c : Context) → get_item m.requests i ≡ some c → HasNumber to_string i c)
      × ((i : ℕ) (c : Context) → get_item m.events i ≡ some c → HasNumber to_string i c)
      × (size m.requests ≡ tags_named request_tag nodes)
      × (size m.events ≡ tags_named event_tag nodes)
unfolding size
add_members_number to_string nodes m a e =
    let g = OnSome-some m (add_members-Grown to_string _ nodes tt tt a) e in
    let from_zero =
      λ (items : Items) (n : Numbered to_string 0 items) (i : ℕ) (c : Context)
          (q : get_item items i ≡ some c).
        subst (λ j. HasNumber to_string j c) (let z : 0 + i ≡ i = omega arith in z)
          (get_item-Numbered to_string 0 i items c n q) in
    (
      from_zero m.requests g.requests,
      from_zero m.events g.events,
      (let q = g.request_count in omega (arith, q)),
      (let q = g.event_count in omega (arith, q)),
    )
