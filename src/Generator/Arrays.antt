-- ===== src/Generator/Arrays.antt =====
-- Arrays of messages with their numbers, and the tags that they are made of.
use coro_wayland.Base.{ℕ, zero, suc, ◌+◌, ◌≡◌, refl, ap, arith, some, List, if◌then◌else◌}
use coro_wayland.Generator.{push_item, size}
use coro_wayland.Generator.Keys.{NoKey}
use coro_wayland.Generator.Words.{num_key}
use coro_wayland.Jinja.Contexts.{
  Context, string, object, Fields, Items, no_items, item, find, get_item,
}
use coro_wayland.Jinja.Lexer.{same_word}
use coro_wayland.Xml.{xml_tag, XmlNodes, no_nodes, text_then, tag_then}
use mathlib.Core.Path.{subst}

-- How many of the tags have this name.
unfoldable pub tags_named : List ℕ → XmlNodes → ℕ
tags_named name no_nodes = 0
tags_named name (text_then content rest) = tags_named name rest
tags_named name (tag_then (xml_tag n attributes nodes) rest) =
    let others = tags_named name rest in if same_word n name then suc others else others

-- No tag has an attribute `num`.
unfoldable pub NoNumbers : XmlNodes → Type 0
NoNumbers no_nodes = Unit
NoNumbers (text_then content rest) = NoNumbers rest
NoNumbers (tag_then (xml_tag n attributes nodes) rest) = NoKey num_key attributes × NoNumbers rest

module _ (to_string : ℕ → List ℕ) where
  -- A message with this number.
  abbrev pub HasNumber : ℕ → Context → Type 0
  HasNumber i c =
      (members : Fields) × (c ≡ object members)
      × (find members num_key ≡ some (string (to_string i)))

  -- The messages are numbered from `i` on.
  abbrev pub Numbered : ℕ → Items → Type 0
  Numbered i no_items = Unit
  Numbered i (item c rest) = HasNumber i c × Numbered (suc i) rest

  pub push_item-Numbered :
      (i : ℕ) (items : Items) (c : Context)
      → Numbered i items
      → HasNumber (i + size items) c
      → Numbered i (push_item items c)
  unfolding push_item size
  push_item-Numbered i no_items c h k =
      (subst (λ n. HasNumber n c) (let e : i + 0 ≡ i = omega arith in e) k, tt)
  push_item-Numbered i (item d rest) c h k = (
    h.0,
    push_item-Numbered (suc i) rest c h.1 (
        subst (λ n. HasNumber n c)
          (let e : i + suc (size rest) ≡ suc i + size rest = omega arith in e) k),
  )

  pub get_item-Numbered :
      (i j : ℕ) (items : Items) (c : Context)
      → Numbered i items
      → get_item items j ≡ some c
      → HasNumber (i + j) c
  unfolding get_item
  get_item-Numbered i j no_items c h e = absurd cc
  get_item-Numbered i zero (item d rest) c h e =
      subst (λ n. HasNumber n c) (let e : i ≡ i + 0 = omega arith in e)
        (subst (HasNumber i) (let f : d ≡ c = cc in f) h.0)
  get_item-Numbered i (suc j) (item d rest) c h e =
      subst (λ n. HasNumber n c) (let e : suc i + j ≡ i + suc j = omega arith in e)
        (get_item-Numbered (suc i) j rest c h.1 e)

  pub size-push_item : (items : Items) (c : Context) → size (push_item items c) ≡ suc (size items)
  unfolding size push_item
  size-push_item no_items c = refl
  size-push_item (item d rest) c = ap suc (size-push_item rest c)
