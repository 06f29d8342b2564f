-- ===== src/Jinja/Contexts/Paths.antt =====
-- `get_destination_context` of src/code_generator/JinjaTemplateEngine.cpp against the rules for paths.
use coro_wayland.Base.{
  ℕ, zero, suc, ◌+◌, ◌<◌, ◌^◌, ◌≡◌, refl, ap, sym, ◌∙◌, arith, true, false, Option, none, some,
  List, [], ◌∷◌, ◌++◌, append-nil, length, length-append, leb, ◌==◌,
}
use coro_wayland.Jinja.{Location}
use coro_wayland.Jinja.Identifiers.{is_digit, ends_part, from, is_empty, all_of, is_index, offset}
use coro_wayland.Jinja.Identifiers.Scans.{Free, Stops, before-append, from-append}
use coro_wayland.Jinja.Contexts.{
  Context, string, object, array, Fields, Items, find, get_item, expected_point, expected_bracket,
  unclosed_bracket, Outcome, value, render_error, stoul, is_bracket, next_identifier, Walk,
  step_object, step_item, step_index, step_bracket, walk_array, step_variable, step_found,
  step_member, walk, get_destination_context,
}
use coro_wayland.Jinja.Contexts.Answers.{
  IsDigits, Answer, Answers, Leads, whole, here, absent, member, indexed, behind_string, no_index,
  no_member, LeadsItem, outside, item_string, item_behind_string, item_object, item_array,
  item_no_index, item_no_member, unclosed, item_member, item_item,
}

Answers-eq : (a : Answer) {o o' : Outcome (Option Context)} → o ≡ o' → Answers a o' → Answers a o
Answers-eq a e h = rw e h

digits-Free : (ds : List ℕ) → all_of is_digit ds ≡ true → Free is_bracket ds
unfolding all_of Free is_digit is_bracket
digits-Free [] e = tt
digits-Free (d ∷ ds) e = (ground arith, digits-Free ds (ground arith))

is_index-digits : (ds : List ℕ) → is_index ds ≡ true → all_of is_digit ds ≡ true
unfolding is_index
is_index-digits ds e = ground arith

stoul-IsDigits : (at : Location) (ds : List ℕ) (n : ℕ) → IsDigits ds n → stoul at ds ≡ value n
unfolding stoul is_index is_empty all_of
stoul-IsDigits at [] n h = absurd (let e = h.0 in ground arith)
stoul-IsDigits at (d ∷ ds) n h =
    let e = h.0 in
    let f : is_digit d ≡ true = ground arith in
    let small : leb (2 ^ 64) n ≡ false = (let g = h.2 in ground arith) in rw (f, h.1, small)

module _ (at : Location) where
  walk-name :
      (k : ℕ) (members : Fields) (x : ℕ) (xs rest : List ℕ) (i : ℕ) (o : Option Context)
      → Free ends_part (x ∷ xs)
      → Stops ends_part rest
      → find members (x ∷ xs) ≡ o
      → walk at (suc k) (object members) (x ∷ xs ++ rest) i
        ≡ step_found at (walk at k) o rest i (length (x ∷ xs))
  unfolding walk step_member next_identifier
  walk-name k members x xs rest i o f s e =
      rw (before-append ends_part (x ∷ xs) rest f s, from-append ends_part (x ∷ xs) rest f s, e)

  walk_array-index :
      (again : Walk) (k : ℕ) (entries : Items) (ds rest : List ℕ) (n i : ℕ) {o : Option Context}
      → IsDigits ds n
      → get_item entries n ≡ o
      → walk_array at again (suc k) entries (b'[' ∷ ds ++ b']' ∷ rest) i
        ≡ step_index at again (walk_array at again k) o rest i (length ds + 2)
  unfolding walk_array step_bracket is_empty Stops is_bracket
  walk_array-index again k entries ds rest n i h e =
      let free = digits-Free ds (is_index-digits ds h.0) in
      rw (
        from-append is_bracket ds (b']' ∷ rest) free refl,
        before-append is_bracket ds (b']' ∷ rest) free refl,
        stoul-IsDigits at ds n h,
        e,
      )

  object-no_index :
      (again : Walk) (k : ℕ) (inner : Fields) (c : ℕ) (path : List ℕ) (i width : ℕ)
      → (c == b'.') ≡ false
      → step_index at again (walk_array at again k) (some (object inner)) (c ∷ path) i width
        ≡ render_error expected_point (offset at (i + 1))
  unfolding step_index step_item step_object
  object-no_index again k inner c path i width o = rw o

  array-no_member :
      (again : Walk) (k : ℕ) (inner : Items) (c : ℕ) (path : List ℕ) (i width : ℕ)
      → (c == b'[') ≡ false
      → step_index at again (walk_array at again (suc k)) (some (array inner)) (c ∷ path) i width
        ≡ render_error expected_bracket (offset at (i + width))
  unfolding step_index step_item walk_array
  array-no_member again k inner c path i width o = rw o

  walk_array-unclosed :
      (again : Walk) (k : ℕ) (entries : Items) (path : List ℕ) (i : ℕ)
      → Free is_bracket path
      → walk_array at again (suc k) entries (b'[' ∷ path) i
        ≡ render_error unclosed_bracket (offset at i)
  unfolding walk_array step_bracket is_empty Stops
  walk_array-unclosed again k entries path i f =
      rw (ap (from is_bracket) (sym (append-nil path)) ∙ from-append is_bracket path [] f tt) refl

  mutual
    unfolding step_found step_variable step_object step_index step_item walk is_empty Stops
        ends_part

    walk-Leads :
        (k : ℕ) (c : Context) (path : List ℕ) (a : Answer) (i : ℕ)
        → Leads c path a
        → length path < k
        → Answers a (walk at k c path i)
    walk-Leads zero c path a i r h = absurd (omega arith)
    walk-Leads (suc k) _ _ _ i (whole c) h = refl
    walk-Leads (suc k) _ _ _ i (here members x xs target f e) h =
        ap (λ p. walk at (suc k) (object members) p i) (sym (append-nil (x ∷ xs)))
        ∙ walk-name k members x xs [] i (some target) f tt e
    walk-Leads (suc k) _ _ _ i (absent members x xs path f s e) h =
        walk-name k members x xs path i none f s e
    walk-Leads (suc k) _ _ _ i (member members inner x xs path a f e r) h =
        Answers-eq a (walk-name k members x xs (b'.' ∷ path) i (some (object inner)) f refl e) (
          walk-Leads k (object inner) path a _ r (omega (arith, h, length-append xs (b'.' ∷ path))))
    walk-Leads (suc k) _ _ _ i (indexed members entries x xs path a f e r) h =
        Answers-eq a (walk-name k members x xs (b'[' ∷ path) i (some (array entries)) f refl e) (
          walk_array-Leads k (suc (length path)) entries path a _ r
            (omega (arith, h, length-append xs (b'[' ∷ path))) (omega arith))
    walk-Leads (suc k) _ _ _ i (behind_string members s x xs d path f ends e) h =
        (_, walk-name k members x xs (d ∷ path) i (some (string s)) f ends e)
    walk-Leads (suc k) _ _ _ i (no_index members inner x xs path f e) h =
        (_, walk-name k members x xs (b'[' ∷ path) i (some (object inner)) f refl e)
    walk-Leads (suc k) _ _ _ i (no_member members entries x xs path f e) h =
        (_, walk-name k members x xs (b'.' ∷ path) i (some (array entries)) f refl e)

    walk_array-Leads :
        (k j : ℕ) (entries : Items) (path : List ℕ) (a : Answer) (i : ℕ)
        → LeadsItem entries path a
        → length path < k
        → length path < j
        → Answers a (walk_array at (walk at k) (suc j) entries (b'[' ∷ path) i)
    walk_array-Leads k zero entries path a i r h g = absurd (omega arith)
    walk_array-Leads k (suc j) _ _ _ i (outside entries ds n path d e) h g =
        (_, walk_array-index (walk at k) (suc j) entries ds path n i d e)
    walk_array-Leads k (suc j) _ _ _ i (item_string entries ds n s d e) h g =
        walk_array-index (walk at k) (suc j) entries ds [] n i d e
    walk_array-Leads k (suc j) _ _ _ i (item_behind_string entries ds n s c path d e) h g =
        (_, walk_array-index (walk at k) (suc j) entries ds (c ∷ path) n i d e)
    walk_array-Leads k (suc j) _ _ _ i (item_object entries ds n inner d e) h g =
        (_, walk_array-index (walk at k) (suc j) entries ds [] n i d e)
    walk_array-Leads k (suc j) _ _ _ i (item_array entries ds n inner d e) h g =
        (_, walk_array-index (walk at k) (suc j) entries ds [] n i d e)
    walk_array-Leads k (suc j) _ _ _ i (item_no_index entries ds n inner c path d o e) h g = (
      _,
      walk_array-index (walk at k) (suc j) entries ds (c ∷ path) n i d e
          ∙ object-no_index (walk at k) (suc j) inner c path i (length ds + 2) o,
    )
    walk_array-Leads k (suc j) _ _ _ i (item_no_member entries ds n inner c path d o e) h g = (
      _,
      walk_array-index (walk at k) (suc j) entries ds (c ∷ path) n i d e
          ∙ array-no_member (walk at k) j inner c path i (length ds + 2) o,
    )
    walk_array-Leads k (suc j) _ _ _ i (unclosed entries path f) h g =
        (_, walk_array-unclosed (walk at k) (suc j) entries path i f)
    walk_array-Leads k (suc j) _ _ _ i (item_member entries ds n inner path a d e r) h g =
        Answers-eq a (walk_array-index (walk at k) (suc j) entries ds (b'.' ∷ path) n i d e) (
          walk-Leads k (object inner) path a _ r
            (omega (arith, h, length-append ds (b']' ∷ b'.' ∷ path))))
    walk_array-Leads k (suc j) _ _ _ i (item_item entries ds n inner path a d e r) h g =
        Answers-eq a (walk_array-index (walk at k) (suc j) entries ds (b'[' ∷ path) n i d e) (
          walk_array-Leads k j inner path a _ r
            (omega (arith, h, length-append ds (b']' ∷ b'[' ∷ path)))
            (omega (arith, g, length-append ds (b']' ∷ b'[' ∷ path))))

-- The look-up of a path of names and of indices below 2 ^ 64 is what the path leads to from an
-- object: the member under its last name, or the string at its last index; nothing if a name has
-- no member; and an exception if an index is out of bounds or has no closing bracket, if something
-- follows a string, or something else than a dot an object or than a bracket an array, and also if
-- the path ends at an item that is an object or an array. The empty path, and that behind a last
-- dot, leads to the context itself.
pub get_destination_context_lem :
    (c : Context) (path : List ℕ) (a : Answer) (at : Location)
    → Leads c path a
    → Answers a (get_destination_context c path at)
unfolding get_destination_context
get_destination_context_lem c path a at r =
    walk-Leads at (suc (length path)) c path a 0 r (omega arith)
