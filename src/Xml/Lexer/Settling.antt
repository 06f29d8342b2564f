-- ===== src/Xml/Lexer/Settling.antt =====
-- The turns of the loop of `tokenize`: each takes a character, or none is taken any more.
use coro_wayland.Base.{
  ℕ, zero, suc, ◌+◌, ◌≤◌, ◌<◌, ◌≡◌, refl, sym, ap, ◌∙◌, arith, ◌⊎◌, inl, inr, Bool, true, false,
  ◌&&◌, Bool-cases, Option, none, some, List, [], ◌∷◌, ◌++◌, ◌==◌, length, length-append,
  length-drop,
}
use coro_wayland.Jinja.Identifiers.{is_space, before, from, is_empty}
use coro_wayland.Jinja.Lexer.Spelling.{
  length-from, before-append-from, before-stop, from-stop, from-go,
}
use coro_wayland.Xml.{Token}
use coro_wayland.Xml.Lexer.Turns.{length-skip, skip-solid}
use coro_wayland.Xml.Errors.{Result, ok, ◌>>=◌, Ends, returns, fails, bind-Ends, map-Ends, if-Ends}
use coro_wayland.Xml.Lexer.{
  skip_whitespace, starts_with, ends_tag_name, ends_attribute_name, is_quote, is_open, close_value,
  lex_value, lex_assignment, ends_attributes, attribute_loop, add_attribute_tokens, Lexed,
  skip_past, lex_outside, name_tokens, lex_in_tag, lex_next,
}

abbrev NoLonger : List ℕ → List ℕ × List ℕ → Type 0
NoLonger cs r = length r.1 ≤ length cs

close_value-NoLonger :
    (v cs ds : List ℕ) → length cs ≤ length ds → Ends (NoLonger ds) (close_value v cs)
unfolding close_value
close_value-NoLonger v [] ds h = fails _
close_value-NoLonger v (c ∷ cs) ds h = returns _ (omega (arith, h))

lex_value-NoLonger : (cs : List ℕ) → Ends (NoLonger cs) (lex_value cs)
unfolding lex_value
lex_value-NoLonger [] = fails _
lex_value-NoLonger (c ∷ cs) =
    if-Ends (is_quote c)
      (λ h. close_value-NoLonger _ _ (c ∷ cs) (omega (arith, length-from is_quote cs)))
      (λ h. fails _)

lex_assignment-NoLonger : (cs : List ℕ) → Ends (NoLonger cs) (lex_assignment cs)
unfolding lex_assignment
lex_assignment-NoLonger [] = fails _
lex_assignment-NoLonger (c ∷ cs) =
    if-Ends (c == b'=')
      (λ h.
        map-Ends (lex_value-NoLonger (skip_whitespace cs))
          (λ r k. omega (arith, k, length-skip cs)))
      (λ h. fails _)

-- Nothing is taken and no token added, or a character is taken.
abbrev Taken : List ℕ → List Token × List ℕ → Type 0
Taken cs r = (r ≡ ([], cs)) ⊎ (length r.1 < length cs)

nonempty : (cs : List ℕ) → is_empty cs ≡ false → 0 < length cs
unfolding is_empty
nonempty [] h = absurd cc
nonempty (c ∷ cs) h = omega arith

length-parts :
    (stop : ℕ → Bool) (cs : List ℕ) → length (before stop cs) + length (from stop cs) ≡ length cs
length-parts stop cs =
    omega
      (arith, length-append (before stop cs) (from stop cs), ap length (before-append-from stop cs))

attribute_loop-Taken : (k : ℕ) (cs : List ℕ) → length cs < k → Ends (Taken cs) (attribute_loop k cs)
unfolding attribute_loop
attribute_loop-Taken zero cs h = absurd (omega arith)
attribute_loop-Taken (suc k) cs h =
    if-Ends (ends_attributes cs) (λ e. returns _ (inl refl))
      (λ e.
        if-Ends (is_empty (before ends_attribute_name cs)) (λ d. returns _ (inl refl))
          (λ d.
            let less = nonempty _ d in
            let parts = length-parts ends_attribute_name cs in
            let behind = length-skip (from ends_attribute_name cs) in
            bind-Ends _ (lex_assignment-NoLonger (skip_whitespace (from ends_attribute_name cs)))
              (λ valued v.
                let left = length-skip valued.1 in
                bind-Ends _
                  (attribute_loop-Taken k (skip_whitespace valued.1)
                    (omega (arith, h, v, less, parts, behind, left)))
                  (λ rest t. returns _ (
                    inr (elim t [
                      | inl q ↦ omega (arith, v, less, parts, behind, left, ap (λ s. length s.1) q)
                      | inr q ↦ omega (arith, v, less, parts, behind, left, q)
                    ]))))))

-- A turn at `cs` takes a character, or changes nothing.
abbrev pub Turned : Bool → List ℕ → Lexed → Type 0
Turned in_tag cs r = (length r.2 < length cs) ⊎ (r ≡ ([], in_tag, cs))

skip_past-Turned :
    (o : Option ℕ) (e : Result Lexed) (size c : ℕ) (cs : List ℕ)
    → Ends (Turned false (c ∷ cs)) e
    → 0 < size
    → Ends (Turned false (c ∷ cs)) (skip_past o e size (c ∷ cs))
unfolding skip_past
skip_past-Turned none e size c cs h g = h
skip_past-Turned (some i) e size c cs h g =
    returns _ (inl (omega (arith, g, length-drop (i + size) (c ∷ cs))))

opens-with : (c : ℕ) (cs : List ℕ) → starts_with (c ∷ cs) (b'<' ∷ []) ≡ false → is_open c ≡ false
unfolding starts_with is_open
opens-with c cs h = elim (Bool-cases (c == b'<')) [
  | inl e ↦ absurd (let f = sym (ap (λ b. b && true) e) ∙ h in cc)
  | inr e ↦ e
]

lex_outside-Turned : (c : ℕ) (cs : List ℕ) → Ends (Turned false (c ∷ cs)) (lex_outside (c ∷ cs))
unfolding lex_outside
lex_outside-Turned c cs =
    if-Ends (starts_with (c ∷ cs) (b'<' ∷ b'?' ∷ []))
      (λ h. skip_past-Turned _ _ 2 c cs (fails _) (omega arith))
      (λ h.
        if-Ends (starts_with (c ∷ cs) (b'<' ∷ b'!' ∷ b'-' ∷ b'-' ∷ []))
          (λ h. skip_past-Turned _ _ 3 c cs (fails _) (omega arith))
          (λ h.
            if-Ends (starts_with (c ∷ cs) (b'<' ∷ b'/' ∷ []))
              (λ h. returns _ (inl (omega (arith, length-drop 2 (c ∷ cs)))))
              (λ h.
                if-Ends (starts_with (c ∷ cs) (b'<' ∷ [])) (λ h. returns _ (inl (omega arith)))
                  (λ h. returns _ (
                    inl (
                      omega (
                        arith,
                        length-from is_open cs,
                        ap length (from-go is_open c cs (opens-with c cs h)),
                      )))))))

-- The name and the attributes of a tag.
attributes-Turned :
    (c : ℕ) (cs : List ℕ)
    → is_space c ≡ false
    → Ends (Turned true (c ∷ cs)) (do
      attributes ← add_attribute_tokens (from ends_tag_name (c ∷ cs))
      ok (name_tokens (before ends_tag_name (c ∷ cs)) ++ attributes.0, true, attributes.1))
unfolding add_attribute_tokens name_tokens
attributes-Turned c cs s = elim (Bool-cases (ends_tag_name c)) [
  | inl e ↦
      let ds = c ∷ cs in
      let same : skip_whitespace ds ≡ ds = skip-solid c cs s in
      rw (from-stop ends_tag_name c cs e, before-stop ends_tag_name c cs e)
        (bind-Ends _
          (attribute_loop-Taken (suc (length ds)) (skip_whitespace ds)
            (omega (arith, length-skip ds)))
          (λ r t. elim t [
            | inl q ↦ returns _ (inr (ap (λ p. (p.0, true, p.1)) q ∙ ap (λ p. ([], true, p)) same))
            | inr q ↦ returns _ (inl (omega (arith, q, length-skip ds)))
          ]))
  | inr e ↦
      let ds = from ends_tag_name (c ∷ cs) in
      let less : length ds ≤ length cs =
        omega (arith, length-from ends_tag_name cs, ap length (from-go ends_tag_name c cs e)) in
      bind-Ends _
        (attribute_loop-Taken (suc (length ds)) (skip_whitespace ds)
          (omega (arith, length-skip ds)))
        (λ r t. returns _ (
          inl (elim t [
            | inl q ↦ omega (arith, ap (λ p. length p.1) q, length-skip ds, less)
            | inr q ↦ omega (arith, q, length-skip ds, less)
          ])))
]

lex_in_tag-Turned :
    (c : ℕ) (cs : List ℕ) → is_space c ≡ false → Ends (Turned true (c ∷ cs)) (lex_in_tag (c ∷ cs))
unfolding lex_in_tag
lex_in_tag-Turned c cs s =
    if-Ends (starts_with (c ∷ cs) (b'/' ∷ b'>' ∷ []))
      (λ h. returns _ (inl (omega (arith, length-drop 2 (c ∷ cs)))))
      (λ h.
        if-Ends (starts_with (c ∷ cs) (b'>' ∷ [])) (λ h. returns _ (inl (omega arith)))
          (λ h.
            if-Ends (starts_with (c ∷ cs) (b'<' ∷ b'/' ∷ [])) (λ h. fails _)
              (λ h. attributes-Turned c cs s)))

pub lex_next-Turned :
    (in_tag : Bool) (c : ℕ) (cs : List ℕ)
    → is_space c ≡ false
    → Ends (Turned in_tag (c ∷ cs)) (lex_next in_tag (c ∷ cs))
unfolding lex_next
lex_next-Turned true c cs s = lex_in_tag-Turned c cs s
lex_next-Turned false c cs s = lex_outside-Turned c cs
