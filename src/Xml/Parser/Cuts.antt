-- ===== src/Xml/Parser/Cuts.antt =====
-- What `parse_tag` returns is a tag at the start of the tokens.
use coro_wayland.Base.{
  ℕ, suc, ◌+◌, ◌-◌, ◌≡◌, refl, sym, ap, ◌∙◌, arith, ◌⊎◌, inl, inr, Bool, true, false, not, ◌&&◌,
  Bool-cases, List, [], ◌∷◌, ◌++◌, ==_iff, length, get_or,
}
use coro_wayland.Xml.{
  TokenType, open_tag, close_tag, self_close, open_close_tag, tag_name, attribute_name,
  attribute_value, text, end_of_file, code, is, Token, Attribute,
}
use coro_wayland.Xml.Errors.{
  ok, runtime_error, ◌>>=◌, Ends, returns, fails, bind-Ends, map-Ends, if-Ends, expected_tag_end,
}
use coro_wayland.Xml.Language.{Has, WritesAttributes, no_attributes, attribute_then, IsHead}
use coro_wayland.Xml.Parser.{token_at, end_tag, tag_loop, cut_tag, parse_tag}
use coro_wayland.Xml.Parser.Tags.{Closes, cut_tag-end}
use mathlib.Core.Path.{subst}

unfoldable decode : ℕ → TokenType
decode n =
    get_or
      (open_tag ∷ close_tag ∷ self_close ∷ open_close_tag ∷ tag_name ∷ attribute_name
        ∷ attribute_value ∷ text ∷ end_of_file ∷ [])
      n open_tag

decode-code : (t : TokenType) → decode (code t) ≡ t
unfolding decode
decode-code open_tag = refl
decode-code close_tag = refl
decode-code self_close = refl
decode-code open_close_tag = refl
decode-code tag_name = refl
decode-code attribute_name = refl
decode-code attribute_value = refl
decode-code text = refl
decode-code end_of_file = refl

pub is→eq : (a b : TokenType) → is a b ≡ true → a ≡ b
unfolding is
is→eq a b h = sym (decode-code a) ∙ ap decode ((==_iff (code a) (code b)).0 h) ∙ decode-code b

and-left : (a b : Bool) → (a && b) ≡ true → a ≡ true
and-left true b h = refl
and-left false b h = h

pub not-false : (b : Bool) → not b ≡ false → b ≡ true
not-false true h = refl
not-false false h = sym h

-- What the loop of an opening tag stops at: the end of the tokens, or the end of the tag.
data Looped (i : ℕ) (ts : List Token) : ℕ → Type 0 where
  ran_out :
      (attributes : List Attribute) (j : ℕ)
      → WritesAttributes ts attributes
      → j ≡ i + length ts
      → Looped i ts j
  ended :
      (w : List Token) (attributes : List Attribute) (end : Token) (rest : List Token) (j : ℕ)
      → WritesAttributes w attributes
      → Closes end
      → ts ≡ w ++ end ∷ rest
      → j ≡ i + suc (length w)
      → Looped i ts j

further :
    (i j : ℕ) (n v : Token) (ts : List Token)
    → Has attribute_name n
    → Has attribute_value v
    → Looped (suc (suc i)) ts j
    → Looped i (n ∷ v ∷ ts) j
further i j n v ts h k (ran_out attributes _ a e) =
    ran_out _ j (attribute_then n v h k ts attributes a) (omega (arith, e))
further i j n v ts h k (ended w attributes end rest _ a c e d) =
    ended (n ∷ v ∷ w) _ end rest j (attribute_then n v h k w attributes a) c (ap (λ s. n ∷ v ∷ s) e)
      (omega (arith, d))

at_end : (i : ℕ) (t : Token) (ts : List Token) → Closes t → Ends (Looped i (t ∷ ts)) (ok (suc i))
at_end i t ts h = returns (suc i) (ended [] [] t ts _ no_attributes h refl (omega arith))

end_tag-Looped :
    (i : ℕ) (t : Token) (ts : List Token)
    → Ends (Looped i (t ∷ ts)) (end_tag open_tag i t.token_type)
unfolding end_tag is
end_tag-Looped i t ts =
    if-Ends (is t.token_type self_close && is open_tag open_tag)
      (λ h. at_end i t ts (inl (is→eq _ _ (and-left _ _ h))))
      (λ d.
        if-Ends (is t.token_type close_tag) (λ h. at_end i t ts (inr (is→eq _ _ h))) (λ h. fails _))

tag_loop-Looped : (i : ℕ) (ts : List Token) → Ends (Looped i ts) (tag_loop open_tag i ts)
unfolding tag_loop
tag_loop-Looped i [] = returns i (ran_out [] _ no_attributes (omega arith))
tag_loop-Looped i (t ∷ []) =
    if-Ends (is t.token_type attribute_name && is open_tag open_tag) (λ e. fails _)
      (λ e. end_tag-Looped i t [])
tag_loop-Looped i (t ∷ u ∷ ts) =
    if-Ends (is t.token_type attribute_name && is open_tag open_tag)
      (λ e.
        if-Ends (is u.token_type attribute_value)
          (λ h.
            map-Ends (tag_loop-Looped (suc (suc i)) ts)
              (λ j l. further i j t u ts (is→eq _ _ (and-left _ _ e)) (is→eq _ _ h) l))
          (λ h. fails _))
      (λ e. end_tag-Looped i t (u ∷ ts))

-- The tag at the start of tokens that `parse_tag` cuts out.
pub data Cut (ts : List Token) : List Token → Type 0 where
  opening :
      (bracket name end : Token) (w rest : List Token) (attributes : List Attribute)
      → IsHead bracket name
      → WritesAttributes w attributes
      → Closes end
      → ts ≡ bracket ∷ name ∷ (w ++ end ∷ rest)
      → Cut ts (bracket ∷ name ∷ (w ++ end ∷ []))
  closing :
      (bracket name end : Token) (rest : List Token)
      → Has open_close_tag bracket
      → Has tag_name name
      → Has close_tag end
      → ts ≡ bracket ∷ name ∷ end ∷ rest
      → Cut ts (bracket ∷ name ∷ end ∷ [])

-- The token in front of which an opening tag may break off.
abbrev Inner : Token → Type 0
Inner t = Has tag_name t ⊎ Has attribute_value t

last-Inner :
    (t : Token) (w : List Token) (attributes : List Attribute)
    → Inner t
    → WritesAttributes w attributes
    → Inner (token_at (t ∷ w) (length w))
last-Inner t _ _ h no_attributes = h
last-Inner t _ _ h (attribute_then n v p q w attributes a) = last-Inner v w attributes (inr q) a

cut_tag-Inner :
    (ts : List Token) (i : ℕ)
    → Inner (token_at ts (i - 1))
    → cut_tag ts i ≡ runtime_error expected_tag_end
unfolding cut_tag is
cut_tag-Inner ts i (inl h) = rw h
cut_tag-Inner ts i (inr h) = rw h

cut_tag-Cut :
    (bracket name : Token) (ts : List Token) (j : ℕ)
    → IsHead bracket name
    → Looped 2 ts j
    → Ends (Cut (bracket ∷ name ∷ ts)) (cut_tag (bracket ∷ name ∷ ts) j)
cut_tag-Cut bracket name ts j h (ran_out attributes _ a e) =
    let i : j - 1 ≡ suc (length ts) = omega (arith, e) in
    let inner : Inner (token_at (bracket ∷ name ∷ ts) (j - 1)) =
      subst (λ k. Inner (token_at (bracket ∷ name ∷ ts) k)) (sym i)
        (last-Inner name ts attributes (inl h.names) a) in
    subst (Ends (Cut (bracket ∷ name ∷ ts))) (sym (cut_tag-Inner (bracket ∷ name ∷ ts) j inner))
      (fails expected_tag_end)
cut_tag-Cut bracket name ts j h (ended w attributes end rest _ a c e d) =
    let cut : cut_tag (bracket ∷ name ∷ ts) j ≡ ok (bracket ∷ name ∷ (w ++ end ∷ [])) =
      ap (λ s. cut_tag (bracket ∷ name ∷ s) j) e
      ∙ ap (cut_tag (bracket ∷ name ∷ (w ++ end ∷ rest)))
          (let i : j ≡ suc (suc (suc (length w))) = omega (arith, d) in i)
      ∙ cut_tag-end (bracket ∷ name ∷ w) end rest c in
    subst (Ends (Cut (bracket ∷ name ∷ ts))) (sym cut) (
      returns _ (opening bracket name end w rest attributes h a c (ap (λ s. bracket ∷ name ∷ s) e)))

and-false : (b : Bool) → (b && false) ≡ false
and-false true = refl
and-false false = refl

close_turn :
    (bracket name t : Token) (ts : List Token)
    → Has open_close_tag bracket
    → Has tag_name name
    → Ends
        (Cut (bracket ∷ name ∷ t ∷ ts))
        (end_tag open_close_tag 2 t.token_type >>= cut_tag (bracket ∷ name ∷ t ∷ ts))
unfolding end_tag is
close_turn bracket name t ts h k =
    rw (and-false (is t.token_type self_close)) (elim (Bool-cases (is t.token_type close_tag)) [
      | inl e ↦
          rw (e, cut_tag-end (bracket ∷ name ∷ []) t ts (inr (is→eq _ _ e)))
            (returns _ (closing bracket name t ts h k (is→eq _ _ e) refl))
      | inr e ↦ rw e (fails _)
    ])

-- The loop of a closing tag.
close-Cut :
    (bracket name : Token) (ts : List Token)
    → Has open_close_tag bracket
    → Has tag_name name
    → Ends
        (Cut (bracket ∷ name ∷ ts))
        (tag_loop open_close_tag 2 ts >>= cut_tag (bracket ∷ name ∷ ts))
unfolding tag_loop is
close-Cut bracket name [] h k =
    subst (Ends (Cut (bracket ∷ name ∷ []))) (sym (cut_tag-Inner (bracket ∷ name ∷ []) 2 (inl k)))
      (fails expected_tag_end)
close-Cut bracket name (t ∷ []) h k =
    rw (and-false (is t.token_type attribute_name)) (close_turn bracket name t [] h k)
close-Cut bracket name (t ∷ u ∷ ts) h k =
    rw (and-false (is t.token_type attribute_name)) (close_turn bracket name t (u ∷ ts) h k)

heads : (a b : Bool) → (not a && not b) ≡ false → (a ≡ true) ⊎ (b ≡ true)
heads true b h = inl refl
heads false b h = inr (not-false b h)

head-Cut :
    (t u : Token) (ts : List Token)
    → Has tag_name u
    → (is t.token_type open_tag ≡ true) ⊎ (is t.token_type open_close_tag ≡ true)
    → Ends (Cut (t ∷ u ∷ ts)) (tag_loop t.token_type 2 ts >>= cut_tag (t ∷ u ∷ ts))
head-Cut t u ts k (inl h) =
    let e = is→eq t.token_type open_tag h in
    subst (λ type. Ends (Cut (t ∷ u ∷ ts)) (tag_loop type 2 ts >>= cut_tag (t ∷ u ∷ ts))) (sym e)
      (bind-Ends (cut_tag (t ∷ u ∷ ts)) (tag_loop-Looped 2 ts)
        (λ j l. cut_tag-Cut t u ts j (record { opens = e; names = k }) l))
head-Cut t u ts k (inr h) =
    let e = is→eq t.token_type open_close_tag h in
    subst (λ type. Ends (Cut (t ∷ u ∷ ts)) (tag_loop type 2 ts >>= cut_tag (t ∷ u ∷ ts))) (sym e)
      (close-Cut t u ts e k)

pub parse_tag-Cut : (ts : List Token) → Ends (Cut ts) (parse_tag ts)
unfolding parse_tag
parse_tag-Cut [] = fails _
parse_tag-Cut (t ∷ []) =
    if-Ends (not (is t.token_type open_tag) && not (is t.token_type open_close_tag)) (λ h. fails _)
      (λ h. fails _)
parse_tag-Cut (t ∷ u ∷ ts) =
    if-Ends (not (is t.token_type open_tag) && not (is t.token_type open_close_tag)) (λ h. fails _)
      (λ h.
        if-Ends (not (is u.token_type tag_name)) (λ k. fails _)
          (λ k. head-Cut t u ts (is→eq _ _ (not-false _ k)) (heads _ _ h)))
