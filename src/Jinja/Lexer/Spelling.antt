-- ===== src/Jinja/Lexer/Spelling.antt =====
-- What the lexer passes over: the values of the tokens, with the white space between them.
use coro_wayland.Base.{
  ℕ, zero, suc, ◌≤◌, ◌≡◌, refl, sym, ap, ◌∙◌, Bool, true, false, List, [], ◌∷◌, ◌++◌, append_assoc,
  arith, length, length-append, drop, if◌then◌else◌, inl, inr, Bool-cases,
}
use coro_wayland.Jinja.{Location, Token}
use coro_wayland.Jinja.Identifiers.{is_space, before, from}
use coro_wayland.Jinja.Lexer.{Lexer, behind, advance_from, advance, skip_spaces, skip_whitespace}

-- A string without its white space.
unfoldable pub solid : List ℕ → List ℕ
solid [] = []
solid (c ∷ cs) = let rest = solid cs in if is_space c then rest else c ∷ rest

-- The values of tokens, one behind the other.
unfoldable pub spelling : List Token → List ℕ
spelling [] = []
spelling (t ∷ ts) = t.value ++ spelling ts

pub solid-append : (xs ys : List ℕ) → solid (xs ++ ys) ≡ solid xs ++ solid ys
unfolding solid
solid-append [] ys = refl
solid-append (x ∷ xs) ys = elim (Bool-cases (is_space x)) [
  | inl e ↦ rw (e, solid-append xs ys)
  | inr e ↦ rw (e, solid-append xs ys)
]

pub spelling-append : (xs ys : List Token) → spelling (xs ++ ys) ≡ spelling xs ++ spelling ys
unfolding spelling
spelling-append [] ys = refl
spelling-append (x ∷ xs) ys =
    ap (λ r. x.value ++ r) (spelling-append xs ys)
    ∙ sym (append_assoc x.value (spelling xs) (spelling ys))

pub before-append-from : (stop : ℕ → Bool) (cs : List ℕ) → before stop cs ++ from stop cs ≡ cs
unfolding before from
before-append-from stop [] = refl
before-append-from stop (c ∷ cs) = elim (Bool-cases (stop c)) [
  | inl e ↦ rw e
  | inr e ↦ rw (e, before-append-from stop cs)
]

pub drop-before : (stop : ℕ → Bool) (cs : List ℕ) → drop (length (before stop cs)) cs ≡ from stop cs
unfolding before from
drop-before stop [] = refl
drop-before stop (c ∷ cs) = elim (Bool-cases (stop c)) [
  | inl e ↦ rw e
  | inr e ↦ rw (e, drop-before stop cs)
]

pub advance_from-input :
    (n : ℕ) (cs : List ℕ) (at : Location) → (advance_from n cs at).input ≡ drop n cs
unfolding advance_from
advance_from-input zero cs at = refl
advance_from-input (suc n) [] at = refl
advance_from-input (suc n) (c ∷ cs) at = advance_from-input n cs (behind at c)

pub advance-input : (n : ℕ) (l : Lexer) → (advance n l).input ≡ drop n l.input
unfolding advance
advance-input n l = advance_from-input n l.input l.location

pub skip_spaces-space :
    (c : ℕ) (cs : List ℕ) (at : Location)
    → is_space c ≡ true
    → skip_spaces (c ∷ cs) at ≡ skip_spaces cs (behind at c)
unfolding skip_spaces
skip_spaces-space c cs at e = rw e

pub skip_spaces-stop :
    (c : ℕ) (cs : List ℕ) (at : Location)
    → is_space c ≡ false
    → skip_spaces (c ∷ cs) at ≡ record { input = c ∷ cs; location = at }
unfolding skip_spaces
skip_spaces-stop c cs at e = rw e

solid-space : (c : ℕ) (cs : List ℕ) → is_space c ≡ true → solid (c ∷ cs) ≡ solid cs
unfolding solid
solid-space c cs e = rw e

-- No other character is skipped, and none is added.
abbrev pub Skipped : List ℕ → List ℕ → Type 0
Skipped cs ds = (solid ds ≡ solid cs) × (length ds ≤ length cs)

skip_spaces-Skipped : (cs : List ℕ) (at : Location) → Skipped cs (skip_spaces cs at).input
unfolding skip_spaces
skip_spaces-Skipped [] at = (refl, omega arith)
skip_spaces-Skipped (c ∷ cs) at =
    let rest = skip_spaces-Skipped cs (behind at c) in
    elim (Bool-cases (is_space c)) [
      | inl e ↦
          rw (skip_spaces-space c cs at e, solid-space c cs e)
            (rest.0, let h = rest.1 in omega (arith, h))
      | inr e ↦ rw (skip_spaces-stop c cs at e) (refl, omega arith)
    ]

pub skip_whitespace-Skipped : (l : Lexer) → Skipped l.input (skip_whitespace l).input
unfolding skip_whitespace
skip_whitespace-Skipped l = skip_spaces-Skipped l.input l.location

module _ (stop : ℕ → Bool) (c : ℕ) (cs : List ℕ) where
  pub before-stop : stop c ≡ true → before stop (c ∷ cs) ≡ []
  unfolding before
  before-stop e = rw e

  pub before-go : stop c ≡ false → before stop (c ∷ cs) ≡ c ∷ before stop cs
  unfolding before
  before-go e = rw e

  pub from-stop : stop c ≡ true → from stop (c ∷ cs) ≡ c ∷ cs
  unfolding from
  from-stop e = rw e

  pub from-go : stop c ≡ false → from stop (c ∷ cs) ≡ from stop cs
  unfolding from
  from-go e = rw e

pub length-from : (stop : ℕ → Bool) (cs : List ℕ) → length (from stop cs) ≤ length cs
length-from stop cs =
    omega
      (arith, length-append (before stop cs) (from stop cs), ap length (before-append-from stop cs))

pub length-before : (stop : ℕ → Bool) (cs : List ℕ) → length (before stop cs) ≤ length cs
length-before stop cs =
    omega
      (arith, length-append (before stop cs) (from stop cs), ap length (before-append-from stop cs))
