-- ===== src/Xml/Errors.antt =====
-- What the lexer and the parser of src/code_generator/WaylandXmlParser.cpp end in.
use coro_wayland.Base.{ℕ, ap, ◌≢◌, ◌≡◌, refl, Bool, true, false, List, if◌then◌else◌}
use mathlib.Core.Path.{subst}

-- The messages of `std::runtime_error`, those of the lexer first.
pub data Message : Type 0 where
  unterminated_attribute_value expected_quote expected_equals : Message
  unterminated_declaration unterminated_comment unexpected_close_inside_tag : Message
  unexpected_end_of_tokens expected_open_tag expected_tag_name : Message
  expected_attribute_value unexpected_token_in_tag expected_tag_end : Message
  unexpected_token expected_close_tag : Message
  mismatched_close_tag : (expected found : List ℕ) → Message

-- What a call of the lexer or the parser ends in. `undefined` is an access out of bounds.
pub data Result {ℓ} (A : Type ℓ) : Type ℓ where
  ok : A → Result A
  runtime_error : Message → Result A
  undefined : Result A
  out_of_fuel : Result A

infixl 5 ◌>>=◌
abbrev pub ◌>>=◌ {ℓ κ} : {A : Type ℓ} {B : Type κ} → Result A → (A → Result B) → Result B
ok a >>= f = f a
runtime_error m >>= f = runtime_error m
undefined >>= f = undefined
out_of_fuel >>= f = out_of_fuel

-- A result that is there with the property `P`, or is an error.
pub data Ends {ℓ} {A : Type ℓ} (P : A → Type 0) : Result A → Type ℓ where
  returns : (a : A) → P a → Ends P (ok a)
  fails : (m : Message) → Ends P (runtime_error m)

pub bind-Ends {ℓ κ} :
    {A : Type ℓ} {B : Type κ} {P : A → Type 0} {Q : B → Type 0} {r : Result A} (f : A → Result B)
    → Ends P r
    → ((a : A) → P a → Ends Q (f a))
    → Ends Q (r >>= f)
bind-Ends f (returns a p) k = k a p
bind-Ends f (fails m) k = fails m

-- The branches may use what the test gave.
pub if-Ends {ℓ} :
    {A : Type ℓ} {P : A → Type 0} (b : Bool) {r s : Result A}
    → (b ≡ true → Ends P r)
    → (b ≡ false → Ends P s)
    → Ends P (if b then r else s)
if-Ends true h k = h refl
if-Ends false h k = k refl

pub map-Ends {ℓ} :
    {A : Type ℓ} {P Q : A → Type 0} {r : Result A} → Ends P r → ((a : A) → P a → Q a) → Ends Q r
map-Ends (returns a p) k = returns a (k a p)
map-Ends (fails m) k = fails m

pub Ends-out_of_fuel {ℓ} : {A : Type ℓ} {P : A → Type 0} {r : Result A} → Ends P r → r ≢ out_of_fuel
Ends-out_of_fuel (returns a p) e = cc
Ends-out_of_fuel (fails m) e = cc

pub Ends-undefined {ℓ} : {A : Type ℓ} {P : A → Type 0} {r : Result A} → Ends P r → r ≢ undefined
Ends-undefined (returns a p) e = cc
Ends-undefined (fails m) e = cc

value_or {ℓ} : {A : Type ℓ} → A → Result A → A
value_or a (ok b) = b
value_or a _ = a

pub Ends-ok {ℓ} : {A : Type ℓ} {P : A → Type 0} {r : Result A} (a : A) → Ends P r → r ≡ ok a → P a
unfolding value_or
Ends-ok {P = P} a (returns b p) e = subst P (ap (value_or b) e) p
Ends-ok a (fails m) e = absurd cc
