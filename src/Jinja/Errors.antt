-- ===== src/Jinja/Errors.antt =====
-- What the lexer and the parser of src/code_generator/JinjaTemplateEngine.cpp end in.
use coro_wayland.Base.{ap, ◌≢◌, ◌≡◌, refl, Bool, true, false, if◌then◌else◌}
use coro_wayland.Jinja.{Location}
use mathlib.Core.Path.{subst}

-- The messages of `TemplateError`, those of the lexer first.
pub data Message : Type 0 where
  invalid_identifier trailing_dot unterminated_index invalid_index : Message
  unterminated_variable expected_variable_close unterminated_block expected_block_close : Message
  no_matching_end_token expected_identifier_after_if unexpected_end_after_condition : Message
  expected_block_end_after_condition expected_endif unexpected_end_after_if_block : Message
  expected_block_start_before_endif expected_block_end_after_endif : Message
  unexpected_else expected_block_start_before_else expected_block_end_after_else : Message
  expected_for_syntax unexpected_end_after_for expected_endfor : Message
  expected_block_start_before_endfor expected_block_end_after_endfor : Message
  unexpected_end_in_block unsupported_block unexpected_end_in_substitution : Message
  expected_identifier_in_substitution expected_variable_end unexpected_token : Message

-- What a call of the lexer or the parser ends in. `undefined` is an access out of bounds or
-- a failed assertion.
pub data Result {ℓ} (A : Type ℓ) : Type ℓ where
  ok : A → Result A
  template_error : Message → Location → Result A
  undefined : Result A
  out_of_fuel : Result A

infixl 5 ◌>>=◌
abbrev pub ◌>>=◌ {ℓ κ} : {A : Type ℓ} {B : Type κ} → Result A → (A → Result B) → Result B
ok a >>= f = f a
template_error m l >>= f = template_error m l
undefined >>= f = undefined
out_of_fuel >>= f = out_of_fuel

-- A result that is there with the property `P`, or is an error; but not the end of the fuel.
pub data Ends {ℓ} {A : Type ℓ} (P : A → Type 0) : Result A → Type ℓ where
  returns : (a : A) → P a → Ends P (ok a)
  fails : (m : Message) (l : Location) → Ends P (template_error m l)
  breaks : Ends P undefined

abbrev pub Any {ℓ} : {A : Type ℓ} → A → Type 0
Any a = Unit

pub bind-Ends {ℓ κ} :
    {A : Type ℓ} {B : Type κ} {P : A → Type 0} {Q : B → Type 0} {r : Result A} (f : A → Result B)
    → Ends P r
    → ((a : A) → P a → Ends Q (f a))
    → Ends Q (r >>= f)
bind-Ends f (returns a p) k = k a p
bind-Ends f (fails m l) k = fails m l
bind-Ends f breaks k = breaks

pub if-Ends {ℓ} :
    {A : Type ℓ} {P : A → Type 0} (b : Bool) {r s : Result A}
    → Ends P r
    → Ends P s
    → Ends P (if b then r else s)
if-Ends true h k = h
if-Ends false h k = k

pub map-Ends {ℓ} :
    {A : Type ℓ} {P Q : A → Type 0} {r : Result A} → Ends P r → ((a : A) → P a → Q a) → Ends Q r
map-Ends (returns a p) k = returns a (k a p)
map-Ends (fails m l) k = fails m l
map-Ends breaks k = breaks

-- As `if-Ends`, where the branches may use what the test gave.
pub test-Ends {ℓ} :
    {A : Type ℓ} {P : A → Type 0} (b : Bool) {r s : Result A}
    → (b ≡ true → Ends P r)
    → (b ≡ false → Ends P s)
    → Ends P (if b then r else s)
test-Ends true h k = h refl
test-Ends false h k = k refl

pub Ends-out_of_fuel {ℓ} : {A : Type ℓ} {P : A → Type 0} {r : Result A} → Ends P r → r ≢ out_of_fuel
Ends-out_of_fuel (returns a p) e = cc
Ends-out_of_fuel (fails m l) e = cc
Ends-out_of_fuel breaks e = cc

value_or {ℓ} : {A : Type ℓ} → A → Result A → A
value_or a (ok b) = b
value_or a _ = a

pub Ends-ok {ℓ} : {A : Type ℓ} {P : A → Type 0} {r : Result A} (a : A) → Ends P r → r ≡ ok a → P a
unfolding value_or
Ends-ok {P = P} a (returns b p) e = subst P (ap (value_or b) e) p
Ends-ok a (fails m l) e = absurd cc
Ends-ok a breaks e = absurd cc
