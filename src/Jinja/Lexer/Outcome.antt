-- ===== src/Jinja/Lexer/Outcome.antt =====
-- What `tokenize` of src/code_generator/JinjaTemplateEngine.cpp ends in.
use coro_wayland.Base.{ℕ, ◌≡◌, ◌≢◌, List}
use coro_wayland.Jinja.{Token}
use coro_wayland.Jinja.Errors.{ok, out_of_fuel, Ends-ok, Ends-out_of_fuel}
use coro_wayland.Jinja.Lexer.{tokenize}
use coro_wayland.Jinja.Lexer.Spelling.{solid, spelling}
use coro_wayland.Jinja.Lexer.Progress.{tokenize-Ends}

-- The lexer ends on every text: the fuel of its loops, which is one more than the number of
-- characters, does not run out.
pub tokenize_ends : (content : List ℕ) → tokenize content ≢ out_of_fuel
tokenize_ends content = Ends-out_of_fuel (tokenize-Ends content)

-- A lexer that succeeds loses and adds nothing but white space: the values of the tokens, one
-- behind the other, are the text when the white space is left out of both.
pub tokenize_spells :
    (content : List ℕ) (ts : List Token)
    → tokenize content ≡ ok ts
    → solid (spelling ts) ≡ solid content
tokenize_spells content ts e = Ends-ok ts (tokenize-Ends content) e
