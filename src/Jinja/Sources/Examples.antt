-- ===== src/Jinja/Sources/Examples.antt =====
-- Runs of `make_document` on text.
use coro_wayland.Base.{◌≡◌, refl, [], ◌∷◌}
use coro_wayland.Jinja.{empty_document, multiple_nodes, no_documents, document_then}
use coro_wayland.Jinja.Errors.{ok}
use coro_wayland.Jinja.Identifiers.{
  is_space, is_alpha, is_start_char, ends_part, ends_variable, ends_word, before, from, all_of,
  is_part, after_part, validate_parts, validate_identifier,
}
use coro_wayland.Jinja.Identifiers.Scans.{Free}
use coro_wayland.Jinja.Lexer.{keyword, same_word}
use coro_wayland.Jinja.Sources.{
  compile, Source, blank, words, variable, when, write, tree, IsSource,
}
use coro_wayland.Jinja.Sources.RoundTrip.{start, compile-write}
use coro_wayland.Jinja.Templates.{documents}

-- `a{% if x %}{{ y }}{% endif %}`, with a space in front of the end of a block.
abbrev small : Source
small = words (b'a' ∷ []) (when (b'x' ∷ []) (variable (b'y' ∷ []) blank) blank)

small-IsSource : IsSource small
unfolding IsSource is_space Free ends_variable ends_word validate_identifier validate_parts
    after_part is_start_char is_alpha is_part all_of before from ends_part keyword same_word
small-IsSource = (
  (refl, tt),
  tt,
  (
    (record { solid = refl; free = (refl, tt); valid = λ at. refl }, refl),
    (record { solid = refl; free = (refl, tt); valid = λ at. refl }, tt),
    tt,
  ),
)

compile-write_example :
    compile (write small)
    ≡ ok (multiple_nodes (documents (tree small start) (document_then empty_document no_documents)))
compile-write_example = compile-write small small-IsSource
