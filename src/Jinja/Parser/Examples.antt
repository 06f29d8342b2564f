-- ===== src/Jinja/Parser/Examples.antt =====
-- The template `{% for x in xs %}{% if c %}a{% else %}{{ x }}{% endif %}{% endfor %}b`, and tokens
-- that are no template.
use coro_wayland.Base.{◌<◌, ◌≡◌, ◌≢◌, refl, List, [], ◌∷◌, ◌++◌, arith}
use coro_wayland.Jinja.Errors.{
  ok, template_error, no_matching_end_token, unsupported_block, undefined, out_of_fuel,
}
use coro_wayland.Jinja.{
  Location, Token, endif_word, end_of_file, block_start, block_end, if_word, for_word, in_word,
  else_word, is, empty_document, multiple_nodes, document_then, no_documents,
}
use coro_wayland.Jinja.Templates.{
  Template, blank, plain, variable, when_else, each, symbol, name, tokens, documents, depth,
}
use coro_wayland.Jinja.Parser.{
  make_document, parse_documents, parse_next_document, parse_token, parse_block, parse_if_else,
  parse_if_body, parse_clause, parse_for_each, parse_for_head, find_matching_token, find_loop,
  nested_after,
}
use coro_wayland.Jinja.Parser.Termination.{make_document_ends}
use coro_wayland.Jinja.Parser.RoundTrip.{make_document_lem}

abbrev here : Location
here = record { line = 1; column = 1 }

abbrev later : Location
later = record { line = 1; column = 7 }

abbrev loop_with_choice : Template
loop_with_choice =
    each (120 ∷ []) here (120 ∷ 115 ∷ []) later
      (when_else (99 ∷ []) here (plain (97 ∷ []) later blank) (variable (120 ∷ []) later blank)
        blank)
      (plain (98 ∷ []) later blank)

make_document-else :
    make_document 3 (symbol here block_start ∷ symbol here else_word ∷ symbol here block_end ∷ [])
    ≡ template_error unsupported_block here
unfolding make_document parse_documents parse_next_document parse_token parse_block is
make_document-else = refl

make_document-open_if :
    make_document 3 (
      symbol here block_start
      ∷ symbol here if_word
      ∷ name here (99 ∷ []) here
      ∷ symbol here block_end
      ∷ symbol later end_of_file
      ∷ [])
    ≡ template_error no_matching_end_token later
unfolding make_document parse_documents parse_next_document parse_token parse_block parse_if_else
    find_matching_token find_loop nested_after is
make_document-open_if = refl

depth-loop_with_choice : depth loop_with_choice < 3
unfolding depth
depth-loop_with_choice = omega arith

-- `{% if c %}{% for x in y %}{% endif %}`: the search for `endfor` is given no tokens.
abbrev cut_for : List Token
cut_for =
    symbol here block_start
    ∷ symbol here if_word
    ∷ name here (99 ∷ []) here
    ∷ symbol here block_end
    ∷ symbol here block_start
    ∷ symbol here for_word
    ∷ name here (120 ∷ []) here
    ∷ symbol here in_word
    ∷ name here (121 ∷ []) here
    ∷ symbol here block_end
    ∷ symbol here block_start
    ∷ symbol here endif_word
    ∷ symbol here block_end
    ∷ symbol here end_of_file
    ∷ []

make_document-cut_for : make_document 16 cut_for ≡ undefined
unfolding make_document parse_documents parse_next_document parse_token parse_block parse_if_else
    parse_if_body parse_clause parse_for_each parse_for_head find_matching_token find_loop
    nested_after is
make_document-cut_for = refl

make_document_ends_example : make_document 16 cut_for ≢ out_of_fuel
make_document_ends_example = make_document_ends 16 cut_for (omega arith)

make_document_lem_example :
    make_document 3 (tokens here loop_with_choice ++ symbol here end_of_file ∷ [])
    ≡ ok (multiple_nodes (documents loop_with_choice (document_then empty_document no_documents)))
make_document_lem_example = make_document_lem here loop_with_choice 3 depth-loop_with_choice
