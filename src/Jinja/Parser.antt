-- ===== src/Jinja/Parser.antt =====
-- The parser of src/code_generator/JinjaTemplateEngine.cpp, from `find_matching_token` to
-- `make_document`.
pub mod Matching
pub mod Blocks
pub mod Searches
pub mod Endings
pub mod Termination
pub mod Nodes
pub mod RoundTrip
pub mod Follows
pub mod Marks
pub mod Unmarking
pub mod Independence
mod Examples
use coro_wayland.Base.{
  ℕ, zero, suc, ◌+◌, ◌-◌, Bool, true, false, not, ◌&&◌, List, [], ◌∷◌, ◌==◌, leb, if◌then◌else◌,
  length, get_or, take, drop,
}
use coro_wayland.Jinja.Errors.{
  Result, expected_block_end_after_condition, expected_block_end_after_else,
  expected_block_end_after_endfor, expected_block_end_after_endif, expected_block_start_before_else,
  expected_block_start_before_endfor, expected_block_start_before_endif, expected_endfor,
  expected_endif, expected_for_syntax, expected_identifier_after_if,
  expected_identifier_in_substitution, expected_variable_end, no_matching_end_token, ok,
  out_of_fuel, template_error, undefined, unexpected_else, unexpected_end_after_condition,
  unexpected_end_after_for, unexpected_end_after_if_block, unexpected_end_in_block,
  unexpected_end_in_substitution, unexpected_token, unsupported_block, ◌>>=◌,
}
use coro_wayland.Jinja.{
  Location, TokenType, text, variable_start, variable_end, block_start, block_end, if_word,
  else_word, endif_word, for_word, endfor_word, in_word, identifier, end_of_file, is, Token,
  Document, empty_document, text_node, substitution_node, if_else_node, for_each_node,
  multiple_nodes, Documents, no_documents, document_then,
}

abbrev pub ParserResult : Type 0
ParserResult = Document × List Token

-- A token of a span whose length has been tested.
abbrev pub token_at : List Token → ℕ → Token
token_at ts i =
    get_or ts i
      (record { token_type = end_of_file; value = []; location = record { line = 0; column = 0 } })

module _ (start_type needle end_type : TokenType) where
  -- `nestedCount` after a token at which the search does not end.
  unfoldable pub nested_after : TokenType → ℕ → ℕ
  nested_after t nested =
      if is t start_type then suc nested else if is t end_type then nested - 1 else nested

  -- The loop of `find_matching_token` from index `i` on; `at` is the location of the first token.
  unfoldable pub find_loop : Location → ℕ → ℕ → List Token → Result ℕ
  unfolding nested_after
  find_loop at nested i [] = template_error no_matching_end_token at
  find_loop at nested i (t ∷ ts) =
      let rest = find_loop at (nested_after t.token_type nested) (suc i) ts in
      if is t.token_type start_type
      then rest
      else if is t.token_type needle && nested == 0
      then ok i
      else if is t.token_type end_type && nested == 0
      then ok (i + suc (length ts))
      else rest

  unfoldable pub find_matching_token : List Token → Result ℕ
  unfolding find_loop
  find_matching_token [] = undefined
  find_matching_token (t ∷ ts) = find_loop t.location 0 0 (t ∷ ts)

module _ (make : List Token → Result Document) where
  -- The branch of `parse_if_else` with an `else` at `else_index`.
  unfoldable pub parse_branches : List Token → ℕ → Result (Document × Document)
  parse_branches clause else_index =
      let before = token_at clause (else_index - 1) in
      if not (is before.token_type block_start)
      then template_error expected_block_start_before_else before.location
      else if leb (length clause) (else_index + 1)
      then template_error expected_block_end_after_else before.location
      else if not (is (token_at clause (else_index + 1)).token_type block_end)
      then template_error expected_block_end_after_else before.location
      else (do
        true_branch ← make (take (else_index - 1) clause)
        false_branch ← make (drop (else_index + 2) clause)
        ok (true_branch, false_branch))

  -- What follows the search for `else`.
  unfoldable pub parse_clause : List Token → ℕ → Location → ℕ → Result (Document × Document)
  unfolding parse_branches
  parse_clause clause endif_index if_location else_index =
      if else_index == 0
      then template_error unexpected_else if_location
      else if leb endif_index else_index
      then (do true_branch ← make clause; ok (true_branch, empty_document))
      else parse_branches clause else_index

  -- What follows the search for `endif`, in the tokens behind the condition; with no token in front
  -- of `endif` the assertion on its index fails.
  unfoldable pub parse_if_body : List Token → Token → Location → ℕ → Result ParserResult
  unfolding parse_clause find_matching_token
  parse_if_body ts condition if_location endif_index =
      if endif_index == length ts
      then template_error expected_endif if_location
      else if endif_index == 0
      then undefined
      else if leb (length ts) (endif_index + 1)
      then template_error unexpected_end_after_if_block if_location
      else if not (is (token_at ts (endif_index - 1)).token_type block_start)
      then template_error expected_block_start_before_endif if_location
      else if not (is (token_at ts (endif_index + 1)).token_type block_end)
      then template_error expected_block_end_after_endif if_location
      else (do
        else_index ← find_matching_token if_word else_word endif_word (take (endif_index + 1) ts)
        branches ← parse_clause (take (endif_index - 1) ts) endif_index if_location else_index
        ok (
          if_else_node condition.value branches.0 branches.1 condition.location,
          drop (endif_index + 2) ts,
        ))

  -- The tokens behind `if`.
  unfoldable pub parse_if_else : Location → List Token → Result ParserResult
  unfolding parse_if_body find_matching_token
  parse_if_else at [] = template_error expected_identifier_after_if at
  parse_if_else at (c ∷ []) =
      if not (is c.token_type identifier)
      then template_error expected_identifier_after_if at
      else template_error unexpected_end_after_condition at
  parse_if_else at (c ∷ e ∷ ts) =
      if not (is c.token_type identifier)
      then template_error expected_identifier_after_if at
      else if not (is e.token_type block_end)
      then template_error expected_block_end_after_condition at
      else (do
        endif_index ← find_matching_token if_word endif_word endif_word ts
        parse_if_body ts c at endif_index)

  -- What follows the search for `endfor`, in the tokens behind the head of the loop.
  unfoldable pub parse_for_body : List Token → Token → Token → Location → ℕ → Result ParserResult
  parse_for_body ts item loop for_location index =
      if index == length ts
      then template_error expected_endfor for_location
      else if index == 0
      then undefined
      else if not (is (token_at ts (index - 1)).token_type block_start)
      then template_error expected_block_start_before_endfor (token_at ts index).location
      else if leb (length ts) (index + 1)
      then template_error expected_block_end_after_endfor (token_at ts index).location
      else if not (is (token_at ts (index + 1)).token_type block_end)
      then template_error expected_block_end_after_endfor (token_at ts index).location
      else (do
        body ← make (take (index - 1) ts)
        ok (
          for_each_node loop.value item.value body item.location loop.location,
          drop (index + 2) ts,
        ))

  -- The tokens behind `for`, and those behind the loop variable.
  unfoldable pub parse_for_head : Location → Token → Token → List Token → Result ParserResult
  unfolding parse_for_body find_matching_token
  parse_for_head at item loop [] = template_error unexpected_end_after_for at
  parse_for_head at item loop (e ∷ ts) =
      if not (is e.token_type block_end) then template_error unexpected_end_after_for at else (do
        index ← find_matching_token for_word endfor_word endfor_word ts
        parse_for_body ts item loop at index)

  unfoldable pub parse_for_each : Location → List Token → Result ParserResult
  unfolding parse_for_head
  parse_for_each at (item ∷ word ∷ loop ∷ ts) =
      if is item.token_type identifier
        && is word.token_type in_word
        && is loop.token_type identifier
      then parse_for_head at item loop ts
      else template_error expected_for_syntax at
  parse_for_each at _ = template_error expected_for_syntax at

  -- The tokens behind a block start at this location.
  unfoldable pub parse_block : Location → List Token → Result ParserResult
  unfolding parse_if_else parse_for_each
  parse_block at [] = template_error unexpected_end_in_block at
  parse_block at (t ∷ ts) =
      if is t.token_type if_word
      then parse_if_else t.location ts
      else if is t.token_type for_word
      then parse_for_each t.location ts
      else template_error unsupported_block at

-- The tokens behind a variable start at this location.
unfoldable pub parse_substitution : Location → List Token → Result ParserResult
parse_substitution at (i ∷ e ∷ ts) =
    if not (is i.token_type identifier)
    then template_error expected_identifier_in_substitution at
    else if not (is e.token_type variable_end)
    then template_error expected_variable_end at
    else ok (substitution_node i.value i.location, ts)
parse_substitution at _ = template_error unexpected_end_in_substitution at

-- The loop of `make_document` goes on while tokens remain.
unfoldable pub go_on : (List Token → Result Documents) → ParserResult → Result Documents
go_on again (d, []) = ok (document_then d no_documents)
go_on again (d, t ∷ ts) = (do ds ← again (t ∷ ts); ok (document_then d ds))

module _ (make : List Token → Result Document) where
  -- The cases of the `switch` on the type of the first token.
  unfoldable pub parse_token : TokenType → Token → List Token → Result ParserResult
  unfolding parse_block parse_substitution
  parse_token text t ts = ok (text_node t.value t.location, ts)
  parse_token variable_start t ts = parse_substitution t.location ts
  parse_token block_start t ts = parse_block make t.location ts
  parse_token end_of_file t ts = ok (empty_document, [])
  parse_token _ t ts = template_error unexpected_token t.location

  unfoldable pub parse_next_document : List Token → Result ParserResult
  unfolding parse_token
  parse_next_document [] = ok (empty_document, [])
  parse_next_document (t ∷ ts) = parse_token t.token_type t ts

  unfoldable pub parse_documents : ℕ → List Token → Result Documents
  unfolding parse_next_document go_on
  parse_documents zero ts = out_of_fuel
  parse_documents (suc fuel) ts = (do r ← parse_next_document ts; go_on (parse_documents fuel) r)

-- `make_document` on tokens, with fuel for the depth of the blocks.
unfoldable pub make_document : ℕ → List Token → Result Document
unfolding parse_documents
make_document zero ts = out_of_fuel
make_document (suc depth) ts = (do
  documents ← parse_documents (make_document depth) (suc (length ts)) ts
  ok (multiple_nodes documents))
