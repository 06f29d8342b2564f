-- ===== src/Jinja/Sources/RoundTrip.antt =====
-- The text of a template is compiled to the document of its tree.
use coro_wayland.Base.{
  ℕ, suc, ◌≤◌, ◌≡◌, refl, sym, ap, ◌∙◌, arith, List, [], ◌∷◌, ◌++◌, length, length-append,
}
use coro_wayland.Jinja.{
  Location, block_start, block_end, end_of_file, is, else_word, endif_word, endfor_word,
  empty_document, multiple_nodes, no_documents, document_then,
}
use coro_wayland.Jinja.Errors.{ok, ◌>>=◌}
use coro_wayland.Jinja.Identifiers.{
  is_space, is_digit, is_alpha, is_part_char, is_start_char, ends_part, ends_word, before, from,
  all_of, is_part, after_part, validate_parts, validate_identifier,
}
use coro_wayland.Jinja.Identifiers.Scans.{Free}
use coro_wayland.Jinja.Lexer.Pieces.{
  Piece, plain, substitution, block, all_tokens, IsName, MayFollow, ArePieces,
}
use coro_wayland.Jinja.Lexer.RoundTrip.{tokenize-spell_all}
use coro_wayland.Jinja.Parser.{make_document}
use coro_wayland.Jinja.Parser.Independence.{make_document-unmark_all}
use coro_wayland.Jinja.Parser.Marks.{unmark, unmark_all, length-unmark}
use coro_wayland.Jinja.Parser.RoundTrip.{make_document_lem}
use coro_wayland.Jinja.Sources.{
  compile, Source, blank, words, variable, when, when_else, each, if_text, else_text, endif_text,
  for_text, endfor_text, in_text, word_block, pieces, write, tree, NoWords, IsSource,
}
use coro_wayland.Jinja.Sources.Tokens.{tree-tokens}
use coro_wayland.Jinja.Templates.{Template, tokens, symbol, documents, depth}

-- The words of the language are names that the lexer takes.
keywords-IsName :
    IsName ends_word if_text
    × IsName ends_word else_text
    × IsName ends_word endif_text
    × IsName ends_word for_text
    × IsName ends_word endfor_text
    × IsName ends_word in_text
unfolding is_space Free ends_word validate_identifier validate_parts after_part is_start_char
    is_alpha is_digit is_part is_part_char all_of before from ends_part
keywords-IsName = (
  record { solid = refl; free = (refl, (refl, tt)); valid = λ at. refl },
  record { solid = refl; free = (refl, (refl, (refl, (refl, tt)))); valid = λ at. refl },
  record { solid = refl; free = (refl, (refl, (refl, (refl, (refl, tt))))); valid = λ at. refl },
  record { solid = refl; free = (refl, (refl, (refl, tt))); valid = λ at. refl },
  record {
    solid = refl;
    free = (refl, (refl, (refl, (refl, (refl, (refl, tt))))));
    valid = λ at. refl;
  },
  record { solid = refl; free = (refl, (refl, tt)); valid = λ at. refl },
)

-- No text stands in front.
abbrev Apart : List Piece → Type 0
Apart ps = MayFollow (plain []) ps

MayFollow-Apart : (cs : List ℕ) (ps : List Piece) → Apart ps → MayFollow (plain cs) ps
MayFollow-Apart cs [] h = tt
MayFollow-Apart cs (plain ds ∷ ps) h = h
MayFollow-Apart cs (substitution path ∷ ps) h = tt
MayFollow-Apart cs (block ws ∷ ps) h = tt

pieces-Apart : (s : Source) (ps : List Piece) → NoWords s → Apart ps → Apart (pieces s ps)
unfolding pieces
pieces-Apart blank ps n h = h
pieces-Apart (words content rest) ps n h = absurd n
pieces-Apart (variable path rest) ps n h = tt
pieces-Apart (when c body rest) ps n h = tt
pieces-Apart (when_else c body other rest) ps n h = tt
pieces-Apart (each i a body rest) ps n h = tt

pieces-ArePieces :
    (s : Source) (ps : List Piece) → IsSource s → Apart ps → ArePieces ps → ArePieces (pieces s ps)
unfolding pieces IsSource
pieces-ArePieces blank ps h a p = p
pieces-ArePieces (words content rest) ps h a p = (
  h.0,
  MayFollow-Apart content (pieces rest ps) (pieces-Apart rest ps h.1 a),
  pieces-ArePieces rest ps h.2 a p,
)
pieces-ArePieces (variable path rest) ps h a p = (h.0, tt, pieces-ArePieces rest ps h.1 a p)
pieces-ArePieces (when c body rest) ps h a p =
    let k = keywords-IsName in
    let end : ArePieces (word_block endif_text ∷ pieces rest ps) =
      ((k.2, tt), tt, pieces-ArePieces rest ps h.2 a p) in
    ((k.0, (h.0.0, tt)), tt, pieces-ArePieces body _ h.1 tt end)
pieces-ArePieces (when_else c body other rest) ps h a p =
    let k = keywords-IsName in
    let others = pieces other (word_block endif_text ∷ pieces rest ps) in
    let end : ArePieces (word_block endif_text ∷ pieces rest ps) =
      ((k.2, tt), tt, pieces-ArePieces rest ps h.3 a p) in
    let middle : ArePieces (word_block else_text ∷ others) =
      ((k.1, tt), tt, pieces-ArePieces other _ h.2 tt end) in
    ((k.0, (h.0.0, tt)), tt, pieces-ArePieces body _ h.1 tt middle)
pieces-ArePieces (each i x body rest) ps h a p =
    let k = keywords-IsName in
    let end : ArePieces (word_block endfor_text ∷ pieces rest ps) =
      ((k.4, tt), tt, pieces-ArePieces rest ps h.3 a p) in
    ((k.3, (h.0.0, (k.5, (h.1.0, tt)))), tt, pieces-ArePieces body _ h.2 tt end)

-- The depth of a template is at most the number of its tokens.
depth-length : (at : Location) (t : Template) → depth t ≤ length (tokens at t)
unfolding depth tokens
depth-length at Template.blank = omega arith
depth-length at (Template.plain v l rest) = omega (arith, depth-length at rest)
depth-length at (Template.variable v l rest) = omega (arith, depth-length at rest)
depth-length at (Template.when c l body rest) = omega (
  arith,
  depth-length at rest,
  depth-length at body,
  length-append (tokens at body)
      (symbol at block_start ∷ symbol at endif_word ∷ symbol at block_end ∷ tokens at rest),
)
depth-length at (Template.when_else c l body other rest) =
    let middle =
      symbol at block_start ∷ symbol at else_word ∷ symbol at block_end ∷ tokens at other in
    omega (
      arith,
      depth-length at rest,
      depth-length at body,
      depth-length at other,
      length-append (tokens at body) middle,
      length-append (tokens at body ++ middle)
          (symbol at block_start ∷ symbol at endif_word ∷ symbol at block_end ∷ tokens at rest),
    )
depth-length at (Template.each i l a k body rest) = omega (
  arith,
  depth-length at rest,
  depth-length at body,
  length-append (tokens at body)
      (symbol at block_start ∷ symbol at endfor_word ∷ symbol at block_end ∷ tokens at rest),
)

abbrev pub start : Location
start = record { line = 1; column = 1 }

source-tokens :
    (s : Source)
    → IsSource s
    → unmark_all start (all_tokens (pieces s []) start)
      ≡ tokens start (tree s start) ++ symbol start end_of_file ∷ []
unfolding all_tokens unmark is
source-tokens s h = tree-tokens start s [] start h

-- The text of a template is compiled to the document of its tree, with the locations at which the
-- names and the texts stand, and an empty document at the end. Names are ones that
-- `validate_identifier` takes, and in blocks no keywords; a text is not empty, has no opening brace,
-- and no other text follows it.
pub compile-write :
    (s : Source)
    → IsSource s
    → compile (write s)
      ≡ ok (multiple_nodes (documents (tree s start) (document_then empty_document no_documents)))
unfolding compile write
compile-write s h =
    let ts = all_tokens (pieces s []) start in
    let t = tree s start in
    let end = symbol start end_of_file ∷ [] in
    let size : suc (length ts) ≡ suc (length (tokens start t ++ end)) =
      ap suc (sym (length-unmark start ts) ∙ ap length (source-tokens s h)) in
    let d = multiple_nodes (documents t (document_then empty_document no_documents)) in
    ap (λ r. r >>= λ us. make_document (suc (length us)) us)
      (tokenize-spell_all (pieces s []) (pieces-ArePieces s [] h tt tt))
    ∙ make_document-unmark_all start (suc (length ts)) ts d (
        ap (make_document (suc (length ts))) (source-tokens s h)
        ∙ make_document_lem start t (suc (length ts))
            (omega (arith, size, depth-length start t, length-append (tokens start t) end)))
