-- ===== src/Jinja/Templates.antt =====
-- Templates as trees: the tokens that write a template, and the document that it means. This
-- describes the language of the parser independently of it.
use coro_wayland.Base.{ℕ, suc, ◌+◌, List, [], ◌∷◌, ◌++◌}
use coro_wayland.Jinja.{
  Location, TokenType, text, variable_start, variable_end, block_start, block_end, if_word,
  else_word, endif_word, for_word, endfor_word, in_word, identifier, Token, empty_document,
  text_node, substitution_node, if_else_node, for_each_node, multiple_nodes, Documents,
  no_documents, document_then,
}

-- A sequence of nodes; `rest` is what follows the first one.
pub data Template : Type 0 where
  blank : Template
  plain : (content : List ℕ) → Location → (rest : Template) → Template
  variable : (path : List ℕ) → Location → (rest : Template) → Template
  when : (condition : List ℕ) → Location → (body rest : Template) → Template
  when_else : (condition : List ℕ) → Location → (body other rest : Template) → Template
  each :
      (item : List ℕ) → Location → (array : List ℕ) → Location → (body rest : Template) → Template

-- The tokens, where those without a value of their own stand at the location `at`.
module _ (at : Location) where
  abbrev pub symbol : TokenType → Token
  symbol t = record { token_type = t; value = []; location = at }

  abbrev pub name : List ℕ → Location → Token
  name v l = record { token_type = identifier; value = v; location = l }

  unfoldable pub tokens : Template → List Token
  tokens blank = []
  tokens (plain v l rest) = record { token_type = text; value = v; location = l } ∷ tokens rest
  tokens (variable v l rest) = symbol variable_start ∷ name v l ∷ symbol variable_end ∷ tokens rest
  tokens (when c l body rest) =
      symbol block_start
      ∷ symbol if_word
      ∷ name c l
      ∷ symbol block_end
      ∷ (tokens body ++ symbol block_start ∷ symbol endif_word ∷ symbol block_end ∷ tokens rest)
  tokens (when_else c l body other rest) =
      symbol block_start
      ∷ symbol if_word
      ∷ name c l
      ∷ symbol block_end
      ∷ ((tokens body ++ symbol block_start ∷ symbol else_word ∷ symbol block_end ∷ tokens other)
          ++ symbol block_start ∷ symbol endif_word ∷ symbol block_end ∷ tokens rest)
  tokens (each i l a k body rest) =
      symbol block_start
      ∷ symbol for_word
      ∷ name i l
      ∷ symbol in_word
      ∷ name a k
      ∷ symbol block_end
      ∷ (tokens body ++ symbol block_start ∷ symbol endfor_word ∷ symbol block_end ∷ tokens rest)

-- The nodes, followed by `more`.
abbrev pub some_documents : Documents → Documents
some_documents no_documents = document_then empty_document no_documents
some_documents (document_then d ds) = document_then d ds

-- The document of a sequence is never without nodes.
unfoldable pub documents : Template → Documents → Documents
documents blank more = more
documents (plain v l rest) more = document_then (text_node v l) (documents rest more)
documents (variable v l rest) more = document_then (substitution_node v l) (documents rest more)
documents (when c l body rest) more =
    document_then
      (if_else_node c (multiple_nodes (some_documents (documents body no_documents))) empty_document
        l)
      (documents rest more)
documents (when_else c l body other rest) more =
    document_then
      (if_else_node c (multiple_nodes (some_documents (documents body no_documents)))
        (multiple_nodes (some_documents (documents other no_documents))) l)
      (documents rest more)
documents (each i l a k body rest) more =
    document_then
      (for_each_node a i (multiple_nodes (some_documents (documents body no_documents))) l k)
      (documents rest more)

-- How deep blocks are nested, counted generously.
unfoldable pub depth : Template → ℕ
depth blank = 0
depth (plain v l rest) = depth rest
depth (variable v l rest) = depth rest
depth (when c l body rest) = suc (depth body) + depth rest
depth (when_else c l body other rest) = suc (depth body + depth other) + depth rest
depth (each i l a k body rest) = suc (depth body) + depth rest
