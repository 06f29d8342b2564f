-- ===== src/Jinja/Parser/RoundTrip.antt =====
-- What the parser makes of the tokens of a template.
use coro_wayland.Base.{
  ℕ, zero, suc, ◌≤◌, ◌<◌, ◌≡◌, refl, sym, ap, ◌∙◌, Bool, true, false, List, [], ◌∷◌, ◌++◌,
  append_assoc, append-nil, arith, length, length-append,
}
use coro_wayland.Jinja.Errors.{Result, ok, ◌>>=◌}
use coro_wayland.Jinja.{
  Location, block_start, block_end, else_word, endif_word, endfor_word, end_of_file, is, Token,
  Document, empty_document, text_node, substitution_node, if_else_node, for_each_node,
  multiple_nodes, Documents, no_documents, document_then,
}
use coro_wayland.Jinja.Templates.{
  Template, blank, plain, variable, when, when_else, each, symbol, tokens, documents,
  some_documents, depth,
}
use coro_wayland.Jinja.Parser.{
  parse_substitution, parse_token, parse_next_document, go_on, parse_documents, make_document,
}
use coro_wayland.Jinja.Parser.Nodes.{next-when, next-when_else, next-each}

module _ (at : Location) where
  -- What stands behind a template: nothing, or the end of the file.
  abbrev tail : Bool → List Token
  tail false = []
  tail true = symbol at end_of_file ∷ []

  abbrev last_documents : Bool → Documents
  last_documents false = no_documents
  last_documents true = document_then empty_document no_documents

  go_on-tokens :
      (t : Template) (b : Bool) (again : List Token → Result Documents) (d : Document)
      → again (tokens at t ++ tail b) ≡ ok (some_documents (documents t (last_documents b)))
      → go_on again (d, tokens at t ++ tail b)
        ≡ ok (document_then d (documents t (last_documents b)))
  unfolding go_on tokens documents
  go_on-tokens blank false again d h = refl
  go_on-tokens blank true again d h = rw h
  go_on-tokens (plain v l t) b again d h = rw h
  go_on-tokens (variable v l t) b again d h = rw h
  go_on-tokens (when c l body t) b again d h = rw h
  go_on-tokens (when_else c l body other t) b again d h = rw h
  go_on-tokens (each x l a m body t) b again d h = rw h

  -- A document from the tokens of a block, if its nodes come out right.
  make_document-tokens :
      (t : Template) (n : ℕ)
      → ((k : ℕ)
          → length (tokens at t ++ []) < k
          → parse_documents (make_document n) k (tokens at t ++ [])
            ≡ ok (some_documents (documents t no_documents)))
      → make_document (suc n) (tokens at t)
        ≡ ok (multiple_nodes (some_documents (documents t no_documents)))
  unfolding make_document
  make_document-tokens t n h =
      let size = suc (length (tokens at t)) in
      let made : parse_documents (make_document n) size (tokens at t)
          ≡ ok (some_documents (documents t no_documents)) =
        ap (parse_documents (make_document n) size) (sym (append-nil (tokens at t)))
        ∙ h size (omega (arith, length-append (tokens at t) [])) in
      rw made

  step :
      (make : List Token → Result Document) (k : ℕ) (ts : List Token) (t : Template) (b : Bool)
      (d : Document)
      → parse_next_document make ts ≡ ok (d, tokens at t ++ tail b)
      → parse_documents make k (tokens at t ++ tail b)
        ≡ ok (some_documents (documents t (last_documents b)))
      → parse_documents make (suc k) ts ≡ ok (document_then d (documents t (last_documents b)))
  unfolding parse_documents
  step make k ts t b d first rest = rw first (go_on-tokens t b (parse_documents make k) d rest)

  parse_documents-blank :
      (make : List Token → Result Document) (b : Bool) (k : ℕ)
      → parse_documents make (suc k) (tail b) ≡ ok (some_documents (last_documents b))
  unfolding parse_documents parse_next_document parse_token go_on
  parse_documents-blank make false k = refl
  parse_documents-blank make true k = refl

  -- The tokens behind a block of these tokens are fewer than those with the block.
  fewer :
      (w r u : List Token) (x y z : Token) (k : ℕ)
      → length ((w ++ x ∷ y ∷ z ∷ r) ++ u) < suc k
      → length (r ++ u) < k
  fewer w r u x y z k h = omega (
    arith,
    h,
    length-append (w ++ x ∷ y ∷ z ∷ r) u,
    length-append w (x ∷ y ∷ z ∷ r),
    length-append r u,
  )

  parse_documents-tokens :
      (t : Template) (b : Bool) (n k : ℕ)
      → depth t ≤ n
      → length (tokens at t ++ tail b) < k
      → parse_documents (make_document n) k (tokens at t ++ tail b)
        ≡ ok (some_documents (documents t (last_documents b)))
  unfolding tokens documents depth parse_next_document parse_token parse_substitution is
  parse_documents-tokens t b n zero h i = absurd (omega arith)
  parse_documents-tokens blank b n (suc k) h i = parse_documents-blank (make_document n) b k
  parse_documents-tokens (plain v l t) b n (suc k) h i =
      step (make_document n) k (tokens at (plain v l t) ++ tail b) t b (text_node v l) refl
        (parse_documents-tokens t b n k h (omega arith))
  parse_documents-tokens (variable v l t) b n (suc k) h i =
      step (make_document n) k (tokens at (variable v l t) ++ tail b) t b (substitution_node v l)
        refl (parse_documents-tokens t b n k h (omega arith))
  parse_documents-tokens (when c l body t) b zero (suc k) h i = absurd (omega arith)
  parse_documents-tokens (when c l body t) b (suc n) (suc k) h i =
      let end = symbol at block_start ∷ symbol at endif_word ∷ symbol at block_end ∷ tokens at t in
      let inner =
        make_document-tokens body n
          (λ j q. parse_documents-tokens body false n j (omega (arith, h)) q) in
      let d = multiple_nodes (some_documents (documents body no_documents)) in
      let first : parse_next_document (make_document (suc n))
            (tokens at (when c l body t) ++ tail b)
          ≡ ok (if_else_node c d empty_document l, tokens at t ++ tail b) =
        rw (append_assoc (tokens at body) end (tail b))
          (next-when at (make_document (suc n)) c l body (tokens at t ++ tail b) d inner) in
      step (make_document (suc n)) k (tokens at (when c l body t) ++ tail b) t b
        (if_else_node c d empty_document l) first
        (parse_documents-tokens t b (suc n) k (omega (arith, h)) (
          fewer (tokens at body) (tokens at t) (tail b) (symbol at block_start)
            (symbol at endif_word) (symbol at block_end) k (omega (arith, i))))
  parse_documents-tokens (when_else c l body other t) b zero (suc k) h i = absurd (omega arith)
  parse_documents-tokens (when_else c l body other t) b (suc n) (suc k) h i =
      let middle =
        symbol at block_start ∷ symbol at else_word ∷ symbol at block_end ∷ tokens at other in
      let end = symbol at block_start ∷ symbol at endif_word ∷ symbol at block_end ∷ tokens at t in
      let inner =
        make_document-tokens body n
          (λ j q. parse_documents-tokens body false n j (omega (arith, h)) q) in
      let inner' =
        make_document-tokens other n
          (λ j q. parse_documents-tokens other false n j (omega (arith, h)) q) in
      let d = multiple_nodes (some_documents (documents body no_documents)) in
      let e = multiple_nodes (some_documents (documents other no_documents)) in
      let first : parse_next_document (make_document (suc n))
            (tokens at (when_else c l body other t) ++ tail b)
          ≡ ok (if_else_node c d e l, tokens at t ++ tail b) =
        rw (append_assoc (tokens at body ++ middle) end (tail b)) (
          next-when_else at (make_document (suc n)) c l body other (tokens at t ++ tail b) d e inner
            inner') in
      step (make_document (suc n)) k (tokens at (when_else c l body other t) ++ tail b) t b
        (if_else_node c d e l) first
        (parse_documents-tokens t b (suc n) k (omega (arith, h)) (
          fewer (tokens at body ++ middle) (tokens at t) (tail b) (symbol at block_start)
            (symbol at endif_word) (symbol at block_end) k (omega (arith, i))))
  parse_documents-tokens (each x l a m body t) b zero (suc k) h i = absurd (omega arith)
  parse_documents-tokens (each x l a m body t) b (suc n) (suc k) h i =
      let end = symbol at block_start ∷ symbol at endfor_word ∷ symbol at block_end ∷ tokens at t in
      let inner =
        make_document-tokens body n
          (λ j q. parse_documents-tokens body false n j (omega (arith, h)) q) in
      let d = multiple_nodes (some_documents (documents body no_documents)) in
      let first : parse_next_document (make_document (suc n))
            (tokens at (each x l a m body t) ++ tail b)
          ≡ ok (for_each_node a x d l m, tokens at t ++ tail b) =
        rw (append_assoc (tokens at body) end (tail b))
          (next-each at (make_document (suc n)) x a l m body (tokens at t ++ tail b) d inner) in
      step (make_document (suc n)) k (tokens at (each x l a m body t) ++ tail b) t b
        (for_each_node a x d l m) first
        (parse_documents-tokens t b (suc n) k (omega (arith, h)) (
          fewer (tokens at body) (tokens at t) (tail b) (symbol at block_start)
            (symbol at endfor_word) (symbol at block_end) k (omega (arith, i))))

  some_documents-documents :
      (t : Template) (d : Document)
      → some_documents (documents t (document_then d no_documents))
        ≡ documents t (document_then d no_documents)
  unfolding documents
  some_documents-documents blank d = refl
  some_documents-documents (plain v l t) d = refl
  some_documents-documents (variable v l t) d = refl
  some_documents-documents (when c l body t) d = refl
  some_documents-documents (when_else c l body other t) d = refl
  some_documents-documents (each x l a m body t) d = refl

  -- The parser makes of the tokens of a template, followed by the end of the file, the document of
  -- the template with an empty document at its end, with fuel above the depth of the template.
  pub make_document_lem :
      (t : Template) (n : ℕ)
      → depth t < n
      → make_document n (tokens at t ++ symbol at end_of_file ∷ [])
        ≡ ok (multiple_nodes (documents t (document_then empty_document no_documents)))
  unfolding make_document documents
  make_document_lem t zero h = absurd (omega arith)
  make_document_lem t (suc n) h =
      let size = suc (length (tokens at t ++ tail true)) in
      ap (λ r. r >>= λ ds. ok (multiple_nodes ds))
        (parse_documents-tokens t true n size (omega (arith, h)) (omega arith))
      ∙ ap (λ ds. ok (multiple_nodes ds)) (some_documents-documents t empty_document)
