-- ===== src/Jinja.antt =====
-- The template engine of src/code_generator/JinjaTemplateEngine.cpp and its header: tokens and
-- documents. A string is the list of its characters' codes.
pub mod Errors
pub mod Identifiers
pub mod Lexer
pub mod Contexts
pub mod Render
pub mod Templates
pub mod Sources
pub mod Parser
use coro_wayland.Base.{ℕ, Bool, List, ◌==◌}

pub record Location : Type 0 where
  pub line : ℕ
  pub column : ℕ

-- `Token::Type`.
pub data TokenType : Type 0 where
  text variable_start variable_end block_start block_end : TokenType
  if_word else_word endif_word for_word endfor_word in_word identifier end_of_file : TokenType

abbrev code : TokenType → ℕ
code text = 0
code variable_start = 1
code variable_end = 2
code block_start = 3
code block_end = 4
code if_word = 5
code else_word = 6
code endif_word = 7
code for_word = 8
code endfor_word = 9
code in_word = 10
code identifier = 11
code end_of_file = 12

-- `==` on `Token::Type`.
unfoldable pub is : TokenType → TokenType → Bool
is a b = code a == code b

pub record Token : Type 0 where
  pub token_type : TokenType
  pub value : List ℕ
  pub location : Location

-- `TemplateDocument` and the nodes that it may hold.
mutual
  pub data Document : Type 0 where
    empty_document : Document
    text_node : (content : List ℕ) → Location → Document
    substitution_node : (identifier_path : List ℕ) → Location → Document
    if_else_node :
        (condition_variable : List ℕ) → (true_branch false_branch : Document) → Location → Document
    for_each_node :
        (loop_variable item_variable : List ℕ)
        → (body : Document) → (item_var_location loop_var_location : Location) → Document
    multiple_nodes : Documents → Document

  pub data Documents : Type 0 where
    no_documents : Documents
    document_then : Document → Documents → Documents
