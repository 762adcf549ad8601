-- ===== src/Nyva/Statements.antt =====
-- The statements of the parser of src/nyva.c.
pub mod Parts
pub mod Heads
pub mod Ends
use orta_vm.Prelude.{
  ℕ, zero, suc, ◌+◌, ◌-◌, ◌*◌, Bool, true, false, ◌||◌, Option, none, some, List, [], ◌∷◌, Str,
  length,
}
use orta_vm.Result.{Result, ok, exit, undefined}
use orta_vm.Result.Fueled.{Fueled, ◌>>=◌}
use orta_vm.Nyva.Tokens.{
  TokenType, Token, equal_types, token_eof, token_identifier, token_string, token_var, token_if,
  token_else, token_equal, token_lparen, token_rparen, token_lbrace, token_rbrace, token_comma,
  token_semicolon, token_fn, token_return, token_for, token_while, token_import, token_break,
}
use orta_vm.Nyva.Syntax.{
  Node, var_declaration, assignment, if_statement, function_definition, return_statement,
  for_statement, import_statement, break_statement, while_statement, Nodes, no_nodes, node,
  null_node, child, no_branch, branch,
}
use orta_vm.Nyva.Parser.{
  Tokens, Parsed, parsed, parse_error, parser_current_token, parser_advance, current_is,
  parser_expect, token_text, expect_identifier, stored, parser_parse_expression,
  parser_parse_condition,
}

unfoldable pub parser_parse_var_declaration : ℕ → Tokens → Parsed Node
parser_parse_var_declaration f ts = do
  ts₁ ← parser_expect token_var ts
  (name, ts₂) ← expect_identifier ts₁
  given ← current_is token_equal ts₂
  (value, ts₃) ← elim given [
    | true ↦ do (n, rest) ← parser_parse_expression f (parser_advance ts₂); parsed (child n) rest
    | false ↦ parsed null_node ts₂
  ]
  ts₄ ← parser_expect token_semicolon ts₃
  parsed (var_declaration name value) ts₄

unfoldable pub parser_parse_assignment : ℕ → Tokens → Parsed Node
parser_parse_assignment f ts = do
  (name, ts₁) ← expect_identifier ts
  ts₂ ← parser_expect token_equal ts₁
  (value, ts₃) ← parser_parse_expression f ts₂
  ts₄ ← parser_expect token_semicolon ts₃
  parsed (assignment name value) ts₄

-- The loop behind the first parameter.
unfoldable pub more_parameters : ℕ → ℕ → Tokens → Parsed (List Str)
more_parameters zero room ts = none
more_parameters (suc f) room ts = do
  more ← current_is token_comma ts
  elim more [
    | false ↦ parsed [] ts
    | true ↦ do
      (name, ts₁) ← expect_identifier (parser_advance ts)
      elim room [
        | zero ↦ some undefined
        | suc room' ↦ do (names, ts₂) ← more_parameters f room' ts₁; parsed (name ∷ names) ts₂
      ]
  ]

unfoldable pub parser_parse_parameter_list : ℕ → Tokens → Parsed (List Str)
unfolding more_parameters
parser_parse_parameter_list f ts = do
  empty ← current_is token_rparen ts
  elim empty [
    | true ↦ parsed [] ts
    | false ↦ do
      (name, ts₁) ← expect_identifier ts
      (names, ts₂) ← more_parameters f 63 ts₁
      parsed (name ∷ names) ts₂
  ]

unfoldable pub parser_parse_return_statement : ℕ → Tokens → Parsed Node
parser_parse_return_statement f ts = do
  ts₁ ← parser_expect token_return ts
  bare ← current_is token_semicolon ts₁
  (value, ts₂) ← elim bare [
    | true ↦ parsed null_node ts₁
    | false ↦ do (n, rest) ← parser_parse_expression f ts₁; parsed (child n) rest
  ]
  ts₃ ← parser_expect token_semicolon ts₂
  parsed (return_statement value) ts₃

-- The value is copied before it is known to be a text.
unfoldable pub parser_parse_import_statement : Tokens → Parsed Node
parser_parse_import_statement ts = do
  ts₁ ← parser_expect token_import ts
  ts₂ ← parser_expect token_lparen ts₁
  t ← parser_current_token ts₂
  file ← token_text t
  ts₃ ← parser_expect token_string ts₂
  ts₄ ← parser_expect token_rparen ts₃
  ts₅ ← parser_expect token_semicolon ts₄
  parsed (import_statement file) ts₅

unfoldable pub parser_parse_break_statement : Tokens → Parsed Node
parser_parse_break_statement ts = do
  ts₁ ← parser_expect token_break ts
  ts₂ ← parser_expect token_semicolon ts₁
  parsed break_statement ts₂

-- A condition in parentheses, and the brace behind it.
unfoldable pub parse_head : ℕ → Tokens → Parsed Node
parse_head f ts = do
  ts₁ ← parser_expect token_lparen ts
  (condition, ts₂) ← parser_parse_condition f ts₁
  ts₃ ← parser_expect token_rparen ts₂
  ts₄ ← parser_expect token_lbrace ts₃
  parsed condition ts₄

-- The first part of a `for`: the test of the token chooses how it is read.
unfoldable pub parse_init : ℕ → Tokens → Parsed Node
unfolding parser_parse_var_declaration parser_parse_assignment
parse_init f ts = do
  t ← parser_current_token ts
  elim t.type [
    | token_var ↦ parser_parse_var_declaration f ts
    | token_identifier ↦ parser_parse_assignment f ts
    | _ ↦ parse_error
  ]

-- The three parts of a `for` in parentheses, and the brace behind them.
unfoldable pub parse_for_head : ℕ → Tokens → Parsed (Node × Node × Node)
unfolding parse_init parser_parse_assignment
parse_for_head f ts = do
  ts₁ ← parser_expect token_lparen ts
  (init, ts₂) ← parse_init f ts₁
  (condition, ts₃) ← parser_parse_condition f ts₂
  ts₄ ← parser_expect token_semicolon ts₃
  (update, ts₅) ← parser_parse_assignment f ts₄
  ts₆ ← parser_expect token_rparen ts₅
  ts₇ ← parser_expect token_lbrace ts₆
  parsed (init, condition, update) ts₇

-- The name and the parameters of a function, and the brace behind them.
unfoldable pub parse_function_head : ℕ → Tokens → Parsed (Str × List Str)
unfolding parser_parse_parameter_list
parse_function_head f ts = do
  ts₁ ← parser_expect token_fn ts
  (name, ts₂) ← expect_identifier ts₁
  ts₃ ← parser_expect token_lparen ts₂
  (params, ts₄) ← parser_parse_parameter_list f ts₃
  ts₅ ← parser_expect token_rparen ts₄
  ts₆ ← parser_expect token_lbrace ts₅
  parsed (name, params) ts₆

-- A statement that begins with an identifier: an assignment if the next token is an equal sign.
unfoldable pub begins_assignment : Tokens → Bool
begins_assignment (t ∷ t' ∷ ts) = equal_types t'.type token_equal
begins_assignment _ = false

unfoldable pub parse_named : ℕ → Tokens → Parsed Node
unfolding begins_assignment parser_parse_assignment
parse_named f ts = elim (begins_assignment ts) [
  | true ↦ parser_parse_assignment f ts
  | false ↦ do
    (n, ts₁) ← parser_parse_expression f ts
    ts₂ ← parser_expect token_semicolon ts₁
    parsed n ts₂
]

-- What ends the statements of a body.
abbrev pub ends_body : TokenType → Bool
ends_body type = equal_types type token_rbrace || equal_types type token_eof

unfoldable mutual
  unfolding parser_parse_var_declaration parser_parse_return_statement parser_parse_import_statement
      parser_parse_break_statement parse_head parse_for_head parse_function_head parse_named

  pub parser_parse_statement : ℕ → Tokens → Parsed Node
  parser_parse_statement zero ts = none
  parser_parse_statement (suc f) ts = do
    t ← parser_current_token ts
    elim t.type [
      | token_var ↦ parser_parse_var_declaration f ts
      | token_if ↦ parser_parse_if_statement f ts
      | token_fn ↦ parser_parse_function_definition f ts
      | token_return ↦ parser_parse_return_statement f ts
      | token_for ↦ parser_parse_for_statement f ts
      | token_while ↦ parser_parse_while_statement f ts
      | token_import ↦ parser_parse_import_statement ts
      | token_break ↦ parser_parse_break_statement ts
      | token_identifier ↦ parse_named f ts
      | _ ↦ parse_error
    ]

  -- The loop over the statements of a body, and the brace that ends it.
  pub parse_body : ℕ → ℕ → Tokens → Parsed Nodes
  parse_body zero room ts = none
  parse_body (suc f) room ts = do
    t ← parser_current_token ts
    elim (ends_body t.type) [
      | true ↦ do ts₁ ← parser_expect token_rbrace ts; parsed no_nodes ts₁
      | false ↦ do
        (n, ts₁) ← parser_parse_statement f ts
        (n', ts₂) ← stored room n ts₁
        (ns, ts₃) ← parse_body f (room - 1) ts₂
        parsed (node n' ns) ts₃
    ]

  pub parser_parse_if_statement : ℕ → Tokens → Parsed Node
  parser_parse_if_statement zero ts = none
  parser_parse_if_statement (suc f) ts = do
    ts₁ ← parser_expect token_if ts
    (condition, ts₂) ← parse_head f ts₁
    (body, ts₃) ← parse_body f 64 ts₂
    other ← current_is token_else ts₃
    elim other [
      | false ↦ parsed (if_statement condition body no_branch) ts₃
      | true ↦ do
        ts₄ ← parser_expect token_lbrace (parser_advance ts₃)
        (else_body, ts₅) ← parse_body f 64 ts₄
        parsed (if_statement condition body (branch else_body)) ts₅
    ]

  pub parser_parse_function_definition : ℕ → Tokens → Parsed Node
  parser_parse_function_definition zero ts = none
  parser_parse_function_definition (suc f) ts = do
    ((name, params), ts₁) ← parse_function_head f ts
    (body, ts₂) ← parse_body f 256 ts₁
    parsed (function_definition name params body) ts₂

  pub parser_parse_for_statement : ℕ → Tokens → Parsed Node
  parser_parse_for_statement zero ts = none
  parser_parse_for_statement (suc f) ts = do
    ts₁ ← parser_expect token_for ts
    ((init, condition, update), ts₂) ← parse_for_head f ts₁
    (body, ts₃) ← parse_body f 64 ts₂
    parsed (for_statement init condition update body) ts₃

  pub parser_parse_while_statement : ℕ → Tokens → Parsed Node
  parser_parse_while_statement zero ts = none
  parser_parse_while_statement (suc f) ts = do
    ts₁ ← parser_expect token_while ts
    (condition, ts₂) ← parse_head f ts₁
    (body, ts₃) ← parse_body f 64 ts₂
    parsed (while_statement condition body) ts₃

-- The loop of `parser_parse_program`, with the places left in its array of 1024.
unfoldable pub parse_statements : ℕ → ℕ → Tokens → Fueled Nodes
parse_statements zero room ts = none
parse_statements (suc f) room ts = do
  done ← current_is token_eof ts
  elim done [
    | true ↦ some (ok no_nodes)
    | false ↦ do
      (n, ts₁) ← parser_parse_statement f ts
      (n', ts₂) ← stored room n ts₁
      ns ← parse_statements f (room - 1) ts₂
      some (ok (node n' ns))
  ]

-- The fuel is enough for every token (`parse-Settles`).
unfoldable pub parse : Tokens → Fueled Nodes
unfolding parse_statements
parse ts = parse_statements (8 * length ts + 8) 1024 ts
