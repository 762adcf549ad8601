-- ===== src/Nyva/Parser.antt =====
-- The parser of src/nyva.c. Its state is the tokens from `position` on. The functions call one another, so
-- each takes fuel, and each array of nodes has a capacity that the source does not check.
pub mod Ready
pub mod Expressions
pub mod Factors
use orta_vm.Prelude.{ℕ, zero, suc, ◌-◌, Bool, true, false, ◌||◌, none, some, List, [], ◌∷◌, Str}
use orta_vm.Result.{Result, ok, exit, undefined}
use orta_vm.Result.Fueled.{Fueled, ◌>>=◌}
use orta_vm.Number.{atoi}
use orta_vm.Nyva.Tokens.{
  TokenType, Token, equal_types, is_eof, token_eof, token_identifier, token_number, token_string,
  token_var, token_if, token_else, token_equal, token_plus, token_minus, token_multiply,
  token_divide, token_gt, token_lt, token_eq, token_neq, token_lparen, token_rparen, token_lbrace,
  token_rbrace, token_comma, token_semicolon, token_fn, token_return, token_for, token_while,
  token_import, token_break,
}
use orta_vm.Nyva.Syntax.{
  Node, var_declaration, assignment, if_statement, binary_expression, identifier, number, string,
  function_call, function_definition, return_statement, for_statement, import_statement,
  break_statement, while_statement, Nodes, no_nodes, node, Child, null_node, child, Branch,
  no_branch, branch,
}

abbrev pub Tokens : Type 0
Tokens = List Token

-- What a function of the parser answers, with the tokens that it leaves.
abbrev pub Parsed : Type 0 → Type 0
Parsed A = Fueled (A × Tokens)

abbrev pub parsed : {A : Type 0} → A → Tokens → Parsed A
parsed a ts = some (ok (a, ts))

abbrev pub parse_error : {A : Type 0} → Fueled A
parse_error = some (exit 1)

-- Behind the last token is the rest of the array, which was never written.
unfoldable pub parser_current_token : Tokens → Fueled Token
parser_current_token [] = some undefined
parser_current_token (t ∷ ts) = some (ok t)

unfoldable pub parser_advance : Tokens → Tokens
parser_advance [] = []
parser_advance (t ∷ ts) = ts

unfoldable pub current_is : TokenType → Tokens → Fueled Bool
unfolding parser_current_token
current_is type ts = do t ← parser_current_token ts; some (ok (equal_types t.type type))

unfoldable pub parser_expect : TokenType → Tokens → Fueled Tokens
unfolding current_is parser_advance
parser_expect type ts = do
  same ← current_is type ts
  elim same [ true ↦ some (ok (parser_advance ts)) | false ↦ parse_error ]

-- `strdup(token.value)`: the value of the end of the file is NULL.
unfoldable pub token_text : Token → Fueled Str
token_text t = elim t.value [ none ↦ some undefined | some v ↦ some (ok v) ]

-- A name that must stand here.
unfoldable pub expect_identifier : Tokens → Parsed Str
unfolding parser_current_token parser_expect token_text
expect_identifier ts = do
  t ← parser_current_token ts
  ts₁ ← parser_expect token_identifier ts
  name ← token_text t
  parsed name ts₁

-- A node goes to an array in which this many places are left.
unfoldable pub stored : ℕ → Node → Tokens → Parsed Node
stored zero n ts = some undefined
stored (suc room) n ts = parsed n ts

-- The operators of a term, of an expression and of a condition.
abbrev pub is_term_op : TokenType → Bool
is_term_op type = equal_types type token_multiply || equal_types type token_divide

abbrev pub is_expression_op : TokenType → Bool
is_expression_op type = equal_types type token_plus || equal_types type token_minus

abbrev pub is_condition_op : TokenType → Bool
is_condition_op token_gt = true
is_condition_op token_lt = true
is_condition_op token_eq = true
is_condition_op token_neq = true
is_condition_op _ = false

unfoldable mutual
  unfolding parser_current_token parser_advance parser_expect current_is token_text stored

  pub parser_parse_factor : ℕ → Tokens → Parsed Node
  parser_parse_factor zero ts = none
  parser_parse_factor (suc f) ts = do
    t ← parser_current_token ts
    elim t.type [
      | token_number ↦ do text ← token_text t; parsed (number (atoi text)) (parser_advance ts)
      | token_string ↦ do text ← token_text t; parsed (string text) (parser_advance ts)
      | token_identifier ↦ do
        name ← token_text t
        call ← current_is token_lparen (parser_advance ts)
        elim call [
          | true ↦ parser_parse_function_call f name (parser_advance ts)
          | false ↦ parsed (identifier name) (parser_advance ts)
        ]
      | token_lparen ↦ do
        (inner, ts₁) ← parser_parse_expression f (parser_advance ts)
        ts₂ ← parser_expect token_rparen ts₁
        parsed inner ts₂
      | _ ↦ parse_error
    ]

  pub parser_parse_function_call : ℕ → Str → Tokens → Parsed Node
  parser_parse_function_call zero name ts = none
  parser_parse_function_call (suc f) name ts = do
    ts₁ ← parser_expect token_lparen ts
    (args, ts₂) ← parser_parse_argument_list f ts₁
    ts₃ ← parser_expect token_rparen ts₂
    parsed (function_call name args) ts₃

  pub parser_parse_argument_list : ℕ → Tokens → Parsed Nodes
  parser_parse_argument_list zero ts = none
  parser_parse_argument_list (suc f) ts = do
    empty ← current_is token_rparen ts
    elim empty [
      | true ↦ parsed no_nodes ts
      | false ↦ do
        (n, ts₁) ← parser_parse_expression f ts
        (ns, ts₂) ← more_arguments f 63 ts₁
        parsed (node n ns) ts₂
    ]

  -- The loop behind the first argument.
  pub more_arguments : ℕ → ℕ → Tokens → Parsed Nodes
  more_arguments zero room ts = none
  more_arguments (suc f) room ts = do
    more ← current_is token_comma ts
    elim more [
      | false ↦ parsed no_nodes ts
      | true ↦ do
        (n, ts₁) ← parser_parse_expression f (parser_advance ts)
        (n', ts₂) ← stored room n ts₁
        (ns, ts₃) ← more_arguments f (room - 1) ts₂
        parsed (node n' ns) ts₃
    ]

  pub parser_parse_term : ℕ → Tokens → Parsed Node
  parser_parse_term zero ts = none
  parser_parse_term (suc f) ts = do (left, ts₁) ← parser_parse_factor f ts; term_loop f left ts₁

  pub term_loop : ℕ → Node → Tokens → Parsed Node
  term_loop zero left ts = none
  term_loop (suc f) left ts = do
    t ← parser_current_token ts
    elim (is_term_op t.type) [
      | false ↦ parsed left ts
      | true ↦ do
        (right, ts₁) ← parser_parse_factor f (parser_advance ts)
        term_loop f (binary_expression left t.type right) ts₁
    ]

  pub parser_parse_expression : ℕ → Tokens → Parsed Node
  parser_parse_expression zero ts = none
  parser_parse_expression (suc f) ts = do
    (left, ts₁) ← parser_parse_term f ts
    expression_loop f left ts₁

  pub expression_loop : ℕ → Node → Tokens → Parsed Node
  expression_loop zero left ts = none
  expression_loop (suc f) left ts = do
    t ← parser_current_token ts
    elim (is_expression_op t.type) [
      | false ↦ parsed left ts
      | true ↦ do
        (right, ts₁) ← parser_parse_term f (parser_advance ts)
        expression_loop f (binary_expression left t.type right) ts₁
    ]

unfoldable pub parser_parse_condition : ℕ → Tokens → Parsed Node
unfolding parser_parse_factor parser_current_token parser_advance
parser_parse_condition f ts = do
  (left, ts₁) ← parser_parse_expression f ts
  t ← parser_current_token ts₁
  elim (is_condition_op t.type) [
    | true ↦ do
      (right, ts₂) ← parser_parse_expression f (parser_advance ts₁)
      parsed (binary_expression left t.type right) ts₂
    | false ↦ parsed left ts₁
  ]
