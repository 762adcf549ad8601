-- ===== src/Nyva/Codegen.antt =====
-- The code generator of src/nyva.c for expressions.
pub mod Runs
pub mod Values
use orta_vm.Prelude.{
  ℕ, ◌+◌, Bool, true, false, not, ◌&&◌, ◌||◌, List, [], ◌∷◌, Str, codes, str_eq, ◌==◌,
  if◌then◌else◌,
}
use orta_vm.Result.{Result, ok, exit, undefined, ◌>>=◌}
use orta_vm.Nyva.Tokens.{
  TokenType, token_plus, token_minus, token_multiply, token_divide, token_gt, token_modulus,
  token_lt, token_eq, token_neq,
}
use orta_vm.Nyva.Syntax.{
  Node, binary_expression, identifier, number, string, function_call, Nodes, no_nodes, node,
  count_nodes,
}
use orta_vm.Nyva.Emit.{
  CodeGenerator, codegen_emit, plain, push_number, push_string, getvar, call, comment,
}

abbrev pub is_string_node : Node → Bool
is_string_node (string s) = true
is_string_node _ = false

abbrev pub is_identifier_node : Node → Bool
is_identifier_node (identifier s) = true
is_identifier_node _ = false

-- The test of the operands of a plus that joins texts.
abbrev pub merges : Node → Node → Bool
merges left right =
    (is_string_node left && is_string_node right)
    || (is_identifier_node right && is_identifier_node left)
    || (is_string_node right && is_identifier_node left)
    || (is_identifier_node right && is_string_node left)

-- The instructions of an operator.
unfoldable pub emit_operator : TokenType → Node → Node → CodeGenerator → Result CodeGenerator
unfolding codegen_emit
emit_operator token_plus left right g =
    ok (codegen_emit (plain (if merges left right then codes "merge" else codes "add")) g)
emit_operator token_minus left right g = ok (codegen_emit (plain (codes "sub")) g)
emit_operator token_multiply left right g = ok (codegen_emit (plain (codes "mul")) g)
emit_operator token_divide left right g = ok (codegen_emit (plain (codes "div")) g)
emit_operator token_gt left right g = ok (codegen_emit (plain (codes "gt")) g)
emit_operator token_modulus left right g = ok (codegen_emit (plain (codes "mod")) g)
emit_operator token_lt left right g = ok (codegen_emit (plain (codes "lt")) g)
emit_operator token_eq left right g =
    ok (codegen_emit (plain (codes "not")) (codegen_emit (plain (codes "eq")) g))
emit_operator token_neq left right g = ok (codegen_emit (plain (codes "eq")) g)
emit_operator _ left right g = exit 1

-- A format without arguments: `%%` is a percent sign, and any other conversion reads an argument that is
-- not there.
unfoldable pub format_text : Str → Result Str
format_text [] = ok []
format_text (c ∷ []) = if c == b'%' then undefined else ok (c ∷ [])
format_text (c ∷ d ∷ s) =
    let percent = format_text s in
    let text = format_text (d ∷ s) in
    if c == b'%'
    then if d == b'%' then (percent >>= λ t. ok (b'%' ∷ t)) else undefined
    else text >>= λ t. ok (c ∷ t)

-- `data.string.value` of any node: the union has the text of a string, and the names of an identifier
-- and of a call, at its start.
unfoldable pub string_value : Node → Result Str
string_value (string s) = ok s
string_value (identifier s) = ok s
string_value (function_call s args) = ok s
string_value _ = undefined

-- The arguments of `@inline`, each written as a format.
unfoldable pub inline_arguments : Nodes → CodeGenerator → Result CodeGenerator
unfolding string_value format_text codegen_emit
inline_arguments no_nodes g = ok g
inline_arguments (node n ns) g = do
  format ← string_value n
  text ← format_text format
  inline_arguments ns (codegen_emit (plain text) g)

unfoldable pub starts_at : Str → Bool
starts_at [] = false
starts_at (c ∷ s) = c == b'@'

-- The comments around a call.
unfoldable pub call_start : Str → CodeGenerator → CodeGenerator
unfolding codegen_emit starts_at
call_start name g =
    codegen_emit
      (comment (if starts_at name then codes "; BUILTIN CALL " else codes "; START FUNCTION CALL ")
        name)
      g

unfoldable pub call_end : Str → CodeGenerator → CodeGenerator
unfolding codegen_emit starts_at
call_end name g =
    codegen_emit
      (comment
        (if starts_at name then codes "; END BUILTIN CALL " else codes "; END   FUNCTION CALL ")
        name)
      g

-- The call between its comments; `all` is what the code of all arguments makes of the state.
unfoldable pub generate_call :
    Str → Nodes → Result CodeGenerator → CodeGenerator → Result CodeGenerator
unfolding codegen_emit inline_arguments count_nodes
generate_call name args all g =
    if str_eq name (codes "@print")
    then (all >>= λ g₁. ok (codegen_emit (plain (codes "print")) g₁))
    else if str_eq name (codes "@inline")
    then inline_arguments args g
    else if str_eq name (codes "@push")
    then if count_nodes args == 1 then all else exit 1
    else if str_eq name (codes "@pop")
    then if count_nodes args == 1 then all else exit 1
    else (all >>= λ g₁.
        ok (codegen_emit (call name) (codegen_emit (push_number (count_nodes args)) g₁)))

unfoldable mutual
  unfolding codegen_emit emit_operator generate_call call_start call_end

  pub codegen_generate_expression : Node → CodeGenerator → Result CodeGenerator
  codegen_generate_expression (number n) g = ok (codegen_emit (push_number n) g)
  codegen_generate_expression (string s) g = ok (codegen_emit (push_string s) g)
  codegen_generate_expression (identifier s) g = ok (codegen_emit (getvar s) g)
  codegen_generate_expression (binary_expression left type right) g = do
    g₁ ← codegen_generate_expression left g
    g₂ ← codegen_generate_expression right g₁
    emit_operator type left right g₂
  codegen_generate_expression (function_call name args) g = do
    let g₁ = call_start name g
    g₂ ← generate_call name args (generate_arguments args g₁) g₁
    ok (call_end name g₂)
  codegen_generate_expression _ g = ok g

  pub generate_arguments : Nodes → CodeGenerator → Result CodeGenerator
  generate_arguments no_nodes g = ok g
  generate_arguments (node n ns) g = do
    g₁ ← codegen_generate_expression n g
    generate_arguments ns g₁
