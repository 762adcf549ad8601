-- ===== src/Nyva/Generate.antt =====
-- The code generator of src/nyva.c for statements. What an import does is a parameter: it generates the
-- statements of another file.
pub mod Sound
pub mod Expressions
pub mod Loops
pub mod Statements
use orta_vm.Prelude.{
  ℕ, ◌+◌, Bool, true, false, not, Option, none, some, List, [], ◌∷◌, Str, codes, str_eq, length,
  if◌then◌else◌,
}
use orta_vm.Result.{Result, ok, exit, undefined}
use orta_vm.Result.Fueled.{Fueled, ◌>>=◌}
use orta_vm.Nyva.Syntax.{
  Node, var_declaration, assignment, if_statement, binary_expression, identifier, number, string,
  function_call, function_definition, return_statement, for_statement, import_statement,
  break_statement, while_statement, Nodes, no_nodes, node, Child, null_node, child, Branch,
  no_branch, branch,
}
use orta_vm.Nyva.Emit.{
  CodeGenerator, BreakLabel, null_label, freed_label, live_label, codegen_emit,
  codegen_create_label, plain, push_number, setvar, var, jmp, jmpif, label, comment, signature,
}
use orta_vm.Nyva.Codegen.{codegen_generate_expression}

-- The state of the generator as the statement leaves it.
abbrev pub Generated : Type 0
Generated = Fueled CodeGenerator

abbrev pub generated : CodeGenerator → Generated
generated g = some (ok g)

unfoldable pub codegen_generate_var_declaration : Str → Child → CodeGenerator → Generated
codegen_generate_var_declaration name null_node g = generated (codegen_emit (var name) g)
codegen_generate_var_declaration name (child value) g = do
  g₁ ← some (codegen_generate_expression value g)
  generated (codegen_emit (setvar name) g₁)

unfoldable pub codegen_generate_assignment : Str → Node → CodeGenerator → Generated
codegen_generate_assignment name value g = do
  g₁ ← some (codegen_generate_expression value g)
  generated (codegen_emit (setvar name) g₁)

unfoldable pub codegen_generate_return_statement : Child → CodeGenerator → Generated
codegen_generate_return_statement value g = do
  g₁ ← elim value [ null_node ↦ generated g | child n ↦ some (codegen_generate_expression n g) ]
  generated
      (codegen_emit (plain (codes "ret")) (codegen_emit (plain (codes "togglelocalscope")) g₁))

-- The code in front of the body of a function: the number of arguments is compared and the scope opened.
unfoldable pub function_start : Str → List Str → CodeGenerator → CodeGenerator
function_start name params g =
    let checked = codegen_emit (jmpif g.error_not_enough_args) (
      codegen_emit (plain (codes "swap")) (
        codegen_emit (plain (codes "here")) (
          codegen_emit (plain (codes "not"))
            (codegen_emit (plain (codes "eq")) (codegen_emit (push_number (length params)) g))))) in
    codegen_emit (plain (codes "togglelocalscope"))
      (if str_eq name (codes "__entry") then g else checked)

-- The parameters are taken from the last one on.
unfoldable pub set_parameters : List Str → CodeGenerator → CodeGenerator
set_parameters [] g = g
set_parameters (name ∷ names) g = codegen_emit (setvar name) (set_parameters names g)

-- The code behind a body that does not end in a return.
unfoldable pub function_end : Str → CodeGenerator → CodeGenerator
function_end name g =
    let closed = codegen_emit (plain (codes "togglelocalscope")) g in
    if str_eq name (codes "__entry")
    then codegen_emit (plain (codes "halt")) closed
    else codegen_emit (plain (codes "ret")) (codegen_emit (plain (codes "push 0")) closed)

unfoldable pub ends_return : Nodes → Bool
ends_return no_nodes = false
ends_return (node (return_statement value) no_nodes) = true
ends_return (node n no_nodes) = false
ends_return (node n (node n' ns)) = ends_return (node n' ns)

-- `free(label)`: the global pointer dangles if it is to this label.
unfoldable pub free_label : Str → CodeGenerator → CodeGenerator
free_label name g = elim g.current_break_label [
  | live_label l ↦ if str_eq l name then record g { current_break_label = freed_label } else g
  | _ ↦ g
]

-- A `break` behind the loop whose label the pointer is to.
unfoldable pub generate_break : BreakLabel → CodeGenerator → Generated
generate_break null_label g = some (exit 1)
generate_break freed_label g = some undefined
generate_break (live_label name) g = generated (codegen_emit (jmp name) g)

-- A statement of such a body; `other` is what `codegen_generate_statement` makes of it.
unfoldable pub codegen_generate_statement_with_break : Node → Generated → CodeGenerator → Generated
codegen_generate_statement_with_break break_statement other g =
    generate_break g.current_break_label g
codegen_generate_statement_with_break n other g = other

-- The code between the bodies of an `if`.
unfoldable pub enter_else : Str → Str → CodeGenerator → CodeGenerator
enter_else else_label end_label g = codegen_emit (label else_label) (codegen_emit (jmp end_label) g)

-- The code around the body of a loop.
unfoldable pub enter_loop : Node → Str → CodeGenerator → Generated
enter_loop condition end_label g = do
  g₁ ← some (codegen_generate_expression condition g)
  generated
      (record (codegen_emit (jmpif end_label) g₁) { current_break_label = live_label end_label })

unfoldable pub leave_loop : Str → Str → CodeGenerator → CodeGenerator
leave_loop start_label end_label g =
    free_label end_label (codegen_emit (label end_label) (codegen_emit (jmp start_label) g))

module _ (generate_import : Str → CodeGenerator → Generated) where
  unfoldable mutual
    unfolding codegen_emit codegen_create_label

    pub codegen_generate_statement : Node → CodeGenerator → Generated
    codegen_generate_statement (var_declaration name value) g =
        codegen_generate_var_declaration name value g
    codegen_generate_statement (assignment name value) g = codegen_generate_assignment name value g
    codegen_generate_statement (if_statement condition body no_branch) g = do
      let (end_label, g₁) = codegen_create_label (codes "if_end") g
      g₂ ← some (codegen_generate_expression condition g₁)
      g₃ ← generate_with_break body (codegen_emit (jmpif end_label) g₂)
      generated (codegen_emit (label end_label) g₃)
    codegen_generate_statement (if_statement condition body (branch else_body)) g = do
      let (end_label, g₁) = codegen_create_label (codes "if_end") g
      g₂ ← some (codegen_generate_expression condition g₁)
      let (else_label, g₃) = codegen_create_label (codes "else") g₂
      g₄ ← generate_with_break body (codegen_emit (jmpif else_label) g₃)
      g₅ ← generate_statements else_body (enter_else else_label end_label g₄)
      generated (codegen_emit (label end_label) g₅)
    codegen_generate_statement (function_definition name params body) g = do
      let g₁ = codegen_emit (signature (codes "; ") name (length params)) g
      let g₂ = record (codegen_emit (label name) g₁) { indent_level = 1 }
      g₃ ← generate_statements body (set_parameters params (function_start name params g₂))
      let g₄ = if ends_return body then g₃ else function_end name g₃
      generated (
          codegen_emit (signature (codes "; END ") name (length params))
            (record g₄ { indent_level = 0 }))
    codegen_generate_statement (return_statement value) g =
        codegen_generate_return_statement value g
    codegen_generate_statement (function_call name args) g =
        some (codegen_generate_expression (function_call name args) g)
    codegen_generate_statement (for_statement init condition update body) g = do
      let (start_label, g₁) = codegen_create_label (codes "for_start") g
      let (end_label, g₂) = codegen_create_label (codes "for_end") g₁
      g₃ ← codegen_generate_statement init g₂
      g₄ ← enter_loop condition end_label (codegen_emit (label start_label) g₃)
      g₅ ← generate_with_break body g₄
      g₆ ← codegen_generate_statement update g₅
      generated (leave_loop start_label end_label g₆)
    codegen_generate_statement (while_statement condition body) g = do
      let (start_label, g₁) = codegen_create_label (codes "while_start") g
      let (end_label, g₂) = codegen_create_label (codes "while_end") g₁
      g₃ ← enter_loop condition end_label (codegen_emit (label start_label) g₂)
      g₄ ← generate_with_break body g₃
      generated (leave_loop start_label end_label g₄)
    codegen_generate_statement (import_statement file) g = do
      g₁ ← generate_import file (codegen_emit (comment (codes "; START IMPORTED FILE ") file) g)
      generated (codegen_emit (comment (codes "; END   IMPORTED FILE ") file) g₁)
    codegen_generate_statement break_statement g = generated g
    codegen_generate_statement (binary_expression left type right) g = some (exit 1)
    codegen_generate_statement (identifier name) g = some (exit 1)
    codegen_generate_statement (number n) g = some (exit 1)
    codegen_generate_statement (string s) g = some (exit 1)

    -- A body whose `break` leaves the loop around it.
    pub generate_with_break : Nodes → CodeGenerator → Generated
    generate_with_break no_nodes g = generated g
    generate_with_break (node n ns) g = do
      g₁ ← codegen_generate_statement_with_break n (codegen_generate_statement n g) g
      generate_with_break ns g₁

    pub generate_statements : Nodes → CodeGenerator → Generated
    generate_statements no_nodes g = generated g
    generate_statements (node n ns) g = do
      g₁ ← codegen_generate_statement n g
      generate_statements ns g₁
