-- ===== src/Nyva/Compile.antt =====
-- Imports, whole programs and the command line of src/nyva.c. The files that can be read are a parameter:
-- the text of each as a C string, or `none` where `fopen` fails.
pub mod Ends
use orta_vm.Prelude.{
  ℕ, zero, suc, ◌+◌, ◌-◌, Bool, true, false, not, ◌&&◌, ◌||◌, Option, none, some, List, [], ◌∷◌,
  ◌++◌, Str, codes, str_eq, length, take, ltb, ◌==◌, if◌then◌else◌,
}
use orta_vm.Result.{Result, ok, exit, undefined}
use orta_vm.Result.Fueled.{Fueled, ◌>>=◌}
use orta_vm.Nyva.Syntax.{Node, function_definition, Nodes, no_nodes, node}
use orta_vm.Nyva.Lexer.{tokenize}
use orta_vm.Nyva.Statements.{parse}
use orta_vm.Nyva.Preprocess.{preprocess}
use orta_vm.Nyva.Emit.{
  CodeGenerator, null_label, codegen_emit, codegen_create_label, plain, label, output_text,
}
use orta_vm.Nyva.Generate.{Generated, generated, codegen_generate_statement}

-- `fopen` and `fread`.
abbrev pub Files : Type 0
Files = Str → Option Str

unfoldable pub read_file : Files → Str → Fueled Str
read_file files filename = elim (files filename) [
  | none ↦ some (exit 1)
  | some source ↦ some (ok source)
]

-- The text of a file, up to its statements.
unfoldable pub parse_source : Str → Fueled Nodes
unfolding preprocess tokenize parse
parse_source source = do
  text ← elim (preprocess source) [ none ↦ none | some text ↦ some (ok text) ]
  tokens ← some (tokenize text)
  parse tokens

unfoldable pub file_in : List Str → Str → Bool
file_in [] filename = false
file_in (f ∷ fs) filename = if str_eq f filename then true else file_in fs filename

unfoldable pub is_file_imported : Str → CodeGenerator → Bool
unfolding file_in
is_file_imported filename g = file_in g.imported_files filename

-- The array takes 64 names, which the source does not check.
unfoldable pub add_imported_file : Str → CodeGenerator → Generated
add_imported_file filename g =
    if ltb (length g.imported_files) 64
    then generated (record g { imported_files = g.imported_files ++ (filename ∷ []) })
    else some undefined

unfoldable pub last_is_quote : Str → Bool
last_is_quote [] = false
last_is_quote (c ∷ []) = c == b'"'
last_is_quote (c ∷ d ∷ s) = last_is_quote (d ∷ s)

-- A name in quotes loses them.
unfoldable pub without_quotes : Str → Str
unfolding last_is_quote
without_quotes [] = []
without_quotes (c ∷ s) = if c == b'"' && last_is_quote (c ∷ s) then take (length s - 1) s else c ∷ s

unfoldable pub is_entry : Node → Bool
is_entry (function_definition name params body) = str_eq name (codes "__entry")
is_entry _ = false

abbrev pub is_function : Node → Bool
is_function (function_definition name params body) = true
is_function _ = false

-- The statements of an imported file, but its entry function.
unfoldable pub generate_imported :
    (Str → CodeGenerator → Generated) → Nodes → CodeGenerator → Generated
unfolding is_entry
generate_imported import_file no_nodes g = generated g
generate_imported import_file (node n ns) g = do
  g₁ ← elim (is_entry n) [ true ↦ generated g | false ↦ codegen_generate_statement import_file n g ]
  generate_imported import_file ns g₁

-- An import may import: the fuel bounds how deep.
unfoldable pub codegen_generate_import_statement : Files → ℕ → Str → CodeGenerator → Generated
unfolding is_file_imported add_imported_file without_quotes read_file parse_source generate_imported
codegen_generate_import_statement files zero file g = none
codegen_generate_import_statement files (suc f) file g = do
  let filename = without_quotes file
  elim (is_file_imported filename g) [
    | true ↦ generated g
    | false ↦ do
      g₁ ← add_imported_file filename g
      source ← read_file files filename
      statements ← parse_source source
      generate_imported (codegen_generate_import_statement files f) statements g₁
  ]

-- An empty line stands behind a function.
unfoldable pub generate_program_statements :
    (Str → CodeGenerator → Generated) → Nodes → CodeGenerator → Generated
generate_program_statements import_file no_nodes g = generated g
generate_program_statements import_file (node n ns) g = do
  g₁ ← codegen_generate_statement import_file n g
  generate_program_statements import_file ns
      (if is_function n then codegen_emit (plain []) g₁ else g₁)

-- The code that a call with a wrong number of arguments jumps to.
unfoldable pub emit_error : CodeGenerator → CodeGenerator
unfolding codegen_emit
emit_error g = codegen_emit (plain (codes "    halt 1")) (
    codegen_emit (plain (codes "    print")) (
      codegen_emit (plain (codes "    sprintf")) (
        codegen_emit (plain (codes "    push \"[%s ERROR] invalid amount of arguments\""))
          (codegen_emit (label g.error_not_enough_args) g))))

unfoldable pub codegen_generate_program :
    (Str → CodeGenerator → Generated) → Nodes → CodeGenerator → Generated
unfolding codegen_create_label generate_program_statements emit_error
codegen_generate_program import_file program g = do
  let (name, g₁) = codegen_create_label (codes "error_not_enough_args") g
  g₂ ← generate_program_statements import_file program (record g₁ { error_not_enough_args = name })
  generated (emit_error g₂)

unfoldable pub has_entry : Nodes → Bool
unfolding is_entry
has_entry no_nodes = false
has_entry (node n ns) = if is_entry n then true else has_entry ns

abbrev pub generator : CodeGenerator
generator = record {
  out = [];
  label_counter = 0;
  indent_level = 0;
  error_not_enough_args = [];
  current_break_label = null_label;
  imported_files = [];
}

-- The content of the output file; `opens` is whether that file can be written. Imports nest 65 deep at
-- most, since the array of the imported files takes 64.
unfoldable pub compile : Files → Bool → Bool → Str → Fueled Str
unfolding read_file parse_source has_entry codegen_generate_import_statement
    codegen_generate_program output_text
compile files is_lib opens input_file = do
  source ← read_file files input_file
  ast ← parse_source source
  if not is_lib && not (has_entry ast) then some (exit 1) else elim opens [
    | false ↦ some (exit 1)
    | true ↦ do
      g ← codegen_generate_program (codegen_generate_import_statement files 65) ast generator
      some (ok (output_text g.out))
  ]

-- The command line behind the name of the program; the answer is the file written and its content.
unfoldable pub main : Files → (Str → Bool) → List Str → Fueled (Str × Str)
unfolding compile
main files opens (input ∷ output ∷ []) = do
  text ← compile files false (opens output) input
  some (ok (output, text))
main files opens (input ∷ output ∷ option ∷ []) = elim (str_eq option (codes "--library")) [
  | true ↦ do text ← compile files true (opens output) input; some (ok (output, text))
  | false ↦ some (exit 1)
]
main files opens _ = some (exit 1)
