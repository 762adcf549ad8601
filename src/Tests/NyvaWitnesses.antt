-- ===== src/Tests/NyvaWitnesses.antt =====
-- The theorems of the nyva compiler at concrete programs.
use orta_vm.Prelude.{
  ◌≤◌, ◌≡◌, ◌≢◌, refl, arith, true, false, none, some, List, [], ◌∷◌, ◌++◌, Str, codes, length,
}
use orta_vm.Result.{ok, undefined}
use orta_vm.Int32.{sub32}
use orta_vm.Nyva.Tokens.{
  Token, TokenType, token_identifier, token_equal, token_number, token_semicolon, token_eof,
  token_minus, token_plus, token_multiply,
}
use orta_vm.Nyva.Lexer.{Lexer, lexer_collect_string, tokenize}
use orta_vm.Nyva.Lexer.Fetches.{tokenize-Ready, tokenize-ne-undefined}
use orta_vm.Nyva.Escape.{escape_string, lexer_collect_string-escape_string}
use orta_vm.Nyva.Preprocess.{preprocess}
use orta_vm.Nyva.Preprocess.Removes.{Sublist, preprocess-Sublist}
use orta_vm.Nyva.Syntax.{
  Node, Nodes, no_nodes, node, number, identifier, binary_expression, while_statement,
  break_statement, import_statement,
}
use orta_vm.Nyva.Parser.Ready.{Ready, last, more}
use orta_vm.Nyva.Statements.{parse}
use orta_vm.Nyva.Statements.Ends.{parse-ne-undefined}
use orta_vm.Nyva.Emit.{CodeGenerator, label_text}
use orta_vm.Nyva.Generate.{Generated}
use orta_vm.Nyva.Generate.Sound.{Has, here, there, JumpsTo, by_jmp, IsLabel}
use orta_vm.Nyva.Codegen.{emit_operator, codegen_generate_expression}
use orta_vm.Nyva.Codegen.Runs.{operator_value, execute_lines, two_ints, one_int, emit_operator-runs}
use orta_vm.Word.{int_word}
use orta_vm.Vm.{OrtaVm}
use orta_vm.Nyva.Compile.{
  Files, compile, codegen_generate_program, codegen_generate_import_statement, generator,
}
use orta_vm.Nyva.Compile.Ends.{compile-ne-none, jumps-resolved}
use orta_vm.Tests.Sample.{plain, no_sprintf, machine, program_of}

-- Every file holds this text.
abbrev one_text : Str → Files
one_text s name = some s

-- A program that imports itself.
abbrev looping : Str
looping = codes "import(\"f\"); fn __entry() { while (a < b) { a = a - 1; } }"

compile-ne-none_example : compile (one_text looping) false true (codes "f") ≢ none
compile-ne-none_example = compile-ne-none (one_text looping) false true (codes "f")

abbrev state_of : Generated → CodeGenerator
state_of (some (ok g)) = g
state_of _ = generator

-- while (1) { break; }
abbrev breaking : Nodes
breaking = node (while_statement (number 1) (node break_statement no_nodes)) no_nodes

abbrev broken : CodeGenerator
broken = state_of (
    codegen_generate_program (codegen_generate_import_statement (one_text []) 65) breaking
      generator)

breaking_runs :
    codegen_generate_program (codegen_generate_import_statement (one_text []) 65) breaking generator
    ≡ some (ok broken)
unfolding codegen_generate_program orta_vm.Nyva.Generate.codegen_generate_statement
    orta_vm.Nyva.Generate.enter_loop orta_vm.Nyva.Codegen.codegen_generate_expression
    orta_vm.Nyva.Generate.codegen_generate_statement_with_break orta_vm.Nyva.Generate.generate_break
breaking_runs = refl

break_target : Has (JumpsTo (label_text (codes "while_end") 2)) broken.out
unfolding codegen_generate_program orta_vm.Nyva.Generate.codegen_generate_statement
    orta_vm.Nyva.Generate.enter_loop orta_vm.Nyva.Codegen.codegen_generate_expression
    orta_vm.Nyva.Generate.codegen_generate_statement_with_break orta_vm.Nyva.Generate.generate_break
    orta_vm.Nyva.Generate.leave_loop orta_vm.Nyva.Generate.free_label
break_target = there (there (there (here by_jmp)))

jumps-resolved_example : Has (IsLabel (label_text (codes "while_end") 2)) broken.out
jumps-resolved_example =
    jumps-resolved (one_text []) breaking broken breaking_runs (label_text (codes "while_end") 2)
      break_target

-- import("a"); import("a");
abbrev importing : Nodes
importing = node (import_statement (codes "a")) (node (import_statement (codes "a")) no_nodes)

abbrev imported : CodeGenerator
imported = state_of (
    codegen_generate_program (codegen_generate_import_statement (one_text []) 65) importing
      generator)

-- a"b\n
abbrev awkward : Str
awkward = b'a' ∷ b'"' ∷ b'b' ∷ b'\n' ∷ []

lexer_collect_string-escape_string_example :
    (l : Lexer) × (lexer_collect_string (record {
      unread = b'"' ∷ (escape_string awkward ++ b'"' ∷ codes ";");
      line = 1;
      column = 0;
    })
      ≡ ok (awkward, l))
    × (l.unread ≡ codes ";")
lexer_collect_string-escape_string_example =
    lexer_collect_string-escape_string awkward (codes ";") 1 0 (omega arith)

abbrev token : TokenType → Str → Token
token type value = record { type = type; value = some value; line = 1; column = 0 }

abbrev the_end : Token
the_end = record { type = token_eof; value = none; line = 1; column = 6 }

-- x = 1 ;
abbrev assigning : List Token
assigning =
    token token_identifier (codes "x")
    ∷ token token_equal (codes "=")
    ∷ token token_number (codes "1")
    ∷ token token_semicolon (codes ";")
    ∷ the_end
    ∷ []

assigning-Ready : Ready ⊥ assigning
assigning-Ready =
    more refl refl (λ e. absurd cc)
      (more refl refl (λ e. absurd cc)
        (more refl refl (λ e. absurd cc) (more refl refl (λ e. absurd cc) (last refl))))

parse-ne-undefined_example : parse assigning ≢ some undefined
parse-ne-undefined_example = parse-ne-undefined assigning assigning-Ready (omega arith)

abbrev letter : List Token
letter =
    record { type = token_identifier; value = some (codes "x"); line = 1; column = 1 }
    ∷ record { type = token_eof; value = none; line = 1; column = 1 }
    ∷ []

letter_read : tokenize (codes "x") ≡ ok letter
unfolding tokenize
letter_read = refl

tokenize-Ready_example : Ready Unit letter
tokenize-Ready_example = tokenize-Ready (codes "x") letter letter_read

tokenize-ne-undefined_example : tokenize (codes "x = \"y") ≢ undefined
tokenize-ne-undefined_example = tokenize-ne-undefined (codes "x = \"y") (omega arith)

preprocess-Sublist_example :
    (r : Str) × (preprocess (codes "a: int // b") ≡ some r)
    × Sublist r (codes "a: int // b")
    × (length r ≤ length (codes "a: int // b"))
preprocess-Sublist_example = preprocess-Sublist (codes "a: int // b")

abbrev idle : OrtaVm
idle = machine [] (program_of [] [])

emit_operator-runs_example :
    (g : CodeGenerator) × (emit_operator token_minus (number 7) (number 5) generator ≡ ok g)
    × (execute_lines plain no_sprintf g.out (two_ints idle [] 7 5)
        ≡ ok (one_int idle [] (sub32 5 7)))
unfolding operator_value
emit_operator-runs_example =
    emit_operator-runs plain no_sprintf idle [] (omega arith) token_minus (number 7) (number 5) 7 5
      (sub32 5 7) refl refl

-- x + 7 * 3, where x is 2
abbrev sum_of_product : Node
sum_of_product =
    binary_expression (identifier (codes "x")) token_plus
      (binary_expression (number 7) token_multiply (number 3))

abbrev knowing : OrtaVm
knowing = record idle { local_scope = some (record { name = codes "x"; value = int_word 2 } ∷ []) }
