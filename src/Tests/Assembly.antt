-- ===== src/Tests/Assembly.antt =====
-- Texts assembled by evaluation.
use orta_vm.Prelude.{
  ℕ, ◌≡◌, refl, Bool, true, false, Option, none, some, List, [], ◌∷◌, ◌++◌, Str, codes, str_eq,
  if◌then◌else◌,
}
use orta_vm.Result.{ok}
use orta_vm.Result.Fueled.{Fueled}
use orta_vm.Instruction.{ipush, ijmp, inop}
use orta_vm.Program.{Program, InstructionData, Label, program_init}
use orta_vm.Asm.Lexer.{Token, lexer_next_token}
use orta_vm.Asm.Tokens.{tokenize}
use orta_vm.Asm.Parse.{parse_loop, parse_text, orta_preprocess}
use orta_vm.Tests.Sample.{instr}

abbrev newline : Str
newline = b'\n' ∷ []

-- The only file there is.
abbrev pub files : Str → Option Str
files name = if str_eq name (codes "main") then some text else none
  where
    text : Str
    text =
        codes "#define N 3"
        ++ newline
        ++ codes "__entry:"
        ++ newline
        ++ codes "push N ; the count"
        ++ newline
        ++ codes ".loop:"
        ++ newline
        ++ codes "jmp .loop"
        ++ newline

abbrev pub written_text : Str
written_text =
    newline
    ++ codes "__entry:"
    ++ newline
    ++ codes "push 3"
    ++ newline
    ++ codes "__entry__local_0:"
    ++ newline
    ++ codes "jmp __entry__local_0"
    ++ newline

preprocess_runs : orta_preprocess files true (codes "main") ≡ some (ok (true, some written_text))
unfolding orta_preprocess lexer_next_token orta_vm.Asm.Lexer.lexer_create
preprocess_runs = refl

abbrev at_line : ℕ → InstructionData → InstructionData
at_line n i = record i { line = n }

abbrev of_program : Bool × Program → Bool × List InstructionData × List Label
of_program (parsed, p) = (parsed, p.instructions, p.labels)

abbrev of_parse : Fueled (Bool × Program) → Option (Bool × List InstructionData × List Label)
of_parse (some (ok r)) = some (of_program r)
of_parse _ = none

parse_runs :
    of_parse (parse_text written_text (program_init (codes "main") false))
    ≡ some (
      true,
      at_line 0 (instr inop [])
          ∷ at_line 3 (instr ipush (codes "3" ∷ []))
          ∷ at_line 0 (instr inop [])
          ∷ at_line 5 (instr ijmp (codes "__entry__local_0" ∷ []))
          ∷ [],
      record { name = codes "__entry"; address = 0 }
          ∷ record { name = codes "__entry__local_0"; address = 2 }
          ∷ [],
    )
unfolding program_init tokenize parse_loop lexer_next_token orta_vm.Asm.Lexer.lexer_create
    orta_vm.Program.add_label orta_vm.Instruction.parse_instruction
    orta_vm.Instruction.instruction_expected_args orta_vm.Instruction.validate_arg_count
parse_runs = refl

-- A file of one line.
abbrev pub line_file : Str → Str → Option Str
line_file line name = some line

-- A sign is not part of a number, and is dropped.
sign_is_lost :
    orta_preprocess (line_file (codes "push -5")) true (codes "main")
    ≡ some (ok (true, some (codes "push 5")))
unfolding orta_preprocess lexer_next_token orta_vm.Asm.Lexer.lexer_create
sign_is_lost = refl

-- Behind the dot of a fraction is a local label.
fraction_is_split :
    orta_preprocess (line_file (codes "push 1.5")) true (codes "main")
    ≡ some (ok (true, some (codes "push 1 __global__local_0")))
unfolding orta_preprocess lexer_next_token orta_vm.Asm.Lexer.lexer_create
fraction_is_split = refl

-- Only what stands behind a name is looked at: the end of another name is replaced too.
end_is_replaced :
    orta_preprocess (line_file (codes "#define p 9" ++ newline ++ codes "loop")) true (codes "main")
    ≡ some (ok (true, some (newline ++ codes "loo9")))
unfolding orta_preprocess lexer_next_token orta_vm.Asm.Lexer.lexer_create
end_is_replaced = refl
