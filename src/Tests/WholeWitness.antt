-- ===== src/Tests/WholeWitness.antt =====
-- A program from its text to the end of its run, and `sprintf` by evaluation.
use orta_vm.Prelude.{◌≡◌, refl, Bool, true, false, some, [], ◌∷◌, Str, codes}
use orta_vm.Result.{Result, ok, undefined, ◌>>=◌}
use orta_vm.Heap.{new_string, load_string, empty_heap}
use orta_vm.Word.{int_word, string_word}
use orta_vm.Exec.Text.{print_int}
use orta_vm.Instruction.{ihalt, inop}
use orta_vm.Program.{Program, InstructionData}
use orta_vm.Vm.{OrtaVm, ortavm_create, with_program, pop_word}
use orta_vm.Asm.Parse.{parse_program}
use orta_vm.Asm.Parse.Programs.{IsAssembled}
use orta_vm.Exec.{execute_instruction}
use orta_vm.Exec.Sprintf.{Argument, int_argument, exec_sprintf}
use orta_vm.Run.{execute_program}
use orta_vm.Run.Sized.{IsSized}
use orta_vm.Run.Sized.Whole.{execute_program-parse_program}
use orta_vm.Result.Ensures.{Ensures}
use orta_vm.Run.Sized.Blocks.{LibrariesKeep}
use orta_vm.Tests.Sample.{plain, instr, machine, program_of, stack_of}
use orta_vm.Tests.Assembly.{line_file}

abbrev no_text : Str → Argument → Result Str
no_text specifier x = ok []

abbrev program_at : Bool → Program
program_at halted = record {
  filename = codes "t.x";
  instructions = record { opcode = ihalt; operands = []; line = 1 } ∷ [];
  instructions_capacity = 128;
  labels = [];
  labels_capacity = 32;
  variables = [];
  halted = halted;
  exit_code = 0;
}

abbrev machine_at : Bool → OrtaVm
machine_at halted = with_program (ortavm_create (codes "t.x") 4 false) (program_at halted)

text_parses :
    parse_program (line_file (codes "halt")) (ortavm_create (codes "t.x") 4 false) (codes "t.x")
    ≡ some (ok (true, machine_at false))
unfolding parse_program orta_vm.Asm.Lexer.lexer_next_token orta_vm.Asm.Lexer.lexer_create
    orta_vm.Instruction.parse_instruction orta_vm.Instruction.instruction_expected_args
    orta_vm.Instruction.validate_arg_count orta_vm.Program.add_instruction ortavm_create
text_parses = refl

text_runs :
    execute_program plain (exec_sprintf plain no_text) 3 (machine_at false)
    ≡ some (ok (machine_at true))
unfolding execute_program orta_vm.Run.fetch orta_vm.Program.find_label execute_instruction
    orta_vm.Exec.exec_halt ortavm_create
text_runs = refl

plain-LibrariesKeep : LibrariesKeep plain
unfolding Ensures
plain-LibrariesKeep lib_path func_name vm v = v

execute_program-parse_program_example : IsAssembled (program_at false) × IsSized (machine_at true)
execute_program-parse_program_example =
    execute_program-parse_program plain no_text plain-LibrariesKeep (line_file (codes "halt"))
      (codes "t.x") 4 false true (machine_at false) (machine_at true) 3 text_parses text_runs

-- The digits of an int, for every conversion of one.
abbrev digits_of : Str → Argument → Result Str
digits_of specifier (int_argument n) = ok (print_int n)
digits_of specifier x = ok []

abbrev empty_machine : OrtaVm
empty_machine = machine [] (program_of [] [])

-- The string at address 1, under an int.
abbrev with_format : Str → OrtaVm
with_format fmt = record empty_machine {
  heap = (new_string fmt empty_heap).1;
  xpu = record (empty_machine.xpu) {
    stack = stack_of (string_word (new_string fmt empty_heap).0 ∷ int_word 42 ∷ []);
  };
}

-- The text of the string on top of the stack.
abbrev top_text : Result OrtaVm → Result Str
top_text r = r >>= λ vm. load_string (pop_word vm).0.bits vm.heap

sprintf_int :
    top_text (exec_sprintf plain digits_of (with_format (codes "n=%d!")) (instr inop []))
    ≡ ok (codes "n=42!")
unfolding exec_sprintf new_string load_string orta_vm.Word.type_eq orta_vm.Stack.xstack_pop
    orta_vm.Stack.xstack_check orta_vm.Exec.StackOps.pop_many orta_vm.Number.print_int64
    orta_vm.Heap.free orta_vm.Stack.xstack_push
sprintf_int = refl

-- A doubled sign at the end is counted as a conversion, and followed past the terminator.
sprintf_doubled :
    top_text (exec_sprintf plain digits_of (with_format (codes "100%%")) (instr inop []))
    ≡ undefined
unfolding exec_sprintf new_string load_string orta_vm.Word.type_eq orta_vm.Stack.xstack_pop
sprintf_doubled = refl
