-- ===== src/Tests/Witnesses.antt =====
-- The theorems at concrete inputs.
use orta_vm.Prelude.{
  ℕ, ◌↔◌, ◌≡◌, ◌≢◌, ◌^◌, refl, arith, List, [], ◌∷◌, codes, some, none, true, ◌-◌,
}
use orta_vm.Result.{ok}
use orta_vm.Instruction.{inop, ipush, ihalt, icall, iret, ijmp, ixcall}
use orta_vm.Word.{Word, int_word, string_word, null_word, wint, wcharp}
use orta_vm.Stack.{XStack, xstack_push, xstack_pop, push}
use orta_vm.Program.{Program, InstructionData, Label, Variable, find_in, add_label, nop_instruction}
use orta_vm.Program.Growth.{HasRoom, with_instruction, with_label, add_label-ok}
use orta_vm.Heap.{Heap, empty_heap, new_string, load_string, c_string}
use orta_vm.Variables.{setvar, getvar, find_variable}
use orta_vm.Variables.Laws.{string_at, IsCopy, getvar-setvar}
use orta_vm.Flags.{set_flags}
use orta_vm.Flags.Bounds.{IsFlags, set_flags-IsFlags}
use orta_vm.Eval.{eval_loop}
use orta_vm.Eval.Fuel.{eval_loop-ne-none}
use orta_vm.Operand.{unquote}
use orta_vm.Vm.{OrtaVm, with_ip, before_ip}
use orta_vm.Exec.{execute_instruction}
use orta_vm.Exec.Jump.{jump_target, push_arguments}
use orta_vm.Exec.Arith.Effects.{with_items}
use orta_vm.Exec.StackOps.{rotate, first_to_end, last_to_front}
use orta_vm.Exec.StackOps.Rotate.{rotr-rotl}
use orta_vm.Run.{run_loop}
use orta_vm.Result.Ensures.{Ensures}
use orta_vm.Run.Sized.{IsSized}
use orta_vm.Run.Sized.Blocks.{LibrariesKeep}
use orta_vm.Run.Sized.Steps.{SprintfKeeps, Reach-IsSized}
use orta_vm.Run.Loop.{Reach, IsDone, run_loop-Reach}
use orta_vm.Run.Calls.{with_target, call_to, returned, jmp-lands, ret-call}
use orta_vm.Xbin.{create_xbin}
use orta_vm.Xbin.Load.{from_file, load}
use orta_vm.Xbin.Numbers.{through, IsWidened, through-IsWidened}
use orta_vm.Xbin.RoundTrip.Files.{IsProgram, program_through, load-create_xbin}
use orta_vm.Tests.Sample.{whole_floats, plain, no_sprintf, instr, machine, program_of, stack_of}

abbrev one_label : List Label
one_label = record { name = codes "f"; address = 2 } ∷ []

-- call f; nop; f: ret
abbrev calling : Program
calling =
    program_of (instr icall (codes "f" ∷ []) ∷ instr inop [] ∷ instr inop [] ∷ instr iret [] ∷ [])
      one_label

add_label-ok_example :
    (add_label calling (codes "g") 4
      ≡ ok (with_instruction (with_label calling (codes "g") 4) nop_instruction))
    × HasRoom (with_instruction (with_label calling (codes "g") 4) nop_instruction)
add_label-ok_example = add_label-ok calling (codes "g") 4 (omega arith)

set_flags-IsFlags_example :
    (out : List ℕ) × (set_flags (instr ipush [] ∷ instr ixcall [] ∷ instr ipush [] ∷ []) []
      ≡ ok out)
    × IsFlags out
set_flags-IsFlags_example =
    set_flags-IsFlags (instr ipush [] ∷ instr ixcall [] ∷ instr ipush [] ∷ []) [] (omega arith)

eval_loop-ne-none_example : eval_loop 10 (codes "2*(3+4)") 0 [] ≢ none
eval_loop-ne-none_example = eval_loop-ne-none 10 (codes "2*(3+4)") 0 [] (omega arith)

rotr-rotl_example :
    (rotate first_to_end 2 (stack_of (int_word 1 ∷ int_word 2 ∷ int_word 3 ∷ []))
      ≡ stack_of (int_word 2 ∷ int_word 1 ∷ int_word 3 ∷ []))
    × (rotate last_to_front 2
          (rotate first_to_end 2 (stack_of (int_word 1 ∷ int_word 2 ∷ int_word 3 ∷ [])))
        ≡ stack_of (int_word 1 ∷ int_word 2 ∷ int_word 3 ∷ []))
unfolding first_to_end
rotr-rotl_example =
    rotr-rotl 2 (stack_of (int_word 1 ∷ int_word 2 ∷ int_word 3 ∷ [])) (omega arith) (omega arith)
      (omega arith) (omega arith)

abbrev empty_machine : OrtaVm
empty_machine = machine [] calling

jmp-lands_example :
    execute_instruction plain no_sprintf empty_machine (with_target ijmp 1 (codes "2"))
    ≡ ok (with_ip empty_machine (jump_target whole_floats calling (codes "2")))
unfolding jump_target orta_vm.Number.is_number orta_vm.Number.atoi
jmp-lands_example =
    jmp-lands plain no_sprintf empty_machine 1 (codes "2") (omega arith) (omega arith)

-- push 5; halt
abbrev halting : Program
halting = program_of (instr ipush (codes "5" ∷ []) ∷ instr ihalt [] ∷ []) []

abbrev halted_machine : OrtaVm
halted_machine =
    with_ip (with_items (machine [] (record halting { halted = true })) (int_word 5 ∷ [])) 1

halts : run_loop plain no_sprintf 3 (machine [] halting) ≡ some (ok halted_machine)
unfolding run_loop execute_instruction orta_vm.Run.fetch orta_vm.Exec.Push.exec_push
    orta_vm.Number.is_number orta_vm.Number.atoi orta_vm.Stack.xstack_push
    orta_vm.Register.is_register orta_vm.Exec.exec_halt
halts = refl

run_loop-Reach_example :
    Reach plain no_sprintf (machine [] halting) halted_machine × IsDone halted_machine
run_loop-Reach_example = run_loop-Reach plain no_sprintf 3 (machine [] halting) halted_machine halts

halting-IsProgram : IsProgram halting
halting-IsProgram = ground arith

load-create_xbin_example :
    (file : List ℕ) × (flags : List ℕ) × (create_xbin (machine [] halting)
      ≡ ok (
        file,
        record (machine [] halting) { meta = record ((machine [] halting).meta) { flags = flags } },
      ))
    × (load from_file 0 (machine [] calling) file
        ≡ ok (
            some (record (machine [] calling) {
              meta = record ((machine [] halting).meta) { flags = flags };
              program = program_through from_file calling halting;
            })))
load-create_xbin_example =
    load-create_xbin from_file (machine [] halting) (machine [] calling) halting-IsProgram
      (omega arith) refl refl

through-IsWidened_example :
    (through from_file (2 ^ 64 - 5) ≡ 2 ^ 64 - 5) ↔ IsWidened from_file (2 ^ 64 - 5)
through-IsWidened_example = through-IsWidened from_file (2 ^ 64 - 5) (omega arith)

plain-LibrariesKeep : LibrariesKeep plain
unfolding Ensures
plain-LibrariesKeep lib_path func_name vm v = v

no_sprintf-SprintfKeeps : SprintfKeeps no_sprintf
unfolding Ensures
no_sprintf-SprintfKeeps vm i v = v

halting-IsSized : IsSized (machine [] halting)
halting-IsSized = ground arith

Reach-IsSized_example : IsSized halted_machine
Reach-IsSized_example =
    Reach-IsSized plain no_sprintf plain-LibrariesKeep no_sprintf-SprintfKeeps (machine [] halting)
      halted_machine halting-IsSized
      (run_loop-Reach plain no_sprintf 3 (machine [] halting) halted_machine halts).0

-- call f 5 7, in the program of `calling`, and the machine in which `f` begins.
abbrev after_arguments : OrtaVm
after_arguments = record empty_machine {
  xpu = record (empty_machine.xpu) {
    ip = before_ip 2;
    stack = stack_of (int_word 5 ∷ int_word 7 ∷ []);
    call_stack = push empty_machine.xpu.call_stack (int_word 0);
  };
}

ret-call_example :
    (execute_instruction plain no_sprintf empty_machine
        (call_to 1 (codes "f") (codes "5" ∷ codes "7" ∷ []))
      ≡ ok (with_ip after_arguments 2))
    × (after_arguments.xpu.call_stack ≡ push empty_machine.xpu.call_stack (int_word 0))
    × (execute_instruction plain no_sprintf after_arguments
          (record { opcode = iret; operands = []; line = 1 })
        ≡ ok (returned empty_machine after_arguments))
unfolding orta_vm.Exec.Jump.call_target orta_vm.Number.is_number orta_vm.Operand.is_label_reference
    orta_vm.Program.find_label push_arguments orta_vm.Exec.Jump.parse_operand orta_vm.Number.atoi
    orta_vm.Register.is_register orta_vm.Stack.xstack_push orta_vm.Word.type_eq
ret-call_example =
    ret-call plain no_sprintf empty_machine 1 (codes "f") (codes "5" ∷ codes "7" ∷ []) 2 1 []
      after_arguments after_arguments refl (omega arith) (omega arith) (omega arith) (omega arith)
      refl refl

-- Two strings, of which a variable holds the first.
abbrev two_strings : Heap
two_strings = (new_string (codes "hi") (new_string (codes "no") empty_heap).1).1

abbrev holding : List Variable
holding =
    record { name = codes "x"; value = string_word 16 }
    ∷ record { name = codes "y"; value = int_word 3 }
    ∷ []

abbrev second_string : Heap
second_string = record two_strings { blocks = (35, c_string (codes "hi")) ∷ [] }

second_text : load_string 35 second_string ≡ ok (codes "hi")
unfolding load_string
second_text = refl

getvar-setvar_example :
    (vars' : List Variable) × (h' : Heap) × (w : Word) × (h'' : Heap) × (setvar
        (codes "x")
        holding
        (string_word 35)
        two_strings
      ≡ ok (vars', h'))
    × (getvar (codes "x") vars' h' ≡ ok (w, h''))
    × IsCopy second_string (string_word 35) h'' w
    × (find_variable vars' (codes "y") ≡ find_variable holding (codes "y"))
unfolding find_variable orta_vm.Variables.release orta_vm.Heap.free new_string
getvar-setvar_example =
    getvar-setvar (codes "x") (codes "y") holding (string_word 35) two_strings second_string refl
      (string_at (codes "hi") refl second_text) refl
