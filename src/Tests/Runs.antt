-- ===== src/Tests/Runs.antt =====
-- Programs run by evaluation.
use orta_vm.Prelude.{◌≡◌, refl, List, [], ◌∷◌, Str, codes, some, Option}
use orta_vm.Result.{Result, ok, undefined}
use orta_vm.Instruction.{inop, imov, ipush, iprint, iinc, ilt, ijmpif}
use orta_vm.Program.{Program, InstructionData, Label}
use orta_vm.Vm.{OrtaVm}
use orta_vm.Stack.{xstack_pop}
use orta_vm.Run.{execute_program, fetch}
use orta_vm.Exec.{execute_instruction}
use orta_vm.Exec.Push.{exec_push, exec_mov}
use orta_vm.Exec.Scope.{exec_inc}
use orta_vm.Exec.Text.{exec_print}
use orta_vm.Exec.Compare.{exec_lt}
use orta_vm.Exec.Jump.{exec_jmpif}
use orta_vm.Eval.{eval}
use orta_vm.Tests.Sample.{plain, no_sprintf, instr, machine, program_of}

-- for (r8 = 0; r8 < 3; r8++) print r8
abbrev counting : Program
counting =
    program_of
      (instr inop []
        ∷ instr imov (codes "0" ∷ codes "r8" ∷ [])
        ∷ instr inop []
        ∷ instr ipush (codes "r8" ∷ [])
        ∷ instr iprint []
        ∷ instr iinc (codes "r8" ∷ [])
        ∷ instr ipush (codes "r8" ∷ [])
        ∷ instr ipush (codes "3" ∷ [])
        ∷ instr ilt []
        ∷ instr ijmpif (codes "loop" ∷ [])
        ∷ [])
      (record { name = codes "__entry"; address = 0 }
        ∷ record { name = codes "loop"; address = 2 }
        ∷ [])

abbrev printed : Option (Result OrtaVm) → List Str
printed (some (ok vm)) = vm.out
printed _ = []

counting_prints :
    printed (execute_program plain no_sprintf 60 (machine [] counting))
    ≡ codes "2" ∷ codes "1" ∷ codes "0" ∷ []
unfolding execute_program execute_instruction fetch exec_push exec_mov exec_inc exec_print exec_lt
    exec_jmpif orta_vm.Program.find_label orta_vm.Register.register_name_to_enum
    orta_vm.Register.is_register orta_vm.Number.is_number orta_vm.Operand.is_float
    orta_vm.Operand.is_string xstack_pop orta_vm.Stack.xstack_push orta_vm.Word.type_eq
    orta_vm.Int32.lt32 orta_vm.Int32.add32 orta_vm.Number.atoi orta_vm.Operand.is_label_reference
    orta_vm.Number.print_int64
counting_prints = refl

-- From left to right, with no precedence: (2 + 3) * 4.
eval_left : eval (codes "2+3*4") ≡ ok 20
unfolding eval orta_vm.Number.skip_space orta_vm.Number.read_digits orta_vm.Int32.mul32
    orta_vm.Int32.add32
eval_left = refl

-- A blank at the end is followed past the terminator.
eval_blank : eval (codes "2+3 ") ≡ undefined
unfolding eval orta_vm.Number.skip_space orta_vm.Number.read_digits
eval_blank = refl
