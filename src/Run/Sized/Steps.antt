-- ===== src/Run/Sized/Steps.antt =====
-- The shape of the machine along a run.
use orta_vm.Prelude.{ℕ, ◌≡◌, Str, Bool, arith}
use mathlib.Core.Path.{subst}
use orta_vm.Result.{Result, ok}
use orta_vm.Instruction.{
  Instruction, inop, ipush, imov, ipop, iadd, isub, imul, idiv, imod, iand, ior, ixor, inot, ieq,
  ine, ilt, igt, ile, ige, ijmp, ijmpif, icall, iret, iload, istore, iprint, idup, iswap, idrop,
  irotl, irotr, ialloc, ihalt, imerge, ixcall, isizeof, imemcmp, idec, iinc, ieval, icmp, ireadmem,
  icpymem, iwritemem, ivar, isetvar, igetvar, ifree, itogglelocalscope, igetglobalvar,
  isetglobalvar, iovm, icast, ihere, isprintf, other,
}
use orta_vm.Program.{InstructionData}
use orta_vm.Platform.{Platform}
use orta_vm.Vm.{OrtaVm, ortavm_create, xpu_init}
use orta_vm.Stack.{xstack_create}
use orta_vm.Exec.{
  handler, execute_opcode, execute_instruction, then_advance, then_leave, leave, advance,
}
use orta_vm.Exec.Memory.{Control, break_with, return_with}
use orta_vm.Run.Loop.{Reach, here, next}
use orta_vm.Result.Ensures.{Ensures, >>=-Ensures, ok-Ensures}
use orta_vm.Run.Sized.{IsSized, Keeps, with_ip-IsSized}
use orta_vm.Run.Sized.Handlers.{
  exec_push-Keeps, exec_mov-Keeps, exec_pop-Keeps, exec_add-Keeps, exec_sub-Keeps, exec_mul-Keeps,
  exec_div-Keeps, exec_mod-Keeps, exec_and-Keeps, exec_or-Keeps, exec_xor-Keeps, exec_not-Keeps,
  exec_eq-Keeps, exec_ne-Keeps, exec_load-Keeps, exec_store-Keeps, exec_lt-Keeps, exec_gt-Keeps,
  exec_le-Keeps, exec_ge-Keeps,
}
use orta_vm.Run.Sized.Branches.{
  exec_jmp-Keeps, exec_jmpif-Keeps, exec_ret-Keeps, exec_print-Keeps, exec_dup-Keeps,
  exec_swap-Keeps, exec_drop-Keeps, exec_merge-Keeps, exec_sizeof-Keeps, exec_dec-Keeps,
  exec_inc-Keeps, exec_eval-Keeps, exec_cmp-Keeps, exec_var-Keeps, exec_setvar-Keeps,
  exec_getvar-Keeps, exec_togglelocalscope-Keeps, exec_getglobalvar-Keeps, exec_setglobalvar-Keeps,
  exec_ovm-Keeps, exec_cast-Keeps, exec_here-Keeps, exec_halt-Keeps,
}
use orta_vm.Run.Sized.Words.{exec_call-Keeps, exec_rotl-Keeps, exec_rotr-Keeps}
use orta_vm.Run.Sized.Blocks.{exec_alloc-Keeps, exec_free-Keeps, exec_xcall-Keeps, LibrariesKeep}
use orta_vm.Run.Sized.Reads.{ControlSized, exec_readmem-Ensures}
use orta_vm.Run.Sized.Cells.{exec_writemem-Ensures, exec_cpymem-Keeps, exec_memcmp-Keeps}

then_advance-Keeps : (r : Result OrtaVm) → Keeps r → Keeps (then_advance r)
then_advance-Keeps r k =
    >>=-Ensures IsSized IsSized r _ k λ u l. ok-Ensures IsSized (advance u) (with_ip-IsSized u _ l)

leave-IsSized : (c : Control) → ControlSized c → IsSized (leave c)
unfolding ControlSized
leave-IsSized (break_with vm) v = with_ip-IsSized vm _ v
leave-IsSized (return_with vm) v = v

then_leave-Keeps : (r : Result Control) → Ensures ControlSized r → Keeps (then_leave r)
then_leave-Keeps r k =
    >>=-Ensures IsSized ControlSized r _ k λ c l. ok-Ensures IsSized (leave c) (leave-IsSized c l)

-- The handler that is an argument leaves the machine in shape.
abbrev pub SprintfKeeps : (OrtaVm → InstructionData → Result OrtaVm) → Type 0
SprintfKeeps exec_sprintf =
    (vm : OrtaVm) (i : InstructionData) → IsSized vm → Keeps (exec_sprintf vm i)

module _ (pf : Platform) (exec_sprintf : OrtaVm → InstructionData → Result OrtaVm)
    (libraries : LibrariesKeep pf) (sprintfs : SprintfKeeps exec_sprintf) where
  handler-Keeps :
      (op : Instruction) (vm : OrtaVm) (i : InstructionData)
      → IsSized vm
      → Keeps (handler pf exec_sprintf op vm i)
  unfolding handler
  handler-Keeps inop vm i v = ok-Ensures IsSized vm v
  handler-Keeps ipush vm i v = exec_push-Keeps pf.floats vm v i
  handler-Keeps imov vm i v = exec_mov-Keeps pf.floats vm v i
  handler-Keeps ipop vm i v = exec_pop-Keeps vm v i
  handler-Keeps iadd vm i v = exec_add-Keeps pf.floats vm v i
  handler-Keeps isub vm i v = exec_sub-Keeps pf.floats vm v i
  handler-Keeps imul vm i v = exec_mul-Keeps pf.floats vm v
  handler-Keeps idiv vm i v = exec_div-Keeps pf.floats vm v
  handler-Keeps imod vm i v = exec_mod-Keeps vm v
  handler-Keeps iand vm i v = exec_and-Keeps vm v
  handler-Keeps ior vm i v = exec_or-Keeps vm v
  handler-Keeps ixor vm i v = exec_xor-Keeps vm v i
  handler-Keeps inot vm i v = exec_not-Keeps pf.floats vm v
  handler-Keeps ieq vm i v = exec_eq-Keeps pf.floats vm v
  handler-Keeps ine vm i v = exec_ne-Keeps pf.floats vm v
  handler-Keeps ilt vm i v = exec_lt-Keeps pf.floats vm v
  handler-Keeps igt vm i v = exec_gt-Keeps pf.floats vm v
  handler-Keeps ile vm i v = exec_le-Keeps pf.floats vm v
  handler-Keeps ige vm i v = exec_ge-Keeps pf.floats vm v
  handler-Keeps ijmp vm i v = exec_jmp-Keeps pf.floats vm v i
  handler-Keeps ijmpif vm i v = exec_jmpif-Keeps pf.floats vm v i
  handler-Keeps icall vm i v = exec_call-Keeps pf vm v i
  handler-Keeps iret vm i v = exec_ret-Keeps pf vm v
  handler-Keeps iload vm i v = exec_load-Keeps vm v i
  handler-Keeps istore vm i v = exec_store-Keeps vm v i
  handler-Keeps iprint vm i v = exec_print-Keeps pf vm v i
  handler-Keeps idup vm i v = exec_dup-Keeps pf vm v
  handler-Keeps iswap vm i v = exec_swap-Keeps pf vm v
  handler-Keeps idrop vm i v = exec_drop-Keeps pf vm v
  handler-Keeps irotl vm i v = exec_rotl-Keeps vm v i
  handler-Keeps irotr vm i v = exec_rotr-Keeps vm v i
  handler-Keeps ialloc vm i v = exec_alloc-Keeps vm v i
  handler-Keeps ihalt vm i v = ok-Ensures IsSized vm v
  handler-Keeps imerge vm i v = exec_merge-Keeps pf vm v i
  handler-Keeps ixcall vm i v = exec_xcall-Keeps pf libraries vm v
  handler-Keeps isizeof vm i v = exec_sizeof-Keeps pf vm v i
  handler-Keeps imemcmp vm i v = exec_memcmp-Keeps pf vm v i
  handler-Keeps idec vm i v = exec_dec-Keeps pf vm v i
  handler-Keeps iinc vm i v = exec_inc-Keeps pf vm v i
  handler-Keeps ieval vm i v = exec_eval-Keeps pf vm v i
  handler-Keeps icmp vm i v = exec_cmp-Keeps pf vm v i
  handler-Keeps ireadmem vm i v = ok-Ensures IsSized vm v
  handler-Keeps icpymem vm i v = exec_cpymem-Keeps vm v
  handler-Keeps iwritemem vm i v = ok-Ensures IsSized vm v
  handler-Keeps ivar vm i v = exec_var-Keeps pf vm v i
  handler-Keeps isetvar vm i v = exec_setvar-Keeps pf vm v i
  handler-Keeps igetvar vm i v = exec_getvar-Keeps pf vm v i
  handler-Keeps ifree vm i v = exec_free-Keeps pf vm v i
  handler-Keeps itogglelocalscope vm i v = exec_togglelocalscope-Keeps pf vm v
  handler-Keeps igetglobalvar vm i v = exec_getglobalvar-Keeps pf vm v i
  handler-Keeps isetglobalvar vm i v = exec_setglobalvar-Keeps pf vm v i
  handler-Keeps iovm vm i v = exec_ovm-Keeps pf vm v i
  handler-Keeps icast vm i v = exec_cast-Keeps pf vm v i
  handler-Keeps ihere vm i v = exec_here-Keeps pf vm v i
  handler-Keeps isprintf vm i v = sprintfs vm i v
  handler-Keeps (other n) vm i v = ok-Ensures IsSized vm v

  execute_opcode-Keeps :
      (op : Instruction) (vm : OrtaVm) (i : InstructionData)
      → IsSized vm
      → Keeps (execute_opcode pf exec_sprintf op vm i)
  unfolding execute_opcode
  execute_opcode-Keeps ireadmem vm i v = then_leave-Keeps _ (exec_readmem-Ensures vm v i)
  execute_opcode-Keeps iwritemem vm i v =
      then_leave-Keeps _ (exec_writemem-Ensures pf.floats vm v i)
  execute_opcode-Keeps ihalt vm i v = exec_halt-Keeps pf vm v i
  execute_opcode-Keeps op vm i v = then_advance-Keeps _ (handler-Keeps op vm i v)

  step-IsSized :
      (vm u : OrtaVm) (i : InstructionData)
      → execute_instruction pf exec_sprintf vm i ≡ ok u
      → IsSized vm
      → IsSized u
  unfolding execute_instruction Ensures
  step-IsSized vm u i e v = subst Keeps e (execute_opcode-Keeps i.opcode vm i v)

  -- Every machine that a run reaches has the registers of the table and both stacks within their
  -- capacity, if the first machine has and the libraries and `sprintf` keep them.
  pub Reach-IsSized : (vm u : OrtaVm) → IsSized vm → Reach pf exec_sprintf vm u → IsSized u
  Reach-IsSized vm u v here = v
  Reach-IsSized vm u v (next {t = t} r i f e) = step-IsSized t u i e (Reach-IsSized vm t v r)

-- A new machine has the registers of the table and both stacks within their capacity.
pub ortavm_create-IsSized :
    (filename : Str) (stack_size : ℕ) (garbage : Bool)
    → IsSized (ortavm_create filename stack_size garbage)
unfolding ortavm_create xpu_init xstack_create
ortavm_create-IsSized filename stack_size garbage = ground arith
