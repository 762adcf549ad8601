-- ===== src/Exec.antt =====
-- `execute_instruction` of src/orta.h: the switch over the handlers of the child modules. The handler
-- of `sprintf` is an argument.
pub mod Push
pub mod Arith
pub mod Compare
pub mod Jump
pub mod Text
pub mod StackOps
pub mod Scope
pub mod Alloc
pub mod System
pub mod Memory
pub mod Sprintf
use orta_vm.Prelude.{ℕ, Bool, true, List, length, ◌==◌, if◌then◌else◌}
use orta_vm.Result.{Result, ok, exit, undefined, ◌>>=◌}
use orta_vm.Number.{atoi}
use orta_vm.Instruction.{
  Instruction, inop, ipush, imov, ipop, iadd, isub, imul, idiv, imod, iand, ior, ixor, inot, ieq,
  ine, ilt, igt, ile, ige, ijmp, ijmpif, icall, iret, iload, istore, iprint, idup, iswap, idrop,
  irotl, irotr, ialloc, ihalt, imerge, ixcall, isizeof, imemcmp, idec, iinc, ieval, icmp, ireadmem,
  icpymem, iwritemem, ivar, isetvar, igetvar, ifree, itogglelocalscope, igetglobalvar,
  isetglobalvar, iovm, icast, ihere, isprintf,
}
use orta_vm.Word.{int_word}
use orta_vm.Program.{InstructionData}
use orta_vm.Platform.{Platform}
use orta_vm.Vm.{OrtaVm, operand, with_ip, with_program, next_ip, push_word}
use orta_vm.Eval.{eval}
use Push.{exec_push, exec_mov, exec_pop, exec_load, exec_store}
use Arith.{exec_add, exec_sub, exec_mul, exec_div, exec_mod, exec_and, exec_or, exec_xor, exec_not}
use Compare.{exec_eq, exec_ne, exec_lt, exec_gt, exec_le, exec_ge, exec_cmp}
use Jump.{exec_jmp, exec_jmpif, exec_call, exec_ret}
use Text.{hmerge, exec_print, exec_merge, exec_here, exec_ovm}
use StackOps.{exec_dup, exec_swap, exec_drop, exec_rotl, exec_rotr, exec_cast, exec_sizeof}
use Scope.{
  exec_var, exec_setvar, exec_getvar, exec_setglobalvar, exec_getglobalvar, exec_togglelocalscope,
  exec_inc, exec_dec,
}
use Alloc.{exec_alloc, exec_free}
use System.{exec_xcall}
use Memory.{Control, break_with, return_with, exec_readmem, exec_writemem, exec_cpymem, exec_memcmp}

unfoldable pub exec_eval : OrtaVm → InstructionData → Result OrtaVm
unfolding hmerge
exec_eval vm instr = do s ← hmerge instr.operands; n ← eval s; ok (push_word vm (int_word n))

-- `halt` returns: the instruction pointer stays.
unfoldable pub exec_halt : OrtaVm → InstructionData → Result OrtaVm
exec_halt vm instr =
    if length instr.operands == 1
    then (operand instr 0 >>= λ s.
        ok (with_program vm (record (vm.program) { exit_code = atoi s; halted = true })))
    else ok (with_program vm (record (vm.program) { halted = true }))

-- `xpu->ip++`, behind the switch.
abbrev pub advance : OrtaVm → OrtaVm
advance vm = with_ip vm (next_ip vm.xpu.ip)

abbrev pub then_advance : Result OrtaVm → Result OrtaVm
then_advance r = r >>= λ vm. ok (advance vm)

abbrev pub leave : Control → OrtaVm
leave (break_with vm) = advance vm
leave (return_with vm) = vm

abbrev pub then_leave : Result Control → Result OrtaVm
then_leave r = r >>= λ c. ok (leave c)

module _ (pf : Platform) (exec_sprintf : OrtaVm → InstructionData → Result OrtaVm) where
  -- The cases that end by `break`; an opcode without a case does nothing.
  unfoldable pub handler : Instruction → OrtaVm → InstructionData → Result OrtaVm
  handler ipush vm i = exec_push pf.floats vm i
  handler imov vm i = exec_mov pf.floats vm i
  handler ipop vm i = exec_pop vm i
  handler iadd vm i = exec_add pf.floats vm i
  handler isub vm i = exec_sub pf.floats vm i
  handler imul vm i = exec_mul pf.floats vm
  handler idiv vm i = exec_div pf.floats vm
  handler imod vm i = exec_mod vm
  handler iand vm i = exec_and vm
  handler ior vm i = exec_or vm
  handler ixor vm i = exec_xor vm i
  handler inot vm i = exec_not pf.floats vm
  handler ieq vm i = exec_eq pf.floats vm
  handler ine vm i = exec_ne pf.floats vm
  handler ilt vm i = exec_lt pf.floats vm
  handler igt vm i = exec_gt pf.floats vm
  handler ile vm i = exec_le pf.floats vm
  handler ige vm i = exec_ge pf.floats vm
  handler ijmp vm i = exec_jmp pf.floats vm i
  handler ijmpif vm i = exec_jmpif pf.floats vm i
  handler icall vm i = exec_call pf vm i
  handler iret vm i = exec_ret vm
  handler iload vm i = exec_load vm i
  handler istore vm i = exec_store vm i
  handler iprint vm i = exec_print pf vm i
  handler idup vm i = exec_dup vm
  handler iswap vm i = exec_swap vm
  handler idrop vm i = exec_drop vm
  handler irotl vm i = exec_rotl vm i
  handler irotr vm i = exec_rotr vm i
  handler ialloc vm i = exec_alloc vm i
  handler imerge vm i = exec_merge vm i
  handler ixcall vm i = exec_xcall pf vm
  handler isizeof vm i = exec_sizeof vm i
  handler imemcmp vm i = exec_memcmp pf vm i
  handler idec vm i = exec_dec vm i
  handler iinc vm i = exec_inc vm i
  handler ieval vm i = exec_eval vm i
  handler icmp vm i = exec_cmp pf vm i
  handler icpymem vm i = exec_cpymem vm
  handler ivar vm i = exec_var vm i
  handler isetvar vm i = exec_setvar vm i
  handler igetvar vm i = exec_getvar vm i
  handler ifree vm i = exec_free pf vm i
  handler itogglelocalscope vm i = exec_togglelocalscope vm
  handler igetglobalvar vm i = exec_getglobalvar vm i
  handler isetglobalvar vm i = exec_setglobalvar vm i
  handler iovm vm i = exec_ovm pf vm i
  handler icast vm i = exec_cast vm i
  handler ihere vm i = exec_here vm i
  handler isprintf vm i = exec_sprintf vm i
  handler _ vm i = ok vm

  unfoldable pub execute_opcode : Instruction → OrtaVm → InstructionData → Result OrtaVm
  execute_opcode ireadmem vm i = then_leave (exec_readmem vm i)
  execute_opcode iwritemem vm i = then_leave (exec_writemem pf.floats vm i)
  execute_opcode ihalt vm i = exec_halt vm i
  execute_opcode op vm i = then_advance (handler op vm i)

  unfoldable pub execute_instruction : OrtaVm → InstructionData → Result OrtaVm
  unfolding execute_opcode handler
  execute_instruction vm i = execute_opcode i.opcode vm i
