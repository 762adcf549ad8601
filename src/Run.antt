-- ===== src/Run.antt =====
-- `execute_program` of src/orta.h. The loop takes fuel; `none` is that it ran out.
pub mod Loop
pub mod Arguments
pub mod Calls
pub mod Sized
use orta_vm.Prelude.{
  ℕ, zero, suc, Bool, true, false, Option, none, some, Str, codes, get_elem?, if◌then◌else◌, List,
}
use orta_vm.Result.{Result, ok, exit, undefined, ◌>>=◌}
use orta_vm.Program.{InstructionData, find_label}
use orta_vm.Platform.{Platform}
use orta_vm.Vm.{OrtaVm, with_ip}
use orta_vm.Exec.{execute_instruction}

abbrev pub entry_name : Str
entry_name = codes "__entry"

-- The start: at the entry label, or at 0 if there is none.
unfoldable pub start : OrtaVm → OrtaVm
start vm = elim (find_label vm.program entry_name) [ none ↦ with_ip vm 0 | some a ↦ with_ip vm a ]

-- The instruction that is next, unless the machine is halted or behind the program.
unfoldable pub fetch : OrtaVm → Option InstructionData
fetch vm = if vm.program.halted then none else get_elem? vm.program.instructions vm.xpu.ip

-- The rounds that follow one that ended with `r`.
abbrev pub rounds_after : (OrtaVm → Option (Result OrtaVm)) → Result OrtaVm → Option (Result OrtaVm)
rounds_after again (ok vm) = again vm
rounds_after again (exit n) = some (exit n)
rounds_after again undefined = some undefined

module _ (pf : Platform) (exec_sprintf : OrtaVm → InstructionData → Result OrtaVm) where
  unfoldable pub run_loop : ℕ → OrtaVm → Option (Result OrtaVm)
  run_loop zero vm = none
  run_loop (suc fuel) vm = elim (fetch vm) [
    | none ↦ some (ok vm)
    | some i ↦ rounds_after (run_loop fuel) (execute_instruction pf exec_sprintf vm i)
  ]

  unfoldable pub execute_program : ℕ → OrtaVm → Option (Result OrtaVm)
  unfolding run_loop start
  execute_program fuel vm = run_loop fuel (start vm)
