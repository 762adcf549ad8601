-- ===== src/Tests/DebuggerWitness.antt =====
-- The debugger at concrete inputs.
use orta_vm.Prelude.{ℕ, ◌≡◌, ◌↔◌, refl, true, some, [], ◌∷◌, codes}
use orta_vm.Result.{ok}
use orta_vm.Instruction.{inop}
use orta_vm.Vm.{OrtaVm}
use orta_vm.Debugger.{Debugger, cmd_continue, handle_command}
use orta_vm.Debugger.Continue.{Passes, cmd_continue-Passes}
use orta_vm.Tests.Sample.{plain, no_sprintf, instr, machine, program_of}

abbrev two_nops : OrtaVm
two_nops = machine [] (program_of (instr inop [] ∷ instr inop [] ∷ []) [])

abbrev fresh : Debugger
fresh = record { vm = two_nops; breakpoints = []; running = true }

abbrev with_break : Debugger
with_break = record { vm = two_nops; breakpoints = 1 ∷ []; running = true }

abbrev at_break : Debugger
at_break = record with_break { vm = record two_nops { xpu = record (two_nops.xpu) { ip = 1 } } }

break_is_set :
    handle_command plain no_sprintf 0 fresh (codes "b 1 2")
    ≡ some (ok (record fresh { breakpoints = 0 ∷ [] }))
unfolding handle_command
break_is_set = refl

cmd_continue-Passes_example :
    ((n : ℕ) × (cmd_continue plain no_sprintf n with_break ≡ some (ok at_break)))
    ↔ Passes plain no_sprintf with_break at_break
cmd_continue-Passes_example = cmd_continue-Passes plain no_sprintf with_break at_break

continues : cmd_continue plain no_sprintf 2 with_break ≡ some (ok at_break)
unfolding cmd_continue
continues = refl
