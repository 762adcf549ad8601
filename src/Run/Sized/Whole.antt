-- ===== src/Run/Sized/Whole.antt =====
-- A program from its text to the end of its run: `parse_program`, then `execute_program`.
use orta_vm.Prelude.{ℕ, ◌≡◌, Bool, Option, none, some, Str}
use mathlib.Core.Path.{subst}
use orta_vm.Result.{Result, ok, exit, undefined}
use orta_vm.Result.Ensures.{Ensures}
use orta_vm.Result.Fueled.{Fueled, ◌>>=◌, Settles}
use orta_vm.Program.{Program, program_init, find_label}
use orta_vm.Program.Growth.{program_init-HasRoom}
use orta_vm.Platform.{Platform}
use orta_vm.Vm.{OrtaVm, ortavm_create, with_program, with_ip}
use orta_vm.Exec.Sprintf.{Argument, exec_sprintf}
use orta_vm.Run.{execute_program, start, entry_name}
use orta_vm.Run.Loop.{run_loop-Reach}
use orta_vm.Run.Sized.{IsSized, with_program-IsSized, with_ip-IsSized}
use orta_vm.Run.Sized.Blocks.{LibrariesKeep}
use orta_vm.Run.Sized.Sprintf.{exec_sprintf-Keeps}
use orta_vm.Run.Sized.Steps.{Reach-IsSized, ortavm_create-IsSized}
use orta_vm.Asm.Parse.{parse_program}
use orta_vm.Asm.Parse.Programs.{IsAssembled}
use orta_vm.Asm.Parse.Valid.{parse_program-IsAssembled}

-- What a loop that settles answers.
answer : {A : Type 0} (P : A → Type 0) (m : Fueled A) (a : A) → Settles P m → m ≡ some (ok a) → P a
unfolding Settles Ensures
answer P m a s e = subst (Settles P) e s

-- The parser changes the program and nothing else.
same_machine :
    (vm u : OrtaVm) (b : Bool) (m : Fueled (Bool × Program))
    → IsSized vm
    → ◌>>=◌ {Next = Bool × OrtaVm} m (λ (parsed, p). some (ok (parsed, with_program vm p)))
      ≡ some (ok (b, u))
    → IsSized u
same_machine vm u b none v e = cc
same_machine vm u b (some undefined) v e = cc
same_machine vm u b (some (exit n)) v e = cc
same_machine vm u b (some (ok (parsed, p))) v e =
    let same : with_program vm p ≡ u = cc in subst IsSized same (with_program-IsSized vm p v)

parse_program-IsSized :
    (read_file : Str → Option Str) (vm u : OrtaVm) (filename : Str) (b : Bool)
    → IsSized vm
    → parse_program read_file vm filename ≡ some (ok (b, u))
    → IsSized u
unfolding parse_program
parse_program-IsSized read_file vm u filename b v e = same_machine vm u b _ v e

start-IsSized : (vm : OrtaVm) → IsSized vm → IsSized (start vm)
unfolding start
start-IsSized vm v =
    elim (find_label vm.program entry_name)
      as (λ o. IsSized (elim o [ none ↦ with_ip vm 0 | some a ↦ with_ip vm a ])) [
        | none ↦ with_ip-IsSized vm 0 v
        | some a ↦ with_ip-IsSized vm a v
      ]

ortavm_create-IsAssembled :
    (filename : Str) (stack_size : ℕ) (garbage : Bool)
    → IsAssembled (ortavm_create filename stack_size garbage).program
unfolding ortavm_create program_init
ortavm_create-IsAssembled filename stack_size garbage = record {
  room = program_init-HasRoom filename garbage;
  accepted = tt;
  lands = tt;
}

-- From the text to the end: a new machine whose program `parse_program` has read holds an assembled
-- program, and if its run ends well, the machine then has the registers of the table and both stacks
-- within their capacity, for libraries that keep these, and whatever `snprintf` writes.
pub execute_program-parse_program :
    (pf : Platform) (snprintf : Str → Argument → Result Str)
    → LibrariesKeep pf
    → (read_file : Str → Option Str) (filename : Str) (stack_size : ℕ) (garbage b : Bool)
      (vm u : OrtaVm) (fuel : ℕ)
    → parse_program read_file (ortavm_create filename stack_size garbage) filename
      ≡ some (ok (b, vm))
    → execute_program pf (exec_sprintf pf snprintf) fuel vm ≡ some (ok u)
    → IsAssembled vm.program × IsSized u
unfolding execute_program
execute_program-parse_program pf snprintf libraries read_file filename stack_size garbage b vm u
      fuel parsed run =
    let created = ortavm_create filename stack_size garbage in
    let sized : IsSized vm =
      parse_program-IsSized read_file created vm filename b
        (ortavm_create-IsSized filename stack_size garbage) parsed in
    let reached = (run_loop-Reach pf (exec_sprintf pf snprintf) fuel (start vm) u run).0 in
    (
      answer (λ r. IsAssembled (r.1).program) _ (b, vm)
          (parse_program-IsAssembled read_file created filename
            (ortavm_create-IsAssembled filename stack_size garbage))
          parsed,
      Reach-IsSized pf (exec_sprintf pf snprintf) libraries (exec_sprintf-Keeps pf snprintf)
          (start vm) u (start-IsSized vm sized) reached,
    )
