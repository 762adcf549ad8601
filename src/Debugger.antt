-- ===== src/Debugger.antt =====
-- The debugger of src/xd.c: its breakpoints and the commands that change its state. The commands that only
-- print are passed over. The loop of `continue` takes fuel; `none` is that it ran out.
pub mod Continue
use orta_vm.Prelude.{
  ℕ, zero, suc, ◌+◌, ◌||◌, not, Bool, true, false, Option, none, some, List, [], ◌∷◌, ◌++◌, Str,
  codes, length, take, drop, get_elem?, ltb, leb, ◌==◌, str_eq, if◌then◌else◌,
}
use orta_vm.Result.{Result, ok, exit, undefined}
use orta_vm.Result.Fueled.{Fueled, ◌>>=◌}
use orta_vm.Number.{atoi}
use orta_vm.Int32.{is_negative}
use orta_vm.Program.{InstructionData}
use orta_vm.Platform.{Platform}
use orta_vm.Vm.{OrtaVm}
use orta_vm.Exec.{execute_instruction}

pub record Debugger : Type 0 where
  pub vm : OrtaVm
  pub breakpoints : List ℕ
  pub running : Bool

abbrev pub max_breakpoints : ℕ
max_breakpoints = 64

unfoldable pub add_breakpoint : Debugger → ℕ → Debugger
add_breakpoint d address =
    if leb max_breakpoints (length d.breakpoints)
    then d
    else record d { breakpoints = d.breakpoints ++ (address ∷ []) }

unfoldable pub is_breakpoint : List ℕ → ℕ → Bool
is_breakpoint [] ip = false
is_breakpoint (b ∷ bs) ip = b == ip || is_breakpoint bs ip

-- `index` is an `int`.
unfoldable pub delete_breakpoint : Debugger → ℕ → Debugger
delete_breakpoint d index =
    if is_negative index || leb (length d.breakpoints) index
    then d
    else record d { breakpoints = take index d.breakpoints ++ drop (index + 1) d.breakpoints }

-- The instruction at the pointer.
abbrev pub current : OrtaVm → Option InstructionData
current vm = get_elem? vm.program.instructions vm.xpu.ip

abbrev pub stopped : Debugger → Debugger
stopped d = record d { running = false }

abbrev pub with_vm : Debugger → OrtaVm → Debugger
with_vm d vm = record d { vm = vm }

-- Behind the program the debugger stops.
abbrev pub unless_finished : Debugger → Debugger
unless_finished d = elim (current d.vm) [ none ↦ stopped d | some i ↦ d ]

-- The words between blanks, as `strtok` cuts them; `word` is what was read of the one in progress.
abbrev pub put_word : Str → List Str → List Str
put_word [] words = words
put_word (c ∷ s) words = (c ∷ s) ∷ words

unfoldable pub split_args : Str → Str → List Str
split_args word [] = put_word word []
split_args word (c ∷ s) =
    if c == 32 then put_word word (split_args [] s) else split_args (word ++ (c ∷ [])) s

abbrev pub is_command : Str → Str → Str → Bool
is_command long short s = str_eq s long || str_eq s short

module _ (pf : Platform) (exec_sprintf : OrtaVm → InstructionData → Result OrtaVm) where
  abbrev pub step_at : Debugger → Option InstructionData → Result Debugger
  step_at d none = ok (stopped d)
  step_at d (some i) =
      orta_vm.Result.◌>>=◌ (execute_instruction pf exec_sprintf d.vm i)
        (λ vm. ok (unless_finished (with_vm d vm)))

  unfoldable pub cmd_step : Debugger → Result Debugger
  unfolding execute_instruction
  cmd_step d = step_at d (current d.vm)

  abbrev pub continue_at :
      (Debugger → Fueled Debugger) → Debugger → Option InstructionData → Fueled Debugger
  continue_at again d none = some (ok (stopped d))
  continue_at again d (some i) =
      some (execute_instruction pf exec_sprintf d.vm i) >>= λ vm. again (with_vm d vm)

  unfoldable pub cmd_continue : ℕ → Debugger → Fueled Debugger
  unfolding execute_instruction is_breakpoint
  cmd_continue zero d = none
  cmd_continue (suc n) d =
      if not d.running || is_breakpoint d.breakpoints d.vm.xpu.ip
      then some (ok d)
      else continue_at (cmd_continue n) d (current d.vm)

  -- `cmd_break` and `cmd_delete` without an argument print how they are used.
  abbrev pub with_argument : (Str → Debugger) → Debugger → List Str → Debugger
  with_argument use_argument d [] = d
  with_argument use_argument d (s ∷ words) = use_argument s

  abbrev pub run_command : ℕ → Debugger → List Str → Fueled Debugger
  run_command fuel d [] = some (ok d)
  run_command fuel d (name ∷ words) =
      if is_command (codes "break") (codes "b") name
      then some (ok (with_argument (λ s. add_breakpoint d (pf.strtoull s)) d words))
      else if is_command (codes "delete") (codes "d") name
      then some (ok (with_argument (λ s. delete_breakpoint d (atoi s)) d words))
      else if is_command (codes "step") (codes "s") name
      then some (cmd_step d)
      else if is_command (codes "continue") (codes "c") name
      then cmd_continue fuel d
      else if is_command (codes "quit") (codes "q") name
      then some (ok (stopped d))
      else some (ok d)

  unfoldable pub handle_command : ℕ → Debugger → Str → Fueled Debugger
  unfolding split_args add_breakpoint delete_breakpoint cmd_step cmd_continue
  handle_command fuel d input = run_command fuel d (split_args [] input)
