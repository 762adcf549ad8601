-- ===== src/Debugger/Continue.antt =====
-- What `continue` does.
use orta_vm.Prelude.{
  ℕ, zero, suc, ◌||◌, not, ◌≡◌, ◌↔◌, ap, ◌∙◌, refl, Bool, true, false, Option, none, some,
  if◌then◌else◌,
}
use mathlib.Core.Path.{subst}
use orta_vm.Result.{Result, ok, exit, undefined}
use orta_vm.Result.Fueled.{Fueled, ◌>>=◌}
use orta_vm.Program.{InstructionData}
use orta_vm.Platform.{Platform}
use orta_vm.Vm.{OrtaVm}
use orta_vm.Exec.{execute_instruction}
use orta_vm.Debugger.{Debugger, is_breakpoint, current, stopped, with_vm, continue_at, cmd_continue}

-- Whether `continue` stays where it is.
abbrev pub holds_still : Debugger → Bool
holds_still d = not d.running || is_breakpoint d.breakpoints d.vm.xpu.ip

module _ (pf : Platform) (exec_sprintf : OrtaVm → InstructionData → Result OrtaVm) where
  -- What `continue` promises: it passes instructions one after the other, none of them at a breakpoint, up to
  -- a breakpoint or the end of the program, where the debugger stops.
  pub data Passes : Debugger → Debugger → Type 0 where
    stays : (d : Debugger) → holds_still d ≡ true → Passes d d
    ends : (d : Debugger) → holds_still d ≡ false → current d.vm ≡ none → Passes d (stopped d)
    passes :
        (d e : Debugger) (i : InstructionData) (vm : OrtaVm)
        → holds_still d ≡ false
        → current d.vm ≡ some i
        → execute_instruction pf exec_sprintf d.vm i ≡ ok vm
        → Passes (with_vm d vm) e
        → Passes d e

  by_result :
      (again : Debugger → Fueled Debugger) (d e : Debugger) (i : InstructionData)
      (r : Result OrtaVm)
      → ((d' : Debugger) → again d' ≡ some (ok e) → Passes d' e)
      → holds_still d ≡ false
      → current d.vm ≡ some i
      → execute_instruction pf exec_sprintf d.vm i ≡ r
      → (some r >>= λ vm. again (with_vm d vm)) ≡ some (ok e)
      → Passes d e
  by_result again d e i (ok vm) ih h c x y = passes d e i vm h c x (ih (with_vm d vm) y)
  by_result again d e i (exit n) ih h c x y = cc
  by_result again d e i undefined ih h c x y = cc

  by_instruction :
      (again : Debugger → Fueled Debugger) (d e : Debugger) (o : Option InstructionData)
      → ((d' : Debugger) → again d' ≡ some (ok e) → Passes d' e)
      → holds_still d ≡ false
      → current d.vm ≡ o
      → continue_at pf exec_sprintf again d o ≡ some (ok e)
      → Passes d e
  by_instruction again d e none ih h c y =
      let same : stopped d ≡ e = cc in subst (Passes d) same (ends d h c)
  by_instruction again d e (some i) ih h c y =
      by_result again d e i (execute_instruction pf exec_sprintf d.vm i) ih h c refl y

  by_test :
      (again : Debugger → Fueled Debugger) (d e : Debugger) (b : Bool)
      → ((d' : Debugger) → again d' ≡ some (ok e) → Passes d' e)
      → holds_still d ≡ b
      → (if b then some (ok d) else continue_at pf exec_sprintf again d (current d.vm))
        ≡ some (ok e)
      → Passes d e
  by_test again d e true ih h y = let same : d ≡ e = cc in subst (Passes d) same (stays d h)
  by_test again d e false ih h y = by_instruction again d e (current d.vm) ih h refl y

  kept : (n : ℕ) (d e : Debugger) → cmd_continue pf exec_sprintf n d ≡ some (ok e) → Passes d e
  unfolding cmd_continue
  kept zero d e y = cc
  kept (suc n) d e y =
      by_test (cmd_continue pf exec_sprintf n) d e (holds_still d) (λ d'. kept n d' e) refl y

  first_round :
      (d : Debugger)
      → holds_still d ≡ true
      → (n : ℕ) → cmd_continue pf exec_sprintf (suc n) d ≡ some (ok d)
  unfolding cmd_continue
  first_round d h n =
      ap
        (λ b.
          if◌then◌else◌ {A = Fueled Debugger} b (some (ok d))
            (continue_at pf exec_sprintf (cmd_continue pf exec_sprintf n) d (current d.vm)))
        h

  other_round :
      (d : Debugger)
      → holds_still d ≡ false
      → (n : ℕ)
      → cmd_continue pf exec_sprintf (suc n) d
        ≡ continue_at pf exec_sprintf (cmd_continue pf exec_sprintf n) d (current d.vm)
  unfolding cmd_continue
  other_round d h n =
      ap
        (λ b.
          if◌then◌else◌ {A = Fueled Debugger} b (some (ok d))
            (continue_at pf exec_sprintf (cmd_continue pf exec_sprintf n) d (current d.vm)))
        h

  -- One round more than there are instructions to pass.
  enough :
      (d e : Debugger) → Passes d e → (n : ℕ) × (cmd_continue pf exec_sprintf n d ≡ some (ok e))
  enough _ _ (stays d h) = (1, first_round d h 0)
  enough _ _ (ends d h c) =
      (1, other_round d h 0 ∙ ap (continue_at pf exec_sprintf (cmd_continue pf exec_sprintf 0) d) c)
  enough _ _ (passes d e i vm h c x p) =
      let (n, y) = enough (with_vm d vm) e p in
      (
        suc n,
        other_round d h n
            ∙ ap (continue_at pf exec_sprintf (cmd_continue pf exec_sprintf n) d) c
            ∙ ap (λ r. some r >>= λ v. cmd_continue pf exec_sprintf n (with_vm d v)) x
            ∙ y,
      )

  -- `continue` ends well, given enough fuel, exactly if instructions that end well, none of them at a
  -- breakpoint, lead to a breakpoint or to the end of the program; and it ends there.
  pub cmd_continue-Passes :
      (d e : Debugger) → ((n : ℕ) × (cmd_continue pf exec_sprintf n d ≡ some (ok e))) ↔ Passes d e
  cmd_continue-Passes d e = ((λ (n, y). kept n d e y), enough d e)
