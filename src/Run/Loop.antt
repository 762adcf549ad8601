-- ===== src/Run/Loop.antt =====
-- The loop of `execute_program`: its steps, what ends it, and its fuel.
use orta_vm.Prelude.{
  ℕ, zero, suc, ◌+◌, ◌≤◌, ◌≡◌, ◌⊎◌, inl, inr, refl, sym, ◌∙◌, arith, true, Option, none, some, List,
  length, get_elem?, Bool-cases, [], ◌∷◌,
}
use Prim.Native.Nat.add
use mathlib.Core.Path.{subst}
use orta_vm.Result.{Result, ok, exit, undefined}
use orta_vm.Program.{InstructionData, instructions_count}
use orta_vm.Platform.{Platform}
use orta_vm.Vm.{OrtaVm}
use orta_vm.Exec.{execute_instruction}
use orta_vm.Run.{fetch, run_loop, rounds_after}

get_elem?-none {ℓ} : {A : Type ℓ} (xs : List A) (i : ℕ) → get_elem? xs i ≡ none → length xs ≤ i
get_elem?-none [] i e = omega arith
get_elem?-none (x ∷ xs) zero e = cc
get_elem?-none (x ∷ xs) (suc i) e = omega (arith, get_elem?-none xs i e)

-- The machine has nothing more to do: it is halted, or the pointer is behind the program.
abbrev pub IsDone : OrtaVm → Type 0
IsDone vm = (vm.program.halted ≡ true) ⊎ (instructions_count vm.program ≤ vm.xpu.ip)

fetch-none : (vm : OrtaVm) → fetch vm ≡ none → IsDone vm
unfolding fetch
fetch-none vm e = elim (Bool-cases vm.program.halted) [
  | inl h ↦ inl h
  | inr h ↦ inr (get_elem?-none vm.program.instructions vm.xpu.ip (rw h at e))
]

module _ (pf : Platform) (exec_sprintf : OrtaVm → InstructionData → Result OrtaVm) where
  -- One step, and any number of steps, each of an instruction that was fetched and ended well.
  pub data Reach (vm : OrtaVm) : OrtaVm → Type 0 where
    here : Reach vm vm
    next :
        {t u : OrtaVm}
        → Reach vm t
        → (i : InstructionData) → fetch t ≡ some i
        → execute_instruction pf exec_sprintf t i ≡ ok u
        → Reach vm u

  Reach-step :
      {vm t u : OrtaVm} (i : InstructionData)
      → fetch vm ≡ some i
      → execute_instruction pf exec_sprintf vm i ≡ ok t
      → Reach t u
      → Reach vm u
  Reach-step i f e here = next here i f e
  Reach-step i f e (next r j g d) = next (Reach-step i f e r) j g d

  -- A round, by what was fetched.
  abbrev after_fetch :
      (OrtaVm → Option (Result OrtaVm)) → OrtaVm → Option InstructionData → Option (Result OrtaVm)
  after_fetch again vm none = some (ok vm)
  after_fetch again vm (some i) = rounds_after again (execute_instruction pf exec_sprintf vm i)

  run_loop-suc :
      (fuel : ℕ) (vm : OrtaVm)
      → run_loop pf exec_sprintf (suc fuel) vm
        ≡ after_fetch (run_loop pf exec_sprintf fuel) vm (fetch vm)
  unfolding run_loop
  run_loop-suc fuel vm = by_cases (fetch vm)
    where
      by_cases :
          (o : Option InstructionData)
          → (elim o [
            | none ↦ some (ok vm)
            | some i ↦
                rounds_after
                  (run_loop pf exec_sprintf fuel)
                  (execute_instruction pf exec_sprintf vm i)
          ])
            ≡ after_fetch (run_loop pf exec_sprintf fuel) vm o
      by_cases none = refl
      by_cases (some i) = refl

  abbrev Ended : OrtaVm → OrtaVm → Type 0
  Ended vm end = Reach vm end × IsDone end

  Ended-by_result :
      (again : OrtaVm → Option (Result OrtaVm)) (vm end : OrtaVm)
      → ((t : OrtaVm) → again t ≡ some (ok end) → Ended t end)
      → (i : InstructionData) → fetch vm ≡ some i
      → (r : Result OrtaVm) → execute_instruction pf exec_sprintf vm i ≡ r
      → rounds_after again r ≡ some (ok end)
      → Ended vm end
  Ended-by_result again vm end ih i f (ok t) d e = let (r, w) = ih t e in (Reach-step i f d r, w)
  Ended-by_result again vm end ih i f (exit n) d e = cc
  Ended-by_result again vm end ih i f undefined d e = cc

  Ended-by_fetch :
      (again : OrtaVm → Option (Result OrtaVm)) (vm end : OrtaVm)
      → ((t : OrtaVm) → again t ≡ some (ok end) → Ended t end)
      → (o : Option InstructionData) → fetch vm ≡ o
      → after_fetch again vm o ≡ some (ok end)
      → Ended vm end
  Ended-by_fetch again vm end ih none f e =
      let same : vm ≡ end = cc in subst (Ended vm) same (here, fetch-none vm f)
  Ended-by_fetch again vm end ih (some i) f e =
      Ended-by_result again vm end ih i f (execute_instruction pf exec_sprintf vm i) refl e

  -- A run that ends well is a sequence of steps, each of an instruction that was fetched and ended well, to a
  -- machine that is halted or whose pointer is behind the program.
  pub run_loop-Reach :
      (fuel : ℕ) (vm end : OrtaVm) → run_loop pf exec_sprintf fuel vm ≡ some (ok end) → Ended vm end
  run_loop-Reach zero vm end e = unfold run_loop in cc
  run_loop-Reach (suc fuel) vm end e =
      Ended-by_fetch (run_loop pf exec_sprintf fuel) vm end (λ t. run_loop-Reach fuel t end)
        (fetch vm) refl (sym (run_loop-suc fuel vm) ∙ e)

  more_by_result :
      (again later : OrtaVm → Option (Result OrtaVm)) (end : Result OrtaVm)
      → ((t : OrtaVm) → again t ≡ some end → later t ≡ some end)
      → (r : Result OrtaVm) → rounds_after again r ≡ some end
      → rounds_after later r ≡ some end
  more_by_result again later end ih (ok t) e = ih t e
  more_by_result again later end ih (exit n) e = e
  more_by_result again later end ih undefined e = e

  more_by_fetch :
      (again later : OrtaVm → Option (Result OrtaVm)) (vm : OrtaVm) (end : Result OrtaVm)
      → ((t : OrtaVm) → again t ≡ some end → later t ≡ some end)
      → (o : Option InstructionData) → after_fetch again vm o ≡ some end
      → after_fetch later vm o ≡ some end
  more_by_fetch again later vm end ih none e = e
  more_by_fetch again later vm end ih (some i) e =
      more_by_result again later end ih (execute_instruction pf exec_sprintf vm i) e

  -- A run that has ended, in any way, ends in the same way with more fuel.
  pub run_loop-more :
      (fuel extra : ℕ) (vm : OrtaVm) (end : Result OrtaVm)
      → run_loop pf exec_sprintf fuel vm ≡ some end
      → run_loop pf exec_sprintf (fuel + extra) vm ≡ some end
  run_loop-more zero extra vm end e = unfold run_loop in cc
  run_loop-more (suc fuel) extra vm end e = rw add.suc (
      run_loop-suc (fuel + extra) vm
      ∙ more_by_fetch (run_loop pf exec_sprintf fuel) (run_loop pf exec_sprintf (fuel + extra)) vm
          end (λ t. run_loop-more fuel extra t end) (fetch vm) (sym (run_loop-suc fuel vm) ∙ e))
