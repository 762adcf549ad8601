-- ===== src/Run/Arguments.antt =====
-- A call keeps its return address while its arguments are pushed.
use orta_vm.Prelude.{
  ℕ, zero, suc, ◌≡◌, ◌==◌, Option, none, some, Str, get_elem?, set, if◌then◌else◌,
}
use orta_vm.Result.{ok, eerror, ◌>>=◌}
use orta_vm.Result.Ensures.{Ensures, if-Ensures, >>=-Ensures, any-Ensures}
use orta_vm.Platform.{Platform}
use orta_vm.Number.{is_number}
use orta_vm.Operand.{is_float, is_string, is_pointer, is_label_reference}
use orta_vm.Register.{is_register, register_name_to_enum}
use orta_vm.Word.{Word, is_null, int_word}
use orta_vm.Stack.{XStack}
use orta_vm.Program.{InstructionData, find_label}
use orta_vm.Variables.{is_variable, getvar, copy_word}
use orta_vm.Vm.{OrtaVm, operand, register, with_heap, with_program, push_word, scope}
use orta_vm.Exec.Jump.{parse_operand, push_arguments, cut_operand, cut_in, copy_register}

module _ (pf : Platform) (ip : ℕ) (calls : XStack) where
  -- A machine with this instruction pointer and this call stack.
  abbrev pub Framed : OrtaVm → Type 0
  Framed vm = (vm.xpu.ip ≡ ip) × (vm.xpu.call_stack ≡ calls)

  abbrev Second : Word × OrtaVm → Type 0
  Second r = Framed (r.1)

  register_operand-Framed :
      (vm : OrtaVm) (o : Option ℕ)
      → Framed vm
      → Ensures Second (elim o [ none ↦ eerror | some r ↦ copy_register (register vm r) vm ])
  unfolding Ensures
  register_operand-Framed vm none v = tt
  register_operand-Framed vm (some r) v =
      if-Ensures Second ((register vm r).bits == 0) (ok (register vm r, vm)) _ v
        (any-Ensures Second (copy_word (register vm r).type (register vm r) vm.heap) _ λ c. v)

  label_operand-Framed :
      (vm : OrtaVm) (o : Option ℕ)
      → Framed vm
      → Ensures Second (elim o [ none ↦ eerror | some a ↦ ok (int_word a, vm) ])
  unfolding Ensures
  label_operand-Framed vm none v = tt
  label_operand-Framed vm (some a) v = v

  variable_operand-Framed :
      (vm : OrtaVm) (s : Str)
      → Framed vm
      → Ensures Second (
          getvar s (scope vm) vm.heap >>= λ r.
          if is_null (r.0) then eerror else ok (r.0, with_heap vm (r.1)))
  unfolding Ensures
  variable_operand-Framed vm s v =
      any-Ensures Second (getvar s (scope vm) vm.heap) _
        λ r. if-Ensures Second (is_null (r.0)) eerror _ tt v

  cut_operand-Framed : (vm : OrtaVm) (at k : ℕ) → Framed vm → Framed (cut_operand vm at k)
  unfolding cut_operand
  cut_operand-Framed vm at k v = by_cases (get_elem? vm.program.instructions at)
    where
      by_cases :
          (o : Option InstructionData)
          → Framed (elim o [
            | none ↦ vm
            | some instr ↦ with_program vm (record (vm.program) {
              instructions = set vm.program.instructions at (cut_in instr k);
            })
          ])
      by_cases none = v
      by_cases (some instr) = v

  parse_operand-Framed :
      (at k : ℕ) (s : Str) (vm : OrtaVm) → Framed vm → Ensures Second (parse_operand pf at k s vm)
  unfolding parse_operand Ensures
  parse_operand-Framed at k s vm v =
      if-Ensures Second (is_register s) _ _ (register_operand-Framed vm (register_name_to_enum s) v)
        (if-Ensures Second (is_number s) _ _ v (
          if-Ensures Second (is_float pf.floats s) _ _ v (
            if-Ensures Second (is_string s) _ _ v (
              if-Ensures Second (is_pointer s) _ _ (cut_operand-Framed vm at k v) (
                if-Ensures Second (is_variable s (scope vm)) _ _ (variable_operand-Framed vm s v) (
                  if-Ensures Second (is_label_reference pf.floats s) _ eerror
                    (label_operand-Framed vm (find_label vm.program s) v) tt))))))

  pub push_arguments-Framed :
      (n at : ℕ) (i : InstructionData) (vm : OrtaVm)
      → Framed vm
      → Ensures Framed (push_arguments pf n at i vm)
  unfolding push_arguments Ensures
  push_arguments-Framed zero at i vm v = v
  push_arguments-Framed (suc zero) at i vm v = v
  push_arguments-Framed (suc (suc k)) at i vm v = any-Ensures Framed (operand i (suc k)) _ λ s.
      >>=-Ensures Framed Second (parse_operand pf at (suc k) s vm) _
        (parse_operand-Framed at (suc k) s vm v)
        λ r u.
          if-Ensures Framed (is_null (r.0)) eerror _ tt
            (push_arguments-Framed (suc k) at i (push_word (r.1) (r.0)) u)
