-- ===== src/Run/Sized/Words.antt =====
-- The handlers of the order of the stack, and variables.
use orta_vm.Prelude.{
  ℕ, zero, suc, Bool, true, false, Option, none, some, List, [], ◌∷◌, Str, length, if◌then◌else◌,
  get_elem?, set, ltb, leb, ◌==◌, ◌||◌,
}
use orta_vm.Result.{ok, eerror, ◌>>=◌}
use orta_vm.Word.{Word, int_word, is_null}
use orta_vm.Platform.{Platform}
use orta_vm.Program.{InstructionData, instructions_count, find_label}
use orta_vm.Stack.{XStack, count, xstack_pop}
use orta_vm.Stack.Laws.{IsBounded, xstack_push-IsBounded, xstack_pop-IsBounded}
use orta_vm.Register.{is_register, register_name_to_enum}
use orta_vm.Number.{atoi, is_number}
use orta_vm.Operand.{is_float, is_string, is_pointer, is_label_reference}
use orta_vm.Variables.{copy_word, getvar, is_variable}
use orta_vm.Int32.{is_negative}
use orta_vm.Vm.{
  OrtaVm, operand, with_stack, scope, with_heap, with_program, with_ip, before_ip, push_word,
  register,
}
use orta_vm.Exec.Jump.{
  exec_call, parse_operand, push_arguments, cut_operand, cut_in, copy_register, call_target,
  push_return,
}
use orta_vm.Exec.StackOps.{
  exec_rotl, exec_rotr, rotate, first_to_end, last_to_front, pop_many, push_many,
}
use orta_vm.Result.Ensures.{Ensures, if-Ensures, >>=-Ensures, any-Ensures}
use orta_vm.Run.Sized.{
  IsSized, Keeps, keeps, push_word-IsSized, with_heap-IsSized, with_program-IsSized,
}

pub pop_many-IsBounded : (n : ℕ) (s : XStack) → IsBounded s → IsBounded (pop_many n s).1
unfolding pop_many
pop_many-IsBounded zero s b = b
pop_many-IsBounded (suc n) s b = pop_many-IsBounded n (xstack_pop s).1 (xstack_pop-IsBounded s b)

push_many-IsBounded : (ws : List Word) (s : XStack) → IsBounded s → IsBounded (push_many ws s)
unfolding push_many
push_many-IsBounded [] s b = b
push_many-IsBounded (w ∷ ws) s b =
    xstack_push-IsBounded (push_many ws s) w (push_many-IsBounded ws s b)

if-IsBounded :
    (b : Bool) (s t : XStack) → IsBounded s → IsBounded t → IsBounded (if b then s else t)
if-IsBounded true s t x y = x
if-IsBounded false s t x y = y

rotate-IsBounded :
    (turn : List Word → List Word) (n : ℕ) (s : XStack) → IsBounded s → IsBounded (rotate turn n s)
unfolding rotate
rotate-IsBounded turn n s b =
    if-IsBounded (is_negative n || (n == 0 || leb (count s) n)) s
      (push_many (turn (pop_many n s).0) (pop_many n s).1) b
      (push_many-IsBounded (turn (pop_many n s).0) (pop_many n s).1 (pop_many-IsBounded n s b))

pub with_stack-IsSized :
    (vm : OrtaVm) (s : XStack) → IsBounded s → IsSized vm → IsSized (with_stack vm s)
with_stack-IsSized vm s b v = record {
  registers_there = v.registers_there;
  stack_fits = b;
  calls_fit = v.calls_fit;
}

module _ (vm : OrtaVm) (v : IsSized vm) (i : InstructionData) where
  pub exec_rotl-Keeps : Keeps (exec_rotl vm i)
  unfolding exec_rotl Ensures
  exec_rotl-Keeps = any-Ensures IsSized (operand i 0) _ λ s.
      with_stack-IsSized vm _ (rotate-IsBounded first_to_end (atoi s) vm.xpu.stack v.stack_fits) v

  pub exec_rotr-Keeps : Keeps (exec_rotr vm i)
  unfolding exec_rotr Ensures
  exec_rotr-Keeps = any-Ensures IsSized (operand i 0) _ λ s.
      with_stack-IsSized vm _ (rotate-IsBounded last_to_front (atoi s) vm.xpu.stack v.stack_fits) v

pub cut_operand-IsSized : (vm : OrtaVm) (at k : ℕ) → IsSized vm → IsSized (cut_operand vm at k)
unfolding cut_operand
cut_operand-IsSized vm at k v = by_cases (get_elem? vm.program.instructions at)
  where
    by_cases :
        (o : Option InstructionData)
        → IsSized (elim o [
          | none ↦ vm
          | some instr ↦ with_program vm (record (vm.program) {
            instructions = set vm.program.instructions at (cut_in instr k);
          })
        ])
    by_cases none = v
    by_cases (some instr) = with_program-IsSized vm _ v

module _ (pf : Platform) where
  -- What a pair of a word and a machine has to keep.
  abbrev Second : Word × OrtaVm → Type 0
  Second r = IsSized (r.1)

  register_operand-Ensures :
      (vm : OrtaVm) (o : Option ℕ)
      → IsSized vm
      → Ensures Second (elim o [ none ↦ eerror | some r ↦ copy_register (register vm r) vm ])
  unfolding Ensures
  register_operand-Ensures vm none v = tt
  register_operand-Ensures vm (some r) v =
      if-Ensures Second (copied.bits == 0) (ok (copied, vm)) _ v (
        any-Ensures Second (copy_word copied.type copied vm.heap) _
          λ c. with_heap-IsSized vm (c.1) v)
    where
      copied : Word
      copied = register vm r

  label_operand-Ensures :
      (vm : OrtaVm) (o : Option ℕ)
      → IsSized vm
      → Ensures Second (elim o [ none ↦ eerror | some a ↦ ok (int_word a, vm) ])
  unfolding Ensures
  label_operand-Ensures vm none v = tt
  label_operand-Ensures vm (some a) v = v

  variable_operand-Ensures :
      (vm : OrtaVm) (s : Str)
      → IsSized vm
      → Ensures Second (
          getvar s (scope vm) vm.heap >>= λ r.
          if is_null (r.0) then eerror else ok (r.0, with_heap vm (r.1)))
  variable_operand-Ensures vm s v = search keeps depth 10

  parse_operand-Ensures :
      (at k : ℕ) (s : Str) (vm : OrtaVm) → IsSized vm → Ensures Second (parse_operand pf at k s vm)
  unfolding parse_operand Ensures
  parse_operand-Ensures at k s vm v =
      if-Ensures Second (is_register s) _ _
        (register_operand-Ensures vm (register_name_to_enum s) v)
        (if-Ensures Second (is_number s) _ _ v (
          if-Ensures Second (is_float pf.floats s) _ _ v (
            if-Ensures Second (is_string s) _ _ (with_heap-IsSized vm _ v) (
              if-Ensures Second (is_pointer s) _ _ (cut_operand-IsSized vm at k v) (
                if-Ensures Second (is_variable s (scope vm)) _ _ (variable_operand-Ensures vm s v) (
                  if-Ensures Second (is_label_reference pf.floats s) _ eerror
                    (label_operand-Ensures vm (find_label vm.program s) v) tt))))))

  push_arguments-Keeps :
      (n at : ℕ) (i : InstructionData) (vm : OrtaVm)
      → IsSized vm
      → Keeps (push_arguments pf n at i vm)
  unfolding push_arguments Ensures
  push_arguments-Keeps zero at i vm v = v
  push_arguments-Keeps (suc zero) at i vm v = v
  push_arguments-Keeps (suc (suc k)) at i vm v = any-Ensures IsSized (operand i (suc k)) _ λ s.
      >>=-Ensures IsSized Second (parse_operand pf at (suc k) s vm) _
        (parse_operand-Ensures at (suc k) s vm v)
        λ r u. if-Ensures IsSized (is_null (r.0)) eerror _ tt (
          push_arguments-Keeps (suc k) at i (push_word (r.1) (r.0))
            (push_word-IsSized (r.1) (r.0) u))

  called-IsSized : (vm : OrtaVm) (ip : ℕ) → IsSized vm → IsSized (with_ip (push_return pf vm) ip)
  called-IsSized vm ip v = record {
    registers_there = v.registers_there;
    stack_fits = v.stack_fits;
    calls_fit = xstack_push-IsBounded vm.xpu.call_stack (int_word vm.xpu.ip) v.calls_fit;
  }

  pub exec_call-Keeps :
      (vm : OrtaVm) → IsSized vm → (i : InstructionData) → Keeps (exec_call pf vm i)
  unfolding exec_call Ensures
  exec_call-Keeps vm v i = any-Ensures IsSized (operand i 0) _ λ s.
      any-Ensures IsSized (call_target pf vm.program s) _ λ t.
        if-Ensures IsSized (ltb t (instructions_count vm.program)) _ eerror
          (push_arguments-Keeps (length i.operands) vm.xpu.ip i
            (with_ip (push_return pf vm) (before_ip t)) (called-IsSized vm (before_ip t) v))
          tt
