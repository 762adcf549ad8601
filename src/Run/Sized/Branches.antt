-- ===== src/Run/Sized/Branches.antt =====
-- The shape of a machine in the handlers of comparisons, jumps and texts.
use orta_vm.Prelude.{ℕ, refl, Option, none, some, List, [], ◌∷◌, Str, Option-cases, inl, inr}
use orta_vm.Result.{ok}
use orta_vm.Word.{
  Word, WordType, wint, wfloat, wcharp, w_char, wpointer, wbool, unknown, string_word, as_int,
  as_float, as_char,
}
use orta_vm.Floats.{Floats}
use orta_vm.Platform.{Platform}
use orta_vm.Program.{InstructionData, Variable}
use orta_vm.Stack.{xstack_peek}
use orta_vm.Stack.Laws.{xstack_pop-IsBounded}
use orta_vm.Heap.{strdup, load_string}
use orta_vm.Int32.{add32, sub32}
use orta_vm.Vm.{OrtaVm, print_line, with_heap, with_scope, push_word}
use orta_vm.Exec.Compare.{exec_cmp}
use orta_vm.Exec.Jump.{exec_jmp, jump_to, exec_jmpif, exec_ret}
use orta_vm.Exec.Text.{print_int, exec_print, print_popped, exec_merge, exec_here, exec_ovm}
use orta_vm.Exec.StackOps.{exec_dup, dup_word, exec_swap, exec_drop, exec_cast, exec_sizeof}
use orta_vm.Exec.Scope.{
  exec_var, exec_setvar, exec_getvar, exec_setglobalvar, exec_getglobalvar, exec_togglelocalscope,
  step_operand, step_variable, step_register, exec_inc, exec_dec,
}
use orta_vm.Exec.{exec_eval, exec_halt}
use orta_vm.Result.Ensures.{Ensures, any-Ensures}
use orta_vm.Run.Sized.{
  IsSized, Keeps, keeps, push_word-IsSized, with_heap-IsSized, with_register-IsSized,
  same_parts-IsSized,
}

pub with_scope-IsSized :
    (vm : OrtaVm) (vars : List Variable) → IsSized vm → IsSized (with_scope vm vars)
with_scope-IsSized vm vars v = elim (Option-cases vm.local_scope) [
  | inl e ↦ rw e (same_parts-IsSized vm _ refl refl refl v)
  | inr (l, e) ↦ rw e (same_parts-IsSized vm _ refl refl refl v)
]

print_line-IsSized : (vm : OrtaVm) (s : Str) → IsSized vm → IsSized (print_line vm s)
print_line-IsSized vm s v = same_parts-IsSized vm (print_line vm s) refl refl refl v

module _ (fl : Floats) (vm : OrtaVm) (v : IsSized vm) where
  jump_to-Keeps : (s : Str) → Keeps (jump_to fl vm s)
  unfolding jump_to
  jump_to-Keeps s = search keeps depth 10

  pub exec_jmp-Keeps : (i : InstructionData) → Keeps (exec_jmp fl vm i)
  unfolding exec_jmp
  exec_jmp-Keeps i = search (keeps, jump_to-Keeps) depth 10

pub exec_jmpif-Keeps :
    (fl : Floats) (vm : OrtaVm) → IsSized vm → (i : InstructionData) → Keeps (exec_jmpif fl vm i)
unfolding exec_jmpif
exec_jmpif-Keeps fl vm v i = search (keeps, jump_to-Keeps) depth 12

module _ (pf : Platform) (vm : OrtaVm) (v : IsSized vm) where
  pub exec_cmp-Keeps : (i : InstructionData) → Keeps (exec_cmp pf vm i)
  unfolding exec_cmp
  exec_cmp-Keeps i = search keeps depth 14

  pub exec_ovm-Keeps : (i : InstructionData) → Keeps (exec_ovm pf vm i)
  unfolding exec_ovm
  exec_ovm-Keeps i = search keeps depth 16

  pub exec_ret-Keeps : Keeps (exec_ret vm)
  unfolding exec_ret Ensures
  exec_ret-Keeps = record {
    registers_there = v.registers_there;
    stack_fits = v.stack_fits;
    calls_fit = xstack_pop-IsBounded vm.xpu.call_stack v.calls_fit;
  }

  pub exec_merge-Keeps : (i : InstructionData) → Keeps (exec_merge vm i)
  unfolding exec_merge
  exec_merge-Keeps i = search keeps depth 16

  pub exec_here-Keeps : (i : InstructionData) → Keeps (exec_here vm i)
  unfolding exec_here
  exec_here-Keeps i = search keeps depth 10

  pub exec_swap-Keeps : Keeps (exec_swap vm)
  unfolding exec_swap
  exec_swap-Keeps = search keeps

  pub exec_drop-Keeps : Keeps (exec_drop vm)
  unfolding exec_drop
  exec_drop-Keeps = search keeps

  pub exec_cast-Keeps : (i : InstructionData) → Keeps (exec_cast vm i)
  unfolding exec_cast
  exec_cast-Keeps i = search keeps depth 10

  pub exec_sizeof-Keeps : (i : InstructionData) → Keeps (exec_sizeof vm i)
  unfolding exec_sizeof
  exec_sizeof-Keeps i = search keeps depth 10

  pub exec_eval-Keeps : (i : InstructionData) → Keeps (exec_eval vm i)
  unfolding exec_eval
  exec_eval-Keeps i = search keeps depth 10

  pub exec_halt-Keeps : (i : InstructionData) → Keeps (exec_halt vm i)
  unfolding exec_halt
  exec_halt-Keeps i = search keeps depth 10

  dup_word-Keeps : (t : WordType) (w : Word) → Keeps (dup_word t w vm)
  unfolding dup_word Ensures
  dup_word-Keeps wint w = push_word-IsSized vm _ v
  dup_word-Keeps wfloat w = push_word-IsSized vm _ v
  dup_word-Keeps wcharp w =
      any-Ensures IsSized (strdup w.bits vm.heap)
        (λ r. ok (push_word (with_heap vm (r.1)) (string_word (r.0))))
        λ r.
          push_word-IsSized (with_heap vm (r.1)) (string_word (r.0)) (with_heap-IsSized vm (r.1) v)
  dup_word-Keeps wpointer w = push_word-IsSized vm _ v
  dup_word-Keeps w_char w = v
  dup_word-Keeps wbool w = v
  dup_word-Keeps unknown w = v

  pub exec_dup-Keeps : Keeps (exec_dup vm)
  unfolding exec_dup
  exec_dup-Keeps = dup_word-Keeps (xstack_peek vm.xpu.stack 0).type (xstack_peek vm.xpu.stack 0)

  pub exec_var-Keeps : (i : InstructionData) → Keeps (exec_var vm i)
  unfolding exec_var
  exec_var-Keeps i = search (keeps, with_scope-IsSized) depth 10

  pub exec_setvar-Keeps : (i : InstructionData) → Keeps (exec_setvar vm i)
  unfolding exec_setvar
  exec_setvar-Keeps i = search (keeps, with_scope-IsSized) depth 14

  pub exec_setglobalvar-Keeps : (i : InstructionData) → Keeps (exec_setglobalvar vm i)
  unfolding exec_setglobalvar
  exec_setglobalvar-Keeps i = search keeps depth 14

  pub exec_getvar-Keeps : (i : InstructionData) → Keeps (exec_getvar vm i)
  unfolding exec_getvar
  exec_getvar-Keeps i = search keeps depth 14

  pub exec_getglobalvar-Keeps : (i : InstructionData) → Keeps (exec_getglobalvar vm i)
  unfolding exec_getglobalvar
  exec_getglobalvar-Keeps i = search keeps depth 14

  pub exec_togglelocalscope-Keeps : Keeps (exec_togglelocalscope vm)
  unfolding exec_togglelocalscope Ensures
  exec_togglelocalscope-Keeps = same_parts-IsSized vm _ refl refl refl v

  step_register-IsSized : (f : ℕ → ℕ) (o : Option ℕ) → IsSized (step_register f o vm)
  unfolding step_register
  step_register-IsSized f none = v
  step_register-IsSized f (some r) = with_register-IsSized vm r _ v

  step_variable-Keeps : (f : ℕ → ℕ) (s : Str) → Keeps (step_variable f s vm)
  unfolding step_variable
  step_variable-Keeps f s = search (keeps, with_scope-IsSized) depth 14

  step_operand-Keeps : (f : ℕ → ℕ) (i : InstructionData) → Keeps (step_operand f vm i)
  unfolding step_operand
  step_operand-Keeps f i = search (keeps, step_register-IsSized, step_variable-Keeps) depth 10

  pub exec_inc-Keeps : (i : InstructionData) → Keeps (exec_inc vm i)
  unfolding exec_inc
  exec_inc-Keeps i = step_operand-Keeps (λ n. add32 n 1) i

  pub exec_dec-Keeps : (i : InstructionData) → Keeps (exec_dec vm i)
  unfolding exec_dec
  exec_dec-Keeps i = step_operand-Keeps (λ n. sub32 n 1) i

  print_popped-Keeps : (t : WordType) (w : Word) → Keeps (print_popped pf t w vm)
  unfolding print_popped Ensures
  print_popped-Keeps wint w = print_line-IsSized vm (print_int (as_int w)) v
  print_popped-Keeps wfloat w = print_line-IsSized vm (pf.floats.show (as_float w)) v
  print_popped-Keeps wcharp w =
      any-Ensures IsSized (load_string w.bits vm.heap) (λ s. ok (print_line vm s))
        λ s. print_line-IsSized vm s v
  print_popped-Keeps w_char w = print_line-IsSized vm (as_char w ∷ []) v
  print_popped-Keeps wpointer w = print_line-IsSized vm (pf.show_pointer w.bits) v
  print_popped-Keeps wbool w = v
  print_popped-Keeps unknown w = v

pub exec_print-Keeps :
    (pf : Platform) (vm : OrtaVm) → IsSized vm → (i : InstructionData) → Keeps (exec_print pf vm i)
unfolding exec_print
exec_print-Keeps pf vm v i = search (keeps, print_popped-Keeps, print_line-IsSized) depth 12
