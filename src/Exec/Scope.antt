-- ===== src/Exec/Scope.antt =====
-- The handlers of variables and scopes: `var`, `setvar`, `getvar`, the same on the globals,
-- `togglelocalscope`, `inc` and `dec`.
use orta_vm.Prelude.{
  ℕ, Bool, false, Option, none, some, [], ◌∷◌, ◌++◌, Str, length, ◌==◌, if◌then◌else◌,
}
use orta_vm.Result.{Result, ok, ◌>>=◌}
use orta_vm.Int32.{add32, sub32}
use orta_vm.Register.{register_name_to_enum}
use orta_vm.Word.{Word, wint, is_type, is_null, int_word, as_int}
use orta_vm.Stack.{count}
use orta_vm.Program.{InstructionData}
use orta_vm.Variables.{is_variable, getvar, setvar, fresh_variable}
use orta_vm.Vm.{
  OrtaVm, operand, register, with_register, with_heap, push_word, pop_word, scope, with_scope,
  with_globals,
}

-- Without an operand a message is printed and nothing changes.
abbrev pub named : OrtaVm → InstructionData → (Str → Result OrtaVm) → Result OrtaVm
named vm instr f = if length instr.operands == 0 then ok vm else (operand instr 0 >>= f)

unfoldable pub exec_var : OrtaVm → InstructionData → Result OrtaVm
exec_var vm instr =
    named vm instr λ name. ok (with_scope vm (scope vm ++ (fresh_variable name ∷ [])))

-- An empty stack is reported, and nothing changes.
unfoldable pub exec_setvar : OrtaVm → InstructionData → Result OrtaVm
exec_setvar vm instr = named vm instr λ name.
    if count vm.xpu.stack == 0
    then ok vm
    else (let (w, vm₁) = pop_word vm in
        setvar name (scope vm₁) w vm₁.heap >>= λ r. ok (with_heap (with_scope vm₁ (r.0)) (r.1)))

unfoldable pub exec_setglobalvar : OrtaVm → InstructionData → Result OrtaVm
exec_setglobalvar vm instr = named vm instr λ name.
    if count vm.xpu.stack == 0
    then ok vm
    else (let (w, vm₁) = pop_word vm in
        setvar name vm₁.program.variables w vm₁.heap >>= λ r.
        ok (with_heap (with_globals vm₁ (r.0)) (r.1)))

-- A variable that holds the null pointer counts as one that is not there.
unfoldable pub exec_getvar : OrtaVm → InstructionData → Result OrtaVm
exec_getvar vm instr = named vm instr λ name. getvar name (scope vm) vm.heap >>= λ r.
    if is_null (r.0) then ok vm else ok (push_word (with_heap vm (r.1)) (r.0))

unfoldable pub exec_getglobalvar : OrtaVm → InstructionData → Result OrtaVm
exec_getglobalvar vm instr = named vm instr λ name.
    getvar name vm.program.variables vm.heap >>= λ r.
    if is_null (r.0) then ok vm else ok (push_word (with_heap vm (r.1)) (r.0))

-- `status` is 1 and is never changed: every toggle begins a new local scope.
unfoldable pub exec_togglelocalscope : OrtaVm → Result OrtaVm
exec_togglelocalscope vm = ok (record vm { local_scope = some [] })

-- A variable is read, changed if it is an int, and assigned again.
abbrev step_word : (ℕ → ℕ) → Word → Word
step_word f w = if is_type wint w then int_word (f (as_int w)) else w

unfoldable pub step_variable : (ℕ → ℕ) → Str → OrtaVm → Result OrtaVm
step_variable f name vm =
    if is_variable name (scope vm)
    then (do
      (w, h) ← getvar name (scope vm) vm.heap
      (if is_null w
          then ok vm
          else (setvar name (scope vm) (step_word f w) h >>= λ r.
              ok (with_heap (with_scope vm (r.0)) (r.1)))))
    else ok vm

abbrev holds_int : OrtaVm → Option ℕ → Bool
holds_int vm none = false
holds_int vm (some r) = is_type wint (register vm r)

unfoldable pub step_register : (ℕ → ℕ) → Option ℕ → OrtaVm → OrtaVm
step_register f none vm = vm
step_register f (some r) vm = with_register vm r (int_word (f (as_int (register vm r))))

-- A register that holds an int is stepped in place; any other name is tried as a variable.
unfoldable pub step_operand : (ℕ → ℕ) → OrtaVm → InstructionData → Result OrtaVm
unfolding step_register step_variable
step_operand f vm instr = do
  s ← operand instr 0
  (if holds_int vm (register_name_to_enum s)
      then ok (step_register f (register_name_to_enum s) vm)
      else step_variable f s vm)

unfoldable pub exec_inc : OrtaVm → InstructionData → Result OrtaVm
unfolding step_operand
exec_inc vm instr = step_operand (λ n. add32 n 1) vm instr

unfoldable pub exec_dec : OrtaVm → InstructionData → Result OrtaVm
unfolding step_operand
exec_dec vm instr = step_operand (λ n. sub32 n 1) vm instr
