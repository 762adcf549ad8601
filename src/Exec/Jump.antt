-- ===== src/Exec/Jump.antt =====
-- The handlers that move the instruction pointer: `jmp`, `jmpif`, `call`, `ret`. They set it to the
-- cell before the target, since the switch is followed by `xpu->ip++`.
use orta_vm.Prelude.{
  ℕ, zero, suc, ◌&&◌, Option, none, some, [], ◌∷◌, Str, length, ltb, ◌==◌, if◌then◌else◌, get_elem?,
  set,
}
use orta_vm.Result.{Result, ok, eerror, ◌>>=◌}
use orta_vm.Number.{is_number, atoi}
use orta_vm.Operand.{is_float, is_string, is_pointer, is_label_reference, unquote}
use orta_vm.Register.{is_register, register_name_to_enum}
use orta_vm.Floats.{Floats}
use orta_vm.Word.{
  Word, wint, is_type, is_null, int_word, float_word, pointer_word, as_int, int_to_size,
}
use orta_vm.Stack.{xstack_pop, push}
use orta_vm.Program.{Program, InstructionData, instructions_count, find_label}
use orta_vm.Variables.{is_variable, getvar, copy_word}
use orta_vm.Platform.{Platform}
use orta_vm.Vm.{
  OrtaVm, operand, register, with_heap, with_ip, with_program, push_word, pop_word, before_ip,
  scope,
}
use orta_vm.Exec.Push.{literal}

abbrev or_zero : Option ℕ → ℕ
or_zero none = 0
or_zero (some a) = a

-- A number that overflows `int` is cut; a negative one becomes a large `size_t`.
abbrev number_target : Str → ℕ
number_target s = int_to_size (atoi s)

module _ (fl : Floats) where
  -- A label that is not there leaves the target at 0, and so does a text of another kind.
  unfoldable pub jump_target : Program → Str → ℕ
  jump_target p s =
      if is_number s
      then number_target s
      else if is_label_reference fl s
      then or_zero (find_label p s)
      else 0

  unfoldable pub jump_to : OrtaVm → Str → Result OrtaVm
  unfolding jump_target
  jump_to vm s =
      let target = jump_target vm.program s in
      if ltb target (instructions_count vm.program)
      then ok (with_ip vm (before_ip target))
      else eerror

  unfoldable pub exec_jmp : OrtaVm → InstructionData → Result OrtaVm
  unfolding jump_to
  exec_jmp vm instr = do s ← operand instr 0; jump_to vm s

  unfoldable pub exec_jmpif : OrtaVm → InstructionData → Result OrtaVm
  unfolding jump_to
  exec_jmpif vm instr =
      let (w1, vm') = pop_word vm in
      if is_type wint w1 && as_int w1 == 1 then (do s ← operand instr 0; jump_to vm' s) else ok vm'

-- `get_pointer` overwrites the last character of the operand itself, the closing bracket: operand
-- `k` of the instruction at `at` loses it.
unfoldable pub cut_last : Str → Str
cut_last [] = []
cut_last (c ∷ []) = []
cut_last (c ∷ d ∷ s) = c ∷ cut_last (d ∷ s)

abbrev pub cut_in : InstructionData → ℕ → InstructionData
cut_in instr k = elim (get_elem? instr.operands k) [
  | none ↦ instr
  | some s ↦ record instr { operands = set instr.operands k (cut_last s) }
]

unfoldable pub cut_operand : OrtaVm → ℕ → ℕ → OrtaVm
unfolding cut_last
cut_operand vm at k = elim (get_elem? vm.program.instructions at) [
  | none ↦ vm
  | some instr ↦
      with_program vm
        (record (vm.program) { instructions = set vm.program.instructions at (cut_in instr k) })
]

-- The string of a register is duplicated, unless it is NULL.
abbrev pub copy_register : Word → OrtaVm → Result (Word × OrtaVm)
copy_register w vm =
    if w.bits == 0
    then ok (w, vm)
    else (copy_word w.type w vm.heap >>= λ r. ok (r.0, with_heap vm (r.1)))

module _ (pf : Platform) where
  -- `parseOperand` on operand `k` of the instruction at `at`; it tries the kinds in this order.
  unfoldable pub parse_operand : ℕ → ℕ → Str → OrtaVm → Result (Word × OrtaVm)
  unfolding cut_operand
  parse_operand at k s vm =
      if is_register s
      then (elim (register_name_to_enum s) [
        | none ↦ eerror
        | some r ↦ copy_register (register vm r) vm
      ])
      else if is_number s
      then ok (int_word (atoi s), vm)
      else if is_float pf.floats s
      then ok (float_word (pf.floats.atof s), vm)
      else if is_string s
      then ok (literal s vm)
      else if is_pointer s
      then ok (pointer_word (pf.strtoull (unquote s)), cut_operand vm at k)
      else if is_variable s (scope vm)
      then (do
        (w, h) ← getvar s (scope vm) vm.heap
        if is_null w then eerror else ok (w, with_heap vm h))
      else if is_label_reference pf.floats s
      then (elim (find_label vm.program s) [ none ↦ eerror | some a ↦ ok (int_word a, vm) ])
      else eerror

  -- The loop of `call` over its operands, from the last down to the second. With `i` rounds to go it
  -- takes operand `i - 1`; the first operand is the target and is passed over.
  unfoldable pub push_arguments : ℕ → ℕ → InstructionData → OrtaVm → Result OrtaVm
  unfolding parse_operand
  push_arguments zero at instr vm = ok vm
  push_arguments (suc zero) at instr vm = ok vm
  push_arguments (suc (suc k)) at instr vm = do
    s ← operand instr (suc k)
    (w, vm') ← parse_operand at (suc k) s vm
    if is_null w then eerror else push_arguments (suc k) at instr (push_word vm' w)

  -- Where a call goes; unlike a jump, it refuses a label that is not there.
  unfoldable pub call_target : Program → Str → Result ℕ
  call_target p s =
      if is_number s
      then ok (number_target s)
      else if is_label_reference pf.floats s
      then (elim (find_label p s) [ none ↦ eerror | some a ↦ ok a ])
      else eerror

  abbrev pub push_return : OrtaVm → OrtaVm
  push_return vm = record vm {
    xpu = record (vm.xpu) { call_stack = push vm.xpu.call_stack (int_word vm.xpu.ip) };
  }

  unfoldable pub exec_call : OrtaVm → InstructionData → Result OrtaVm
  unfolding push_arguments call_target
  exec_call vm instr = do
    s ← operand instr 0
    target ← call_target vm.program s
    (if ltb target (instructions_count vm.program)
        then push_arguments (length instr.operands) vm.xpu.ip instr
            (with_ip (push_return vm) (before_ip target))
        else eerror)

-- An empty call stack gives NULL, which reads as 0.
unfoldable pub exec_ret : OrtaVm → Result OrtaVm
exec_ret vm =
    let (ra, s) = xstack_pop vm.xpu.call_stack in
    ok (record vm { xpu = record (vm.xpu) { call_stack = s; ip = int_to_size (as_int ra) } })
