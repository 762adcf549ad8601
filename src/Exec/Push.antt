-- ===== src/Exec/Push.antt =====
-- The handlers that move words between operands, registers and the stack: `push`, `mov`, `pop`,
-- `load`, `store`.
use orta_vm.Prelude.{ℕ, Option, none, some, Str, if◌then◌else◌}
use orta_vm.Result.{Result, ok, undefined, eerror, ◌>>=◌}
use orta_vm.Number.{is_number, atoi}
use orta_vm.Operand.{is_float, is_string, unquote}
use orta_vm.Register.{is_register, register_name_to_enum}
use orta_vm.Floats.{Floats}
use orta_vm.Heap.{free, new_string}
use orta_vm.Word.{Word, wcharp, is_type, int_word, float_word, string_word}
use orta_vm.Program.{InstructionData}
use orta_vm.Vm.{OrtaVm, operand, register, with_register, with_heap, push_word, pop_word}

-- `register_name_to_enum` after `is_register`; the value that C would take without it is not set.
abbrev pub register_value : OrtaVm → Option ℕ → Result Word
register_value vm none = undefined
register_value vm (some r) = ok (register vm r)

-- The string of a literal, `malloc` and `strncpy`.
abbrev pub literal : Str → OrtaVm → Word × OrtaVm
literal s vm = let (p, h) = new_string (unquote s) vm.heap in (string_word p, with_heap vm h)

-- `if (w.type == WCHARP) free(w.as_string)`
abbrev pub drop_string : Word → OrtaVm → Result OrtaVm
drop_string w vm =
    if is_type wcharp w then (free w.bits vm.heap >>= λ h. ok (with_heap vm h)) else ok vm

-- A register is given a new word, and its string is freed before.
abbrev pub replace_register : ℕ → Word → OrtaVm → Result OrtaVm
replace_register r w vm = drop_string (register vm r) vm >>= λ vm'. ok (with_register vm' r w)

module _ (fl : Floats) where
  unfoldable pub push_operand : Str → OrtaVm → Result (Word × OrtaVm)
  push_operand s vm =
      if is_number s
      then ok (int_word (atoi s), vm)
      else if is_float fl s
      then ok (float_word (fl.atof s), vm)
      else if is_string s
      then ok (literal s vm)
      else if is_register s
      then (register_value vm (register_name_to_enum s) >>= λ w. ok (w, vm))
      else eerror

  unfoldable pub exec_push : OrtaVm → InstructionData → Result OrtaVm
  unfolding push_operand
  exec_push vm instr = do s ← operand instr 0; (w, vm') ← push_operand s vm; ok (push_word vm' w)

  unfoldable pub mov_to : Str → ℕ → OrtaVm → Result OrtaVm
  mov_to src dst vm =
      if is_register src
      then (register_value vm (register_name_to_enum src) >>= λ w. replace_register dst w vm)
      else if is_number src
      then ok (with_register vm dst (int_word (atoi src)))
      else if is_float fl src
      then ok (with_register vm dst (float_word (fl.atof src)))
      else if is_string src
      then (let (w, vm') = literal src vm in ok (with_register vm' dst w))
      else eerror

  unfoldable pub exec_mov : OrtaVm → InstructionData → Result OrtaVm
  unfolding mov_to
  exec_mov vm instr = do
    src ← operand instr 0
    dst ← operand instr 1
    elim (register_name_to_enum dst) [ none ↦ ok vm | some r ↦ mov_to src r vm ]

-- The old string is freed before the word is popped.
unfoldable pub pop_to : ℕ → OrtaVm → Result OrtaVm
pop_to r vm = do
  vm₁ ← drop_string (register vm r) vm
  let popped = pop_word vm₁
  ok (with_register (popped.1) r (popped.0))

unfoldable pub exec_pop : OrtaVm → InstructionData → Result OrtaVm
unfolding pop_to
exec_pop vm instr = do
  s ← operand instr 0
  elim (register_name_to_enum s) [ none ↦ eerror | some r ↦ pop_to r vm ]

unfoldable pub load_register : OrtaVm → Str → OrtaVm
load_register vm s =
    if is_register s
    then (elim (register_name_to_enum s) [ none ↦ vm | some r ↦ push_word vm (register vm r) ])
    else vm

unfoldable pub exec_load : OrtaVm → InstructionData → Result OrtaVm
unfolding load_register
exec_load vm instr = do s ← operand instr 0; ok (load_register vm s)

unfoldable pub store_register : Word → Str → OrtaVm → Result OrtaVm
store_register w s vm =
    if is_register s
    then (elim (register_name_to_enum s) [ none ↦ ok vm | some r ↦ replace_register r w vm ])
    else ok vm

unfoldable pub exec_store : OrtaVm → InstructionData → Result OrtaVm
unfolding store_register
exec_store vm instr = do
  let popped = pop_word vm
  s ← operand instr 0
  store_register (popped.0) s (popped.1)
