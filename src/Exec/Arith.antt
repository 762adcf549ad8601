-- ===== src/Exec/Arith.antt =====
-- The arithmetic and bitwise handlers: `add`, `sub`, `mul`, `div`, `mod`, `and`, `or`, `xor`, `not`.
pub mod Effects
use Prim.Native.Nat.{bit_and, bit_or, bit_xor}
use orta_vm.Prelude.{
  ℕ, ◌+◌, ◌-◌, ◌%◌, ◌^◌, Bool, not, ◌&&◌, ◌||◌, Option, none, some, List, [], ◌∷◌, Str, length, leb,
  ◌==◌, if◌then◌else◌,
}
use orta_vm.Result.{Result, ok, exit, undefined, eerror, ◌>>=◌}
use orta_vm.Number.{is_number, atoi}
use orta_vm.Operand.{is_float}
use orta_vm.Register.{is_register, register_name_to_enum}
use orta_vm.Floats.{Floats}
use orta_vm.Int32.{add32, sub32, mul32, div32, mod32, bool_int}
use orta_vm.Word.{
  Word, WordType, wint, wfloat, wcharp, w_char, wpointer, wbool, unknown, is_type, type_eq,
  int_word, float_word, char_word, pointer_word, as_int, as_float, as_char, int_to_size,
}
use orta_vm.Stack.{xstack_peek}
use orta_vm.Program.{InstructionData}
use orta_vm.Vm.{OrtaVm, operand, register, with_register, push_word, pop_word}
use orta_vm.Exec.Push.{register_value}

-- `(char *) p + i` and `(char *) p - i`, for an `int`.
abbrev add_pointer : ℕ → ℕ → ℕ
add_pointer p i = (p + int_to_size i) % 2 ^ 64

abbrev sub_pointer : ℕ → ℕ → ℕ
sub_pointer p i = (p + 2 ^ 64 - int_to_size i) % 2 ^ 64

-- Both operands of the forms without operands: `w1`, popped first, `w2`, and the rest.
abbrev pub pop_two : OrtaVm → Word × Word × OrtaVm
pop_two vm = let (w1, vm₁) = pop_word vm in let (w2, vm₂) = pop_word vm₁ in (w1, w2, vm₂)

abbrev pub both : WordType → Word → Word → Bool
both t w1 w2 = is_type t w1 && is_type t w2

abbrev same_type : Word → Word → Bool
same_type a b = type_eq a.type b.type

module _ (fl : Floats) where
  -- What `dest` becomes; a pair of types that the code refuses is `none`.
  unfoldable pub add_words : Word → Word → Option Word
  add_words dest src =
      if same_type dest src
      then (if is_type wint dest
          then some (int_word (add32 (as_int dest) (as_int src)))
          else if is_type wfloat dest
          then some (float_word (fl.add (as_float dest) (as_float src)))
          else if is_type w_char dest
          then some (char_word (as_char dest + as_char src))
          else some dest)
      else if is_type wpointer dest && is_type wint src
      then some (pointer_word (add_pointer dest.bits (as_int src)))
      else if is_type wint dest && is_type wfloat src
      then some (float_word (fl.add (fl.of_int (as_int dest)) (as_float src)))
      else none

  unfoldable pub sub_words : Word → Word → Option Word
  sub_words dest src =
      if same_type dest src
      then (if is_type wint dest
          then some (int_word (sub32 (as_int dest) (as_int src)))
          else if is_type wfloat dest
          then some (float_word (fl.sub (as_float dest) (as_float src)))
          else if is_type w_char dest
          then some (char_word (as_char dest + 256 - as_char src))
          else some dest)
      else if is_type wpointer dest && is_type wint src
      then some (pointer_word (sub_pointer dest.bits (as_int src)))
      else if is_type wint dest && is_type wfloat src
      then some (float_word (fl.sub (fl.of_int (as_int dest)) (as_float src)))
      else none

  -- The source operand of the two-operand forms; `none` is a text of another kind.
  unfoldable pub source_word : OrtaVm → Str → Option (Result Word)
  source_word vm s =
      if is_register s
      then some (register_value vm (register_name_to_enum s))
      else if is_number s
      then some (ok (int_word (atoi s)))
      else if is_float fl s
      then some (ok (float_word (fl.atof s)))
      else none

  abbrev pub store_sum : OrtaVm → ℕ → Option Word → Result OrtaVm
  store_sum vm r none = eerror
  store_sum vm r (some w) = ok (with_register vm r w)

  abbrev pub store_difference : OrtaVm → ℕ → Option Word → Result OrtaVm
  store_difference vm r none = ok vm
  store_difference vm r (some w) = ok (with_register vm r w)

  unfoldable pub add_registers : OrtaVm → Str → Str → Result OrtaVm
  unfolding add_words source_word
  add_registers vm dest src = elim (source_word vm src) [
    | none ↦ eerror
    | some r ↦ r >>= λ w. elim (register_name_to_enum dest) [
      | none ↦ ok vm
      | some d ↦ store_sum vm d (add_words (register vm d) w)
    ]
  ]

  -- Unlike `add`, `sub` passes over texts and types that it cannot use.
  unfoldable pub sub_registers : OrtaVm → Str → Str → Result OrtaVm
  unfolding sub_words source_word
  sub_registers vm dest src = elim (source_word vm src) [
    | none ↦ ok vm
    | some r ↦ r >>= λ w. elim (register_name_to_enum dest) [
      | none ↦ ok vm
      | some d ↦ store_difference vm d (sub_words (register vm d) w)
    ]
  ]

  -- The one-operand forms push a changed copy of the top; the top stays.
  unfoldable pub add_immediate : Word → ℕ → Word
  add_immediate w imm =
      if is_type wint w
      then int_word (add32 (as_int w) imm)
      else if is_type wfloat w
      then float_word (fl.add (as_float w) (fl.of_int imm))
      else if is_type wpointer w || is_type wcharp w
      then record w { bits = add_pointer w.bits imm }
      else w

  unfoldable pub sub_immediate : Word → ℕ → Word
  sub_immediate w imm =
      if is_type wint w
      then int_word (sub32 (as_int w) imm)
      else if is_type wfloat w
      then float_word (fl.sub (as_float w) (fl.of_int imm))
      else if is_type wpointer w || is_type wcharp w
      then record w { bits = sub_pointer w.bits imm }
      else w

  -- The stack forms, on the two words popped.
  unfoldable pub add_stack : Word → Word → Result Word
  add_stack w1 w2 =
      if both wint w1 w2
      then ok (int_word (add32 (as_int w1) (as_int w2)))
      else if both wfloat w1 w2
      then ok (float_word (fl.add (as_float w1) (as_float w2)))
      else eerror

  unfoldable pub sub_stack : Word → Word → Result Word
  sub_stack w1 w2 =
      if both wint w1 w2
      then ok (int_word (sub32 (as_int w1) (as_int w2)))
      else if both wfloat w1 w2
      then ok (float_word (fl.sub (as_float w1) (as_float w2)))
      else eerror

  unfoldable pub mul_stack : Word → Word → Result Word
  mul_stack w1 w2 =
      if both wint w1 w2
      then ok (int_word (mul32 (as_int w2) (as_int w1)))
      else if both wfloat w1 w2
      then ok (float_word (fl.mul (as_float w2) (as_float w1)))
      else eerror

  -- The divisor is tested through both members of the union.
  unfoldable pub is_zero_divisor : Word → Bool
  is_zero_divisor w1 = as_int w1 == 0 || fl.eq (as_float w1) 0

  unfoldable pub div_stack : Word → Word → Result Word
  div_stack w1 w2 =
      if both wint w1 w2
      then (div32 (as_int w2) (as_int w1) >>= λ q. ok (int_word q))
      else if both wfloat w1 w2
      then ok (float_word (fl.div (as_float w2) (as_float w1)))
      else eerror

  -- `!f` is 1 for zero and 0 otherwise, stored as a float.
  unfoldable pub not_stack : Word → Result Word
  not_stack w1 =
      if is_type wint w1
      then ok (int_word (bool_int (as_int w1 == 0)))
      else if is_type wfloat w1
      then ok (float_word (fl.of_int (bool_int (fl.eq (as_float w1) 0))))
      else eerror

unfoldable pub mod_stack : Word → Word → Result Word
mod_stack w1 w2 =
    if both wint w1 w2 && not (as_int w1 == 0)
    then (mod32 (as_int w2) (as_int w1) >>= λ r. ok (int_word r))
    else eerror

unfoldable pub or_stack : Word → Word → Result Word
or_stack w1 w2 = if both wint w1 w2 then ok (int_word (bit_or (as_int w2) (as_int w1))) else eerror

-- `w1 = pop; w2 = pop; …; push(result)`
abbrev pub binary : (Word → Word → Result Word) → OrtaVm → Result OrtaVm
binary f vm = let (w1, w2, vm') = pop_two vm in f w1 w2 >>= λ w. ok (push_word vm' w)

unfoldable pub exec_mod : OrtaVm → Result OrtaVm
unfolding mod_stack
exec_mod vm = binary mod_stack vm

unfoldable pub exec_or : OrtaVm → Result OrtaVm
unfolding or_stack
exec_or vm = binary or_stack vm

-- `and` computes its result and does not push it.
unfoldable pub exec_and : OrtaVm → Result OrtaVm
exec_and vm = let (w1, w2, vm') = pop_two vm in if both wint w1 w2 then ok vm' else eerror

unfoldable pub xor_registers : OrtaVm → Option ℕ → Option ℕ → OrtaVm
xor_registers vm (some r1) (some r2) =
    if both wint (register vm r1) (register vm r2)
    then with_register vm r1
        (int_word (bit_xor (as_int (register vm r1)) (as_int (register vm r2))))
    else vm
xor_registers vm _ _ = vm

unfoldable pub exec_xor : OrtaVm → InstructionData → Result OrtaVm
unfolding xor_registers
exec_xor vm instr =
    if leb 2 (length instr.operands)
    then (do
      a ← operand instr 0
      b ← operand instr 1
      ok (
          if is_register a && is_register b
          then xor_registers vm (register_name_to_enum a) (register_name_to_enum b)
          else vm))
    else ok vm

module _ (fl : Floats) where
  unfoldable pub exec_add : OrtaVm → InstructionData → Result OrtaVm
  unfolding add_registers add_immediate add_stack
  exec_add vm instr =
      if leb 2 (length instr.operands)
      then (do dest ← operand instr 0; src ← operand instr 1; add_registers fl vm dest src)
      else if length instr.operands == 1
      then (do
        s ← operand instr 0
        let w = xstack_peek vm.xpu.stack 0
        ok (push_word vm (if is_number s then add_immediate fl w (atoi s) else w)))
      else binary (add_stack fl) vm

  unfoldable pub exec_sub : OrtaVm → InstructionData → Result OrtaVm
  unfolding sub_registers sub_immediate sub_stack
  exec_sub vm instr =
      if leb 2 (length instr.operands)
      then (do dest ← operand instr 0; src ← operand instr 1; sub_registers fl vm dest src)
      else if length instr.operands == 1
      then (do
        s ← operand instr 0
        let w = xstack_peek vm.xpu.stack 0
        ok (push_word vm (if is_number s then sub_immediate fl w (atoi s) else w)))
      else binary (sub_stack fl) vm

  unfoldable pub exec_mul : OrtaVm → Result OrtaVm
  unfolding mul_stack
  exec_mul vm = binary (mul_stack fl) vm

  -- On a zero divisor both words are gone and nothing is pushed.
  unfoldable pub exec_div : OrtaVm → Result OrtaVm
  unfolding is_zero_divisor div_stack
  exec_div vm =
      let (w1, w2, vm') = pop_two vm in
      if is_zero_divisor fl w1 then ok vm' else (div_stack fl w1 w2 >>= λ w. ok (push_word vm' w))

  unfoldable pub exec_not : OrtaVm → Result OrtaVm
  unfolding not_stack
  exec_not vm = let (w1, vm') = pop_word vm in not_stack fl w1 >>= λ w. ok (push_word vm' w)
