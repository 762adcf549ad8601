-- ===== src/Exec/Compare.antt =====
-- The comparison handlers: `eq`, `ne`, `lt`, `gt`, `le`, `ge`, `cmp`. `w1` is the top of the stack,
-- so `lt` and the others compare `w2` with it.
use orta_vm.Prelude.{ℕ, Bool, true, false, not, Str, length, leb, ◌==◌, if◌then◌else◌, str_eq}
use orta_vm.Result.{Result, ok, undefined, eerror, ◌>>=◌}
use orta_vm.Number.{is_number, atoi}
use orta_vm.Register.{is_register, register_name_to_enum}
use orta_vm.Floats.{Floats}
use orta_vm.Int32.{sub32, lt32, le32, bool_int, minus_one}
use orta_vm.Heap.{Heap, load_string}
use orta_vm.Word.{Word, WordType, wint, wfloat, wcharp, type_eq, int_word, as_int, as_float}
use orta_vm.Program.{InstructionData}
use orta_vm.Platform.{Platform}
use orta_vm.Vm.{OrtaVm, operand, with_register, push_word}
use orta_vm.Exec.Push.{register_value}
use orta_vm.Exec.Arith.{pop_two}

-- `strcmp(w1.as_string, w2.as_string) == 0`
unfoldable pub same_text : Word → Word → Heap → Result Bool
same_text w1 w2 h = do s ← load_string w1.bits h; t ← load_string w2.bits h; ok (str_eq s t)

abbrev push_bool : OrtaVm → Bool → OrtaVm
push_bool vm b = push_word vm (int_word (bool_int b))

module _ (fl : Floats) where
  -- Two words of one type, by that type.
  unfoldable pub equal_words : WordType → Word → Word → Heap → Result Bool
  unfolding same_text
  equal_words wint w1 w2 h = ok (as_int w1 == as_int w2)
  equal_words wfloat w1 w2 h = ok (fl.eq (as_float w1) (as_float w2))
  equal_words wcharp w1 w2 h = same_text w1 w2 h
  equal_words _ w1 w2 h = eerror

  -- Words of different types are not equal.
  unfoldable pub exec_eq : OrtaVm → Result OrtaVm
  unfolding equal_words
  exec_eq vm =
      let (w1, w2, vm') = pop_two vm in
      if type_eq w1.type w2.type
      then (equal_words w1.type w1 w2 vm.heap >>= λ b. ok (push_bool vm' b))
      else ok (push_bool vm' false)

  unfoldable pub exec_ne : OrtaVm → Result OrtaVm
  unfolding equal_words
  exec_ne vm =
      let (w1, w2, vm') = pop_two vm in
      if type_eq w1.type w2.type
      then (equal_words w1.type w1 w2 vm.heap >>= λ b. ok (push_bool vm' (not b)))
      else ok (push_bool vm' true)

  -- `lt`, `gt`, `le` and `ge` have one shape: an order of ints, and one of floats.
  unfoldable pub order_words :
      (ℕ → ℕ → Bool) → (ℕ → ℕ → Bool) → WordType → Word → Word → Result Bool
  order_words ints floats wint w1 w2 = ok (ints (as_int w2) (as_int w1))
  order_words ints floats wfloat w1 w2 = ok (floats (as_float w2) (as_float w1))
  order_words ints floats _ w1 w2 = eerror

unfoldable pub exec_order : (ℕ → ℕ → Bool) → (ℕ → ℕ → Bool) → Floats → OrtaVm → Result OrtaVm
unfolding order_words
exec_order ints floats fl vm =
    let (w1, w2, vm') = pop_two vm in
    if type_eq w1.type w2.type
    then (order_words fl ints floats w1.type w1 w2 >>= λ b. ok (push_bool vm' b))
    else ok (push_bool vm' false)

module _ (fl : Floats) where
  unfoldable pub exec_lt : OrtaVm → Result OrtaVm
  unfolding exec_order
  exec_lt vm = exec_order lt32 fl.lt fl vm

  unfoldable pub exec_gt : OrtaVm → Result OrtaVm
  unfolding exec_order
  exec_gt vm = exec_order (λ a b. lt32 b a) (λ a b. fl.lt b a) fl vm

  unfoldable pub exec_le : OrtaVm → Result OrtaVm
  unfolding exec_order
  exec_le vm = exec_order le32 fl.le fl vm

  unfoldable pub exec_ge : OrtaVm → Result OrtaVm
  unfolding exec_order
  exec_ge vm = exec_order (λ a b. le32 b a) (λ a b. fl.le b a) fl vm

-- An operand of `cmp`. One that is neither register nor number leaves the word unset.
unfoldable pub cmp_operand : OrtaVm → Str → Result Word
cmp_operand vm s =
    if is_register s
    then register_value vm (register_name_to_enum s)
    else if is_number s
    then ok (int_word (atoi s))
    else undefined

module _ (pf : Platform) where
  -- Words of different types, and of a type that the switch does not name, compare as 0.
  unfoldable pub compare_words : WordType → Word → Word → Heap → Result ℕ
  compare_words wint w1 w2 h = ok (sub32 (as_int w1) (as_int w2))
  compare_words wfloat w1 w2 h =
      ok (if pf.floats.lt (as_float w2) (as_float w1) then 1 else minus_one)
  compare_words wcharp w1 w2 h = do
    s ← load_string w1.bits h
    t ← load_string w2.bits h
    ok (pf.strcmp s t)
  compare_words _ w1 w2 h = ok 0

  unfoldable pub exec_cmp : OrtaVm → InstructionData → Result OrtaVm
  unfolding compare_words cmp_operand
  exec_cmp vm instr =
      if leb 2 (length instr.operands)
      then (do
        s ← operand instr 0
        t ← operand instr 1
        w1 ← cmp_operand vm s
        w2 ← cmp_operand vm t
        c ← (if type_eq w1.type w2.type then compare_words w1.type w1 w2 vm.heap else ok 0)
        ok (with_register vm 3 (int_word c)))
      else ok vm
