-- ===== src/Exec/Arith/Effects.antt =====
-- What the arithmetic handlers do to the stack.
use orta_vm.Prelude.{ℕ, ◌<◌, ◌≡◌, ◌==◌, false, List, [], ◌∷◌, length, ap}
use orta_vm.Result.{ok}
use orta_vm.Instruction.{Instruction}
use orta_vm.Stack.Laws.{push-ok}
use orta_vm.Floats.{Floats}
use orta_vm.Int32.{add32, sub32, mul32, div32, mod32}
use orta_vm.Word.{Word, type_eq, type_number, as_int, int_word}
use orta_vm.Stack.{xstack_pop, pop_items}
use orta_vm.Program.{InstructionData}
use orta_vm.Vm.{OrtaVm, with_stack, push_word}
use orta_vm.Exec.Arith.{
  exec_add, exec_sub, exec_mul, exec_div, exec_mod, add_stack, sub_stack, mul_stack, div_stack,
  mod_stack, is_zero_divisor,
}

-- The machine with the stack's contents replaced.
abbrev pub with_items : OrtaVm → List Word → OrtaVm
with_items vm items = with_stack vm (record (vm.xpu.stack) { items = items })

-- An instruction without operands.
abbrev pub bare : Instruction → ℕ → InstructionData
bare op line = record { opcode = op; operands = []; line = line }

module _ (fl : Floats) (vm : OrtaVm) (op : Instruction) (line a b : ℕ) (rest : List Word) where
  abbrev pub ints_below : OrtaVm
  ints_below = with_items vm (int_word a ∷ int_word b ∷ rest)

  abbrev pub int_left : ℕ → OrtaVm
  int_left n = with_items vm (int_word n ∷ rest)

  pushed :
      (w : Word)
      → length rest < vm.xpu.stack.capacity
      → ok (push_word (with_items vm rest) w) ≡ ok (with_items vm (w ∷ rest))
  pushed w fits =
      ap (λ s. ok (with_stack vm s)) (push-ok (record (vm.xpu.stack) { items = rest }) w fits)

  abbrev pub top_int : ℕ
  top_int = as_int (int_word a)

  abbrev pub below_int : ℕ
  below_int = as_int (int_word b)

  pub exec-ints :
      length rest < vm.xpu.stack.capacity
      → (exec_add fl ints_below (bare op line) ≡ ok (int_left (add32 top_int below_int)))
        × (exec_sub fl ints_below (bare op line) ≡ ok (int_left (sub32 top_int below_int)))
        × (exec_mul fl ints_below ≡ ok (int_left (mul32 below_int top_int)))
  unfolding exec_add exec_sub exec_mul add_stack sub_stack mul_stack xstack_pop pop_items type_eq
      type_number
  exec-ints fits = (pushed _ fits, pushed _ fits, pushed _ fits)

  pub exec_div-ints :
      (q : ℕ)
      → is_zero_divisor fl (int_word a) ≡ false
      → div32 below_int top_int ≡ ok q
      → length rest < vm.xpu.stack.capacity
      → exec_div fl ints_below ≡ ok (int_left q)
  unfolding exec_div div_stack xstack_pop pop_items type_eq type_number
  exec_div-ints q z d fits = rw z (rw d (pushed _ fits))

  pub exec_mod-ints :
      (r : ℕ)
      → (top_int == 0) ≡ false
      → mod32 below_int top_int ≡ ok r
      → length rest < vm.xpu.stack.capacity
      → exec_mod ints_below ≡ ok (int_left r)
  unfolding exec_mod mod_stack xstack_pop pop_items type_eq type_number
  exec_mod-ints r z d fits = rw z (rw d (pushed _ fits))
