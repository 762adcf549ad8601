-- ===== src/Exec/StackOps.antt =====
-- The handlers that rearrange the stack: `dup`, `swap`, `drop`, `rotl`, `rotr`, `cast`, `sizeof`.
pub mod Rotate
use orta_vm.Prelude.{
  ℕ, zero, suc, ◌+◌, ◌-◌, Bool, ◌||◌, List, [], ◌∷◌, ◌++◌, Str, leb, ◌==◌, if◌then◌else◌,
}
use mathlib.Core.List.{reverse}
use orta_vm.Result.{Result, ok, exit, undefined, ◌>>=◌}
use orta_vm.Number.{atoi}
use orta_vm.Int32.{is_negative}
use orta_vm.Heap.{strdup}
use orta_vm.Word.{
  Word, WordType, wint, wfloat, wcharp, w_char, wpointer, wbool, unknown, int_word, float_word,
  string_word, pointer_word, as_int, as_float, get_type, type_size,
}
use orta_vm.Stack.{XStack, count, xstack_peek, xstack_pop, push}
use orta_vm.Program.{InstructionData}
use orta_vm.Vm.{OrtaVm, operand, with_heap, with_stack, push_word, pop_word}

-- By the type of the top. A char and a bool are not duplicated: nothing is pushed for them.
unfoldable pub dup_word : WordType → Word → OrtaVm → Result OrtaVm
dup_word wint w vm = ok (push_word vm (int_word (as_int w)))
dup_word wfloat w vm = ok (push_word vm (float_word (as_float w)))
dup_word wcharp w vm = do
  (p, h) ← strdup w.bits vm.heap
  ok (push_word (with_heap vm h) (string_word p))
dup_word wpointer w vm = ok (push_word vm (pointer_word w.bits))
dup_word _ w vm = ok vm

unfoldable pub exec_dup : OrtaVm → Result OrtaVm
unfolding dup_word
exec_dup vm = let w = xstack_peek vm.xpu.stack 0 in dup_word w.type w vm

unfoldable pub exec_swap : OrtaVm → Result OrtaVm
exec_swap vm =
    let (w1, vm₁) = pop_word vm in
    let (w2, vm₂) = pop_word vm₁ in ok (push_word (push_word vm₂ w1) w2)

unfoldable pub exec_drop : OrtaVm → Result OrtaVm
exec_drop vm = let (w, vm') = pop_word vm in ok vm'

-- `temp[i] = pop` for `i` from 0 to `n - 1`.
unfoldable pub pop_many : ℕ → XStack → List Word × XStack
pop_many zero s = ([], s)
pop_many (suc n) s = let (w, s₁) = xstack_pop s in let (ws, s₂) = pop_many n s₁ in (w ∷ ws, s₂)

-- `push(temp[i])` for `i` from `n - 1` to 0: the last of `temp` first.
unfoldable pub push_many : List Word → XStack → XStack
push_many [] s = s
push_many (w ∷ ws) s = push (push_many ws s) w

-- `temp` with its first cell moved to the end, and with its last cell moved to the front.
unfoldable pub first_to_end : List Word → List Word
first_to_end [] = []
first_to_end (w ∷ ws) = ws ++ (w ∷ [])

unfoldable pub last_to_front : List Word → List Word
last_to_front ws = reverse (first_to_end (reverse ws))

-- The two rotations; `n` is an `int`, and one that is not below the count does nothing.
unfoldable pub rotate : (List Word → List Word) → ℕ → XStack → XStack
unfolding pop_many push_many
rotate turn n s =
    if is_negative n || (n == 0 || leb (count s) n)
    then s
    else (let (temp, rest) = pop_many n s in push_many (turn temp) rest)

unfoldable pub exec_rotl : OrtaVm → InstructionData → Result OrtaVm
unfolding rotate first_to_end
exec_rotl vm instr = do
  s ← operand instr 0
  ok (with_stack vm (rotate first_to_end (atoi s) vm.xpu.stack))

unfoldable pub exec_rotr : OrtaVm → InstructionData → Result OrtaVm
unfolding rotate last_to_front
exec_rotr vm instr = do
  s ← operand instr 0
  ok (with_stack vm (rotate last_to_front (atoi s) vm.xpu.stack))

-- The tag is changed and the bits stay.
unfoldable pub exec_cast : OrtaVm → InstructionData → Result OrtaVm
unfolding get_type
exec_cast vm instr = do
  let popped = pop_word vm
  s ← operand instr 0
  ok (push_word (popped.1) (record { type = get_type s; bits = (popped.0).bits }))

unfoldable pub exec_sizeof : OrtaVm → InstructionData → Result OrtaVm
unfolding get_type type_size
exec_sizeof vm instr = do s ← operand instr 0; ok (push_word vm (int_word (type_size (get_type s))))
