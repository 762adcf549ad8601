-- ===== src/Exec/Alloc.antt =====
-- The handlers of `alloc`, with operands and from the stack, and of `free`.
use orta_vm.Prelude.{
  ℕ, ◌*◌, ◌%◌, ◌^◌, ◌&&◌, Option, none, some, Str, length, leb, ltb, ◌==◌, if◌then◌else◌, replicate,
}
use orta_vm.Result.{Result, ok, undefined, eerror, ◌>>=◌}
use orta_vm.Number.{is_number, atoi}
use orta_vm.Operand.{is_pointer, unquote}
use orta_vm.Register.{is_register, register_name_to_enum}
use orta_vm.Heap.{malloc, free, load_string}
use orta_vm.Word.{
  Word, wint, wcharp, wpointer, is_type, as_int, int_to_size, pointer_word, null_word, get_type,
  is_type_name, alloc_size,
}
use orta_vm.Stack.{xstack_check}
use orta_vm.Program.{InstructionData}
use orta_vm.Variables.{is_variable, getvar}
use orta_vm.Platform.{Platform}
use orta_vm.Vm.{OrtaVm, operand, register, with_register, with_heap, push_word, pop_word, scope}
use orta_vm.Exec.Push.{replace_register}
use orta_vm.Exec.Jump.{cut_operand}

-- `size *= n` on a `size_t`, for an `int`.
abbrev times : ℕ → ℕ → ℕ
times size n = size * int_to_size n % 2 ^ 64

-- The value of a register, if the name is one and it holds an int; otherwise `d`.
abbrev int_register : OrtaVm → Option ℕ → ℕ → ℕ
int_register vm none d = d
int_register vm (some r) d = if is_type wint (register vm r) then as_int (register vm r) else d

-- The second operand multiplies the size of a type; a text of another kind multiplies by 1. The copy
-- that `getvar` makes of a string is lost.
unfoldable pub scale_by : OrtaVm → Str → ℕ → Result (ℕ × OrtaVm)
scale_by vm s size =
    if is_number s
    then ok (times size (atoi s), vm)
    else if is_register s
    then ok (times size (int_register vm (register_name_to_enum s) 1), vm)
    else if is_variable s (scope vm)
    then (getvar s (scope vm) vm.heap >>= λ r. ok (times size (as_int (r.0)), with_heap vm (r.1)))
    else ok (size, vm)

unfoldable pub operand_size : OrtaVm → InstructionData → Result (ℕ × OrtaVm)
unfolding scale_by
operand_size vm instr = do
  s ← operand instr 0
  (if is_type_name s
      then (let size = alloc_size (get_type s) in
          if leb 2 (length instr.operands)
          then (operand instr 1 >>= λ c. scale_by vm c size)
          else ok (size, vm))
      else if is_number s
      then ok (int_to_size (atoi s), vm)
      else if is_register s
      then ok (int_to_size (int_register vm (register_name_to_enum s) 0), vm)
      else ok (0, vm))

-- `malloc` and `memset`. No request of 2 ^ 63 bytes can be met, and NULL would be cleared.
unfoldable pub allocate : ℕ → OrtaVm → Result (ℕ × OrtaVm)
allocate size vm =
    if ltb size (2 ^ 63)
    then (let (p, h) = malloc (replicate size 0) vm.heap in ok (p, with_heap vm h))
    else undefined

-- The new block in the register named, if it is one.
unfoldable pub block_to_register : Str → ℕ → OrtaVm → Result OrtaVm
block_to_register s p vm =
    if is_register s
    then (elim (register_name_to_enum s) [
      | none ↦ ok vm
      | some r ↦ replace_register r (pointer_word p) vm
    ])
    else ok vm

unfoldable pub alloc_operands : OrtaVm → InstructionData → Result OrtaVm
unfolding operand_size allocate block_to_register
alloc_operands vm instr = do
  (size, vm₁) ← operand_size vm instr
  (if size == 0 then ok vm₁ else (do
    (p, vm₂) ← allocate size vm₁
    (if leb 3 (length instr.operands)
        then (operand instr 2 >>= λ s. block_to_register s p vm₂)
        else ok (push_word vm₂ (pointer_word p)))))

-- The count on the stack: an int, or the name of a register that holds one.
unfoldable pub scale_popped : Word → OrtaVm → ℕ → Result ℕ
scale_popped w vm size =
    if is_type wint w
    then ok (times size (as_int w))
    else if is_type wcharp w
    then (load_string w.bits vm.heap >>= λ s.
        ok (
          if is_register s then times size (int_register vm (register_name_to_enum s) 1) else size))
    else ok size

-- The size on the stack, under `n` operands: a type's name and maybe a count, or an int.
unfoldable pub popped_size : ℕ → OrtaVm → Result (ℕ × OrtaVm)
unfolding scale_popped
popped_size n vm =
    let (w, vm₁) = pop_word vm in
    if is_type wcharp w
    then (do
      s ← load_string w.bits vm₁.heap
      (if is_type_name s
          then (if leb 2 n
              then (let (c, vm₂) = pop_word vm₁ in
                  scale_popped c vm₂ (alloc_size (get_type s)) >>= λ size. ok (size, vm₂))
              else ok (alloc_size (get_type s), vm₁))
          else eerror))
    else if is_type wint w
    then ok (int_to_size (as_int w), vm₁)
    else eerror

-- The number of operands is popped first. A negative one fails the check of the stack.
unfoldable pub alloc_stack : OrtaVm → Result OrtaVm
unfolding popped_size allocate block_to_register
alloc_stack vm =
    let (w, vm₀) = pop_word vm in
    let n = as_int w in
    if xstack_check vm.xpu.stack 1 && (is_type wint w && xstack_check vm₀.xpu.stack (int_to_size n))
    then (if n == 0 then ok vm₀ else (do
      (size, vm₁) ← popped_size n vm₀
      (if size == 0 then ok vm₁ else (do
        (p, vm₂) ← allocate size vm₁
        (if leb 3 n
            then (let (d, vm₃) = pop_word vm₂ in
                if is_type wcharp d
                then (load_string d.bits vm₃.heap >>= λ s. block_to_register s p vm₃)
                else eerror)
            else ok (push_word vm₂ (pointer_word p)))))))
    else eerror

unfoldable pub exec_alloc : OrtaVm → InstructionData → Result OrtaVm
unfolding alloc_operands alloc_stack
exec_alloc vm instr =
    if leb 1 (length instr.operands) then alloc_operands vm instr else alloc_stack vm

-- The pointer of a register is freed, and the register set to NULL.
unfoldable pub free_register : ℕ → OrtaVm → Result OrtaVm
free_register r vm =
    if is_type wpointer (register vm r)
    then (free ((register vm r).bits) vm.heap >>= λ h.
        ok (with_register (with_heap vm h) r null_word))
    else ok vm

module _ (pf : Platform) where
  unfoldable pub free_operand : Str → OrtaVm → Result OrtaVm
  unfolding free_register
  free_operand s vm =
      if is_register s
      then (elim (register_name_to_enum s) [ none ↦ ok vm | some r ↦ free_register r vm ])
      else if is_pointer s
      then (free (pf.strtoull (unquote s)) vm.heap >>= λ h.
          ok (with_heap (cut_operand vm vm.xpu.ip 0) h))
      else ok vm

  unfoldable pub exec_free : OrtaVm → InstructionData → Result OrtaVm
  unfolding free_operand
  exec_free vm instr =
      if leb 1 (length instr.operands)
      then (operand instr 0 >>= λ s. free_operand s vm)
      else (let (w, vm') = pop_word vm in
          if is_type wpointer w
          then (free w.bits vm'.heap >>= λ h. ok (with_heap vm' h))
          else ok vm')
