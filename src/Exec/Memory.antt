-- ===== src/Exec/Memory.antt =====
-- The handlers that read and write raw memory: `@r`, `@w`, `@cpy`, `@cmp`. On an error `@r` and `@w`
-- print a message, put the instruction pointer behind the program and set the exit code.
use orta_vm.Prelude.{
  ℕ, ◌+◌, ◌%◌, ◌^◌, Bool, ◌&&◌, ◌||◌, Option, none, some, length, leb, ltb, ◌==◌, if◌then◌else◌,
}
use orta_vm.Result.{Result, ok, undefined, ◌>>=◌}
use orta_vm.Number.{is_number, atoi}
use orta_vm.Operand.{is_float, is_string}
use orta_vm.Register.{is_register, register_name_to_enum}
use orta_vm.Floats.{Floats}
use orta_vm.Heap.{Heap, free, strdup, load_bytes, store_bytes, to_bytes, of_bytes}
use orta_vm.Word.{
  Word, WordType, wint, wfloat, wcharp, w_char, wpointer, is_type, as_int, as_float, as_char,
  int_to_size, int_word, float_word, char_word, string_word, pointer_word, get_type,
}
use orta_vm.Program.{InstructionData, instructions_count}
use orta_vm.Platform.{Platform}
use orta_vm.Vm.{OrtaVm, operand, register, with_heap, with_program, with_ip, push_word, pop_word}
use orta_vm.Exec.Push.{literal, drop_string, replace_register}

-- How a handler ends: `break`, before `xpu->ip++`, or `return`, past it.
pub data Control : Type 0 where
  break_with return_with : OrtaVm → Control

-- An argument that was read, or the machine after an error.
pub data Argument (A : Type 0) : Type 0 where
  got : A → OrtaVm → Argument A
  failed : OrtaVm → Argument A

abbrev pub memory_error : OrtaVm → OrtaVm
memory_error vm =
    with_program (with_ip vm (instructions_count vm.program))
      (record (vm.program) { exit_code = 1 })

abbrev pub fail : {A : Type 0} → OrtaVm → Result (Argument A)
fail vm = ok (failed (memory_error vm))

abbrev pub stop : OrtaVm → Result Control
stop vm = ok (return_with (memory_error vm))

-- The next argument, unless this one failed.
abbrev pub and_then : {A : Type 0} → Argument A → (A → OrtaVm → Result Control) → Result Control
and_then (got a vm) k = k a vm
and_then (failed vm) k = ok (return_with vm)

abbrev pub then_with :
    {A : Type 0} → Result (Argument A) → (A → OrtaVm → Result Control) → Result Control
then_with r k = r >>= λ a. and_then a k

abbrev pub holds : WordType → OrtaVm → Option ℕ → Option Word
holds t vm none = none
holds t vm (some r) = if is_type t (register vm r) then some (register vm r) else none

-- The address: a pointer popped, or in a register. Any other operand leaves NULL.
unfoldable pub address_argument : OrtaVm → InstructionData → Result (Argument ℕ)
address_argument vm instr =
    if length instr.operands == 0
    then (let (w, vm') = pop_word vm in
        if is_type wpointer w then ok (got w.bits vm') else fail vm')
    else (operand instr 0 >>= λ s.
        if is_register s
        then (elim (holds wpointer vm (register_name_to_enum s)) [
          | none ↦ fail vm
          | some w ↦ ok (got w.bits vm)
        ])
        else ok (got 0 vm))

-- The offset: an int popped, a number, or a register with an int. Any other operand leaves 0.
unfoldable pub offset_argument : OrtaVm → InstructionData → Result (Argument ℕ)
offset_argument vm instr =
    if leb (length instr.operands) 1
    then (let (w, vm') = pop_word vm in
        if is_type wint w then ok (got (int_to_size (as_int w)) vm') else fail vm')
    else (operand instr 1 >>= λ s.
        if is_number s
        then ok (got (int_to_size (atoi s)) vm)
        else if is_register s
        then (elim (holds wint vm (register_name_to_enum s)) [
          | none ↦ fail vm
          | some w ↦ ok (got (int_to_size (as_int w)) vm)
        ])
        else ok (got 0 vm))

-- The types with the values 0 to 4 are accepted from the stack.
abbrev pub type_of_number : ℕ → Option WordType
type_of_number n =
    if n == 0
    then some wint
    else if n == 1
    then some wfloat
    else if n == 2
    then some wcharp
    else if n == 3
    then some w_char
    else if n == 4
    then some wpointer
    else none

abbrev pub type_popped : Option WordType → OrtaVm → Result (Argument WordType)
type_popped none vm = fail vm
type_popped (some t) vm = ok (got t vm)

unfoldable pub type_argument : OrtaVm → InstructionData → Result (Argument WordType)
unfolding get_type
type_argument vm instr =
    if leb (length instr.operands) 2
    then (let (w, vm') = pop_word vm in
        if is_type wint w then type_popped (type_of_number (as_int w)) vm' else fail vm')
    else (operand instr 2 >>= λ s. ok (got (get_type s) vm))

abbrev pub load_number : ℕ → ℕ → Heap → Result ℕ
load_number p n h = load_bytes p n h >>= λ bytes. ok (of_bytes bytes)

-- `strdup` of a string pointer that is not NULL.
abbrev pub dup_pointer : ℕ → OrtaVm → Result (Word × OrtaVm)
dup_pointer p vm =
    if p == 0
    then ok (string_word 0, vm)
    else (strdup p vm.heap >>= λ r. ok (string_word (r.0), with_heap vm (r.1)))

-- A type that the switch does not have is an error of the handler: `none`.
unfoldable pub read_word : WordType → ℕ → OrtaVm → Result (Option (Word × OrtaVm))
read_word wint p vm = load_number p 4 vm.heap >>= λ n. ok (some (int_word n, vm))
read_word wfloat p vm = load_number p 4 vm.heap >>= λ n. ok (some (float_word n, vm))
read_word w_char p vm = load_number p 1 vm.heap >>= λ n. ok (some (char_word n, vm))
read_word wcharp p vm = load_number p 8 vm.heap >>= λ n. dup_pointer n vm >>= λ r. ok (some r)
read_word wpointer p vm = load_number p 8 vm.heap >>= λ n. ok (some (pointer_word n, vm))
read_word _ p vm = ok none

-- Where the word goes: a register, the fourth operand, or the stack. Another operand is an error,
-- and the word's string is freed.
unfoldable pub deliver : Word → OrtaVm → InstructionData → Result Control
deliver w vm instr =
    if leb 4 (length instr.operands)
    then (operand instr 3 >>= λ s. elim (register_name_to_enum s) [
      | none ↦ drop_string w vm >>= λ vm'. stop vm'
      | some r ↦ replace_register r w vm >>= λ vm'. ok (break_with vm')
    ])
    else ok (break_with (push_word vm w))

abbrev pub deliver_read : Option (Word × OrtaVm) → OrtaVm → InstructionData → Result Control
deliver_read none vm instr = stop vm
deliver_read (some (w, vm')) vm instr = deliver w vm' instr

unfoldable pub exec_readmem : OrtaVm → InstructionData → Result Control
unfolding address_argument offset_argument type_argument read_word deliver
exec_readmem vm instr = then_with (address_argument vm instr) λ address vm₁.
    then_with (offset_argument vm₁ instr) λ offset vm₂. then_with (type_argument vm₂ instr) λ t vm₃.
      if address == 0
      then stop vm₃
      else (read_word t ((address + offset) % 2 ^ 64) vm₃ >>= λ r. deliver_read r vm₃ instr)

module _ (fl : Floats) where
  -- The value: the fourth operand, or a word popped.
  unfoldable pub value_argument : OrtaVm → InstructionData → Result (Argument Word)
  value_argument vm instr =
      if leb 4 (length instr.operands)
      then (operand instr 3 >>= λ s.
          if is_register s
          then (elim (register_name_to_enum s) [
            | none ↦ fail vm
            | some r ↦ ok (got (register vm r) vm)
          ])
          else if is_number s
          then ok (got (int_word (atoi s)) vm)
          else if is_float fl s
          then ok (got (float_word (fl.atof s)) vm)
          else if is_string s
          then (let (w, vm') = literal s vm in ok (got w vm'))
          else fail vm)
      else (let (w, vm') = pop_word vm in ok (got w vm'))

  abbrev int_value : Word → ℕ
  int_value w =
      if is_type wint w then as_int w else if is_type wfloat w then fl.to_int (as_float w) else 0

  abbrev float_value : Word → ℕ
  float_value w =
      if is_type wfloat w then as_float w else if is_type wint w then fl.of_int (as_int w) else 0

abbrev char_value : Word → ℕ
char_value w = if is_type w_char w then as_char w else if is_type wint w then as_int w % 256 else 0

abbrev pub store_number : ℕ → ℕ → ℕ → OrtaVm → Result OrtaVm
store_number p n v vm = store_bytes p (to_bytes n v) vm.heap >>= λ h. ok (with_heap vm h)

-- The string pointer in the cell is freed, and a copy of the new string is stored.
unfoldable pub write_string : ℕ → Word → OrtaVm → Result OrtaVm
write_string p w vm = do
  old ← load_number p 8 vm.heap
  h ← free old vm.heap
  r ← dup_pointer w.bits (with_heap vm h)
  store_number p 8 ((r.0).bits) (r.1)

-- A value of the wrong type is written as 0, or not at all; `none` is a type the switch does not have.
unfoldable pub write_word : Floats → WordType → ℕ → Word → OrtaVm → Option (Result OrtaVm)
unfolding write_string
write_word fl wint p w vm = some (store_number p 4 (int_value fl w) vm)
write_word fl wfloat p w vm = some (store_number p 4 (float_value fl w) vm)
write_word fl w_char p w vm = some (store_number p 1 (char_value w) vm)
write_word fl wcharp p w vm = some (if is_type wcharp w then write_string p w vm else ok vm)
write_word fl wpointer p w vm =
    some (if is_type wpointer w then store_number p 8 w.bits vm else ok vm)
write_word fl _ p w vm = none

-- A popped string is freed after it was written.
unfoldable pub after_write : Word → InstructionData → Result OrtaVm → Result Control
after_write w instr r = r >>= λ vm.
    (if ltb (length instr.operands) 4 then drop_string w vm else ok vm) >>= λ vm'.
    ok (break_with vm')

unfoldable pub exec_writemem : Floats → OrtaVm → InstructionData → Result Control
unfolding address_argument offset_argument type_argument value_argument write_word after_write
exec_writemem fl vm instr = then_with (address_argument vm instr) λ address vm₁.
    then_with (offset_argument vm₁ instr) λ offset vm₂. then_with (type_argument vm₂ instr) λ t vm₃.
      then_with (value_argument fl vm₃ instr) λ w vm₄.
        if address == 0
        then stop vm₄
        else (elim (write_word fl t ((address + offset) % 2 ^ 64) w vm₄) [
          | none ↦ stop vm₄
          | some r ↦ after_write w instr r
        ])

-- `memcpy` of blocks that overlap is undefined.
abbrev overlap : ℕ → ℕ → ℕ → Bool
overlap p q n = ltb p (q + n) && ltb q (p + n)

unfoldable pub exec_cpymem : OrtaVm → Result OrtaVm
exec_cpymem vm =
    let (w1, vm₁) = pop_word vm in
    let (w2, vm₂) = pop_word vm₁ in
    let (n, vm₃) = pop_word vm₂ in
    let size = int_to_size (as_int n) in
    if is_type wpointer w1 && (is_type wpointer w2 && is_type wint n)
    then (if overlap w1.bits w2.bits size
        then undefined
        else (load_bytes w2.bits size vm₃.heap >>= λ bytes.
            store_bytes w1.bits bytes vm₃.heap >>= λ h. ok (with_heap vm₃ h)))
    else ok vm₃

-- The pointer of operand `k`, or NULL.
abbrev pub pointer_operand : OrtaVm → InstructionData → ℕ → Result ℕ
pointer_operand vm instr k =
    if ltb k (length instr.operands)
    then (operand instr k >>= λ s.
        ok (elim (holds wpointer vm (register_name_to_enum s)) [ none ↦ 0 | some w ↦ w.bits ]))
    else ok 0

abbrev pub size_operand : OrtaVm → InstructionData → Result ℕ
size_operand vm instr =
    if leb 3 (length instr.operands)
    then (operand instr 2 >>= λ s. ok (
        if is_number s
        then int_to_size (atoi s)
        else elim (holds wint vm (register_name_to_enum s)) [
          | none ↦ 0
          | some w ↦ int_to_size (as_int w)
        ]))
    else ok 0

abbrev pub deliver_int : Word → OrtaVm → InstructionData → Result OrtaVm
deliver_int w vm instr =
    if leb 4 (length instr.operands)
    then (operand instr 3 >>= λ s. elim (register_name_to_enum s) [
      | none ↦ ok vm
      | some r ↦ replace_register r w vm
    ])
    else ok (push_word vm w)

unfoldable pub exec_memcmp : Platform → OrtaVm → InstructionData → Result OrtaVm
exec_memcmp pf vm instr = do
  p ← pointer_operand vm instr 0
  q ← pointer_operand vm instr 1
  n ← size_operand vm instr
  (if p == 0 || (q == 0 || n == 0) then ok vm else (do
    s ← load_bytes p n vm.heap
    t ← load_bytes q n vm.heap
    deliver_int (int_word (pf.memcmp s t)) vm instr))
