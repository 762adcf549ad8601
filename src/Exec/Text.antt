-- ===== src/Exec/Text.antt =====
-- The handlers that make or print texts: `print`, `merge`, `here`, `ovm`, and `hmerge`.
use orta_vm.Prelude.{ℕ, List, [], ◌∷◌, ◌++◌, Str, codes, length, ltb, if◌then◌else◌, str_eq, ◌==◌}
use orta_vm.Result.{Result, ok, undefined, eerror, ◌>>=◌}
use orta_vm.Number.{digits, print_int64}
use orta_vm.Operand.{is_string, unquote}
use orta_vm.Heap.{load_string, new_string}
use orta_vm.Word.{
  Word, WordType, wint, wfloat, wcharp, w_char, wpointer, is_type, as_int, as_float, as_char,
  int_to_size, int_word, string_word, pointer_word,
}
use orta_vm.Stack.{count}
use orta_vm.Program.{InstructionData}
use orta_vm.Platform.{Platform}
use orta_vm.Vm.{OrtaVm, operand, with_heap, push_word, pop_word, print_line}
use orta_vm.Exec.Jump.{cut_last}
use orta_vm.Exec.Arith.{pop_two, both}

-- A new string, pushed.
abbrev pub push_string : OrtaVm → Str → OrtaVm
push_string vm s = let (p, h) = new_string s vm.heap in push_word (with_heap vm h) (string_word p)

-- The operands, the quoted ones without their quotes, with a blank behind each.
unfoldable pub join_operands : List Str → Str
join_operands [] = []
join_operands (s ∷ rest) = (if is_string s then unquote s else s) ++ (32 ∷ join_operands rest)

-- `hmerge` writes into 256 bytes with no check, the terminator included; then the last blank goes.
unfoldable pub hmerge : List Str → Result Str
unfolding join_operands
hmerge operands =
    let s = join_operands operands in if ltb (length s) 256 then ok (cut_last s) else undefined

-- `printf("%d", n)`
abbrev pub print_int : ℕ → Str
print_int n = print_int64 (int_to_size n)

module _ (pf : Platform) where
  -- What `print` writes for the word that it pops; a `bool` prints nothing.
  unfoldable pub print_popped : WordType → Word → OrtaVm → Result OrtaVm
  print_popped wint w vm = ok (print_line vm (print_int (as_int w)))
  print_popped wfloat w vm = ok (print_line vm (pf.floats.show (as_float w)))
  print_popped wcharp w vm = do s ← load_string w.bits vm.heap; ok (print_line vm s)
  print_popped w_char w vm = ok (print_line vm (as_char w ∷ []))
  print_popped wpointer w vm = ok (print_line vm (pf.show_pointer w.bits))
  print_popped _ w vm = ok vm

  unfoldable pub exec_print : OrtaVm → InstructionData → Result OrtaVm
  unfolding print_popped hmerge
  exec_print vm instr =
      if length instr.operands == 0
      then (let (w, vm') = pop_word vm in print_popped w.type w vm')
      else (hmerge instr.operands >>= λ s. ok (print_line vm s))

  abbrev ovm_query : OrtaVm → Str → OrtaVm
  ovm_query vm arg =
      if str_eq arg (codes "stack_size")
      then push_word vm (int_word (count vm.xpu.stack))
      else if str_eq arg (codes "stack_ptr")
      then push_word vm (pointer_word pf.stack_address)
      else if str_eq arg (codes "platform")
      then push_string vm (codes "unix")
      else vm

  -- With the operand `stack` the query is a string popped from the stack.
  unfoldable pub exec_ovm : OrtaVm → InstructionData → Result OrtaVm
  exec_ovm vm instr = do
    arg ← operand instr 0
    (if str_eq arg (codes "stack")
        then (let (w, vm') = pop_word vm in
            if is_type wcharp w
            then (load_string w.bits vm.heap >>= λ s. ok (ovm_query vm' s))
            else eerror)
        else ok (ovm_query vm arg))

unfoldable pub exec_merge : OrtaVm → InstructionData → Result OrtaVm
unfolding hmerge
exec_merge vm instr =
    if length instr.operands == 0
    then (let (w1, w2, vm') = pop_two vm in
        if both wcharp w1 w2
        then (do
          s1 ← load_string w1.bits vm.heap
          s2 ← load_string w2.bits vm.heap
          ok (push_string vm' (s2 ++ (32 ∷ s1))))
        else ok vm')
    else (hmerge instr.operands >>= λ s. ok (push_string vm s))

-- `format("%s:%zu", filename, line)`
unfoldable pub exec_here : OrtaVm → InstructionData → Result OrtaVm
exec_here vm instr = ok (push_string vm (vm.program.filename ++ (b':' ∷ digits 20 instr.line)))
