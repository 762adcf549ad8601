-- ===== src/Run/Sized/Blocks.antt =====
-- The handlers of memory and of libraries.
use orta_vm.Prelude.{ℕ, ◌==◌, refl, Bool, Str, length, if◌then◌else◌, leb, ◌&&◌}
use orta_vm.Result.{ok, eerror, ◌>>=◌}
use orta_vm.Word.{wcharp, is_type, pointer_word}
use orta_vm.Platform.{Platform}
use orta_vm.Program.{InstructionData}
use orta_vm.Register.{is_register, register_name_to_enum}
use orta_vm.Heap.{load_string, free}
use orta_vm.Operand.{is_pointer, unquote}
use orta_vm.Vm.{OrtaVm, operand, push_word, pop_word, register}
use orta_vm.Exec.Push.{replace_register}
use orta_vm.Exec.Alloc.{
  exec_alloc, alloc_operands, alloc_stack, operand_size, scale_by, allocate, block_to_register,
  popped_size, exec_free, free_operand, free_register,
}
use orta_vm.Exec.System.{exec_xcall, call_library, with_flags}
use orta_vm.Flags.{add_flag, flag_external_library}
use orta_vm.Exec.Jump.{cut_operand}
use orta_vm.Result.Ensures.{Ensures, if-Ensures, elim-Ensures, >>=-Ensures, any-Ensures}
use orta_vm.Run.Sized.{IsSized, Keeps, keeps, with_heap-IsSized, same_parts-IsSized}
use orta_vm.Run.Sized.Handlers.{replace_register-Keeps}
use orta_vm.Run.Sized.Words.{cut_operand-IsSized}

-- What a pair of a number and a machine has to keep.
abbrev Second : ℕ × OrtaVm → Type 0
Second r = IsSized (r.1)

module _ (vm : OrtaVm) (v : IsSized vm) where
  scale_by-Ensures : (s : Str) (n : ℕ) → Ensures Second (scale_by vm s n)
  unfolding scale_by
  scale_by-Ensures s n = search keeps depth 14

  operand_size-Ensures : (i : InstructionData) → Ensures Second (operand_size vm i)
  unfolding operand_size
  operand_size-Ensures i = search (keeps, scale_by-Ensures) depth 14

  allocate-Ensures : (n : ℕ) → Ensures Second (allocate n vm)
  unfolding allocate
  allocate-Ensures n = search keeps depth 14

  block_to_register-Keeps : (s : Str) (p : ℕ) → Keeps (block_to_register s p vm)
  unfolding block_to_register Ensures
  block_to_register-Keeps s p =
      if-Ensures IsSized (is_register s) _ (ok vm)
        (elim-Ensures IsSized (register_name_to_enum s) (ok vm)
          (λ r. replace_register r (pointer_word p) vm) v
          λ r. replace_register-Keeps r (pointer_word p) vm v)
        v

  popped_size-Ensures : (n : ℕ) → Ensures Second (popped_size n vm)
  unfolding popped_size
  popped_size-Ensures n = search keeps depth 20

  free_register-Keeps : (r : ℕ) → Keeps (free_register r vm)
  unfolding free_register
  free_register-Keeps r = search keeps depth 12

placed-Keeps :
    (many : Bool) (i : InstructionData) (p : ℕ) (vm : OrtaVm)
    → IsSized vm
    → Keeps (
        if many
        then (operand i 2 >>= λ s. block_to_register s p vm)
        else ok (push_word vm (pointer_word p)))
placed-Keeps many i p vm v = search (keeps, block_to_register-Keeps) depth 12

alloc_operands-Keeps :
    (vm : OrtaVm) → IsSized vm → (i : InstructionData) → Keeps (alloc_operands vm i)
unfolding alloc_operands Ensures
alloc_operands-Keeps vm v i =
    >>=-Ensures IsSized Second (operand_size vm i) _ (operand_size-Ensures vm v i) λ r k.
      if-Ensures IsSized (r.0 == 0) (ok (r.1)) _ k (
        >>=-Ensures IsSized Second (allocate (r.0) (r.1)) _ (allocate-Ensures (r.1) k (r.0))
          λ q l. placed-Keeps (leb 3 (length i.operands)) i (q.0) (q.1) l)

-- The end of `alloc` on the stack: the destination is popped, or the pointer is pushed.
placed_popped-Keeps :
    (many : Bool) (p : ℕ) (vm : OrtaVm)
    → IsSized vm
    → Keeps (
        if many
        then (let (d, vm₃) = pop_word vm in
            if is_type wcharp d
            then (load_string d.bits vm₃.heap >>= λ s. block_to_register s p vm₃)
            else eerror)
        else ok (push_word vm (pointer_word p)))
placed_popped-Keeps many p vm v = search (keeps, block_to_register-Keeps) depth 12

alloc_popped-Keeps :
    (n : ℕ) (vm : OrtaVm)
    → IsSized vm
    → Keeps (
        popped_size n vm >>= λ r.
        if r.0 == 0
        then ok (r.1)
        else (allocate (r.0) (r.1) >>= λ q.
            if leb 3 n
            then (let (d, vm₃) = pop_word (q.1) in
                if is_type wcharp d
                then (load_string d.bits vm₃.heap >>= λ s. block_to_register s (q.0) vm₃)
                else eerror)
            else ok (push_word (q.1) (pointer_word (q.0)))))
unfolding Ensures
alloc_popped-Keeps n vm v =
    >>=-Ensures IsSized Second (popped_size n vm) _ (popped_size-Ensures vm v n) λ r k.
      if-Ensures IsSized (r.0 == 0) (ok (r.1)) _ k (
        >>=-Ensures IsSized Second (allocate (r.0) (r.1)) _ (allocate-Ensures (r.1) k (r.0))
          λ q l. placed_popped-Keeps (leb 3 n) (q.0) (q.1) l)

alloc_stack-Keeps : (vm : OrtaVm) → IsSized vm → Keeps (alloc_stack vm)
unfolding alloc_stack
alloc_stack-Keeps vm v = search (keeps, alloc_popped-Keeps) depth 12

pub exec_alloc-Keeps : (vm : OrtaVm) → IsSized vm → (i : InstructionData) → Keeps (exec_alloc vm i)
unfolding exec_alloc
exec_alloc-Keeps vm v i = search (keeps, alloc_operands-Keeps, alloc_stack-Keeps) depth 8

module _ (pf : Platform) (vm : OrtaVm) (v : IsSized vm) where
  free_operand-Keeps : (s : Str) → Keeps (free_operand pf s vm)
  unfolding free_operand Ensures
  free_operand-Keeps s =
      if-Ensures IsSized (is_register s) _ _
        (elim-Ensures IsSized (register_name_to_enum s) (ok vm) (λ r. free_register r vm) v
          (free_register-Keeps vm v))
        (if-Ensures IsSized (is_pointer s) _ _
          (any-Ensures IsSized (free (pf.strtoull (unquote s)) vm.heap) _ λ h.
            with_heap-IsSized (cut_operand vm vm.xpu.ip 0) h (cut_operand-IsSized vm vm.xpu.ip 0 v))
          v)

  pub exec_free-Keeps : (i : InstructionData) → Keeps (exec_free pf vm i)
  unfolding exec_free
  exec_free-Keeps i = search (keeps, free_operand-Keeps) depth 12

-- A library that is called leaves the registers and the stacks in shape.
abbrev pub LibrariesKeep : Platform → Type 0
LibrariesKeep pf =
    (lib_path func_name : Str) (vm : OrtaVm)
    → IsSized vm
    → Keeps (pf.call_dynlib lib_path func_name vm)

module _ (pf : Platform) (libraries : LibrariesKeep pf) (vm : OrtaVm) (v : IsSized vm) where
  library_called-Keeps : Keeps (
      if is_type wcharp (register vm 1) && is_type wcharp (register vm 2)
      then (do
        lib_path ← load_string ((register vm 1).bits) vm.heap
        func_name ← load_string ((register vm 2).bits) vm.heap
        pf.call_dynlib lib_path func_name vm)
      else eerror)
  library_called-Keeps = search (keeps, libraries) depth 12

  call_library-Keeps : Keeps (call_library pf vm)
  unfolding call_library Ensures
  call_library-Keeps = >>=-Ensures IsSized IsSized _ _ library_called-Keeps λ u k.
      any-Ensures IsSized (add_flag u.meta.flags flag_external_library) _
        λ flags. same_parts-IsSized u (with_flags u flags) refl refl refl k

  pub exec_xcall-Keeps : Keeps (exec_xcall pf vm)
  unfolding exec_xcall
  exec_xcall-Keeps = search (keeps, call_library-Keeps) depth 12
