-- ===== src/Run/Sized/Cells.antt =====
-- The handlers that write, copy and compare cells of memory.
use orta_vm.Prelude.{ℕ, ◌+◌, ◌%◌, ◌^◌, ◌==◌, Option, none, some, length, if◌then◌else◌, ltb, leb}
use orta_vm.Result.{Result, ok}
use orta_vm.Word.{Word, WordType, wint, wfloat, wcharp, w_char, wpointer, wbool, unknown, is_type}
use orta_vm.Floats.{Floats}
use orta_vm.Platform.{Platform}
use orta_vm.Program.{InstructionData}
use orta_vm.Register.{register_name_to_enum}
use orta_vm.Vm.{OrtaVm, operand, with_heap, push_word}
use orta_vm.Exec.Push.{replace_register, drop_string}
use orta_vm.Exec.Memory.{
  break_with, address_argument, offset_argument, type_argument, value_argument, write_word,
  write_string, after_write, exec_writemem, exec_cpymem, exec_memcmp, stop, dup_pointer,
  load_number, store_number, deliver_int,
}
use orta_vm.Heap.{free, store_bytes, to_bytes}
use orta_vm.Result.Ensures.{Ensures, if-Ensures, elim-Ensures, ok-Ensures, >>=-Ensures, any-Ensures}
use orta_vm.Run.Sized.{IsSized, Keeps, keeps, push_word-IsSized, with_heap-IsSized}
use orta_vm.Run.Sized.Handlers.{replace_register-Keeps, drop_string-Keeps}
use orta_vm.Run.Sized.Reads.{
  ControlSized, stop-Ensures, break-Sized, then_with-Ensures, address_argument-Ensures,
  offset_argument-Ensures, type_argument-Ensures, value_argument-Ensures, dup_pointer-Ensures,
}

module _ (vm : OrtaVm) (v : IsSized vm) where
  store_number-Keeps : (p n k : ℕ) → Keeps (store_number p n k vm)
  store_number-Keeps p n k = search keeps

  written_string-Keeps : (p : ℕ) (w : Word) → Keeps (write_string p w vm)
  unfolding write_string
  written_string-Keeps p w = any-Ensures IsSized (load_number p 8 vm.heap) _ λ old.
      any-Ensures IsSized (free old vm.heap) _ λ h.
        >>=-Ensures IsSized (λ r. IsSized (r.1)) (dup_pointer w.bits (with_heap vm h)) _
          (dup_pointer-Ensures (with_heap vm h) (with_heap-IsSized vm h v) w.bits)
          λ r k.
            any-Ensures IsSized (store_bytes p (to_bytes 8 ((r.0).bits)) (r.1).heap) _
              λ h'. ok-Ensures IsSized (with_heap (r.1) h') (with_heap-IsSized (r.1) h' k)

-- What is written, if the type is one that can be.
WriteKeeps : Option (Result OrtaVm) → Type 0
WriteKeeps none = Unit
WriteKeeps (some r) = Keeps r

write_word-Keeps :
    (fl : Floats) (t : WordType) (p : ℕ) (w : Word) (vm : OrtaVm)
    → IsSized vm
    → WriteKeeps (write_word fl t p w vm)
unfolding write_word WriteKeeps
write_word-Keeps fl wint p w vm v = store_number-Keeps vm v p 4 _
write_word-Keeps fl wfloat p w vm v = store_number-Keeps vm v p 4 _
write_word-Keeps fl w_char p w vm v = store_number-Keeps vm v p 1 _
write_word-Keeps fl wcharp p w vm v =
    if-Ensures IsSized (is_type wcharp w) _ (ok vm) (written_string-Keeps vm v p w)
      (ok-Ensures IsSized vm v)
write_word-Keeps fl wpointer p w vm v =
    if-Ensures IsSized (is_type wpointer w) _ (ok vm) (store_number-Keeps vm v p 8 _)
      (ok-Ensures IsSized vm v)
write_word-Keeps fl wbool p w vm v = tt
write_word-Keeps fl unknown p w vm v = tt

after_write-Ensures :
    (w : Word) (i : InstructionData) (r : Result OrtaVm)
    → Keeps r
    → Ensures ControlSized (after_write w i r)
unfolding after_write
after_write-Ensures w i r k = >>=-Ensures ControlSized IsSized r _ k λ u l.
    >>=-Ensures ControlSized IsSized (if ltb (length i.operands) 4 then drop_string w u else ok u) _
      (if-Ensures IsSized (ltb (length i.operands) 4) _ _ (drop_string-Keeps w u l)
        (ok-Ensures IsSized u l))
      λ u' l'. ok-Ensures ControlSized (break_with u') (break-Sized u' l')

written-Ensures :
    (o : Option (Result OrtaVm)) (w : Word) (i : InstructionData) (vm : OrtaVm)
    → IsSized vm
    → WriteKeeps o
    → Ensures ControlSized (elim o [ none ↦ stop vm | some r ↦ after_write w i r ])
unfolding WriteKeeps
written-Ensures none w i vm v k = stop-Ensures vm v
written-Ensures (some r) w i vm v k = after_write-Ensures w i r k

pub exec_writemem-Ensures :
    (fl : Floats) (vm : OrtaVm)
    → IsSized vm
    → (i : InstructionData) → Ensures ControlSized (exec_writemem fl vm i)
unfolding exec_writemem
exec_writemem-Ensures fl vm v i =
    then_with-Ensures (address_argument vm i) _ (address_argument-Ensures vm v i) λ address vm₁ v₁.
      then_with-Ensures (offset_argument vm₁ i) _ (offset_argument-Ensures vm₁ v₁ i)
        λ offset vm₂ v₂.
          then_with-Ensures (type_argument vm₂ i) _ (type_argument-Ensures vm₂ v₂ i) λ t vm₃ v₃.
            then_with-Ensures (value_argument fl vm₃ i) _ (value_argument-Ensures vm₃ v₃ i fl)
              λ w vm₄ v₄.
                if-Ensures ControlSized (address == 0) (stop vm₄) _ (stop-Ensures vm₄ v₄) (
                  written-Ensures (write_word fl t ((address + offset) % 2 ^ 64) w vm₄) w i vm₄ v₄
                    (write_word-Keeps fl t ((address + offset) % 2 ^ 64) w vm₄ v₄))

pub exec_cpymem-Keeps : (vm : OrtaVm) → IsSized vm → Keeps (exec_cpymem vm)
unfolding exec_cpymem
exec_cpymem-Keeps vm v = search keeps depth 14

deliver_int-Keeps :
    (w : Word) (vm : OrtaVm) → IsSized vm → (i : InstructionData) → Keeps (deliver_int w vm i)
deliver_int-Keeps w vm v i =
    if-Ensures IsSized (leb 4 (length i.operands)) _ (ok (push_word vm w))
      (any-Ensures IsSized (operand i 3) _ λ s.
        elim-Ensures IsSized (register_name_to_enum s) (ok vm) (λ r. replace_register r w vm)
          (ok-Ensures IsSized vm v) λ r. replace_register-Keeps r w vm v)
      (ok-Ensures IsSized (push_word vm w) (push_word-IsSized vm w v))

pub exec_memcmp-Keeps :
    (pf : Platform) (vm : OrtaVm) → IsSized vm → (i : InstructionData) → Keeps (exec_memcmp pf vm i)
unfolding exec_memcmp
exec_memcmp-Keeps pf vm v i = search (keeps, deliver_int-Keeps) depth 16
