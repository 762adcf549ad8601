-- ===== src/Run/Sized/Reads.antt =====
-- The shape of a machine in the handler that reads cells of memory.
use orta_vm.Prelude.{ℕ, ◌+◌, ◌%◌, ◌^◌, ◌==◌, refl, Option, none, some, length, leb}
use orta_vm.Result.{Result, ok, exit, undefined, ◌>>=◌}
use orta_vm.Word.{
  Word, WordType, wint, wfloat, wcharp, w_char, wpointer, wbool, unknown, int_word, is_type,
  pointer_word, float_word, char_word, string_word, as_int, int_to_size,
}
use orta_vm.Floats.{Floats}
use orta_vm.Program.{InstructionData}
use orta_vm.Register.{is_register, register_name_to_enum}
use orta_vm.Vm.{OrtaVm, operand, pop_word, register}
use orta_vm.Exec.Push.{replace_register, drop_string}
use orta_vm.Exec.Memory.{
  Argument, got, failed, Control, break_with, return_with, memory_error, address_argument,
  offset_argument, type_argument, value_argument, read_word, deliver, exec_readmem, then_with, fail,
  stop, holds, type_of_number, type_popped, dup_pointer, deliver_read, load_number,
}
use orta_vm.Number.{is_number}
use orta_vm.Heap.{strdup}
use orta_vm.Operand.{is_float, is_string}
use orta_vm.Result.Ensures.{Ensures, if-Ensures, >>=-Ensures, any-Ensures}
use orta_vm.Run.Sized.{
  IsSized, push_word-IsSized, pop_word-IsSized, with_heap-IsSized, same_parts-IsSized,
}
use orta_vm.Run.Sized.Handlers.{replace_register-Keeps, drop_string-Keeps}

-- What an argument and a way to end have to keep.
pub ArgumentSized : {A : Type 0} → Argument A → Type 0
ArgumentSized (got a vm) = IsSized vm
ArgumentSized (failed vm) = IsSized vm

unfoldable pub ControlSized : Control → Type 0
ControlSized (break_with vm) = IsSized vm
ControlSized (return_with vm) = IsSized vm

got-Sized : {A : Type 0} (a : A) (vm : OrtaVm) → IsSized vm → ArgumentSized (got a vm)
unfolding ArgumentSized
got-Sized a vm v = v

fail-Ensures : (A : Type 0) (vm : OrtaVm) → IsSized vm → Ensures (ArgumentSized {A = A}) (fail vm)
unfolding ArgumentSized Ensures
fail-Ensures A vm v = same_parts-IsSized vm (memory_error vm) refl refl refl v

pub stop-Ensures : (vm : OrtaVm) → IsSized vm → Ensures ControlSized (stop vm)
unfolding ControlSized Ensures
stop-Ensures vm v = same_parts-IsSized vm (memory_error vm) refl refl refl v

pub break-Sized : (vm : OrtaVm) → IsSized vm → ControlSized (break_with vm)
unfolding ControlSized
break-Sized vm v = v

pub then_with-Ensures :
    {A : Type 0} (r : Result (Argument A)) (k : A → OrtaVm → Result Control)
    → Ensures ArgumentSized r
    → ((a : A) (vm : OrtaVm) → IsSized vm → Ensures ControlSized (k a vm))
    → Ensures ControlSized (then_with r k)
unfolding Ensures ArgumentSized ControlSized
then_with-Ensures (ok (got a vm)) k x h = h a vm x
then_with-Ensures (ok (failed vm)) k x h = x
then_with-Ensures (exit n) k x h = tt
then_with-Ensures undefined k x h = tt

-- A register that holds what is asked for, or the failure.
held-Ensures :
    {A : Type 0} (o : Option Word) (f : Word → A) (vm : OrtaVm)
    → IsSized vm
    → Ensures (ArgumentSized {A = A}) (elim o [ none ↦ fail vm | some w ↦ ok (got (f w) vm) ])
unfolding Ensures ArgumentSized
held-Ensures {A = A} none f vm v = fail-Ensures A vm v
held-Ensures (some w) f vm v = v

module _ (vm : OrtaVm) (v : IsSized vm) (i : InstructionData) where
  pub address_argument-Ensures : Ensures ArgumentSized (address_argument vm i)
  unfolding address_argument Ensures ArgumentSized
  address_argument-Ensures =
      if-Ensures ArgumentSized (length i.operands == 0) _ _
        (if-Ensures ArgumentSized (is_type wpointer (pop_word vm).0) _ _ (pop_word-IsSized vm v)
          (fail-Ensures ℕ (pop_word vm).1 (pop_word-IsSized vm v)))
        (any-Ensures ArgumentSized (operand i 0) _ λ s.
          if-Ensures ArgumentSized (is_register s) _ _
            (held-Ensures (holds wpointer vm (register_name_to_enum s)) (λ w. w.bits) vm v) v)

  pub offset_argument-Ensures : Ensures ArgumentSized (offset_argument vm i)
  unfolding offset_argument Ensures ArgumentSized
  offset_argument-Ensures =
      if-Ensures ArgumentSized (leb (length i.operands) 1) _ _
        (if-Ensures ArgumentSized (is_type wint (pop_word vm).0) _ _ (pop_word-IsSized vm v)
          (fail-Ensures ℕ (pop_word vm).1 (pop_word-IsSized vm v)))
        (any-Ensures ArgumentSized (operand i 1) _ λ s.
          if-Ensures ArgumentSized (is_number s) _ _ v (
            if-Ensures ArgumentSized (is_register s) _ _
              (held-Ensures (holds wint vm (register_name_to_enum s)) (λ w. int_to_size (as_int w))
                vm v)
              v))

  type_popped-Ensures :
      (o : Option WordType) → Ensures ArgumentSized (type_popped o (pop_word vm).1)
  unfolding Ensures ArgumentSized
  type_popped-Ensures none = fail-Ensures WordType (pop_word vm).1 (pop_word-IsSized vm v)
  type_popped-Ensures (some t) = pop_word-IsSized vm v

  pub type_argument-Ensures : Ensures ArgumentSized (type_argument vm i)
  unfolding type_argument Ensures ArgumentSized
  type_argument-Ensures =
      if-Ensures ArgumentSized (leb (length i.operands) 2) _ _
        (if-Ensures ArgumentSized (is_type wint (pop_word vm).0) _ _
          (type_popped-Ensures (type_of_number (as_int (pop_word vm).0)))
          (fail-Ensures WordType (pop_word vm).1 (pop_word-IsSized vm v)))
        (any-Ensures ArgumentSized (operand i 2) _ λ s. v)

  delivered-Ensures :
      (w : Word) (o : Option ℕ)
      → Ensures ControlSized (elim o [
        | none ↦ drop_string w vm >>= λ vm'. stop vm'
        | some r ↦ replace_register r w vm >>= λ vm'. ok (break_with vm')
      ])
  unfolding Ensures ControlSized
  delivered-Ensures w none =
      >>=-Ensures ControlSized IsSized (drop_string w vm) _ (drop_string-Keeps w vm v) stop-Ensures
  delivered-Ensures w (some r) =
      >>=-Ensures ControlSized IsSized (replace_register r w vm) _ (replace_register-Keeps r w vm v)
        λ u k. k

  deliver-Ensures : (w : Word) → Ensures ControlSized (deliver w vm i)
  unfolding deliver Ensures ControlSized
  deliver-Ensures w =
      if-Ensures ControlSized (leb 4 (length i.operands)) _ _
        (any-Ensures ControlSized (operand i 3) _
          λ s. delivered-Ensures w (register_name_to_enum s))
        (push_word-IsSized vm w v)

  pub value_argument-Ensures : (fl : Floats) → Ensures ArgumentSized (value_argument fl vm i)
  unfolding value_argument Ensures ArgumentSized
  value_argument-Ensures fl =
      if-Ensures ArgumentSized (leb 4 (length i.operands)) _ _
        (any-Ensures ArgumentSized (operand i 3) _ λ s.
          if-Ensures ArgumentSized (is_register s) _ _ (by_register (register_name_to_enum s)) (
            if-Ensures ArgumentSized (is_number s) _ _ v (
              if-Ensures ArgumentSized (is_float fl s) _ _ v (
                if-Ensures ArgumentSized (is_string s) _ _ (with_heap-IsSized vm _ v)
                  (fail-Ensures Word vm v)))))
        (pop_word-IsSized vm v)
    where
      by_register :
          (o : Option ℕ)
          → Ensures
              (ArgumentSized {A = Word})
              (elim o [ none ↦ fail vm | some r ↦ ok (got (register vm r) vm) ])
      by_register none = fail-Ensures Word vm v
      by_register (some r) = v

-- A word that was read goes with a machine in shape.
ReadSized : Option (Word × OrtaVm) → Type 0
ReadSized none = Unit
ReadSized (some r) = IsSized (r.1)

module _ (vm : OrtaVm) (v : IsSized vm) where
  pub dup_pointer-Ensures : (p : ℕ) → Ensures (λ r. IsSized (r.1)) (dup_pointer p vm)
  unfolding Ensures
  dup_pointer-Ensures p =
      if-Ensures (λ r. IsSized (r.1)) (p == 0) (ok (string_word 0, vm)) _ v
        (any-Ensures (λ r. IsSized (r.1)) (strdup p vm.heap) _ λ r. with_heap-IsSized vm (r.1) v)

  read_word-Ensures : (t : WordType) (p : ℕ) → Ensures ReadSized (read_word t p vm)
  unfolding read_word Ensures ReadSized
  read_word-Ensures wint p =
      any-Ensures ReadSized (load_number p 4 vm.heap) (λ n. ok (some (int_word n, vm))) λ n. v
  read_word-Ensures wfloat p =
      any-Ensures ReadSized (load_number p 4 vm.heap) (λ n. ok (some (float_word n, vm))) λ n. v
  read_word-Ensures w_char p =
      any-Ensures ReadSized (load_number p 1 vm.heap) (λ n. ok (some (char_word n, vm))) λ n. v
  read_word-Ensures wcharp p =
      any-Ensures ReadSized (load_number p 8 vm.heap) (λ n. dup_pointer n vm >>= λ r. ok (some r))
        λ n.
          >>=-Ensures ReadSized (λ r. IsSized (r.1)) (dup_pointer n vm) (λ r. ok (some r))
            (dup_pointer-Ensures n) λ r k. k
  read_word-Ensures wpointer p =
      any-Ensures ReadSized (load_number p 8 vm.heap) (λ n. ok (some (pointer_word n, vm))) λ n. v
  read_word-Ensures wbool p = tt
  read_word-Ensures unknown p = tt

deliver_read-Ensures :
    (o : Option (Word × OrtaVm)) (vm : OrtaVm) (i : InstructionData)
    → IsSized vm
    → ReadSized o
    → Ensures ControlSized (deliver_read o vm i)
unfolding ReadSized
deliver_read-Ensures none vm i v k = stop-Ensures vm v
deliver_read-Ensures (some (w, u)) vm i v k = deliver-Ensures u k i w

pub exec_readmem-Ensures :
    (vm : OrtaVm) → IsSized vm → (i : InstructionData) → Ensures ControlSized (exec_readmem vm i)
unfolding exec_readmem
exec_readmem-Ensures vm v i =
    then_with-Ensures (address_argument vm i) _ (address_argument-Ensures vm v i) λ address vm₁ v₁.
      then_with-Ensures (offset_argument vm₁ i) _ (offset_argument-Ensures vm₁ v₁ i)
        λ offset vm₂ v₂.
          then_with-Ensures (type_argument vm₂ i) _ (type_argument-Ensures vm₂ v₂ i) λ t vm₃ v₃.
            if-Ensures ControlSized (address == 0) (stop vm₃) _ (stop-Ensures vm₃ v₃) (
              >>=-Ensures ControlSized ReadSized (read_word t ((address + offset) % 2 ^ 64) vm₃) _
                (read_word-Ensures vm₃ v₃ t ((address + offset) % 2 ^ 64))
                λ o k. deliver_read-Ensures o vm₃ i v₃ k)
