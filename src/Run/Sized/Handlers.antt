-- ===== src/Run/Sized/Handlers.antt =====
-- The handlers on words, by their file.
use Prim.Native.Nat.{bit_xor}
use orta_vm.Prelude.{ℕ, Bool, Option, none, some, Str}
use orta_vm.Result.{ok, eerror}
use orta_vm.Word.{Word, as_int, int_word, wint}
use orta_vm.Floats.{Floats}
use orta_vm.Int32.{lt32, le32}
use orta_vm.Program.{InstructionData}
use orta_vm.Register.{is_register, register_name_to_enum}
use orta_vm.Vm.{OrtaVm, operand, with_register, push_word, pop_word, register}
use orta_vm.Exec.Arith.{
  exec_mod, exec_or, exec_and, exec_mul, exec_div, exec_not, xor_registers, exec_xor, exec_add,
  exec_sub, add_registers, sub_registers, source_word, both, store_sum, store_difference,
}
use orta_vm.Exec.Compare.{exec_eq, exec_ne, exec_lt, exec_gt, exec_le, exec_ge, exec_order}
use orta_vm.Exec.Push.{
  exec_push, push_operand, exec_mov, mov_to, exec_pop, pop_to, exec_load, load_register, exec_store,
  store_register, replace_register, drop_string,
}
use orta_vm.Result.Ensures.{Ensures, if-Ensures, elim-Ensures, >>=-Ensures, any-Ensures}
use orta_vm.Run.Sized.{
  IsSized, Keeps, keeps, push_word-IsSized, pop_word-IsSized, with_register-IsSized, if-IsSized,
}

pub drop_string-Keeps : (w : Word) (vm : OrtaVm) → IsSized vm → Keeps (drop_string w vm)
drop_string-Keeps w vm v = search keeps

pub replace_register-Keeps :
    (r : ℕ) (w : Word) (vm : OrtaVm) → IsSized vm → Keeps (replace_register r w vm)
unfolding Ensures
replace_register-Keeps r w vm v =
    >>=-Ensures IsSized IsSized (drop_string (register vm r) vm) _
      (drop_string-Keeps (register vm r) vm v) (λ u k. with_register-IsSized u r w k)

module _ (vm : OrtaVm) (v : IsSized vm) where
  pub exec_mod-Keeps : Keeps (exec_mod vm)
  unfolding exec_mod
  exec_mod-Keeps = search keeps

  pub exec_or-Keeps : Keeps (exec_or vm)
  unfolding exec_or
  exec_or-Keeps = search keeps

  pub exec_and-Keeps : Keeps (exec_and vm)
  unfolding exec_and
  exec_and-Keeps = search keeps

  xor_registers-IsSized : (a b : Option ℕ) → IsSized (xor_registers vm a b)
  unfolding xor_registers
  xor_registers-IsSized none b = v
  xor_registers-IsSized (some a) none = v
  xor_registers-IsSized (some a) (some b) =
      if-IsSized (both wint (register vm a) (register vm b))
        (with_register vm a (int_word (bit_xor (as_int (register vm a)) (as_int (register vm b)))))
        vm (with_register-IsSized vm a _ v) v

  pub exec_xor-Keeps : (i : InstructionData) → Keeps (exec_xor vm i)
  unfolding exec_xor
  exec_xor-Keeps i = search (keeps, xor_registers-IsSized) depth 12

module _ (fl : Floats) (vm : OrtaVm) (v : IsSized vm) where
  pub exec_mul-Keeps : Keeps (exec_mul fl vm)
  unfolding exec_mul
  exec_mul-Keeps = search keeps

  pub exec_div-Keeps : Keeps (exec_div fl vm)
  unfolding exec_div
  exec_div-Keeps = search keeps

  pub exec_not-Keeps : Keeps (exec_not fl vm)
  unfolding exec_not
  exec_not-Keeps = search keeps

  pub exec_eq-Keeps : Keeps (exec_eq fl vm)
  unfolding exec_eq
  exec_eq-Keeps = search keeps depth 10

  pub exec_ne-Keeps : Keeps (exec_ne fl vm)
  unfolding exec_ne
  exec_ne-Keeps = search keeps depth 10

  pub exec_order-Keeps : (f g : ℕ → ℕ → Bool) → Keeps (exec_order f g fl vm)
  unfolding exec_order
  exec_order-Keeps f g = search keeps depth 10

  push_operand-Keeps : (s : Str) → Ensures (λ r. IsSized r.1) (push_operand fl s vm)
  unfolding push_operand
  push_operand-Keeps s = search keeps depth 12

  pub exec_push-Keeps : (i : InstructionData) → Keeps (exec_push fl vm i)
  unfolding exec_push Ensures
  exec_push-Keeps i = any-Ensures IsSized (operand i 0) _ λ s.
      >>=-Ensures IsSized (λ r. IsSized r.1) (push_operand fl s vm) _ (push_operand-Keeps s)
        (λ r k. push_word-IsSized (r.1) (r.0) k)

  mov_to-Keeps : (s : Str) (r : ℕ) → Keeps (mov_to fl s r vm)
  unfolding mov_to
  mov_to-Keeps s r = search (keeps, replace_register-Keeps) depth 14

  pub exec_mov-Keeps : (i : InstructionData) → Keeps (exec_mov fl vm i)
  unfolding exec_mov Ensures
  exec_mov-Keeps i = any-Ensures IsSized (operand i 0) _ λ src.
      any-Ensures IsSized (operand i 1) _ λ dst.
        elim-Ensures IsSized (register_name_to_enum dst) (ok vm) (λ r. mov_to fl src r vm) v
          (mov_to-Keeps src)

  store_sum-Keeps : (r : ℕ) (o : Option Word) → Keeps (store_sum fl vm r o)
  unfolding Ensures
  store_sum-Keeps r none = tt
  store_sum-Keeps r (some w) = with_register-IsSized vm r w v

  store_difference-Keeps : (r : ℕ) (o : Option Word) → Keeps (store_difference fl vm r o)
  unfolding Ensures
  store_difference-Keeps r none = v
  store_difference-Keeps r (some w) = with_register-IsSized vm r w v

  add_registers-Keeps : (a b : Str) → Keeps (add_registers fl vm a b)
  unfolding add_registers Ensures
  add_registers-Keeps a b = elim-Ensures IsSized (source_word fl vm b) eerror _ tt λ r.
      any-Ensures IsSized r _
        λ w. elim-Ensures IsSized (register_name_to_enum a) (ok vm) _ v λ d. store_sum-Keeps d _

  sub_registers-Keeps : (a b : Str) → Keeps (sub_registers fl vm a b)
  unfolding sub_registers Ensures
  sub_registers-Keeps a b = elim-Ensures IsSized (source_word fl vm b) (ok vm) _ v λ r.
      any-Ensures IsSized r _ λ w.
        elim-Ensures IsSized (register_name_to_enum a) (ok vm) _ v λ d. store_difference-Keeps d _

  pub exec_add-Keeps : (i : InstructionData) → Keeps (exec_add fl vm i)
  unfolding exec_add
  exec_add-Keeps i = search (keeps, add_registers-Keeps) depth 12

  pub exec_sub-Keeps : (i : InstructionData) → Keeps (exec_sub fl vm i)
  unfolding exec_sub
  exec_sub-Keeps i = search (keeps, sub_registers-Keeps) depth 12

module _ (vm : OrtaVm) (v : IsSized vm) where
  pop_to-Keeps : (r : ℕ) → Keeps (pop_to r vm)
  unfolding pop_to Ensures
  pop_to-Keeps r =
      >>=-Ensures IsSized IsSized (drop_string (register vm r) vm) _
        (drop_string-Keeps (register vm r) vm v)
        (λ u k. with_register-IsSized (pop_word u).1 r (pop_word u).0 (pop_word-IsSized u k))

  pub exec_pop-Keeps : (i : InstructionData) → Keeps (exec_pop vm i)
  unfolding exec_pop Ensures
  exec_pop-Keeps i =
      any-Ensures IsSized (operand i 0) _ λ s.
        elim-Ensures IsSized (register_name_to_enum s) eerror (λ r. pop_to r vm) tt pop_to-Keeps

  pub exec_load-Keeps : (i : InstructionData) → Keeps (exec_load vm i)
  unfolding exec_load load_register Ensures
  exec_load-Keeps i = any-Ensures IsSized (operand i 0) _ λ s. loaded s
    where
      by_enum :
          (o : Option ℕ) → IsSized (elim o [ none ↦ vm | some r ↦ push_word vm (register vm r) ])
      by_enum none = v
      by_enum (some r) = push_word-IsSized vm (register vm r) v

      loaded : (s : Str) → IsSized (load_register vm s)
      loaded s = if-IsSized (is_register s) _ vm (by_enum (register_name_to_enum s)) v

  store_register-Keeps : (w : Word) (s : Str) → Keeps (store_register w s vm)
  unfolding store_register Ensures
  store_register-Keeps w s =
      if-Ensures IsSized (is_register s) _ (ok vm)
        (elim-Ensures IsSized (register_name_to_enum s) (ok vm) _ v
          λ r. replace_register-Keeps r w vm v)
        v

pub exec_store-Keeps : (vm : OrtaVm) → IsSized vm → (i : InstructionData) → Keeps (exec_store vm i)
unfolding exec_store Ensures
exec_store-Keeps vm v i =
    any-Ensures IsSized (operand i 0) _
      λ s. store_register-Keeps (pop_word vm).1 (pop_word-IsSized vm v) (pop_word vm).0 s

module _ (fl : Floats) (vm : OrtaVm) (v : IsSized vm) where
  pub exec_lt-Keeps : Keeps (exec_lt fl vm)
  unfolding exec_lt
  exec_lt-Keeps = exec_order-Keeps fl vm v lt32 fl.lt

  pub exec_gt-Keeps : Keeps (exec_gt fl vm)
  unfolding exec_gt
  exec_gt-Keeps = exec_order-Keeps fl vm v (λ a b. lt32 b a) (λ a b. fl.lt b a)

  pub exec_le-Keeps : Keeps (exec_le fl vm)
  unfolding exec_le
  exec_le-Keeps = exec_order-Keeps fl vm v le32 fl.le

  pub exec_ge-Keeps : Keeps (exec_ge fl vm)
  unfolding exec_ge
  exec_ge-Keeps = exec_order-Keeps fl vm v (λ a b. le32 b a) (λ a b. fl.le b a)
