-- ===== src/Platform.antt =====
-- What src/orta.h takes from outside: the floats, the parts of the C library whose results C leaves
-- open, and the functions of loaded libraries.
use orta_vm.Prelude.{ℕ, Str, List}
use orta_vm.Result.{Result}
use orta_vm.Floats.{Floats}
use orta_vm.Vm.{OrtaVm}

pub record Platform : Type 0 where
  pub floats : Floats
  -- the `int` that `strcmp` and `memcmp` answer, as a pattern
  pub strcmp : Str → Str → ℕ
  pub memcmp : List ℕ → List ℕ → ℕ
  -- `strtoull(str, NULL, 0)`
  pub strtoull : Str → ℕ
  -- what `printf("%p", p)` writes
  pub show_pointer : ℕ → Str
  -- the address of the array of the stack
  pub stack_address : ℕ
  -- `call_dynlib_function(lib_path, func_name, vm)`
  pub call_dynlib : Str → Str → OrtaVm → Result OrtaVm
