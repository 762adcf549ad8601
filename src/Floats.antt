-- ===== src/Floats.antt =====
-- What src/orta.h uses of the C compiler's `float` and of the library's conversions of it. A float
-- is its 32 bits; the arithmetic on them is a parameter of the definitions.
use orta_vm.Prelude.{ℕ, Bool, Str}

pub record Floats : Type 0 where
  pub add : ℕ → ℕ → ℕ
  pub sub : ℕ → ℕ → ℕ
  pub mul : ℕ → ℕ → ℕ
  pub div : ℕ → ℕ → ℕ
  pub eq : ℕ → ℕ → Bool
  pub lt : ℕ → ℕ → Bool
  pub le : ℕ → ℕ → Bool
  -- `(float) i` and `(int) f`, on the bits of an int
  pub of_int : ℕ → ℕ
  pub to_int : ℕ → ℕ
  -- the text at `endptr` after `strtod(str, &endptr)`
  pub strtod_end : Str → Str
  -- `(float) atof(str)`
  pub atof : Str → ℕ
  -- what `printf("%f", f)` writes
  pub show : ℕ → Str
