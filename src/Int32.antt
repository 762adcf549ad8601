-- ===== src/Int32.antt =====
-- The `int` arithmetic of src/orta.h on bit patterns below 2 ^ 32. Overflow, which C leaves open, wraps
-- round as the compilers' instructions do, but for the quotient that traps.
pub mod Signed
use orta_vm.Prelude.{
  ℕ, ◌+◌, ◌-◌, ◌*◌, ◌/◌, ◌%◌, ◌^◌, Bool, true, false, ◌&&◌, ◌||◌, ltb, leb, ◌==◌, if◌then◌else◌,
}
use orta_vm.Result.{Result, ok, undefined}

abbrev pub int_min : ℕ
int_min = 2 ^ 31

abbrev pub minus_one : ℕ
minus_one = 2 ^ 32 - 1

unfoldable pub add32 : ℕ → ℕ → ℕ
add32 a b = (a + b) % 2 ^ 32

unfoldable pub sub32 : ℕ → ℕ → ℕ
sub32 a b = (a + 2 ^ 32 - b) % 2 ^ 32

unfoldable pub mul32 : ℕ → ℕ → ℕ
mul32 a b = a * b % 2 ^ 32

abbrev pub is_negative : ℕ → Bool
is_negative a = leb int_min a

abbrev pub magnitude : ℕ → ℕ
magnitude a = if is_negative a then 2 ^ 32 - a else a

abbrev pub with_sign : Bool → ℕ → ℕ
with_sign negative m = if negative then (2 ^ 32 - m) % 2 ^ 32 else m

abbrev pub differ : Bool → Bool → Bool
differ true b = if b then false else true
differ false b = b

-- `/` and `%` cut towards zero; INT_MIN / -1 has no value.
abbrev pub overflows : ℕ → ℕ → Bool
overflows a b = a == int_min && b == minus_one

unfoldable pub div32 : ℕ → ℕ → Result ℕ
div32 a b =
    if b == 0 || overflows a b
    then undefined
    else ok (with_sign (differ (is_negative a) (is_negative b)) (magnitude a / magnitude b))

unfoldable pub mod32 : ℕ → ℕ → Result ℕ
mod32 a b =
    if b == 0 || overflows a b
    then undefined
    else ok (with_sign (is_negative a) (magnitude a % magnitude b))

-- The order of the integers, on the patterns moved by 2 ^ 31.
abbrev pub flip : ℕ → ℕ
flip a = (a + int_min) % 2 ^ 32

unfoldable pub lt32 : ℕ → ℕ → Bool
lt32 a b = ltb (flip a) (flip b)

unfoldable pub le32 : ℕ → ℕ → Bool
le32 a b = leb (flip a) (flip b)

abbrev pub bool_int : Bool → ℕ
bool_int b = if b then 1 else 0
