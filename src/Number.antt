-- ===== src/Number.antt =====
-- The C library's conversions between text and integers, as src/orta.h uses them: `strtol` behind
-- `is_number` and `atoi`, `atoll`, and `printf`'s PRId64. An int64_t is its bit pattern, below
-- 2 ^ 64, and an int is its bit pattern below 2 ^ 32.
pub mod RoundTrip
use orta_vm.Prelude.{
  ℕ, zero, suc, ◌+◌, ◌-◌, ◌*◌, ◌/◌, ◌%◌, ◌^◌, Bool, true, false, List, [], ◌∷◌, ◌++◌, Str, ltb, leb,
  ◌==◌, if◌then◌else◌, isspace, isdigit,
}

abbrev pub two_63 : ℕ
two_63 = 2 ^ 63

abbrev pub two_64 : ℕ
two_64 = 2 ^ 64

unfoldable pub skip_space : Str → Str
skip_space [] = []
skip_space (c ∷ s) = if isspace c then skip_space s else c ∷ s

-- The number that a run of digits stands for, in front of what follows the run.
unfoldable pub read_digits : ℕ → Str → ℕ × Str
read_digits acc [] = (acc, [])
read_digits acc (c ∷ s) =
    let more = read_digits (acc * 10 + (c - 48)) s in if isdigit c then more else (acc, c ∷ s)

-- `strtol` saturates at LONG_MAX, and at LONG_MIN.
abbrev pub saturate : ℕ → ℕ
saturate n = if ltb n two_63 then n else two_63 - 1

abbrev pub saturate_negative : ℕ → ℕ
saturate_negative n = if leb n two_63 then (two_64 - n) % two_64 else two_63

abbrev pub starts_digit : Str → Bool
starts_digit [] = false
starts_digit (c ∷ s) = isdigit c

-- The value, and where the conversion stopped: at the beginning, if there are no digits.
unfoldable pub after_sign : Bool → Str → Str → ℕ × Str
unfolding read_digits
after_sign negative whole s =
    let (n, rest) = read_digits 0 s in
    if starts_digit s
    then (if negative then saturate_negative n else saturate n, rest)
    else (0, whole)

unfoldable pub from_sign : Str → Str → ℕ × Str
unfolding after_sign
from_sign whole [] = (0, whole)
from_sign whole (c ∷ s) =
    if c == b'-'
    then after_sign true whole s
    else if c == b'+'
    then after_sign false whole s
    else after_sign false whole (c ∷ s)

-- `strtol(str, &endptr, 10)`: the value and the text at `endptr`.
unfoldable pub strtol : Str → ℕ × Str
unfolding from_sign skip_space
strtol s = from_sign s (skip_space s)

-- `atoll`, and `atoi`, which keeps the low 32 bits.
unfoldable pub atoll : Str → ℕ
unfolding strtol
atoll s = (strtol s).0

unfoldable pub atoi : Str → ℕ
unfolding strtol
atoi s = (strtol s).0 % 2 ^ 32

abbrev pub is_empty : Str → Bool
is_empty [] = true
is_empty (c ∷ s) = false

unfoldable pub is_number : Str → Bool
unfolding strtol
is_number s = is_empty (strtol s).1

-- Decimal digits, the highest first; `f` digits at most.
unfoldable pub digits : ℕ → ℕ → Str
digits zero n = []
digits (suc f) n =
    let front = digits f (n / 10) in
    if ltb n 10 then (48 + n) ∷ [] else front ++ ((48 + n % 10) ∷ [])

-- `snprintf(s, 32, "%" PRId64, value)`
unfoldable pub print_int64 : ℕ → Str
unfolding digits
print_int64 v = if ltb v two_63 then digits 20 v else b'-' ∷ digits 20 (two_64 - v)
