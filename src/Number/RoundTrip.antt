-- ===== src/Number/RoundTrip.antt =====
-- Reading back what PRId64 prints.
use native.Mathlib.Nat.{pow-suc}
use mathlib.Core.List.{append_assoc, append-nil}
use orta_vm.Prelude.{
  ℕ, zero, suc, ◌+◌, ◌*◌, ◌/◌, ◌%◌, ◌^◌, ◌-◌, ◌<◌, ◌≡◌, Bool, true, false, arith, [], ◌∷◌, ◌++◌,
  Str, ltb, isdigit, if◌then◌else◌, Bool-cases, inl, inr, ap, sym, ◌∙◌,
}
use orta_vm.Number.{
  two_63, two_64, read_digits, digits, print_int64, strtol, after_sign, from_sign, skip_space,
  starts_digit, saturate, saturate_negative, is_number, atoll, is_empty,
}

-- One more digit.
read_digit :
    (acc d : ℕ) (t : Str) → d < 10 → read_digits acc ((48 + d) ∷ t) ≡ read_digits (acc * 10 + d) t
unfolding read_digits
read_digit acc d t h = ground (arith, ap (λ x. read_digits x t) shift)
  where
    shift : acc * 10 + (48 + d - 48) ≡ acc * 10 + d
    shift = omega arith

pub read_digits-digits :
    (f n : ℕ) (t : Str) → n < 10 ^ f → read_digits 0 (digits f n ++ t) ≡ read_digits n t
unfolding digits
read_digits-digits zero n t h = ap (λ x. read_digits x t) zero_only
  where
    zero_only : 0 ≡ n
    zero_only = omega arith
read_digits-digits (suc f) n t h = elim (Bool-cases (ltb n 10)) [
  | inl small ↦ rw small (read_digit 0 n t (ground arith) ∙ ap (λ x. read_digits x t) (omega arith))
  | inr large ↦
      rw (large, append_assoc)
        (read_digits-digits f (n / 10) ((48 + n % 10) ∷ t) (omega (arith, pow-suc 10 f))
          ∙ read_digit (n / 10) (n % 10) t (omega arith)
          ∙ ap (λ x. read_digits x t) (omega arith))
]

-- A printed number begins with a digit.
pub digits-head :
    (f n : ℕ)
    → n < 10 ^ suc f
    → (c : ℕ) × (r : Str) × (digits (suc f) n ≡ c ∷ r) × (isdigit c ≡ true)
unfolding digits
digits-head zero n h = (48 + n, [], ground arith, ground arith)
digits-head (suc f) n h = elim (Bool-cases (ltb n 10)) [
  | inl small ↦ (48 + n, [], rw small, ground arith)
  | inr large ↦
      let (c, r, e, d) = digits-head f (n / 10) (omega (arith, pow-suc 10 (suc f))) in
      (c, r ++ ((48 + n % 10) ∷ []), (rw (large, ap (λ x. x ++ ((48 + n % 10) ∷ [])) e)), d)
]

read_all_digits : (n : ℕ) → n < 10 ^ 20 → read_digits 0 (digits 20 n) ≡ (n, [])
unfolding read_digits
read_all_digits n h =
    ap (read_digits 0) (sym (append-nil (digits 20 n))) ∙ read_digits-digits 20 n [] h

digits-starts_digit : (n : ℕ) → n < 10 ^ 20 → starts_digit (digits 20 n) ≡ true
digits-starts_digit n h = let (c, r, e, d) = digits-head 19 n h in rw e d

-- `strtol` on the digits of a number, after the sign.
after_sign-digits :
    (negative : Bool) (whole : Str) (n : ℕ)
    → n < 10 ^ 20
    → after_sign negative whole (digits 20 n)
      ≡ (if negative then saturate_negative n else saturate n, [])
unfolding after_sign
after_sign-digits negative whole n h = rw (digits-starts_digit n h, read_all_digits n h)

-- A text that begins with a digit has no blanks to skip and no sign.
from_sign-digit :
    (whole : Str) (c : ℕ) (r : Str)
    → isdigit c ≡ true
    → from_sign whole (skip_space (c ∷ r)) ≡ after_sign false whole (c ∷ r)
unfolding from_sign skip_space
from_sign-digit whole c r h = ground arith

from_sign-digits :
    (whole : Str) (n : ℕ)
    → n < 10 ^ 20
    → from_sign whole (skip_space (digits 20 n)) ≡ after_sign false whole (digits 20 n)
from_sign-digits whole n h =
    let (c, r, e, d) = digits-head 19 n h in rw e (from_sign-digit whole c r d)

-- `strtol` reads back a non-negative and a negative value that PRId64 has printed.
strtol-digits : (n : ℕ) → n < two_63 → strtol (digits 20 n) ≡ (n, [])
unfolding strtol
strtol-digits n h =
    from_sign-digits (digits 20 n) n (omega arith)
    ∙ after_sign-digits false (digits 20 n) n (omega arith)
    ∙ ground arith

strtol-minus : (n : ℕ) → n < two_64 → strtol (b'-' ∷ digits 20 n) ≡ (saturate_negative n, [])
unfolding strtol from_sign skip_space
strtol-minus n h = after_sign-digits true (b'-' ∷ digits 20 n) n (omega arith)

-- Printing a 64-bit integer, given as its pattern below 2 ^ 64, and reading the text with `strtol`
-- gives the integer back and leaves no text.
pub strtol-print_int64 : (v : ℕ) → v < two_64 → strtol (print_int64 v) ≡ (v, [])
unfolding print_int64
strtol-print_int64 v h = ground (arith, strtol-digits v, strtol-minus (two_64 - v))

pub is_number-print_int64 : (v : ℕ) → v < two_64 → is_number (print_int64 v) ≡ true
unfolding is_number
is_number-print_int64 v h = ap (λ x. is_empty x.1) (strtol-print_int64 v h)

pub atoll-print_int64 : (v : ℕ) → v < two_64 → atoll (print_int64 v) ≡ v
unfolding atoll
atoll-print_int64 v h = ap (λ x. x.0) (strtol-print_int64 v h)
