-- ===== src/Nyva/Emit/Decimal.antt =====
-- An `int` that the compiler of src/nyva.c prints is read back by the machine of src/orta.h.
use orta_vm.Prelude.{
  ℕ, zero, suc, ◌+◌, ◌-◌, ◌/◌, ◌%◌, ◌^◌, ◌<◌, ◌≤◌, ◌≡◌, sym, ap, ◌∙◌, arith, true, false, [], ◌∷◌,
  ◌++◌, ltb, if◌then◌else◌, Bool-cases, inl, inr,
}
use orta_vm.Number.{digits, strtol, print_int64, is_number, is_empty, atoi, two_63, two_64}
use orta_vm.Number.RoundTrip.{strtol-print_int64}
use orta_vm.Nyva.Emit.{print_int32}

-- More places than there are digits add none.
digits-wider : (f k n : ℕ) → 0 < f → f ≤ k → n < 10 ^ f → digits k n ≡ digits f n
unfolding digits
digits-wider zero k n p le h = absurd (omega (arith, p))
digits-wider (suc f) zero n p le h = absurd (omega (arith, le))
digits-wider (suc zero) (suc k) n p le h = ground (arith, h)
digits-wider (suc (suc f)) (suc k) n p le h =
    ap (λ d. if ltb n 10 then (48 + n) ∷ [] else d ++ ((48 + n % 10) ∷ []))
      (digits-wider (suc f) k (n / 10) (omega arith) (omega (arith, le)) (omega (arith, h)))

-- An `int` printed as a 64-bit integer.
widened : ℕ → ℕ
widened n = if ltb n (2 ^ 31) then n else n + (2 ^ 64 - 2 ^ 32)

print_int32-print_int64 : (n : ℕ) → n < 2 ^ 32 → print_int32 n ≡ print_int64 (widened n)
unfolding print_int32 print_int64 widened
print_int32-print_int64 n h = elim (Bool-cases (ltb n (2 ^ 31))) [
  | inl e ↦
      let small : ltb n two_63 ≡ true = ground (arith, e) in
      rw e (rw small (sym (digits-wider 10 20 n (omega arith) (omega arith) (ground (arith, e)))))
  | inr e ↦
      let large : ltb (n + (2 ^ 64 - 2 ^ 32)) two_63 ≡ false = ground arith in
      let same : two_64 - (n + (2 ^ 64 - 2 ^ 32)) ≡ 2 ^ 32 - n = omega (arith, h) in
      rw e (
        rw large (
          rw same (
            ap (λ d. b'-' ∷ d)
              (sym (
                digits-wider 10 20 (2 ^ 32 - n) (omega arith) (omega arith) (ground (arith, e)))))))
]

-- The text of an `int` is read back by the machine.
strtol-print_int32 : (n : ℕ) → n < 2 ^ 32 → strtol (print_int32 n) ≡ (widened n, [])
unfolding widened
strtol-print_int32 n h =
    ap strtol (print_int32-print_int64 n h) ∙ strtol-print_int64 (widened n) (ground (arith, h))

pub is_number-print_int32 : (n : ℕ) → n < 2 ^ 32 → is_number (print_int32 n) ≡ true
unfolding is_number
is_number-print_int32 n h = ap (λ x. is_empty x.1) (strtol-print_int32 n h)

pub atoi-print_int32 : (n : ℕ) → n < 2 ^ 32 → atoi (print_int32 n) ≡ n
unfolding atoi widened
atoi-print_int32 n h = ap (λ x. x.0 % 2 ^ 32) (strtol-print_int32 n h) ∙ ground (arith, h)
