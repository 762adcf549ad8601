-- ===== src/Int32/Signed.antt =====
-- The patterns against the integers that they stand for.
use orta_vm.Prelude.{ℕ, ◌-◌, ◌^◌, ◌<◌, ◌≡◌, arith, ltb, if◌then◌else◌}
use orta_vm.Prelude.Int.{ℤ, pos, negsuc, ◌+ℤ◌, ◌-ℤ◌, ◌≤ℤ◌, ltb_ℤ}
use orta_vm.Int32.{add32, sub32, lt32}

-- The integer that a pattern stands for.
abbrev pub signed : ℕ → ℤ
signed w = if ltb w (2 ^ 31) then pos w else negsuc (2 ^ 32 - w - 1)

abbrev pub Fits : ℤ → Type 0
Fits z = (negsuc (2 ^ 31 - 1) ≤ℤ z) × (z ≤ℤ pos (2 ^ 31 - 1))

-- On two's complement patterns `add32` is the sum of the integers, when that fits in 32 bits.
pub signed-add32 :
    (a b : ℕ)
    → a < 2 ^ 32
    → b < 2 ^ 32
    → Fits (signed a +ℤ signed b)
    → signed (add32 a b) ≡ signed a +ℤ signed b
unfolding add32 ◌+ℤ◌
signed-add32 a b ha hb f = ground arith

pub signed-sub32 :
    (a b : ℕ)
    → a < 2 ^ 32
    → b < 2 ^ 32
    → Fits (signed a -ℤ signed b)
    → signed (sub32 a b) ≡ signed a -ℤ signed b
unfolding sub32 ◌-ℤ◌
signed-sub32 a b ha hb f = ground arith

-- On two's complement patterns `lt32` is the order of the integers.
pub lt32-signed : (a b : ℕ) → a < 2 ^ 32 → b < 2 ^ 32 → lt32 a b ≡ ltb_ℤ (signed a) (signed b)
unfolding lt32
lt32-signed a b ha hb = ground arith
