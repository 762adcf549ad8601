-- ===== src/Result.antt =====
-- How a piece of the machine ends: with a value, with the process gone (`EERROR` and the container
-- library call `exit`), or outside what C defines, such as a read through a dangling pointer.
pub mod Ensures
pub mod Fueled
pub mod Safe
use orta_vm.Prelude.{ℕ, ◌≡◌, refl}

pub data Result {ℓ} (Value : Type ℓ) : Type ℓ where
  undefined : Result Value
  exit : ℕ → Result Value
  ok : Value → Result Value

-- `EERROR` prints a message, frees the machine and calls `exit(1)`.
abbrev pub eerror {ℓ} : {Value : Type ℓ} → Result Value
eerror = exit 1

infixl 5 ◌>>=◌
abbrev pub ◌>>=◌ {ℓ κ} :
    {Value : Type ℓ} {Next : Type κ} → Result Value → (Value → Result Next) → Result Next
undefined >>= next = undefined
exit status >>= next = exit status
ok value >>= next = next value

-- What ends well ended well in its first part.
pub >>=-eq-ok {ℓ κ} :
    {Value : Type ℓ} {Next : Type κ} (r : Result Value) (next : Value → Result Next) {end : Next}
    → (r >>= next) ≡ ok end
    → (value : Value) × (r ≡ ok value) × (next value ≡ ok end)
>>=-eq-ok undefined next h = cc
>>=-eq-ok (exit status) next h = cc
>>=-eq-ok (ok value) next h = (value, refl, h)
