-- ===== src/Result/Fueled.antt =====
-- Loops on fuel: `none` is that the fuel ran out.
use orta_vm.Prelude.{◌≡◌, ◌≢◌, refl, Bool, true, false, Option, none, some, if◌then◌else◌}
use mathlib.Core.Path.{subst}
use orta_vm.Result.{Result, ok, exit, undefined}
use orta_vm.Result.Ensures.{Ensures}

abbrev pub Fueled : Type 0 → Type 0
Fueled Value = Option (Result Value)

infixl 5 ◌>>=◌
abbrev pub ◌>>=◌ : {Value Next : Type 0} → Fueled Value → (Value → Fueled Next) → Fueled Next
none >>= next = none
some undefined >>= next = some undefined
some (exit status) >>= next = some (exit status)
some (ok value) >>= next = next value

-- A loop that ends, with a value of which this holds if it has one.
unfoldable pub Settles : {Value : Type 0} → (Value → Type 0) → Fueled Value → Type 0
unfolding Ensures
Settles P none = ⊥
Settles P (some r) = Ensures P r

module _ {A : Type 0} (P : A → Type 0) where
  pub Settles-ne-none : (r : Fueled A) → Settles P r → r ≢ none
  unfolding Settles
  Settles-ne-none r h e = subst (Settles P) e h

  pub ok-Settles : (a : A) → P a → Settles P (some (ok a))
  unfolding Settles Ensures
  ok-Settles a p = p

  pub undefined-Settles : Settles P (some undefined)
  unfolding Settles Ensures
  undefined-Settles = tt

  pub some-Settles : (r : Result A) → Ensures P r → Settles P (some r)
  unfolding Settles
  some-Settles r h = h

  -- What the first part settles on is known in the second.
  pub >>=-Settles :
      {B : Type 0} (Q : B → Type 0) (m : Fueled B) (f : B → Fueled A)
      → Settles Q m
      → ((b : B) → Q b → Settles P (f b))
      → Settles P (m >>= f)
  unfolding Settles Ensures
  >>=-Settles Q none f q h = absurd q
  >>=-Settles Q (some undefined) f q h = tt
  >>=-Settles Q (some (exit n)) f q h = tt
  >>=-Settles Q (some (ok b)) f q h = h b q

  pub if-Settles :
      (b : Bool) (m n : Fueled A)
      → (b ≡ true → Settles P m)
      → (b ≡ false → Settles P n)
      → Settles P (if b then m else n)
  if-Settles true m n x y = x refl
  if-Settles false m n x y = y refl

  pub elim-Settles :
      {B : Type 0} (o : Option B) (m : Fueled A) (f : B → Fueled A)
      → (o ≡ none → Settles P m)
      → ((b : B) → o ≡ some b → Settles P (f b))
      → Settles P (elim o [ none ↦ m | some b ↦ f b ])
  elim-Settles none m f x h = x refl
  elim-Settles (some b) m f x h = h b refl
