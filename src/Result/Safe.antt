-- ===== src/Result/Safe.antt =====
-- Loops on fuel that end: what holds of the value if there is one, and what is known if a part of them is
-- undefined.
pub mod Chain
use orta_vm.Prelude.{ℕ, ◌≡◌, ◌≢◌, refl, Bool, true, false, Option, none, some}
use mathlib.Core.Path.{subst}
use orta_vm.Result.{Result, ok, exit, undefined}
use orta_vm.Result.Fueled.{Fueled, ◌>>=◌}

-- It ends: with a value of which `P` holds, by `exit`, or, only if `U` holds, outside of what C defines.
unfoldable pub Safe : {A : Type 0} → Type 0 → (A → Type 0) → Fueled A → Type 0
Safe U P none = ⊥
Safe U P (some undefined) = U
Safe U P (some (exit status)) = Unit
Safe U P (some (ok a)) = P a

module _ {A : Type 0} (U : Type 0) (P : A → Type 0) where
  pub Safe-ne-none : (r : Fueled A) → Safe U P r → r ≢ none
  unfolding Safe
  Safe-ne-none r h e = subst (Safe U P) e h

  pub Safe-undefined : (r : Fueled A) → Safe U P r → r ≡ some undefined → U
  unfolding Safe
  Safe-undefined r h e = subst (Safe U P) e h

  pub Safe-ok : (r : Fueled A) (a : A) → Safe U P r → r ≡ some (ok a) → P a
  unfolding Safe
  Safe-ok r a h e = subst (Safe U P) e h

  pub ok-Safe : (a : A) → P a → Safe U P (some (ok a))
  unfolding Safe
  ok-Safe a p = p

  pub exit-Safe : (status : ℕ) → Safe U P (some (exit status))
  unfolding Safe
  exit-Safe status = tt

  pub undefined-Safe : U → Safe U P (some undefined)
  unfolding Safe
  undefined-Safe u = u

  -- What the first part ends with is known in the second.
  pub >>=-Safe :
      {B : Type 0} (Q : B → Type 0) (m : Fueled B) (f : B → Fueled A)
      → Safe U Q m
      → ((b : B) → Q b → Safe U P (f b))
      → Safe U P (m >>= f)
  unfolding Safe
  >>=-Safe Q none f q h = q
  >>=-Safe Q (some undefined) f q h = q
  >>=-Safe Q (some (exit status)) f q h = tt
  >>=-Safe Q (some (ok b)) f q h = h b q

  pub test-Safe :
      (b : Bool) (m n : Fueled A)
      → (b ≡ true → Safe U P m)
      → (b ≡ false → Safe U P n)
      → Safe U P (elim b [ true ↦ m | false ↦ n ])
  test-Safe true m n x y = x refl
  test-Safe false m n x y = y refl

  pub option-Safe :
      {B : Type 0} (o : Option B) (m : Fueled A) (f : B → Fueled A)
      → (o ≡ none → Safe U P m)
      → ((b : B) → o ≡ some b → Safe U P (f b))
      → Safe U P (elim o [ none ↦ m | some b ↦ f b ])
  option-Safe none m f x h = x refl
  option-Safe (some b) m f x h = h b refl

  -- From what holds already.
  pub map-Safe : (Q : A → Type 0) (m : Fueled A) → ((a : A) → Q a → P a) → Safe U Q m → Safe U P m
  unfolding Safe
  map-Safe Q none f h = h
  map-Safe Q (some undefined) f h = h
  map-Safe Q (some (exit status)) f h = tt
  map-Safe Q (some (ok a)) f h = f a h
