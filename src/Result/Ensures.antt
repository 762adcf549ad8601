-- ===== src/Result/Ensures.antt =====
-- What holds of the value that a result carries, and the rules that follow a chain of results.
use orta_vm.Prelude.{ℕ, ◌≡◌, refl, Bool, true, false, Option, none, some, if◌then◌else◌}
use orta_vm.Result.{Result, ok, exit, undefined, ◌>>=◌}

-- What holds of the value, if there is one.
unfoldable pub Ensures : {A : Type 0} → (A → Type 0) → Result A → Type 0
Ensures P (ok a) = P a
Ensures P (exit n) = Unit
Ensures P undefined = Unit

module _ {A : Type 0} (P : A → Type 0) where
  pub if-Ensures :
      (b : Bool) (m n : Result A) → Ensures P m → Ensures P n → Ensures P (if b then m else n)
  if-Ensures true m n x y = x
  if-Ensures false m n x y = y

  -- Each branch may use the test.
  pub test-Ensures :
      (b : Bool) (m n : Result A)
      → (b ≡ true → Ensures P m)
      → (b ≡ false → Ensures P n)
      → Ensures P (if b then m else n)
  test-Ensures true m n x y = x refl
  test-Ensures false m n x y = y refl

  -- From what holds already.
  pub map-Ensures :
      (Q : A → Type 0) (m : Result A) → ((a : A) → Q a → P a) → Ensures Q m → Ensures P m
  unfolding Ensures
  map-Ensures Q (ok a) f q = f a q
  map-Ensures Q (exit n) f q = tt
  map-Ensures Q undefined f q = tt

  pub ok-Ensures : (a : A) → P a → Ensures P (ok a)
  unfolding Ensures
  ok-Ensures a p = p

  pub exit-Ensures : (n : ℕ) → Ensures P (exit n)
  unfolding Ensures
  exit-Ensures n = tt

  pub undefined-Ensures : Ensures P undefined
  unfolding Ensures
  undefined-Ensures = tt

  -- Whatever the first part answers.
  pub any-Ensures :
      {B : Type 0} (m : Result B) (f : B → Result A)
      → ((b : B) → Ensures P (f b))
      → Ensures P (m >>= f)
  unfolding Ensures
  any-Ensures (ok b) f h = h b
  any-Ensures (exit n) f h = tt
  any-Ensures undefined f h = tt

  -- What the first part ensures is known in the second.
  pub >>=-Ensures :
      {B : Type 0} (Q : B → Type 0) (m : Result B) (f : B → Result A)
      → Ensures Q m
      → ((b : B) → Q b → Ensures P (f b))
      → Ensures P (m >>= f)
  unfolding Ensures
  >>=-Ensures Q (ok b) f q h = h b q
  >>=-Ensures Q (exit n) f q h = tt
  >>=-Ensures Q undefined f q h = tt

  pub elim-Ensures :
      {B : Type 0} (o : Option B) (m : Result A) (f : B → Result A)
      → Ensures P m
      → ((b : B) → Ensures P (f b))
      → Ensures P (elim o [ none ↦ m | some b ↦ f b ])
  elim-Ensures none m f x h = x
  elim-Ensures (some b) m f x h = h b
