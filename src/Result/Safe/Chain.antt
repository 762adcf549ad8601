-- ===== src/Result/Safe/Chain.antt =====
-- The rule for a chain of results without fuel.
use orta_vm.Prelude.{◌≡◌, refl, Bool, true, false, Option, none, some, if◌then◌else◌}
use orta_vm.Result.{Result, ok, exit, undefined, ◌>>=◌}
use orta_vm.Result.Safe.{Safe}

module _ {A : Type 0} (U : Type 0) (P : A → Type 0) where
  pub chain-Safe :
      {B : Type 0} (Q : B → Type 0) (m : Result B) (f : B → Result A)
      → Safe U Q (some m)
      → ((b : B) → Q b → Safe U P (some (f b)))
      → Safe U P (some (m >>= f))
  unfolding Safe
  chain-Safe Q undefined f q h = q
  chain-Safe Q (exit status) f q h = tt
  chain-Safe Q (ok b) f q h = h b q

  pub branch-Safe :
      (b : Bool) (m n : Result A)
      → (b ≡ true → Safe U P (some m))
      → (b ≡ false → Safe U P (some n))
      → Safe U P (some (if b then m else n))
  branch-Safe true m n x y = x refl
  branch-Safe false m n x y = y refl

  pub choice-Safe :
      {B : Type 0} (o : Option B) (m : Result A) (f : B → Result A)
      → (o ≡ none → Safe U P (some m))
      → ((b : B) → o ≡ some b → Safe U P (some (f b)))
      → Safe U P (some (elim o [ none ↦ m | some b ↦ f b ]))
  choice-Safe none m f x h = x refl
  choice-Safe (some b) m f x h = h b refl
