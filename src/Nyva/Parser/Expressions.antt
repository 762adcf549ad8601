-- ===== src/Nyva/Parser/Expressions.antt =====
-- What a call of the parser of src/nyva.c may assume of its tokens and of its fuel, and the tests on the type
-- of a token.
use orta_vm.Prelude.{ℕ, suc, ◌+◌, ◌*◌, ◌≤◌, ◌<◌, ◌≡◌, refl, arith, true, false, ◌||◌, length}
use orta_vm.Nyva.Tokens.{
  TokenType, equal_types, is_eof, token_identifier, token_number, token_string, token_lparen,
}
use orta_vm.Nyva.Parser.{Tokens}
use orta_vm.Nyva.Parser.Ready.{Ready, Fits, Fits-le, Shorter}

-- The cases of a factor, by the type of its token.
pub factor-cases :
    {A : Type 0} (P : A → Type 0) (type : TokenType) (n s i l : A) (other : A)
    → (is_eof type ≡ false → P n)
    → (is_eof type ≡ false → P s)
    → (is_eof type ≡ false → P i)
    → (is_eof type ≡ false → P l)
    → P other
    → P (elim type [
      | token_number ↦ n
      | token_string ↦ s
      | token_identifier ↦ i
      | token_lparen ↦ l
      | _ ↦ other
    ])
factor-cases P token_number n s i l other a b c d e = a refl
factor-cases P token_string n s i l other a b c d e = b refl
factor-cases P token_identifier n s i l other a b c d e = c refl
factor-cases P token_lparen n s i l other a b c d e = d refl
factor-cases P _ n s i l other a b c d e = e

-- An operator is not the end of the file.
pub op_not_eof :
    (a b type : TokenType)
    → is_eof a ≡ false
    → is_eof b ≡ false
    → (equal_types type a || equal_types type b) ≡ true
    → is_eof type ≡ false
op_not_eof a b type e e' h = ground arith

module _ (U : Type 0) where
  -- What a call on these tokens may assume.
  pub record Given (rank f : ℕ) (ts : Tokens) : Type 0 where
    pub ready : Ready U ts
    pub fits : Fits U 64 ts
    pub fuel : 8 * length ts + rank ≤ f

  pub Given-after :
      (rank rank' f : ℕ) (ts ts' : Tokens)
      → Given rank (suc f) ts
      → Shorter U ts ts'
      → rank' ≤ 8
      → 0 < rank
      → Given rank' f ts'
  Given-after rank rank' f ts ts' g s h h' = record {
    ready = s.ready;
    fits = Fits-le U 64 ts ts' (omega (arith, s.is_shorter)) (g.fits);
    fuel = omega (arith, s.is_shorter, g.fuel, h, h');
  }

  pub Given-same :
      (rank rank' f : ℕ) (ts : Tokens) → Given rank (suc f) ts → rank' < rank → Given rank' f ts
  Given-same rank rank' f ts g h = record {
    ready = g.ready;
    fits = g.fits;
    fuel = omega (arith, g.fuel, h);
  }

  -- With the same fuel, behind tokens that were passed.
  pub Given-again :
      (rank f : ℕ) (ts ts' : Tokens) → Given rank f ts → Shorter U ts ts' → Given rank f ts'
  Given-again rank f ts ts' g s = record {
    ready = s.ready;
    fits = Fits-le U 64 ts ts' (omega (arith, s.is_shorter)) (g.fits);
    fuel = omega (arith, s.is_shorter, g.fuel);
  }
