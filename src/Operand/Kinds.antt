-- ===== src/Operand/Kinds.antt =====
-- What the tests on operands have in common.
use orta_vm.Prelude.{
  ℕ, ◌≡◌, arith, true, [], ◌∷◌, ◌++◌, Str, take, length-append, take-length_append, ap, ◌∙◌,
}
use orta_vm.Operand.{is_string, unquote, last_is}

pub last_is-snoc : (s : Str) (c : ℕ) → last_is c (s ++ (c ∷ [])) ≡ true
unfolding last_is
last_is-snoc [] c = ground arith
last_is-snoc (d ∷ []) c = ground arith
last_is-snoc (d ∷ e ∷ s) c = last_is-snoc (e ∷ s) c

-- A text between quotes is a string operand, and its contents are the text.
pub is_string-quoted : (s : Str) → is_string (b'"' ∷ (s ++ (b'"' ∷ []))) ≡ true
unfolding is_string
is_string-quoted s = ground (arith, length-append s (b'"' ∷ []), last_is-snoc (b'"' ∷ s) b'"')

-- The contents of a text between quotes are the text.
pub unquote-quoted : (s : Str) → unquote (b'"' ∷ (s ++ (b'"' ∷ []))) ≡ s
unfolding unquote
unquote-quoted s =
    ap (λ n. take n (s ++ (b'"' ∷ []))) (omega (arith, length-append s (b'"' ∷ [])))
    ∙ take-length_append s (b'"' ∷ [])
