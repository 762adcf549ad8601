-- ===== src/Nyva/Statements/Parts.antt =====
-- The statements of src/nyva.c that contain no others: reading one ends, and reads no token behind the end of
-- the file.
use orta_vm.Prelude.{ℕ, zero, suc, ◌≡◌, refl, arith, false, some, List, [], ◌∷◌, Str, inl, inr}
use orta_vm.Result.{undefined}
use orta_vm.Result.Fueled.{◌>>=◌}
use orta_vm.Result.Safe.{Safe, ok-Safe, undefined-Safe, >>=-Safe, test-Safe}
use orta_vm.Nyva.Tokens.{
  TokenType, is_eof, token_var, token_equal, token_rparen, token_comma, token_semicolon,
}
use orta_vm.Nyva.Syntax.{Node, var_declaration, assignment, Child, null_node, child}
use orta_vm.Nyva.Parser.{
  Tokens, Parsed, parsed, current_is, parser_expect, expect_identifier, parser_parse_expression,
  parser_parse_condition,
}
use orta_vm.Nyva.Parser.Ready.{
  Ready, Fits, Fits-after, Fits-suc, Shorter, Reads, Keeps, current_is-Safe, parser_expect-Safe,
  expect_identifier-Safe, Shorter-trans, Keeps-from, Reads-Keeps, same,
}
use orta_vm.Nyva.Parser.Expressions.{Given, Given-after, Given-again}
use orta_vm.Nyva.Parser.Factors.{expression-Safe, condition-Safe}
use orta_vm.Nyva.Statements.{
  parser_parse_var_declaration, parser_parse_assignment, more_parameters,
  parser_parse_parameter_list,
}

module _ (U : Type 0) where
  -- A token that must stand behind what was read of these.
  pub then_expect :
      {A : Type 0} (type : TokenType) (ts ts₁ : Tokens) (P : A × Tokens → Type 0)
      (next : Tokens → Parsed A)
      → is_eof type ≡ false
      → Shorter U ts ts₁
      → ((ts₂ : Tokens) → Shorter U ts ts₂ → Safe U P (next ts₂))
      → Safe U P (parser_expect type ts₁ >>= next)
  then_expect type ts ts₁ P next e s k =
      >>=-Safe U P (Shorter U ts₁) (parser_expect type ts₁) next
        (parser_expect-Safe U type ts₁ e (s.ready))
        λ ts₂ s₂. k ts₂ (Shorter-trans U ts ts₁ ts₂ s s₂)

  pub first_expect :
      {A : Type 0} (type : TokenType) (ts : Tokens) (P : A × Tokens → Type 0)
      (next : Tokens → Parsed A)
      → is_eof type ≡ false
      → Ready U ts
      → ((ts₁ : Tokens) → Shorter U ts ts₁ → Safe U P (next ts₁))
      → Safe U P (parser_expect type ts >>= next)
  first_expect type ts P next e r k =
      >>=-Safe U P (Shorter U ts) (parser_expect type ts) next (parser_expect-Safe U type ts e r) k

  -- A part that is read next.
  pub then_read :
      {A B : Type 0} (ts ts₁ : Tokens) (P : A × Tokens → Type 0) (m : Parsed B)
      (next : B × Tokens → Parsed A)
      → Shorter U ts ts₁
      → Safe U (Keeps U B ts₁) m
      → ((b : B) (ts₂ : Tokens) → Shorter U ts ts₂ → Safe U P (next (b, ts₂)))
      → Safe U P (m >>= next)
  then_read {A} {B} ts ts₁ P m next s h k =
      >>=-Safe U P (Reads U B ts) m next (Keeps-from U ts ts₁ m s h) λ r s₂. k r.0 r.1 s₂

  pub identifier-Keeps : (ts : Tokens) → Ready U ts → Safe U (Keeps U Str ts) (expect_identifier ts)
  identifier-Keeps ts r = Reads-Keeps U ts _ (expect_identifier-Safe U ts r)

  expression-Keeps :
      (f : ℕ) (ts ts₁ : Tokens)
      → Given U 3 f ts
      → Shorter U ts ts₁
      → Safe U (Keeps U Node ts₁) (parser_parse_expression f ts₁)
  expression-Keeps f ts ts₁ g s =
      Reads-Keeps U ts₁ _ (expression-Safe U f ts₁ (Given-again U 3 f ts ts₁ g s))

  pub condition-Keeps :
      (f : ℕ) (ts ts₁ : Tokens)
      → Given U 3 f ts
      → Shorter U ts ts₁
      → Safe U (Keeps U Node ts₁) (parser_parse_condition f ts₁)
  condition-Keeps f ts ts₁ g s =
      Reads-Keeps U ts₁ _ (condition-Safe U f ts₁ (Given-again U 3 f ts ts₁ g s))

  -- A value that is read behind what was passed.
  child-Safe :
      (f : ℕ) (ts ts₁ ts₂ : Tokens)
      → Given U 3 f ts
      → Shorter U ts ts₁
      → Shorter U ts₁ ts₂
      → Safe U
          (Reads U Child ts₁)
          (parser_parse_expression f ts₂ >>= λ (n, rest). parsed (child n) rest)
  child-Safe f ts ts₁ ts₂ g s s₂ =
      then_read ts₁ ts₂ (Reads U Child ts₁) _ _ s₂
        (expression-Keeps f ts ts₂ g (Shorter-trans U ts ts₁ ts₂ s s₂))
        λ n ts₃ s₃. ok-Safe U (Reads U Child ts₁) (child n, ts₃) s₃

  pub var_declaration-Safe :
      (f : ℕ) (ts : Tokens)
      → Given U 3 f ts
      → Safe U (Reads U Node ts) (parser_parse_var_declaration f ts)
  unfolding parser_parse_var_declaration
  var_declaration-Safe f ts g =
      let P = Reads U Node ts in
      first_expect token_var ts P _ refl (g.ready) λ ts₁ s₁.
        then_read ts ts₁ P _ _ s₁ (identifier-Keeps ts₁ (s₁.ready)) λ name ts₂ s₂.
          >>=-Safe U P _ (current_is token_equal ts₂) _
            (current_is-Safe U token_equal ts₂ refl (s₂.ready))
            λ b h.
              then_read ts ts₂ P _ _ s₂
                (test-Safe U (Keeps U Child ts₂) b _ _
                  (λ e. Reads-Keeps U ts₂ _ (child-Safe f ts ts₂ _ g s₂ (h e)))
                  λ _. ok-Safe U (Keeps U Child ts₂) (null_node, ts₂) (same U ts₂ (s₂.ready)))
                λ value ts₃ s₃.
                  then_expect token_semicolon ts ts₃ P _ refl s₃
                    λ ts₄ s₄. ok-Safe U P (var_declaration name value, ts₄) s₄

  pub assignment-Safe :
      (f : ℕ) (ts : Tokens)
      → Given U 3 f ts
      → Safe U (Reads U Node ts) (parser_parse_assignment f ts)
  unfolding parser_parse_assignment
  assignment-Safe f ts g =
      let P = Reads U Node ts in
      >>=-Safe U P (Reads U Str ts) (expect_identifier ts) _ (expect_identifier-Safe U ts (g.ready))
        λ (name, ts₁) s₁. then_expect token_equal ts ts₁ P _ refl s₁ λ ts₂ s₂.
          then_read ts ts₂ P _ _ s₂ (expression-Keeps f ts ts₂ g s₂) λ value ts₃ s₃.
            then_expect token_semicolon ts ts₃ P _ refl s₃
              λ ts₄ s₄. ok-Safe U P (assignment name value, ts₄) s₄

  -- A name goes to the array of parameters, and the loop goes on.
  parameter-Safe :
      (room f : ℕ) (name : Str) (ts ts₁ : Tokens)
      → Fits U room ts
      → Shorter U ts ts₁
      → ((room' : ℕ)
          → Fits U room' ts₁
          → Safe U (Keeps U (List Str) ts₁) (more_parameters f room' ts₁))
      → Safe U (Reads U (List Str) ts) (elim room [
        | zero ↦ some undefined
        | suc room' ↦ more_parameters f room' ts₁ >>= λ (names, ts₂). parsed (name ∷ names) ts₂
      ])
  parameter-Safe zero f name ts ts₁ (inl h) s k = absurd (omega (arith, h, s.is_shorter))
  parameter-Safe zero f name ts ts₁ (inr u) s k = undefined-Safe U (Reads U (List Str) ts) u
  parameter-Safe (suc room) f name ts ts₁ w s k =
      then_read ts ts₁ (Reads U (List Str) ts) _ _ s
        (k room (Fits-suc U room ts ts₁ (s.is_shorter) w))
        λ names ts₂ s₂. ok-Safe U (Reads U (List Str) ts) (name ∷ names, ts₂) s₂

  more_parameters-Safe :
      (f room : ℕ) (ts : Tokens)
      → Fits U room ts
      → Given U 1 f ts
      → Safe U (Keeps U (List Str) ts) (more_parameters f room ts)
  unfolding more_parameters
  more_parameters-Safe zero room ts w g = absurd (omega (arith, g.fuel))
  more_parameters-Safe (suc f) room ts w g =
      let P = Keeps U (List Str) ts in
      let Q = Reads U (List Str) ts in
      >>=-Safe U P _ (current_is token_comma ts) _ (current_is-Safe U token_comma ts refl (g.ready))
        λ b h.
          test-Safe U P b _ _
            (λ e.
              let s = h e in
              Reads-Keeps U ts _ (
                then_read ts _ Q _ _ s (identifier-Keeps _ (s.ready)) λ name ts₁ s₁.
                  parameter-Safe room f name ts ts₁ w s₁ λ room' fits.
                    more_parameters-Safe f room' ts₁ fits
                      (Given-after U 1 1 f ts ts₁ g s₁ (omega arith) (omega arith))))
            λ _. ok-Safe U P ([], ts) (same U ts (g.ready))

  pub parameters-Safe :
      (f : ℕ) (ts : Tokens)
      → Given U 1 f ts
      → Safe U (Keeps U (List Str) ts) (parser_parse_parameter_list f ts)
  unfolding parser_parse_parameter_list
  parameters-Safe f ts g =
      let P = Keeps U (List Str) ts in
      let Q = Reads U (List Str) ts in
      >>=-Safe U P _ (current_is token_rparen ts) _
        (current_is-Safe U token_rparen ts refl (g.ready))
        λ b _.
          test-Safe U P b _ _ (λ _. ok-Safe U P ([], ts) (same U ts (g.ready)))
            λ _. Reads-Keeps U ts _ (
              >>=-Safe U Q (Reads U Str ts) (expect_identifier ts) _
                (expect_identifier-Safe U ts (g.ready))
                λ (name, ts₁) s.
                  then_read ts ts₁ Q _ _ s
                    (more_parameters-Safe f 63 ts₁ (Fits-after U 64 ts ts₁ (s.is_shorter) (g.fits))
                      (Given-again U 1 f ts ts₁ g s))
                    λ names ts₂ s₂. ok-Safe U Q (name ∷ names, ts₂) s₂)
