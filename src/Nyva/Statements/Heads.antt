-- ===== src/Nyva/Statements/Heads.antt =====
-- What stands in front of the bodies of src/nyva.c, and the other statements without one: reading one ends, and reads no token behind the end of the file.
use orta_vm.Prelude.{ℕ, refl, List, Str}
use orta_vm.Result.Fueled.{◌>>=◌}
use orta_vm.Result.Safe.{Safe, ok-Safe, exit-Safe, undefined-Safe, >>=-Safe, test-Safe, option-Safe}
use orta_vm.Nyva.Tokens.{
  TokenType, token_identifier, token_string, token_var, token_lparen, token_rparen, token_lbrace,
  token_semicolon, token_fn, token_return, token_import, token_break,
}
use orta_vm.Nyva.Syntax.{
  Node, return_statement, import_statement, break_statement, Child, null_node, child,
}
use orta_vm.Nyva.Parser.{
  Tokens, parsed, parser_current_token, current_is, token_text, parser_parse_expression,
}
use orta_vm.Nyva.Parser.Ready.{
  Ready, Shorter, Reads, Keeps, Head, current-Safe, current_is-Safe, Reads-Keeps, same,
}
use orta_vm.Nyva.Parser.Expressions.{Given, Given-again}
use orta_vm.Nyva.Parser.Factors.{expression-Safe}
use orta_vm.Nyva.Statements.{
  parser_parse_return_statement, parser_parse_import_statement, parser_parse_break_statement,
  parse_head, parse_init, parse_for_head, parse_function_head, begins_assignment, parse_named,
}
use orta_vm.Nyva.Statements.Parts.{
  assignment-Safe, condition-Keeps, first_expect, identifier-Keeps, parameters-Safe, then_expect,
  then_read, var_declaration-Safe,
}

module _ (U : Type 0) where
  returned-Safe :
      (f : ℕ) (ts ts₁ : Tokens)
      → Given U 3 f ts
      → Shorter U ts ts₁
      → Safe U
          (Reads U Child ts₁)
          (parser_parse_expression f ts₁ >>= λ (n, rest). parsed (child n) rest)
  returned-Safe f ts ts₁ g s =
      >>=-Safe U (Reads U Child ts₁) (Reads U Node ts₁) (parser_parse_expression f ts₁) _
        (expression-Safe U f ts₁ (Given-again U 3 f ts ts₁ g s))
        λ (n, ts₂) s₂. ok-Safe U (Reads U Child ts₁) (child n, ts₂) s₂

  pub return-Safe :
      (f : ℕ) (ts : Tokens)
      → Given U 3 f ts
      → Safe U (Reads U Node ts) (parser_parse_return_statement f ts)
  unfolding parser_parse_return_statement
  return-Safe f ts g =
      let P = Reads U Node ts in
      first_expect U token_return ts P _ refl (g.ready) λ ts₁ s₁.
        >>=-Safe U P _ (current_is token_semicolon ts₁) _
          (current_is-Safe U token_semicolon ts₁ refl (s₁.ready))
          λ b _.
            then_read U ts ts₁ P _ _ s₁
              (test-Safe U (Keeps U Child ts₁) b _ _
                (λ _. ok-Safe U (Keeps U Child ts₁) (null_node, ts₁) (same U ts₁ (s₁.ready)))
                λ _. Reads-Keeps U ts₁ _ (returned-Safe f ts ts₁ g s₁))
              λ value ts₂ s₂.
                then_expect U token_semicolon ts ts₂ P _ refl s₂
                  λ ts₃ s₃. ok-Safe U P (return_statement value, ts₃) s₃

  -- `u` is what holds where the program has an import.
  pub import-Safe :
      (ts : Tokens) → Ready U ts → U → Safe U (Reads U Node ts) (parser_parse_import_statement ts)
  unfolding parser_parse_import_statement token_text
  import-Safe ts r u =
      let P = Reads U Node ts in
      first_expect U token_import ts P _ refl r λ ts₁ s₁.
        then_expect U token_lparen ts ts₁ P _ refl s₁ λ ts₂ s₂.
          >>=-Safe U P (Head U ts₂) (parser_current_token ts₂) _ (current-Safe U ts₂ (s₂.ready))
            λ t _.
              >>=-Safe U P (λ _. Unit) (token_text t) _
                (option-Safe U (λ _. Unit) t.value _ _ (λ _. undefined-Safe U (λ _. Unit) u)
                  λ v _. ok-Safe U (λ _. Unit) v tt)
                λ file _. then_expect U token_string ts ts₂ P _ refl s₂ λ ts₃ s₃.
                  then_expect U token_rparen ts ts₃ P _ refl s₃ λ ts₄ s₄.
                    then_expect U token_semicolon ts ts₄ P _ refl s₄
                      λ ts₅ s₅. ok-Safe U P (import_statement file, ts₅) s₅

  pub break-Safe :
      (ts : Tokens) → Ready U ts → Safe U (Reads U Node ts) (parser_parse_break_statement ts)
  unfolding parser_parse_break_statement
  break-Safe ts r =
      let P = Reads U Node ts in
      first_expect U token_break ts P _ refl r λ ts₁ s₁.
        then_expect U token_semicolon ts ts₁ P _ refl s₁
          λ ts₂ s₂. ok-Safe U P (break_statement, ts₂) s₂

  pub head-Safe :
      (f : ℕ) (ts : Tokens) → Given U 3 f ts → Safe U (Reads U Node ts) (parse_head f ts)
  unfolding parse_head
  head-Safe f ts g =
      let P = Reads U Node ts in
      first_expect U token_lparen ts P _ refl (g.ready) λ ts₁ s₁.
        then_read U ts ts₁ P _ _ s₁ (condition-Keeps U f ts ts₁ g s₁) λ condition ts₂ s₂.
          then_expect U token_rparen ts ts₂ P _ refl s₂ λ ts₃ s₃.
            then_expect U token_lbrace ts ts₃ P _ refl s₃ λ ts₄ s₄. ok-Safe U P (condition, ts₄) s₄

  init-cases :
      {A : Type 0} (P : A → Type 0) (type : TokenType) (v i other : A)
      → P v
      → P i
      → P other
      → P (elim type [ token_var ↦ v | token_identifier ↦ i | _ ↦ other ])
  init-cases P token_var v i other a b c = a
  init-cases P token_identifier v i other a b c = b
  init-cases P _ v i other a b c = c

  init-Safe : (f : ℕ) (ts : Tokens) → Given U 3 f ts → Safe U (Reads U Node ts) (parse_init f ts)
  unfolding parse_init
  init-Safe f ts g =
      let P = Reads U Node ts in
      >>=-Safe U P (Head U ts) (parser_current_token ts) _ (current-Safe U ts (g.ready)) λ t _.
        init-cases (Safe U P) t.type _ _ _ (var_declaration-Safe U f ts g)
          (assignment-Safe U f ts g) (exit-Safe U P 1)

  pub for_head-Safe :
      (f : ℕ) (ts : Tokens)
      → Given U 3 f ts
      → Safe U (Reads U (Node × Node × Node) ts) (parse_for_head f ts)
  unfolding parse_for_head
  for_head-Safe f ts g =
      let P = Reads U (Node × Node × Node) ts in
      first_expect U token_lparen ts P _ refl (g.ready) λ ts₁ s₁.
        then_read U ts ts₁ P _ _ s₁
          (Reads-Keeps U ts₁ _ (init-Safe f ts₁ (Given-again U 3 f ts ts₁ g s₁)))
          λ init ts₂ s₂.
            then_read U ts ts₂ P _ _ s₂ (condition-Keeps U f ts ts₂ g s₂) λ condition ts₃ s₃.
              then_expect U token_semicolon ts ts₃ P _ refl s₃ λ ts₄ s₄.
                then_read U ts ts₄ P _ _ s₄
                  (Reads-Keeps U ts₄ _ (assignment-Safe U f ts₄ (Given-again U 3 f ts ts₄ g s₄)))
                  λ update ts₅ s₅. then_expect U token_rparen ts ts₅ P _ refl s₅ λ ts₆ s₆.
                    then_expect U token_lbrace ts ts₆ P _ refl s₆
                      λ ts₇ s₇. ok-Safe U P ((init, condition, update), ts₇) s₇

  pub function_head-Safe :
      (f : ℕ) (ts : Tokens)
      → Given U 1 f ts
      → Safe U (Reads U (Str × List Str) ts) (parse_function_head f ts)
  unfolding parse_function_head
  function_head-Safe f ts g =
      let P = Reads U (Str × List Str) ts in
      first_expect U token_fn ts P _ refl (g.ready) λ ts₁ s₁.
        then_read U ts ts₁ P _ _ s₁ (identifier-Keeps U ts₁ (s₁.ready)) λ name ts₂ s₂.
          then_expect U token_lparen ts ts₂ P _ refl s₂ λ ts₃ s₃.
            then_read U ts ts₃ P _ _ s₃ (parameters-Safe U f ts₃ (Given-again U 1 f ts ts₃ g s₃))
              λ params ts₄ s₄. then_expect U token_rparen ts ts₄ P _ refl s₄ λ ts₅ s₅.
                then_expect U token_lbrace ts ts₅ P _ refl s₅
                  λ ts₆ s₆. ok-Safe U P ((name, params), ts₆) s₆

  pub named-Safe :
      (f : ℕ) (ts : Tokens) → Given U 3 f ts → Safe U (Reads U Node ts) (parse_named f ts)
  unfolding parse_named
  named-Safe f ts g =
      let P = Reads U Node ts in
      test-Safe U P (begins_assignment ts) _ _ (λ _. assignment-Safe U f ts g)
        λ _.
          >>=-Safe U P P (parser_parse_expression f ts) _ (expression-Safe U f ts g) λ (n, ts₁) s₁.
            then_expect U token_semicolon ts ts₁ P _ refl s₁ λ ts₂ s₂. ok-Safe U P (n, ts₂) s₂
