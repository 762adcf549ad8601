-- ===== src/Nyva/Parser/Factors.antt =====
-- The expressions that the parser of src/nyva.c reads, by one fuel for all their functions.
use orta_vm.Prelude.{ℕ, zero, suc, ◌-◌, ◌≡◌, refl, arith, true, false, Str}
use orta_vm.Result.Safe.{Safe, ok-Safe, exit-Safe, >>=-Safe, test-Safe}
use orta_vm.Number.{atoi}
use orta_vm.Nyva.Tokens.{
  TokenType, is_eof, token_gt, token_lt, token_eq, token_neq, token_lparen, token_rparen,
  token_comma, token_multiply, token_divide, token_plus, token_minus,
}
use orta_vm.Nyva.Syntax.{
  Node, binary_expression, identifier, number, string, function_call, Nodes, no_nodes, node,
}
use orta_vm.Nyva.Parser.{
  Tokens, parser_current_token, parser_advance, current_is, parser_expect, token_text, stored,
  is_term_op, is_expression_op, is_condition_op, parser_parse_factor, parser_parse_function_call,
  parser_parse_argument_list, more_arguments, parser_parse_term, term_loop, parser_parse_expression,
  expression_loop, parser_parse_condition,
}
use orta_vm.Nyva.Parser.Ready.{
  Fits, Fits-after, Shorter, Reads, Keeps, Head, Stored, current-Safe, advance-Shorter, text-Safe,
  current_is-Safe, parser_expect-Safe, stored-Safe, Shorter-trans, Reads-from, Keeps-from,
  Reads-Keeps, same,
}
use orta_vm.Nyva.Parser.Expressions.{
  Given, factor-cases, op_not_eof, Given-after, Given-same, Given-again,
}

module _ (U : Type 0) where
  mutual
    unfolding parser_parse_factor

    factor-Safe :
        (f : ℕ) (ts : Tokens) → Given U 1 f ts → Safe U (Reads U Node ts) (parser_parse_factor f ts)
    factor-Safe zero ts g = absurd (omega (arith, g.fuel))
    factor-Safe (suc f) ts g =
        let P = Reads U Node ts in
        >>=-Safe U P (Head U ts) (parser_current_token ts) _ (current-Safe U ts (g.ready)) λ t h.
          factor-cases (Safe U P) t.type _ _ _ _ _
            (λ e.
              >>=-Safe U P (λ _. Unit) (token_text t) _ (text-Safe U ts t (g.ready) h e)
                λ v _.
                  ok-Safe U P (number (atoi v), parser_advance ts)
                    (advance-Shorter U ts t (g.ready) h e))
            (λ e.
              >>=-Safe U P (λ _. Unit) (token_text t) _ (text-Safe U ts t (g.ready) h e)
                λ v _.
                  ok-Safe U P (string v, parser_advance ts) (advance-Shorter U ts t (g.ready) h e))
            (λ e.
              >>=-Safe U P (λ _. Unit) (token_text t) _ (text-Safe U ts t (g.ready) h e)
                λ v _.
                  let s = advance-Shorter U ts t (g.ready) h e in
                  >>=-Safe U P _ (current_is token_lparen (parser_advance ts)) _
                    (current_is-Safe U token_lparen (parser_advance ts) refl (s.ready))
                    λ b _.
                      test-Safe U P b _ _
                        (λ _. Reads-from U ts _ _ s (
                          call-Safe f v _
                            (Given-after U 1 5 f ts _ g s (omega arith) (omega arith))))
                        λ _. ok-Safe U P (identifier v, parser_advance ts) s)
            (λ e.
              let s = advance-Shorter U ts t (g.ready) h e in
              let inner =
                expression-Safe f _ (Given-after U 1 3 f ts _ g s (omega arith) (omega arith)) in
              >>=-Safe U P (Reads U Node ts) (parser_parse_expression f (parser_advance ts)) _
                (Reads-from U ts _ _ s inner)
                λ (n, ts₁) k.
                  >>=-Safe U P (Shorter U ts₁) (parser_expect token_rparen ts₁) _
                    (parser_expect-Safe U token_rparen ts₁ refl (k.ready))
                    λ ts₂ k₂. ok-Safe U P (n, ts₂) (Shorter-trans U ts ts₁ ts₂ k k₂))
            (exit-Safe U P 1)

    call-Safe :
        (f : ℕ) (name : Str) (ts : Tokens)
        → Given U 5 f ts
        → Safe U (Reads U Node ts) (parser_parse_function_call f name ts)
    call-Safe zero name ts g = absurd (omega (arith, g.fuel))
    call-Safe (suc f) name ts g =
        let P = Reads U Node ts in
        >>=-Safe U P (Shorter U ts) (parser_expect token_lparen ts) _
          (parser_expect-Safe U token_lparen ts refl (g.ready))
          λ ts₁ s.
            let args =
              arguments-Safe f ts₁ (Given-after U 5 4 f ts ts₁ g s (omega arith) (omega arith)) in
            >>=-Safe U P (Reads U Nodes ts) (parser_parse_argument_list f ts₁) _
              (Keeps-from U ts ts₁ _ s args)
              λ (args, ts₂) k.
                >>=-Safe U P (Shorter U ts₂) (parser_expect token_rparen ts₂) _
                  (parser_expect-Safe U token_rparen ts₂ refl (k.ready))
                  λ ts₃ k₃.
                    ok-Safe U P (function_call name args, ts₃) (Shorter-trans U ts ts₂ ts₃ k k₃)

    arguments-Safe :
        (f : ℕ) (ts : Tokens)
        → Given U 4 f ts
        → Safe U (Keeps U Nodes ts) (parser_parse_argument_list f ts)
    arguments-Safe zero ts g = absurd (omega (arith, g.fuel))
    arguments-Safe (suc f) ts g =
        let P = Keeps U Nodes ts in
        >>=-Safe U P _ (current_is token_rparen ts) _
          (current_is-Safe U token_rparen ts refl (g.ready))
          λ b _.
            test-Safe U P b _ _ (λ _. ok-Safe U P (no_nodes, ts) (same U ts (g.ready)))
              λ _. Reads-Keeps U ts _ (
                >>=-Safe U (Reads U Nodes ts) (Reads U Node ts) (parser_parse_expression f ts) _
                  (expression-Safe f ts (Given-same U 4 3 f ts g (omega arith)))
                  λ (n, ts₁) s.
                    let fits = Fits-after U 64 ts ts₁ (s.is_shorter) (g.fits) in
                    >>=-Safe U (Reads U Nodes ts) (Reads U Nodes ts) (more_arguments f 63 ts₁) _
                      (Keeps-from U ts ts₁ _ s (
                        more-Safe f 63 ts₁ fits
                          (Given-after U 4 1 f ts ts₁ g s (omega arith) (omega arith))))
                      λ (ns, ts₂) k. ok-Safe U (Reads U Nodes ts) (node n ns, ts₂) k)

    more-Safe :
        (f room : ℕ) (ts : Tokens)
        → Fits U room ts
        → Given U 1 f ts
        → Safe U (Keeps U Nodes ts) (more_arguments f room ts)
    more-Safe zero room ts w g = absurd (omega (arith, g.fuel))
    more-Safe (suc f) room ts w g =
        let P = Keeps U Nodes ts in
        let Q = Reads U Nodes ts in
        >>=-Safe U P _ (current_is token_comma ts) _
          (current_is-Safe U token_comma ts refl (g.ready))
          λ b h.
            test-Safe U P b _ _
              (λ e.
                let s = h e in
                let given = Given-after U 1 3 f ts _ g s (omega arith) (omega arith) in
                Reads-Keeps U ts _ (
                  >>=-Safe U Q (Reads U Node ts) (parser_parse_expression f (parser_advance ts)) _
                    (Reads-from U ts _ _ s (expression-Safe f _ given))
                    λ (n, ts₁) k.
                      >>=-Safe U Q (Stored U room ts) (stored room n ts₁) _
                        (stored-Safe U room n ts ts₁ k w)
                        λ (n', ts₂) (k₂, w₂).
                          >>=-Safe U Q Q (more_arguments f (room - 1) ts₂) _
                            (Keeps-from U ts ts₂ _ k₂ (
                              more-Safe f (room - 1) ts₂ w₂
                                (Given-after U 1 1 f ts ts₂ g k₂ (omega arith) (omega arith))))
                            λ (ns, ts₃) k₃. ok-Safe U Q (node n' ns, ts₃) k₃))
              λ _. ok-Safe U P (no_nodes, ts) (same U ts (g.ready))

    term-Safe :
        (f : ℕ) (ts : Tokens) → Given U 2 f ts → Safe U (Reads U Node ts) (parser_parse_term f ts)
    term-Safe zero ts g = absurd (omega (arith, g.fuel))
    term-Safe (suc f) ts g =
        let P = Reads U Node ts in
        >>=-Safe U P P (parser_parse_factor f ts) _
          (factor-Safe f ts (Given-same U 2 1 f ts g (omega arith)))
          λ (left, ts₁) s.
            Keeps-from U ts ts₁ _ s (
              term_loop-Safe f left ts₁
                (Given-after U 2 1 f ts ts₁ g s (omega arith) (omega arith)))

    term_loop-Safe :
        (f : ℕ) (left : Node) (ts : Tokens)
        → Given U 1 f ts
        → Safe U (Keeps U Node ts) (term_loop f left ts)
    term_loop-Safe zero left ts g = absurd (omega (arith, g.fuel))
    term_loop-Safe (suc f) left ts g =
        let P = Keeps U Node ts in
        >>=-Safe U P (Head U ts) (parser_current_token ts) _ (current-Safe U ts (g.ready)) λ t h.
          test-Safe U P (is_term_op t.type) _ _
            (λ e.
              let s =
                advance-Shorter U ts t (g.ready) h
                  (op_not_eof token_multiply token_divide t.type refl refl e) in
              let given = Given-after U 1 1 f ts _ g s (omega arith) (omega arith) in
              Reads-Keeps U ts _ (
                >>=-Safe U (Reads U Node ts) (Reads U Node ts)
                  (parser_parse_factor f (parser_advance ts)) _
                  (Reads-from U ts _ _ s (factor-Safe f _ given))
                  λ (right, ts₁) k. Keeps-from U ts ts₁ _ k (
                    term_loop-Safe f (binary_expression left t.type right) ts₁
                      (Given-after U 1 1 f ts ts₁ g k (omega arith) (omega arith)))))
            λ _. ok-Safe U P (left, ts) (same U ts (g.ready))

    pub expression-Safe :
        (f : ℕ) (ts : Tokens)
        → Given U 3 f ts
        → Safe U (Reads U Node ts) (parser_parse_expression f ts)
    expression-Safe zero ts g = absurd (omega (arith, g.fuel))
    expression-Safe (suc f) ts g =
        let P = Reads U Node ts in
        >>=-Safe U P P (parser_parse_term f ts) _
          (term-Safe f ts (Given-same U 3 2 f ts g (omega arith)))
          λ (left, ts₁) s. Keeps-from U ts ts₁ _ s (
            expression_loop-Safe f left ts₁
              (Given-after U 3 1 f ts ts₁ g s (omega arith) (omega arith)))

    expression_loop-Safe :
        (f : ℕ) (left : Node) (ts : Tokens)
        → Given U 1 f ts
        → Safe U (Keeps U Node ts) (expression_loop f left ts)
    expression_loop-Safe zero left ts g = absurd (omega (arith, g.fuel))
    expression_loop-Safe (suc f) left ts g =
        let P = Keeps U Node ts in
        >>=-Safe U P (Head U ts) (parser_current_token ts) _ (current-Safe U ts (g.ready)) λ t h.
          test-Safe U P (is_expression_op t.type) _ _
            (λ e.
              let s =
                advance-Shorter U ts t (g.ready) h
                  (op_not_eof token_plus token_minus t.type refl refl e) in
              let given = Given-after U 1 2 f ts _ g s (omega arith) (omega arith) in
              Reads-Keeps U ts _ (
                >>=-Safe U (Reads U Node ts) (Reads U Node ts)
                  (parser_parse_term f (parser_advance ts)) _
                  (Reads-from U ts _ _ s (term-Safe f _ given))
                  λ (right, ts₁) k. Keeps-from U ts ts₁ _ k (
                    expression_loop-Safe f (binary_expression left t.type right) ts₁
                      (Given-after U 1 1 f ts ts₁ g k (omega arith) (omega arith)))))
            λ _. ok-Safe U P (left, ts) (same U ts (g.ready))

  condition_op_not_eof : (type : TokenType) → is_condition_op type ≡ true → is_eof type ≡ false
  condition_op_not_eof token_gt h = refl
  condition_op_not_eof token_lt h = refl
  condition_op_not_eof token_eq h = refl
  condition_op_not_eof token_neq h = refl
  condition_op_not_eof _ h = cc

  pub condition-Safe :
      (f : ℕ) (ts : Tokens)
      → Given U 3 f ts
      → Safe U (Reads U Node ts) (parser_parse_condition f ts)
  unfolding parser_parse_condition
  condition-Safe f ts g =
      let P = Reads U Node ts in
      >>=-Safe U P P (parser_parse_expression f ts) _ (expression-Safe f ts g) λ (left, ts₁) s.
        >>=-Safe U P (Head U ts₁) (parser_current_token ts₁) _ (current-Safe U ts₁ (s.ready)) λ t h.
          test-Safe U P (is_condition_op t.type) _ _
            (λ e.
              let s₂ = advance-Shorter U ts₁ t (s.ready) h (condition_op_not_eof t.type e) in
              let k = Shorter-trans U ts ts₁ _ s s₂ in
              >>=-Safe U P P (parser_parse_expression f (parser_advance ts₁)) _
                (Reads-from U ts _ _ k (expression-Safe f _ (Given-again U 3 f ts _ g k)))
                λ (right, ts₃) k₃. ok-Safe U P (binary_expression left t.type right, ts₃) k₃)
            λ _. ok-Safe U P (left, ts₁) s
