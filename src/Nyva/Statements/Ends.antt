-- ===== src/Nyva/Statements/Ends.antt =====
-- The parser of src/nyva.c on whole programs: it ends on every array of tokens, and reads no token behind the
-- end of the file.
use orta_vm.Prelude.{
  ℕ, zero, suc, ◌+◌, ◌-◌, ◌*◌, ◌≤◌, ◌≡◌, ◌≢◌, refl, arith, none, some, List, Str, length, inl, inr,
}
use orta_vm.Result.{undefined}
use orta_vm.Result.Safe.{
  Safe, Safe-ne-none, Safe-undefined, ok-Safe, exit-Safe, >>=-Safe, test-Safe,
}
use orta_vm.Nyva.Tokens.{
  TokenType, equal_types, token_eof, token_identifier, token_var, token_if, token_else,
  token_lbrace, token_rbrace, token_fn, token_return, token_for, token_while, token_import,
  token_break, token_eof,
}
use orta_vm.Nyva.Syntax.{
  Node, if_statement, function_definition, for_statement, while_statement, Nodes, no_nodes, node,
  no_branch, branch,
}
use orta_vm.Nyva.Parser.{Tokens, parser_current_token, current_is, stored}
use orta_vm.Nyva.Parser.Ready.{
  Ready, Fits, Shorter, Reads, Keeps, Head, Stored, current-Safe, current_is-Safe, stored-Safe,
  import-Ready, Shorter-trans, Reads-from, Reads-Keeps,
}
use orta_vm.Nyva.Parser.Expressions.{Given, Given-after, Given-same}
use orta_vm.Nyva.Statements.{
  parse_head, parse_function_head, ends_body, parser_parse_statement, parse_body,
  parser_parse_if_statement, parser_parse_function_definition, parser_parse_for_statement,
  parser_parse_while_statement, parse_statements, parse,
}
use orta_vm.Nyva.Statements.Parts.{var_declaration-Safe, then_expect, first_expect, then_read}
use orta_vm.Nyva.Statements.Heads.{
  return-Safe, import-Safe, break-Safe, head-Safe, for_head-Safe, function_head-Safe, named-Safe,
}

statement-cases :
    {A : Type 0} (P : A → Type 0) (type : TokenType) (v i d r l w m b n other : A)
    → P v
    → P i
    → P d
    → P r
    → P l
    → P w
    → (type ≡ token_import → P m)
    → P b
    → P n
    → P other
    → P (elim type [
      | token_var ↦ v
      | token_if ↦ i
      | token_fn ↦ d
      | token_return ↦ r
      | token_for ↦ l
      | token_while ↦ w
      | token_import ↦ m
      | token_break ↦ b
      | token_identifier ↦ n
      | _ ↦ other
    ])
statement-cases P token_var v i d r l w m b n other a1 a2 a3 a4 a5 a6 a7 a8 a9 a0 = a1
statement-cases P token_if v i d r l w m b n other a1 a2 a3 a4 a5 a6 a7 a8 a9 a0 = a2
statement-cases P token_fn v i d r l w m b n other a1 a2 a3 a4 a5 a6 a7 a8 a9 a0 = a3
statement-cases P token_return v i d r l w m b n other a1 a2 a3 a4 a5 a6 a7 a8 a9 a0 = a4
statement-cases P token_for v i d r l w m b n other a1 a2 a3 a4 a5 a6 a7 a8 a9 a0 = a5
statement-cases P token_while v i d r l w m b n other a1 a2 a3 a4 a5 a6 a7 a8 a9 a0 = a6
statement-cases P token_import v i d r l w m b n other a1 a2 a3 a4 a5 a6 a7 a8 a9 a0 = a7 refl
statement-cases P token_break v i d r l w m b n other a1 a2 a3 a4 a5 a6 a7 a8 a9 a0 = a8
statement-cases P token_identifier v i d r l w m b n other a1 a2 a3 a4 a5 a6 a7 a8 a9 a0 = a9
statement-cases P _ v i d r l w m b n other a1 a2 a3 a4 a5 a6 a7 a8 a9 a0 = a0

module _ (U : Type 0) where
  -- The array of a function body takes more.
  Fits-more : (ts : Tokens) → Fits U 64 ts → Fits U 256 ts
  Fits-more ts (inl h) = inl (omega (arith, h))
  Fits-more ts (inr u) = inr u

  head_after :
      (f : ℕ) (ts ts₁ : Tokens)
      → Given U 4 (suc f) ts
      → Shorter U ts ts₁
      → Safe U (Keeps U Node ts₁) (parse_head f ts₁)
  head_after f ts ts₁ g s =
      Reads-Keeps U ts₁ _
        (head-Safe U f ts₁ (Given-after U 4 3 f ts ts₁ g s (omega arith) (omega arith)))

  -- A body of 64 statements at most, behind what was passed.
  body_after :
      (f : ℕ) (ts ts₁ : Tokens)
      → Given U 4 (suc f) ts
      → Shorter U ts ts₁
      → (Given U 6 f ts₁ → Safe U (Reads U Nodes ts₁) (parse_body f 64 ts₁))
      → Safe U (Keeps U Nodes ts₁) (parse_body f 64 ts₁)
  body_after f ts ts₁ g s k =
      Reads-Keeps U ts₁ _ (k (Given-after U 4 6 f ts ts₁ g s (omega arith) (omega arith)))

  mutual
    unfolding parser_parse_statement

    statement-Safe :
        (f : ℕ) (ts : Tokens)
        → Given U 5 f ts
        → Safe U (Reads U Node ts) (parser_parse_statement f ts)
    statement-Safe zero ts g = absurd (omega (arith, g.fuel))
    statement-Safe (suc f) ts g =
        let P = Reads U Node ts in
        let g₃ = Given-same U 5 3 f ts g (omega arith) in
        let g₄ = Given-same U 5 4 f ts g (omega arith) in
        >>=-Safe U P (Head U ts) (parser_current_token ts) _ (current-Safe U ts (g.ready)) λ t h.
          statement-cases (Safe U P) t.type _ _ _ _ _ _ _ _ _ _ (var_declaration-Safe U f ts g₃)
            (if-Safe f ts g₄) (function-Safe f ts g₄) (return-Safe U f ts g₃) (for-Safe f ts g₄)
            (while-Safe f ts g₄)
            (λ e. import-Safe U ts (g.ready) (import-Ready U ts t (g.ready) h e))
            (break-Safe U ts (g.ready)) (named-Safe U f ts g₃) (exit-Safe U P 1)

    body-Safe :
        (f room : ℕ) (ts : Tokens)
        → Fits U room ts
        → Given U 6 f ts
        → Safe U (Reads U Nodes ts) (parse_body f room ts)
    body-Safe zero room ts w g = absurd (omega (arith, g.fuel))
    body-Safe (suc f) room ts w g =
        let P = Reads U Nodes ts in
        >>=-Safe U P (Head U ts) (parser_current_token ts) _ (current-Safe U ts (g.ready)) λ t _.
          test-Safe U P (ends_body t.type) _ _
            (λ _.
              first_expect U token_rbrace ts P _ refl (g.ready)
                λ ts₁ s₁. ok-Safe U P (no_nodes, ts₁) s₁)
            λ _.
              >>=-Safe U P (Reads U Node ts) (parser_parse_statement f ts) _
                (statement-Safe f ts (Given-same U 6 5 f ts g (omega arith)))
                λ (n, ts₁) s₁.
                  >>=-Safe U P (Stored U room ts) (stored room n ts₁) _
                    (stored-Safe U room n ts ts₁ s₁ w)
                    λ (n', ts₂) (s₂, w₂).
                      >>=-Safe U P P (parse_body f (room - 1) ts₂) _
                        (Reads-from U ts ts₂ _ s₂ (
                          body-Safe f (room - 1) ts₂ w₂
                            (Given-after U 6 6 f ts ts₂ g s₂ (omega arith) (omega arith))))
                        λ (ns, ts₃) s₃. ok-Safe U P (node n' ns, ts₃) s₃

    if-Safe :
        (f : ℕ) (ts : Tokens)
        → Given U 4 f ts
        → Safe U (Reads U Node ts) (parser_parse_if_statement f ts)
    if-Safe zero ts g = absurd (omega (arith, g.fuel))
    if-Safe (suc f) ts g =
        let P = Reads U Node ts in
        first_expect U token_if ts P _ refl (g.ready) λ ts₁ s₁.
          then_read U ts ts₁ P _ _ s₁ (head_after f ts ts₁ g s₁) λ condition ts₂ s₂.
            then_read U ts ts₂ P _ _ s₂
              (body_after f ts ts₂ g s₂ λ k. body-Safe f 64 ts₂ (k.fits) k)
              λ body ts₃ s₃.
                >>=-Safe U P _ (current_is token_else ts₃) _
                  (current_is-Safe U token_else ts₃ refl (s₃.ready))
                  λ b h.
                    test-Safe U P b _ _
                      (λ e.
                        let s₄ = Shorter-trans U ts ts₃ _ s₃ (h e) in
                        then_expect U token_lbrace ts _ P _ refl s₄ λ ts₅ s₅.
                          then_read U ts ts₅ P _ _ s₅
                            (body_after f ts ts₅ g s₅ λ k. body-Safe f 64 ts₅ (k.fits) k)
                            λ else_body ts₆ s₆.
                              ok-Safe U P (if_statement condition body (branch else_body), ts₆) s₆)
                      λ _. ok-Safe U P (if_statement condition body no_branch, ts₃) s₃

    function-Safe :
        (f : ℕ) (ts : Tokens)
        → Given U 4 f ts
        → Safe U (Reads U Node ts) (parser_parse_function_definition f ts)
    function-Safe zero ts g = absurd (omega (arith, g.fuel))
    function-Safe (suc f) ts g =
        let P = Reads U Node ts in
        >>=-Safe U P (Reads U (Str × List Str) ts) (parse_function_head f ts) _
          (function_head-Safe U f ts (Given-same U 4 1 f ts g (omega arith)))
          λ ((name, params), ts₁) s₁.
            let given = Given-after U 4 6 f ts ts₁ g s₁ (omega arith) (omega arith) in
            then_read U ts ts₁ P _ _ s₁
              (Reads-Keeps U ts₁ _ (body-Safe f 256 ts₁ (Fits-more ts₁ (given.fits)) given))
              λ body ts₂ s₂. ok-Safe U P (function_definition name params body, ts₂) s₂

    for-Safe :
        (f : ℕ) (ts : Tokens)
        → Given U 4 f ts
        → Safe U (Reads U Node ts) (parser_parse_for_statement f ts)
    for-Safe zero ts g = absurd (omega (arith, g.fuel))
    for-Safe (suc f) ts g =
        let P = Reads U Node ts in
        first_expect U token_for ts P _ refl (g.ready) λ ts₁ s₁.
          let given = Given-after U 4 3 f ts ts₁ g s₁ (omega arith) (omega arith) in
          then_read U ts ts₁ P _ _ s₁ (Reads-Keeps U ts₁ _ (for_head-Safe U f ts₁ given))
            λ (init, condition, update) ts₂ s₂.
              then_read U ts ts₂ P _ _ s₂
                (body_after f ts ts₂ g s₂ λ k. body-Safe f 64 ts₂ (k.fits) k)
                λ body ts₃ s₃. ok-Safe U P (for_statement init condition update body, ts₃) s₃

    while-Safe :
        (f : ℕ) (ts : Tokens)
        → Given U 4 f ts
        → Safe U (Reads U Node ts) (parser_parse_while_statement f ts)
    while-Safe zero ts g = absurd (omega (arith, g.fuel))
    while-Safe (suc f) ts g =
        let P = Reads U Node ts in
        first_expect U token_while ts P _ refl (g.ready) λ ts₁ s₁.
          then_read U ts ts₁ P _ _ s₁ (head_after f ts ts₁ g s₁) λ condition ts₂ s₂.
            then_read U ts ts₂ P _ _ s₂
              (body_after f ts ts₂ g s₂ λ k. body-Safe f 64 ts₂ (k.fits) k)
              λ body ts₃ s₃. ok-Safe U P (while_statement condition body, ts₃) s₃

  eof-Safe : (ts : Tokens) → Ready U ts → Safe U (λ _. Unit) (current_is token_eof ts)
  unfolding current_is
  eof-Safe ts r =
      >>=-Safe U (λ _. Unit) (Head U ts) (parser_current_token ts) _ (current-Safe U ts r)
        λ t _. ok-Safe U (λ _. Unit) (equal_types t.type token_eof) tt

  -- The statements of a program, with as many places as tokens.
  statements-Safe :
      (f room : ℕ) (ts : Tokens)
      → Fits U room ts
      → Given U 7 f ts
      → Safe U (λ _. Unit) (parse_statements f room ts)
  unfolding parse_statements
  statements-Safe zero room ts w g = absurd (omega (arith, g.fuel))
  statements-Safe (suc f) room ts w g =
      let P = λ (ns : Nodes). Unit in
      >>=-Safe U P (λ _. Unit) (current_is token_eof ts) _ (eof-Safe ts (g.ready))
        λ b _.
          test-Safe U P b _ _ (λ _. ok-Safe U P no_nodes tt)
            λ _.
              >>=-Safe U P (Reads U Node ts) (parser_parse_statement f ts) _
                (statement-Safe f ts (Given-same U 7 5 f ts g (omega arith)))
                λ (n, ts₁) s₁.
                  >>=-Safe U P (Stored U room ts) (stored room n ts₁) _
                    (stored-Safe U room n ts ts₁ s₁ w)
                    λ (n', ts₂) (s₂, w₂).
                      >>=-Safe U P P (parse_statements f (room - 1) ts₂) _
                        (statements-Safe f (room - 1) ts₂ w₂
                          (Given-after U 7 7 f ts ts₂ g s₂ (omega arith) (omega arith)))
                        λ ns _. ok-Safe U P (node n' ns) tt

  Fits-program : (ts : Tokens) → Fits U 64 ts → Fits U 1024 ts
  Fits-program ts (inl h) = inl (omega (arith, h))
  Fits-program ts (inr u) = inr u

  pub parse-Safe : (ts : Tokens) → Ready U ts → Fits U 64 ts → Safe U (λ _. Unit) (parse ts)
  unfolding parse
  parse-Safe ts r w =
      statements-Safe (8 * length ts + 8) 1024 ts (Fits-program ts w)
        (record { ready = r; fits = w; fuel = omega arith })

-- `parse` ends on every array of tokens that `tokenize` may give: with the statements of a program or by
-- `exit`, or outside of what C defines.
pub parse-ne-none : (ts : Tokens) → Ready Unit ts → parse ts ≢ none
parse-ne-none ts r = Safe-ne-none Unit (λ _. Unit) (parse ts) (parse-Safe Unit ts r (inr tt))

-- On at most 64 tokens without an import, `parse` never reads a token that was not written, never writes
-- behind one of its arrays and never copies a text that is not there.
pub parse-ne-undefined : (ts : Tokens) → Ready ⊥ ts → length ts ≤ 64 → parse ts ≢ some undefined
parse-ne-undefined ts r h e = Safe-undefined ⊥ (λ _. Unit) (parse ts) (parse-Safe ⊥ ts r (inl h)) e
