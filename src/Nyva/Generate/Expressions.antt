-- ===== src/Nyva/Generate/Expressions.antt =====
-- The code generator of src/nyva.c on expressions: it writes no jump, and imports nothing.
use orta_vm.Prelude.{ℕ, some, Str, codes, str_eq, ◌==◌}
use orta_vm.Result.{Result, ok, exit, undefined}
use orta_vm.Result.Safe.{Safe, ok-Safe, exit-Safe}
use orta_vm.Result.Safe.Chain.{chain-Safe, branch-Safe}
use orta_vm.Nyva.Tokens.{
  TokenType, token_plus, token_minus, token_multiply, token_divide, token_gt, token_modulus,
  token_lt, token_eq, token_neq,
}
use orta_vm.Nyva.Syntax.{
  Node, binary_expression, identifier, number, string, function_call, Nodes, no_nodes, node,
  count_nodes,
}
use orta_vm.Nyva.Emit.{CodeGenerator, push_string, getvar, call}
use orta_vm.Nyva.Codegen.{
  codegen_generate_expression, generate_arguments, generate_call, call_start, call_end,
  emit_operator, inline_arguments, string_value, format_text,
}
use orta_vm.Nyva.Generate.Sound.{Scope, Sound, emit-Sound, plain-Sound, number-Sound, comment-Sound}

module _ (c : Scope) (n : ℕ) where
  -- What is known of a state that a part of the generator leaves.
  abbrev pub Leaves : Result CodeGenerator → Type 0
  Leaves r = Safe Unit (Sound c n) (some r)

  operator-Sound :
      (type : TokenType) (left right : Node) (g : CodeGenerator)
      → Sound c n g
      → Leaves (emit_operator type left right g)
  unfolding emit_operator
  operator-Sound token_plus left right g h = ok-Safe Unit (Sound c n) _ (plain-Sound c n _ g h)
  operator-Sound token_minus left right g h = ok-Safe Unit (Sound c n) _ (plain-Sound c n _ g h)
  operator-Sound token_multiply left right g h = ok-Safe Unit (Sound c n) _ (plain-Sound c n _ g h)
  operator-Sound token_divide left right g h = ok-Safe Unit (Sound c n) _ (plain-Sound c n _ g h)
  operator-Sound token_gt left right g h = ok-Safe Unit (Sound c n) _ (plain-Sound c n _ g h)
  operator-Sound token_modulus left right g h = ok-Safe Unit (Sound c n) _ (plain-Sound c n _ g h)
  operator-Sound token_lt left right g h = ok-Safe Unit (Sound c n) _ (plain-Sound c n _ g h)
  operator-Sound token_eq left right g h =
      ok-Safe Unit (Sound c n) _ (plain-Sound c n _ _ (plain-Sound c n _ g h))
  operator-Sound token_neq left right g h = ok-Safe Unit (Sound c n) _ (plain-Sound c n _ g h)
  operator-Sound _ left right g h = exit-Safe Unit (Sound c n) 1

  -- Any text may be there, or may be missing.
  any-Safe : {B : Type 0} (r : Result B) → Safe Unit (λ _. Unit) (some r)
  unfolding Safe
  any-Safe undefined = tt
  any-Safe (exit status) = tt
  any-Safe (ok b) = tt

  inline-Sound : (ns : Nodes) (g : CodeGenerator) → Sound c n g → Leaves (inline_arguments ns g)
  unfolding inline_arguments
  inline-Sound no_nodes g h = ok-Safe Unit (Sound c n) g h
  inline-Sound (node e ns) g h =
      chain-Safe Unit (Sound c n) (λ _. Unit) (string_value e) _ (any-Safe (string_value e))
        λ format _.
          chain-Safe Unit (Sound c n) (λ _. Unit) (format_text format) _
            (any-Safe (format_text format)) λ text _. inline-Sound ns _ (plain-Sound c n text g h)

  call-Sound :
      (name : Str) (args : Nodes) (all : Result CodeGenerator) (g : CodeGenerator)
      → Sound c n g
      → Leaves all
      → Leaves (generate_call name args all g)
  unfolding generate_call
  call-Sound name args all g h k =
      let P = Sound c n in
      branch-Safe Unit P (str_eq name (codes "@print")) _ _
        (λ _.
          chain-Safe Unit P P all _ k
            λ g₁ h₁. ok-Safe Unit P _ (plain-Sound c n (codes "print") g₁ h₁))
        λ _.
          branch-Safe Unit P (str_eq name (codes "@inline")) _ _ (λ _. inline-Sound args g h)
            λ _.
              branch-Safe Unit P (str_eq name (codes "@push")) _ _
                (λ _.
                  branch-Safe Unit P (count_nodes args == 1) _ _ (λ _. k) λ _. exit-Safe Unit P 1)
                λ _.
                  branch-Safe Unit P (str_eq name (codes "@pop")) _ _
                    (λ _.
                      branch-Safe Unit P (count_nodes args == 1) _ _ (λ _. k)
                        λ _. exit-Safe Unit P 1)
                    λ _. chain-Safe Unit P P all _ k λ g₁ h₁. ok-Safe Unit P _ (
                      emit-Sound c n (call name) _ (λ _ j. elim j [ ])
                        (number-Sound c n (count_nodes args) g₁ h₁))

  mutual
    unfolding codegen_generate_expression call_start call_end

    pub expression-Sound :
        (e : Node) (g : CodeGenerator) → Sound c n g → Leaves (codegen_generate_expression e g)
    expression-Sound (number v) g h = ok-Safe Unit (Sound c n) _ (number-Sound c n v g h)
    expression-Sound (string s) g h =
        ok-Safe Unit (Sound c n) _ (emit-Sound c n (push_string s) g (λ _ j. elim j [ ]) h)
    expression-Sound (identifier s) g h =
        ok-Safe Unit (Sound c n) _ (emit-Sound c n (getvar s) g (λ _ j. elim j [ ]) h)
    expression-Sound (binary_expression left type right) g h =
        let P = Sound c n in
        chain-Safe Unit P P (codegen_generate_expression left g) _ (expression-Sound left g h)
          λ g₁ h₁.
            chain-Safe Unit P P (codegen_generate_expression right g₁) _
              (expression-Sound right g₁ h₁) λ g₂ h₂. operator-Sound type left right g₂ h₂
    expression-Sound (function_call name args) g h =
        let P = Sound c n in
        let g₁ = call_start name g in
        let h₁ = comment-Sound c n _ name g h in
        chain-Safe Unit P P (generate_call name args (generate_arguments args g₁) g₁) _
          (call-Sound name args (generate_arguments args g₁) g₁ h₁ (arguments-Sound args g₁ h₁))
          λ g₂ h₂. ok-Safe Unit P _ (comment-Sound c n _ name g₂ h₂)
    expression-Sound _ g h = ok-Safe Unit (Sound c n) g h

    arguments-Sound :
        (ns : Nodes) (g : CodeGenerator) → Sound c n g → Leaves (generate_arguments ns g)
    arguments-Sound no_nodes g h = ok-Safe Unit (Sound c n) g h
    arguments-Sound (node e ns) g h =
        chain-Safe Unit (Sound c n) (Sound c n) (codegen_generate_expression e g) _
          (expression-Sound e g h) λ g₁ h₁. arguments-Sound ns g₁ h₁
