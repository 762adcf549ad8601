-- ===== src/Nyva/Generate/Statements.antt =====
-- The code generator of src/nyva.c on statements: it ends, and every jump that it writes goes to a label that
-- it writes.
use orta_vm.Prelude.{
  ℕ, ◌+◌, refl, sym, Bool, true, false, some, List, [], ◌∷◌, Str, codes, str_eq, length, inl, inr,
  if◌then◌else◌,
}
use mathlib.Core.Path.{subst}
use orta_vm.Result.Fueled.{◌>>=◌}
use orta_vm.Result.Safe.{ok-Safe, exit-Safe, >>=-Safe}
use orta_vm.Nyva.Syntax.{
  Node, var_declaration, assignment, if_statement, binary_expression, identifier, number, string,
  function_call, function_definition, return_statement, for_statement, import_statement,
  break_statement, while_statement, Nodes, no_nodes, node, Child, null_node, child, no_branch,
  branch,
}
use orta_vm.Nyva.Emit.{CodeGenerator, codegen_emit, label_text, setvar, var, label, signature}
use orta_vm.Nyva.Codegen.{codegen_generate_expression}
use orta_vm.Nyva.Generate.{
  Generated, generated, codegen_generate_var_declaration, codegen_generate_assignment,
  codegen_generate_return_statement, function_start, set_parameters, function_end, ends_return,
  enter_else, enter_loop, leave_loop, codegen_generate_statement_with_break,
  codegen_generate_statement, generate_with_break, generate_statements,
}
use orta_vm.Nyva.Generate.Sound.{
  Scope, Proper, Sound, with_label, with_break_label, with_written, with_label-Proper,
  with_break_label-Proper, with_written-Proper, emit-Sound, plain-Sound, number-Sound, setvar-Sound,
  comment-Sound, counter-Sound, indent-Sound, name-Sound, jmp-Sound, jmpif-Sound, allow-Sound,
  close-Sound, open-Sound,
}
use orta_vm.Nyva.Generate.Expressions.{expression-Sound}
use orta_vm.Nyva.Generate.Loops.{Continues, break-Continues, enter-Continues, leave-Sound}

module _ (c : Scope) (n : ℕ) where
  value-Continues :
      (value : Node) (name : Str) (g : CodeGenerator)
      → Sound c n g
      → Continues c n (
          some (codegen_generate_expression value g) >>= λ g₁.
          generated (codegen_emit (setvar name) g₁))
  value-Continues value name g h =
      >>=-Safe Unit (Sound c n) (Sound c n) (some (codegen_generate_expression value g)) _
        (expression-Sound c n value g h)
        λ g₁ h₁.
          ok-Safe Unit (Sound c n) (codegen_emit (setvar name) g₁) (setvar-Sound c n name g₁ h₁)

  var_declaration-Continues :
      (name : Str) (value : Child) (g : CodeGenerator)
      → Sound c n g
      → Continues c n (codegen_generate_var_declaration name value g)
  unfolding codegen_generate_var_declaration
  var_declaration-Continues name null_node g h =
      ok-Safe Unit (Sound c n) _ (emit-Sound c n (var name) g (λ _ j. elim j [ ]) h)
  var_declaration-Continues name (child value) g h = value-Continues value name g h

  assignment-Continues :
      (name : Str) (value : Node) (g : CodeGenerator)
      → Sound c n g
      → Continues c n (codegen_generate_assignment name value g)
  unfolding codegen_generate_assignment
  assignment-Continues name value g h = value-Continues value name g h

  return-Continues :
      (value : Child) (g : CodeGenerator)
      → Sound c n g
      → Continues c n (codegen_generate_return_statement value g)
  unfolding codegen_generate_return_statement
  return-Continues null_node g h =
      ok-Safe Unit (Sound c n) _ (plain-Sound c n _ _ (plain-Sound c n _ g h))
  return-Continues (child value) g h =
      >>=-Safe Unit (Sound c n) (Sound c n) (some (codegen_generate_expression value g)) _
        (expression-Sound c n value g h)
        λ g₁ h₁. ok-Safe Unit (Sound c n) _ (plain-Sound c n _ _ (plain-Sound c n _ g₁ h₁))

  if-Sound :
      (b : Bool) (g g' : CodeGenerator)
      → Sound c n g
      → Sound c n g'
      → Sound c n (if b then g else g')
  if-Sound true g g' h h' = h
  if-Sound false g g' h h' = h'

  function_start-Sound :
      (name : Str) (params : List Str) (g : CodeGenerator)
      → Proper c
      → Sound c n g
      → Sound c n (function_start name params g)
  unfolding function_start
  function_start-Sound name params g p h =
      let counted = number-Sound c n (length params) g h in
      let compared = plain-Sound c n _ _ (plain-Sound c n _ _ counted) in
      let swapped = plain-Sound c n _ _ (plain-Sound c n _ _ compared) in
      plain-Sound c n _ _ (
        if-Sound (str_eq name (codes "__entry")) g _ h (
          jmpif-Sound c n g.error_not_enough_args _
            (subst c.allowed (sym (h.errors)) (p.allows_error)) swapped))

  parameters-Sound :
      (params : List Str) (g : CodeGenerator) → Sound c n g → Sound c n (set_parameters params g)
  unfolding set_parameters
  parameters-Sound [] g h = h
  parameters-Sound (name ∷ names) g h = setvar-Sound c n name _ (parameters-Sound names g h)

  function_end-Sound :
      (name : Str) (g : CodeGenerator) → Sound c n g → Sound c n (function_end name g)
  unfolding function_end
  function_end-Sound name g h =
      let closed = plain-Sound c n (codes "togglelocalscope") g h in
      if-Sound (str_eq name (codes "__entry")) _ _ (plain-Sound c n _ _ closed)
        (plain-Sound c n _ _ (plain-Sound c n _ _ closed))

  with_break-Continues :
      (e : Node) (other : Generated) (g : CodeGenerator)
      → Proper c
      → Sound c n g
      → Continues c n other
      → Continues c n (codegen_generate_statement_with_break e other g)
  unfolding codegen_generate_statement_with_break
  with_break-Continues break_statement other g p h k =
      break-Continues c n g.current_break_label g p refl h
  with_break-Continues _ other g p h k = k

-- An import that keeps to a scope whichever it is.
abbrev pub ImportContinues : ℕ → (Str → CodeGenerator → Generated) → Type 1
ImportContinues n generate_import =
    (c : Scope) (file : Str) (g : CodeGenerator)
    → Proper c
    → Sound c n g
    → Continues c n (generate_import file g)

module _ (n : ℕ) (generate_import : Str → CodeGenerator → Generated)
    (imports : ImportContinues n generate_import) where
  mutual
    unfolding codegen_generate_statement enter_else

    pub statement-Continues :
        (c : Scope) (e : Node) (g : CodeGenerator)
        → Proper c
        → Sound c n g
        → Continues c n (codegen_generate_statement generate_import e g)
    statement-Continues c (var_declaration name value) g p h =
        var_declaration-Continues c n name value g h
    statement-Continues c (assignment name value) g p h = assignment-Continues c n name value g h
    statement-Continues c (return_statement value) g p h = return-Continues c n value g h
    statement-Continues c (function_call name args) g p h =
        expression-Sound c n (function_call name args) g h
    statement-Continues c break_statement g p h = ok-Safe Unit (Sound c n) g h
    statement-Continues c (import_statement file) g p h =
        >>=-Safe Unit (Sound c n) (Sound c n) (generate_import file _) _
          (imports c file _ p (comment-Sound c n _ file g h))
          λ g₁ h₁. ok-Safe Unit (Sound c n) _ (comment-Sound c n _ file g₁ h₁)
    statement-Continues c (binary_expression left type right) g p h = exit-Safe Unit (Sound c n) 1
    statement-Continues c (identifier name) g p h = exit-Safe Unit (Sound c n) 1
    statement-Continues c (number k) g p h = exit-Safe Unit (Sound c n) 1
    statement-Continues c (string s) g p h = exit-Safe Unit (Sound c n) 1
    statement-Continues c (if_statement condition body no_branch) g p h =
        let end_label = label_text (codes "if_end") g.label_counter in
        let d = with_label end_label c in
        let p' = with_label-Proper end_label c p in
        let h₁ = allow-Sound end_label c n _ (counter-Sound c n (g.label_counter + 1) g h) in
        >>=-Safe Unit (Sound c n) (Sound d n) (some (codegen_generate_expression condition _)) _
          (expression-Sound d n condition _ h₁)
          λ g₂ h₂.
            >>=-Safe Unit (Sound c n) (Sound d n) (generate_with_break generate_import body _) _
              (breaking-Continues d body _ p' (jmpif-Sound d n end_label g₂ (inr refl) h₂))
              λ g₃ h₃.
                ok-Safe Unit (Sound c n) (codegen_emit (label end_label) g₃)
                  (close-Sound end_label c n g₃ h₃)
    statement-Continues c (if_statement condition body (branch else_body)) g p h =
        let end_label = label_text (codes "if_end") g.label_counter in
        let d = with_label end_label c in
        let p' = with_label-Proper end_label c p in
        let h₁ = allow-Sound end_label c n _ (counter-Sound c n (g.label_counter + 1) g h) in
        >>=-Safe Unit (Sound c n) (Sound d n) (some (codegen_generate_expression condition _)) _
          (expression-Sound d n condition _ h₁)
          λ g₂ h₂.
            let else_label = label_text (codes "else") g₂.label_counter in
            let e = with_label else_label d in
            let h₃ =
              allow-Sound else_label d n _ (counter-Sound d n (g₂.label_counter + 1) g₂ h₂) in
            >>=-Safe Unit (Sound c n) (Sound e n) (generate_with_break generate_import body _) _
              (breaking-Continues e body _ (with_label-Proper else_label d p')
                (jmpif-Sound e n else_label _ (inr refl) h₃))
              λ g₄ h₄.
                let h₅ =
                  close-Sound else_label d n _ (jmp-Sound e n end_label g₄ (inl (inr refl)) h₄) in
                >>=-Safe Unit (Sound c n) (Sound d n)
                  (generate_statements generate_import else_body _) _
                  (statements-Continues d else_body _ p' h₅)
                  λ g₅ h₆.
                    ok-Safe Unit (Sound c n) (codegen_emit (label end_label) g₅)
                      (close-Sound end_label c n g₅ h₆)
    statement-Continues c (function_definition name params body) g p h =
        let h₁ =
          emit-Sound c n (signature (codes "; ") name (length params)) g (λ _ j. elim j [ ]) h in
        let h₂ = indent-Sound c n 1 _ (name-Sound c n name _ h₁) in
        let h₃ = parameters-Sound c n params _ (function_start-Sound c n name params _ p h₂) in
        >>=-Safe Unit (Sound c n) (Sound c n) (generate_statements generate_import body _) _
          (statements-Continues c body _ p h₃)
          λ g₃ h₄. ok-Safe Unit (Sound c n) _ (
            emit-Sound c n (signature (codes "; END ") name (length params)) _ (λ _ j. elim j [ ])
              (indent-Sound c n 0 _
                (if-Sound c n (ends_return body) g₃ _ h₄ (function_end-Sound c n name g₃ h₄))))
    statement-Continues c (while_statement condition body) g p h =
        let start_label = label_text (codes "while_start") g.label_counter in
        let end_label = label_text (codes "while_end") (g.label_counter + 1) in
        let d = with_written start_label c in
        let d' = with_break_label end_label d in
        let p' = with_break_label-Proper end_label d (with_written-Proper start_label c p) in
        let h₂ =
          counter-Sound c n (g.label_counter + 1 + 1) _
            (counter-Sound c n (g.label_counter + 1) g h) in
        >>=-Safe Unit (Sound c n) (Sound d' n) (enter_loop condition end_label _) _
          (enter-Continues d n condition end_label _ (open-Sound start_label c n _ h₂))
          λ g₃ h₃.
            >>=-Safe Unit (Sound c n) (Sound d' n) (generate_with_break generate_import body g₃) _
              (breaking-Continues d' body g₃ p' h₃)
              λ g₄ h₄.
                ok-Safe Unit (Sound c n) (leave_loop start_label end_label g₄)
                  (leave-Sound c n start_label end_label g₄ h₄)
    statement-Continues c (for_statement init condition update body) g p h =
        let start_label = label_text (codes "for_start") g.label_counter in
        let end_label = label_text (codes "for_end") (g.label_counter + 1) in
        let d = with_written start_label c in
        let d' = with_break_label end_label d in
        let p' = with_break_label-Proper end_label d (with_written-Proper start_label c p) in
        let h₂ =
          counter-Sound c n (g.label_counter + 1 + 1) _
            (counter-Sound c n (g.label_counter + 1) g h) in
        >>=-Safe Unit (Sound c n) (Sound c n) (codegen_generate_statement generate_import init _) _
          (statement-Continues c init _ p h₂)
          λ g₃ h₃.
            >>=-Safe Unit (Sound c n) (Sound d' n) (enter_loop condition end_label _) _
              (enter-Continues d n condition end_label _ (open-Sound start_label c n g₃ h₃))
              λ g₄ h₄.
                >>=-Safe Unit (Sound c n) (Sound d' n) (generate_with_break generate_import body g₄)
                  _ (breaking-Continues d' body g₄ p' h₄)
                  λ g₅ h₅.
                    >>=-Safe Unit (Sound c n) (Sound d' n)
                      (codegen_generate_statement generate_import update g₅) _
                      (statement-Continues d' update g₅ p' h₅)
                      λ g₆ h₆.
                        ok-Safe Unit (Sound c n) (leave_loop start_label end_label g₆)
                          (leave-Sound c n start_label end_label g₆ h₆)

    breaking-Continues :
        (c : Scope) (es : Nodes) (g : CodeGenerator)
        → Proper c
        → Sound c n g
        → Continues c n (generate_with_break generate_import es g)
    breaking-Continues c no_nodes g p h = ok-Safe Unit (Sound c n) g h
    breaking-Continues c (node e es) g p h =
        >>=-Safe Unit (Sound c n) (Sound c n) (codegen_generate_statement_with_break e _ g) _
          (with_break-Continues c n e _ g p h (statement-Continues c e g p h))
          λ g₁ h₁. breaking-Continues c es g₁ p h₁

    pub statements-Continues :
        (c : Scope) (es : Nodes) (g : CodeGenerator)
        → Proper c
        → Sound c n g
        → Continues c n (generate_statements generate_import es g)
    statements-Continues c no_nodes g p h = ok-Safe Unit (Sound c n) g h
    statements-Continues c (node e es) g p h =
        >>=-Safe Unit (Sound c n) (Sound c n) (codegen_generate_statement generate_import e g) _
          (statement-Continues c e g p h) λ g₁ h₁. statements-Continues c es g₁ p h₁
