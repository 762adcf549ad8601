-- ===== src/Nyva/Generate/Loops.antt =====
-- The code around a loop, of the generator of src/nyva.c.
use orta_vm.Prelude.{
  ℕ, ◌≡◌, refl, sym, ◌∙◌, arith, true, false, some, Str, str_eq, str_eq_refl, inl, inr,
  if◌then◌else◌, Bool-cases,
}
use mathlib.Core.Path.{subst}
use orta_vm.Result.Safe.{Safe, ok-Safe, exit-Safe, undefined-Safe, >>=-Safe}
use orta_vm.Nyva.Syntax.{Node}
use orta_vm.Nyva.Emit.{
  CodeGenerator, BreakLabel, null_label, freed_label, live_label, codegen_emit, jmp, jmpif, label,
}
use orta_vm.Nyva.Codegen.{codegen_generate_expression}
use orta_vm.Nyva.Generate.{Generated, enter_loop, leave_loop, free_label, generate_break}
use orta_vm.Nyva.Generate.Sound.{
  Scope, Proper, Sound, Has, Has-last, IsLabel, label_here, With, with_label, with_break_label,
  with_written, change-Sound, allow-Sound, break-Sound, back-Sound, name-Sound, jmp-Sound,
  jmpif-Sound,
}
use orta_vm.Nyva.Generate.Expressions.{expression-Sound}

-- What is known of the state that a statement leaves.
abbrev pub Continues : Scope → ℕ → Generated → Type 0
Continues c n r = Safe Unit (Sound c n) r

live_label_injective : (s t : Str) → live_label s ≡ live_label t → s ≡ t
live_label_injective s t e = cc

module _ (c : Scope) (n : ℕ) where
  pub break-Continues :
      (b : BreakLabel) (g : CodeGenerator)
      → Proper c
      → g.current_break_label ≡ b
      → Sound c n g
      → Continues c n (generate_break b g)
  unfolding generate_break
  break-Continues null_label g p e h = exit-Safe Unit (Sound c n) 1
  break-Continues freed_label g p e h = undefined-Safe Unit (Sound c n) tt
  break-Continues (live_label l) g p e h =
      ok-Safe Unit (Sound c n) (codegen_emit (jmp l) g)
        (jmp-Sound c n l g (p.allows_breaks l (h.breaks l e)) h)

  pub enter-Continues :
      (condition : Node) (end_label : Str) (g : CodeGenerator)
      → Sound c n g
      → Continues (with_break_label end_label c) n (enter_loop condition end_label g)
  unfolding enter_loop
  enter-Continues condition end_label g h =
      let d = with_label end_label c in
      let d' = with_break_label end_label c in
      >>=-Safe Unit (Sound d' n) (Sound d n) (some (codegen_generate_expression condition g)) _
        (expression-Sound d n condition g (allow-Sound end_label c n g h))
        λ g₁ h₁.
          let g₂ = codegen_emit (jmpif end_label) g₁ in
          let h₂ = jmpif-Sound d n end_label g₁ (inr refl) h₁ in
          let h₃ =
            change-Sound d d' n n g₂ refl (λ s a. inr a) (h₂.has_labels)
              (λ l e. inl (h₂.breaks l e)) (omega arith) h₂ in
          ok-Safe Unit (Sound d' n) (record g₂ { current_break_label = live_label end_label })
            (break-Sound d' n (live_label end_label) g₂
              (λ l e. inr (live_label_injective end_label l e)) h₃)

  closed :
      (l : Str) (g : CodeGenerator)
      → Has (IsLabel l) g.out
      → Sound (with_break_label l c) n g
      → ((t : Str) → g.current_break_label ≡ live_label t → c.breakable t)
      → Sound c n g
  closed l g w h b =
      change-Sound (with_break_label l c) c n n g refl
        (λ s a. elim a [ inl k ↦ inr k | inr eq ↦ inl (subst (λ t. Has (IsLabel t) g.out) eq w) ])
        (h.has_labels) b (omega arith) h

  -- A pointer that is live and not to the label of the loop is to a label outside.
  other_break :
      (l : Str) (g : CodeGenerator) (s t : Str)
      → g.current_break_label ≡ live_label s
      → str_eq s l ≡ false
      → g.current_break_label ≡ live_label t
      → With c.breakable l t
      → c.breakable t
  other_break l g s t e k e' (inl b) = b
  other_break l g s t e k e' (inr eq) =
      let same = live_label_injective s t (sym e ∙ e') ∙ sym eq in
      let again : str_eq s l ≡ true = subst (λ u. str_eq s u ≡ true) same (str_eq_refl s) in
      absurd cc

  -- Once the label of the loop is written, the jumps to it need no leave, and its pointer dangles.
  free-Sound :
      (l : Str) (g : CodeGenerator) (b : BreakLabel)
      → g.current_break_label ≡ b
      → Has (IsLabel l) g.out
      → Sound (with_break_label l c) n g
      → Sound c n (elim b [
        | live_label s ↦ if str_eq s l then record g { current_break_label = freed_label } else g
        | _ ↦ g
      ])
  free-Sound l g (live_label s) e w h = elim (Bool-cases (str_eq s l)) [
    | inl k ↦ rw k (
        closed l (record g { current_break_label = freed_label }) w
          (break-Sound (with_break_label l c) n freed_label g (λ t e'. absurd cc) h)
          λ t e'. absurd cc)
    | inr k ↦ rw k (closed l g w h λ t e'. other_break l g s t e k e' (h.breaks t e'))
  ]
  free-Sound l g null_label e w h = closed l g w h λ t e'. absurd cc
  free-Sound l g freed_label e w h = closed l g w h λ t e'. absurd cc

  pub leave-Sound :
      (start_label end_label : Str) (g : CodeGenerator)
      → Sound (with_break_label end_label (with_written start_label c)) n g
      → Sound c n (leave_loop start_label end_label g)
  unfolding leave_loop free_label codegen_emit
  leave-Sound start_label end_label g h =
      let d = with_break_label end_label (with_written start_label c) in
      let g₁ = codegen_emit (jmp start_label) g in
      let g₂ = codegen_emit (label end_label) g₁ in
      let h₂ = name-Sound d n end_label g₁ (back-Sound d n start_label g (inr refl) h) in
      free-Sound end_label g₂ g.current_break_label refl
        (Has-last (IsLabel end_label) g₁.out _ label_here)
        (change-Sound d (with_break_label end_label c) n n g₂ refl (λ s a. inr a)
          (λ s w. h₂.has_labels s (inl w)) (h₂.breaks) (omega arith) h₂)
