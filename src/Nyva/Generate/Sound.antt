-- ===== src/Nyva/Generate/Sound.antt =====
-- What holds of the state of the code generator of src/nyva.c between any two lines that it writes.
use orta_vm.Prelude.{
  ℕ, ◌≤◌, ◌≡◌, ◌≢◌, refl, sym, ◌∙◌, arith, List, [], ◌∷◌, ◌++◌, Str, length, ◌⊎◌, inl, inr,
}
use mathlib.Core.Path.{subst}
use orta_vm.Nyva.Emit.{
  Emission, Written, CodeGenerator, BreakLabel, live_label, codegen_emit, plain, push_number,
  setvar, jmp, jmpif, label, comment,
}

-- A line of the output is such.
pub data Has (P : Emission → Type 0) : List Written → Type 0 where
  here : {w : Written} {ws : List Written} → P w.emission → Has P (w ∷ ws)
  there : {w : Written} {ws : List Written} → Has P ws → Has P (w ∷ ws)

module _ (P : Emission → Type 0) where
  pub Has-before : (xs ys : List Written) → Has P xs → Has P (xs ++ ys)
  Has-before [] ys h = elim h [ ]
  Has-before (x ∷ xs) ys (here h) = here h
  Has-before (x ∷ xs) ys (there h) = there (Has-before xs ys h)

  pub Has-last : (xs : List Written) (w : Written) → P w.emission → Has P (xs ++ (w ∷ []))
  Has-last [] w h = here h
  Has-last (x ∷ xs) w h = there (Has-last xs w h)

  pub Has-split :
      (xs : List Written) (w : Written) → Has P (xs ++ (w ∷ [])) → Has P xs ⊎ P w.emission
  Has-split [] w (here h) = inr h
  Has-split [] w (there h) = elim h [ ]
  Has-split (x ∷ xs) w (here h) = inl (here h)
  Has-split (x ∷ xs) w (there h) = elim (Has-split xs w h) [ inl k ↦ inl (there k) | inr k ↦ inr k ]

pub data JumpsTo (s : Str) : Emission → Type 0 where
  by_jmp : JumpsTo s (jmp s)
  by_jmpif : JumpsTo s (jmpif s)

pub data IsLabel (s : Str) : Emission → Type 0 where
  label_here : IsLabel s (label s)

-- The name is none of the list.
pub data Fresh (s : Str) : List Str → Type 0 where
  fresh_end : Fresh s []
  fresh_name : {t : Str} {ts : List Str} → t ≢ s → Fresh s ts → Fresh s (t ∷ ts)

-- Every name of the list is another.
pub data Distinct : List Str → Type 0 where
  no_names : Distinct []
  name : {s : Str} {ss : List Str} → Fresh s ss → Distinct ss → Distinct (s ∷ ss)

-- The names that a part of the code may use: labels that will be written, those of them that a `break` may
-- jump to, labels that are written, and the label of the error.
pub record Scope : Type 1 where
  pub allowed : Str → Type 0
  pub breakable : Str → Type 0
  pub labels : Str → Type 0
  pub failure : Str

pub record Proper (c : Scope) : Type 0 where
  pub allows_breaks : (l : Str) → c.breakable l → c.allowed l
  pub allows_error : c.allowed c.failure

-- What holds of a state in that scope, when this many files were imported.
pub record Sound (c : Scope) (n : ℕ) (g : CodeGenerator) : Type 0 where
  -- every jump written goes to a label written, or is allowed
  pub resolved : (s : Str) → Has (JumpsTo s) g.out → Has (IsLabel s) g.out ⊎ c.allowed s
  pub has_labels : (s : Str) → c.labels s → Has (IsLabel s) g.out
  pub breaks : (l : Str) → g.current_break_label ≡ live_label l → c.breakable l
  pub errors : g.error_not_enough_args ≡ c.failure
  pub imports : n ≤ length g.imported_files
  pub capacity : length g.imported_files ≤ 64
  pub distinct : Distinct g.imported_files

jmp_only : (A : Str → Type 0) (l s : Str) → A l → JumpsTo s (jmp l) → A s
jmp_only A l _ a by_jmp = a

jmpif_only : (A : Str → Type 0) (l s : Str) → A l → JumpsTo s (jmpif l) → A s
jmpif_only A l _ a by_jmpif = a

-- What `A` holds of, and one label more.
abbrev pub With : (Str → Type 0) → Str → Str → Type 0
With A l s = A s ⊎ (l ≡ s)

module _ (c : Scope) (n : ℕ) where
  pub emit-Sound :
      (e : Emission) (g : CodeGenerator)
      → ((s : Str) → JumpsTo s e → c.allowed s)
      → Sound c n g
      → Sound c n (codegen_emit e g)
  unfolding codegen_emit
  emit-Sound e g h k = record {
    resolved = λ s j. elim (Has-split (JumpsTo s) g.out _ j) [
      | inl old ↦ elim (k.resolved s old) [
        | inl l ↦ inl (Has-before (IsLabel s) g.out _ l)
        | inr a ↦ inr a
      ]
      | inr new ↦ inr (h s new)
    ];
    has_labels = λ s w. Has-before (IsLabel s) g.out _ (k.has_labels s w);
    breaks = k.breaks;
    errors = k.errors;
    imports = k.imports;
    capacity = k.capacity;
    distinct = k.distinct;
  }

  -- A jump to what is allowed.
  pub jmp-Sound :
      (l : Str) (g : CodeGenerator) → c.allowed l → Sound c n g → Sound c n (codegen_emit (jmp l) g)
  jmp-Sound l g a = emit-Sound (jmp l) g λ s j. jmp_only c.allowed l s a j

  pub jmpif-Sound :
      (l : Str) (g : CodeGenerator)
      → c.allowed l
      → Sound c n g
      → Sound c n (codegen_emit (jmpif l) g)
  jmpif-Sound l g a = emit-Sound (jmpif l) g λ s j. jmpif_only c.allowed l s a j

  pub plain-Sound :
      (s : Str) (g : CodeGenerator) → Sound c n g → Sound c n (codegen_emit (plain s) g)
  plain-Sound s g = emit-Sound (plain s) g λ _ j. elim j [ ]

  pub number-Sound :
      (k : ℕ) (g : CodeGenerator) → Sound c n g → Sound c n (codegen_emit (push_number k) g)
  number-Sound k g = emit-Sound (push_number k) g λ _ j. elim j [ ]

  pub setvar-Sound :
      (s : Str) (g : CodeGenerator) → Sound c n g → Sound c n (codegen_emit (setvar s) g)
  setvar-Sound s g = emit-Sound (setvar s) g λ _ j. elim j [ ]

  pub comment-Sound :
      (s t : Str) (g : CodeGenerator) → Sound c n g → Sound c n (codegen_emit (comment s t) g)
  comment-Sound s t g = emit-Sound (comment s t) g λ _ j. elim j [ ]

  -- A jump back to a label that is written.
  pub back-Sound :
      (l : Str) (g : CodeGenerator) → c.labels l → Sound c n g → Sound c n (codegen_emit (jmp l) g)
  unfolding codegen_emit
  back-Sound l g b k = record {
    resolved = λ s j. elim (Has-split (JumpsTo s) g.out _ j) [
      | inl old ↦ elim (k.resolved s old) [
        | inl h ↦ inl (Has-before (IsLabel s) g.out _ h)
        | inr a ↦ inr a
      ]
      | inr new ↦ inl (
          jmp_only (λ t. Has (IsLabel t) (codegen_emit (jmp l) g).out) l s
            (Has-before (IsLabel l) g.out _ (k.has_labels l b)) new)
    ];
    has_labels = λ s w. Has-before (IsLabel s) g.out _ (k.has_labels s w);
    breaks = k.breaks;
    errors = k.errors;
    imports = k.imports;
    capacity = k.capacity;
    distinct = k.distinct;
  }

  -- The label of a function, or of a loop, that no jump waits for.
  pub name-Sound :
      (l : Str) (g : CodeGenerator) → Sound c n g → Sound c n (codegen_emit (label l) g)
  name-Sound l g = emit-Sound (label l) g λ _ j. elim j [ ]

  pub counter-Sound :
      (k : ℕ) (g : CodeGenerator) → Sound c n g → Sound c n (record g { label_counter = k })
  counter-Sound k g h = record {
    resolved = h.resolved;
    has_labels = h.has_labels;
    breaks = h.breaks;
    errors = h.errors;
    imports = h.imports;
    capacity = h.capacity;
    distinct = h.distinct;
  }

  pub indent-Sound :
      (k : ℕ) (g : CodeGenerator) → Sound c n g → Sound c n (record g { indent_level = k })
  indent-Sound k g h = record {
    resolved = h.resolved;
    has_labels = h.has_labels;
    breaks = h.breaks;
    errors = h.errors;
    imports = h.imports;
    capacity = h.capacity;
    distinct = h.distinct;
  }

  pub break-Sound :
      (b : BreakLabel) (g : CodeGenerator)
      → ((l : Str) → b ≡ live_label l → c.breakable l)
      → Sound c n g
      → Sound c n (record g { current_break_label = b })
  break-Sound b g a h = record {
    resolved = h.resolved;
    has_labels = h.has_labels;
    breaks = a;
    errors = h.errors;
    imports = h.imports;
    capacity = h.capacity;
    distinct = h.distinct;
  }

-- A label more that may be jumped to, that a `break` may jump to, or that is written.
abbrev pub with_label : Str → Scope → Scope
with_label l c = record c { allowed = With c.allowed l }

abbrev pub with_break_label : Str → Scope → Scope
with_break_label l c = record c { allowed = With c.allowed l; breakable = With c.breakable l }

abbrev pub with_written : Str → Scope → Scope
with_written l c = record c { labels = With c.labels l }

pub with_label-Proper : (l : Str) (c : Scope) → Proper c → Proper (with_label l c)
with_label-Proper l c p = record {
  allows_breaks = λ s b. inl (p.allows_breaks s b);
  allows_error = inl (p.allows_error);
}

pub with_break_label-Proper : (l : Str) (c : Scope) → Proper c → Proper (with_break_label l c)
with_break_label-Proper l c p = record {
  allows_breaks = λ s b. elim b [ inl h ↦ inl (p.allows_breaks s h) | inr e ↦ inr e ];
  allows_error = inl (p.allows_error);
}

pub with_written-Proper : (l : Str) (c : Scope) → Proper c → Proper (with_written l c)
with_written-Proper l c p = record {
  allows_breaks = p.allows_breaks;
  allows_error = p.allows_error;
}

-- A state of one scope in another, whose error label is the same and which knows more labels, fewer written
-- ones, and how its own jumps resolve.
pub change-Sound :
    (c d : Scope) (n m : ℕ) (g : CodeGenerator)
    → c.failure ≡ d.failure
    → ((s : Str) → c.allowed s → Has (IsLabel s) g.out ⊎ d.allowed s)
    → ((s : Str) → d.labels s → Has (IsLabel s) g.out)
    → ((l : Str) → g.current_break_label ≡ live_label l → d.breakable l)
    → m ≤ n
    → Sound c n g
    → Sound d m g
change-Sound c d n m g e f w b le h = record {
  resolved = λ s j. elim (h.resolved s j) [ inl l ↦ inl l | inr a ↦ f s a ];
  has_labels = w;
  breaks = b;
  errors = h.errors ∙ e;
  imports = omega (arith, h.imports, le);
  capacity = h.capacity;
  distinct = h.distinct;
}

-- More labels may be jumped to.
pub allow-Sound :
    (l : Str) (c : Scope) (n : ℕ) (g : CodeGenerator) → Sound c n g → Sound (with_label l c) n g
allow-Sound l c n g h =
    change-Sound c (with_label l c) n n g refl (λ s a. inr (inl a)) (h.has_labels) (h.breaks)
      (omega arith) h

-- The label that was waited for is written.
pub close-Sound :
    (l : Str) (c : Scope) (n : ℕ) (g : CodeGenerator)
    → Sound (with_label l c) n g
    → Sound c n (codegen_emit (label l) g)
unfolding codegen_emit
close-Sound l c n g h =
    let after = codegen_emit (label l) g in
    let k = name-Sound (with_label l c) n l g h in
    change-Sound (with_label l c) c n n after refl
      (λ s a. elim a [
        | inl h' ↦ inr h'
        | inr eq ↦
            inl
              (Has-last (IsLabel s) g.out _ (subst (λ t. IsLabel s (label t)) (sym eq) label_here))
      ])
      (k.has_labels) (k.breaks) (omega arith) k

-- A label is written that jumps may go back to.
pub open-Sound :
    (l : Str) (c : Scope) (n : ℕ) (g : CodeGenerator)
    → Sound c n g
    → Sound (with_written l c) n (codegen_emit (label l) g)
unfolding codegen_emit
open-Sound l c n g h =
    let k = name-Sound c n l g h in
    change-Sound c (with_written l c) n n (codegen_emit (label l) g) refl (λ s a. inr a)
      (λ s w. elim w [
        | inl h' ↦ k.has_labels s h'
        | inr eq ↦
            Has-last (IsLabel s) g.out _ (subst (λ t. IsLabel s (label t)) (sym eq) label_here)
      ])
      (k.breaks) (omega arith) k
