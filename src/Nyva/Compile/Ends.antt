-- ===== src/Nyva/Compile/Ends.antt =====
-- The compiler of src/nyva.c on whole programs: it ends for every file, with its imports, and the program that
-- it writes jumps to no label that is not there.
use orta_vm.Prelude.{
  ℕ, zero, suc, ◌+◌, ◌≤◌, ◌≡◌, ◌≢◌, refl, sym, arith, Bool, true, false, none, some, List, [], ◌∷◌,
  ◌++◌, Str, codes, str_eq, length, ltb, inl, inr, if◌then◌else◌, Bool-cases, not, ◌&&◌,
  length-append, str_eq_refl,
}
use mathlib.Core.Path.{subst}
use orta_vm.Result.{ok}
use orta_vm.Result.Fueled.{Fueled}
use orta_vm.Result.Safe.{
  Safe, Safe-ne-none, Safe-ok, ok-Safe, exit-Safe, undefined-Safe, >>=-Safe, test-Safe, option-Safe,
  map-Safe,
}
use orta_vm.Nyva.Syntax.{Nodes, no_nodes, node}
use orta_vm.Nyva.Parser.Ready.{Ready}
use orta_vm.Nyva.Lexer.{tokenize}
use orta_vm.Nyva.Lexer.Fetches.{tokenize-Safe}
use orta_vm.Nyva.Statements.Ends.{parse-Safe}
use orta_vm.Nyva.Preprocess.Removes.{preprocess-Sublist}
use orta_vm.Nyva.Emit.{CodeGenerator, codegen_emit, label_text, plain, label, output_text}
use orta_vm.Nyva.Generate.{Generated, codegen_generate_statement}
use orta_vm.Nyva.Generate.Sound.{
  Scope, Proper, Sound, Has, JumpsTo, IsLabel, Distinct, no_names, name, Fresh, fresh_end,
  fresh_name, with_label, change-Sound, plain-Sound, close-Sound,
}
use orta_vm.Nyva.Generate.Loops.{Continues}
use orta_vm.Nyva.Generate.Statements.{ImportContinues, statement-Continues}
use orta_vm.Nyva.Compile.{
  Files, read_file, parse_source, file_in, is_file_imported, add_imported_file, without_quotes,
  is_entry, is_function, generate_imported, codegen_generate_import_statement,
  generate_program_statements, emit_error, codegen_generate_program, has_entry, generator, compile,
}

read_file-Safe : (files : Files) (s : Str) → Safe Unit (λ _. Unit) (read_file files s)
unfolding read_file
read_file-Safe files s =
    let P = λ (source : Str). Unit in
    option-Safe Unit P (files s) _ _ (λ _. exit-Safe Unit P 1) λ source _. ok-Safe Unit P source tt

-- The text of a file is read in full, or found wrong.
parse_source-Safe : (source : Str) → Safe Unit (λ _. Unit) (parse_source source)
unfolding parse_source
parse_source-Safe source =
    let P = λ (ns : Nodes). Unit in
    let (text, e, _, _) = preprocess-Sublist source in
    rw e (
      >>=-Safe Unit P (Ready Unit) (some (tokenize text)) _ (tokenize-Safe Unit text (inr tt))
        λ ts r. parse-Safe Unit ts r (inr tt))

no_test : (b x : Bool) → (if b then true else x) ≡ false → (b ≡ false) × (x ≡ false)
no_test true x h = absurd cc
no_test false x h = (refl, h)

not_same : (s t : Str) → str_eq s t ≡ false → t ≢ s
not_same s t h e =
    let again : str_eq s t ≡ true = subst (λ u. str_eq s u ≡ true) (sym e) (str_eq_refl s) in
    absurd cc

-- A name that a list of distinct ones does not have can be added to it.
Fresh-append : (s t : Str) (ss : List Str) → t ≢ s → Fresh s ss → Fresh s (ss ++ (t ∷ []))
Fresh-append s t [] e h = fresh_name e fresh_end
Fresh-append s t (u ∷ ss) e (fresh_name e' h) = fresh_name e' (Fresh-append s t ss e h)

Distinct-append :
    (ss : List Str) (t : Str) → file_in ss t ≡ false → Distinct ss → Distinct (ss ++ (t ∷ []))
unfolding file_in
Distinct-append [] t h d = name fresh_end no_names
Distinct-append (s ∷ ss) t h (name f d) =
    let (e, k) = no_test (str_eq s t) (file_in ss t) h in
    name (Fresh-append s t ss (not_same s t e) f) (Distinct-append ss t k d)

module _ (c : Scope) (n : ℕ) where
  add-Sound :
      (s : Str) (g : CodeGenerator)
      → is_file_imported s g ≡ false
      → Sound c n g
      → Continues c (suc n) (add_imported_file s g)
  unfolding add_imported_file is_file_imported
  add-Sound s g e h = elim (Bool-cases (ltb (length g.imported_files) 64)) [
    | inl k ↦ rw k (
        ok-Safe Unit (Sound c (suc n)) (record g { imported_files = g.imported_files ++ (s ∷ []) })
          (record {
            resolved = h.resolved;
            has_labels = h.has_labels;
            breaks = h.breaks;
            errors = h.errors;
            imports = omega (arith, h.imports, length-append g.imported_files (s ∷ []));
            capacity = ground (arith, k, length-append g.imported_files (s ∷ []));
            distinct = Distinct-append g.imported_files s e (h.distinct);
          }))
    | inr k ↦ rw k (undefined-Safe Unit (Sound c (suc n)) tt)
  ]

  imported-Sound :
      (import_file : Str → CodeGenerator → Generated) (ns : Nodes) (g : CodeGenerator)
      → ImportContinues n import_file
      → Proper c
      → Sound c n g
      → Continues c n (generate_imported import_file ns g)
  unfolding generate_imported
  imported-Sound import_file no_nodes g i p h = ok-Safe Unit (Sound c n) g h
  imported-Sound import_file (node e es) g i p h =
      >>=-Safe Unit (Sound c n) (Sound c n) _ _
        (test-Safe Unit (Sound c n) (is_entry e) _ _ (λ _. ok-Safe Unit (Sound c n) g h)
          λ _. statement-Continues n import_file i c e g p h)
        λ g₁ h₁. imported-Sound import_file es g₁ i p h₁

  blank-Sound :
      (b : Bool) (g : CodeGenerator)
      → Sound c n g
      → Sound c n (if b then codegen_emit (plain []) g else g)
  blank-Sound true g h = plain-Sound c n [] g h
  blank-Sound false g h = h

  program-Sound :
      (import_file : Str → CodeGenerator → Generated) (ns : Nodes) (g : CodeGenerator)
      → ImportContinues n import_file
      → Proper c
      → Sound c n g
      → Continues c n (generate_program_statements import_file ns g)
  unfolding generate_program_statements
  program-Sound import_file no_nodes g i p h = ok-Safe Unit (Sound c n) g h
  program-Sound import_file (node e es) g i p h =
      >>=-Safe Unit (Sound c n) (Sound c n) (codegen_generate_statement import_file e g) _
        (statement-Continues n import_file i c e g p h)
        λ g₁ h₁. program-Sound import_file es _ i p (blank-Sound (is_function e) g₁ h₁)

fewer : (c : Scope) (n : ℕ) (g : CodeGenerator) → Sound c (suc n) g → Sound c n g
fewer c n g h =
    change-Sound c c (suc n) n g refl (λ s a. inr a) (h.has_labels) (h.breaks) (omega arith) h

-- At most 64 files are imported, so that 65 calls are enough.
import-Continues :
    (files : Files) (f n : ℕ)
    → 65 ≤ n + f
    → ImportContinues n (codegen_generate_import_statement files f)
unfolding codegen_generate_import_statement
import-Continues files zero n w c file g p h = absurd (omega (arith, w, h.imports, h.capacity))
import-Continues files (suc f) n w c file g p h =
    let P = Sound c n in
    let filename = without_quotes file in
    test-Safe Unit P (is_file_imported filename g) _ _ (λ _. ok-Safe Unit P g h)
      λ e.
        >>=-Safe Unit P (Sound c (suc n)) (add_imported_file filename g) _
          (add-Sound c n filename g e h)
          λ g₁ h₁.
            >>=-Safe Unit P (λ _. Unit) (read_file files filename) _ (read_file-Safe files filename)
              λ source _.
                >>=-Safe Unit P (λ _. Unit) (parse_source source) _ (parse_source-Safe source)
                  λ statements _.
                    map-Safe Unit P (Sound c (suc n)) _ (λ g₂ h₂. fewer c n g₂ h₂)
                      (imported-Sound c (suc n) (codegen_generate_import_statement files f)
                        statements g₁ (import-Continues files f (suc n) (omega (arith, w))) p h₁)

-- Nothing may be jumped to, but the code of the error, whose label is the first.
abbrev closed_scope : Str → Scope
closed_scope error = record {
  allowed = λ _. ⊥;
  breakable = λ _. ⊥;
  labels = λ _. ⊥;
  failure = error;
}

module _ (error : Str) where
  program_scope : Scope
  program_scope = with_label error (closed_scope error)

  program_scope-Proper : Proper program_scope
  unfolding program_scope
  program_scope-Proper = record { allows_breaks = λ l b. absurd b; allows_error = inr refl }

  generator-Sound :
      (k : ℕ)
      → Sound program_scope 0
          (record generator { label_counter = k; error_not_enough_args = error })
  unfolding program_scope
  generator-Sound k = record {
    resolved = λ s j. elim j [ ];
    has_labels = λ s w. absurd w;
    breaks = λ l e. absurd cc;
    errors = refl;
    imports = omega arith;
    capacity = omega arith;
    distinct = no_names;
  }

  error-Sound :
      (g : CodeGenerator) → Sound program_scope 0 g → Sound (closed_scope error) 0 (emit_error g)
  unfolding emit_error program_scope
  error-Sound g h =
      let c = closed_scope error in
      let labelled =
        subst (λ l. Sound c 0 (codegen_emit (label l) g)) (sym (h.errors))
          (close-Sound error c 0 g h) in
      plain-Sound c 0 _ _ (plain-Sound c 0 _ _ (plain-Sound c 0 _ _ (plain-Sound c 0 _ _ labelled)))

abbrev pub error_label : Str
error_label = label_text (codes "error_not_enough_args") 0

-- The state behind a whole program.
abbrev Finished : CodeGenerator → Type 0
Finished g = Sound (closed_scope error_label) 0 g

program-Safe :
    (files : Files) (program : Nodes)
    → Safe Unit Finished
        (codegen_generate_program (codegen_generate_import_statement files 65) program generator)
unfolding codegen_generate_program
program-Safe files program =
    let c = program_scope error_label in
    let i = import-Continues files 65 0 (omega arith) in
    >>=-Safe Unit Finished (Sound c 0) (generate_program_statements _ program _) _
      (program-Sound c 0 (codegen_generate_import_statement files 65) program _ i
        (program_scope-Proper error_label) (generator-Sound error_label 1))
      λ g h. ok-Safe Unit Finished (emit_error g) (error-Sound error_label g h)

if-Safe :
    {A : Type 0} (P : A → Type 0) (b : Bool) (m n : Fueled A)
    → Safe Unit P m
    → Safe Unit P n
    → Safe Unit P (if b then m else n)
if-Safe P true m n h k = h
if-Safe P false m n h k = k

compile-Safe :
    (files : Files) (is_lib opens : Bool) (input : Str)
    → Safe Unit (λ _. Unit) (compile files is_lib opens input)
unfolding compile
compile-Safe files is_lib opens input =
    let P = λ (text : Str). Unit in
    >>=-Safe Unit P (λ _. Unit) (read_file files input) _ (read_file-Safe files input)
      λ source _.
        >>=-Safe Unit P (λ _. Unit) (parse_source source) _ (parse_source-Safe source)
          λ ast _. if-Safe P (not is_lib && not (has_entry ast)) _ _ (exit-Safe Unit P 1) (
            test-Safe Unit P opens _ _
              (λ _.
                >>=-Safe Unit P Finished (codegen_generate_program _ ast generator) _
                  (program-Safe files ast) λ g _. ok-Safe Unit P (output_text g.out) tt)
              λ _. exit-Safe Unit P 1)

-- `compile` ends for every file, however its imports are nested or name one another: with the text of the
-- output, by `exit`, or outside of what C defines.
pub compile-ne-none :
    (files : Files) (is_lib opens : Bool) (input : Str) → compile files is_lib opens input ≢ none
compile-ne-none files is_lib opens input =
    Safe-ne-none Unit (λ _. Unit) (compile files is_lib opens input)
      (compile-Safe files is_lib opens input)

-- In the code of a program and of all it imports, every `jmp` and `jmpif` that the compiler writes goes to a
-- label that it writes, be it of a loop, a `break`, an `if` or the check of the arguments.
pub jumps-resolved :
    (files : Files) (program : Nodes) (g : CodeGenerator)
    → codegen_generate_program (codegen_generate_import_statement files 65) program generator
      ≡ some (ok g)
    → (s : Str) → Has (JumpsTo s) g.out
    → Has (IsLabel s) g.out
jumps-resolved files program g e s j =
    let h =
      Safe-ok Unit Finished
        (codegen_generate_program (codegen_generate_import_statement files 65) program generator) g
        (program-Safe files program) e in
    elim (h.resolved s j) [ inl l ↦ l | inr a ↦ absurd a ]
