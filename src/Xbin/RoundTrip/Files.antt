-- ===== src/Xbin/RoundTrip/Files.antt =====
-- Whole bytecode files: what `create_xbin` writes, and what the loaders make of it.
use orta_vm.Prelude.{
  ℕ, zero, suc, ◌-◌, ◌^◌, ◌≤◌, ◌<◌, ◌≡◌, refl, sym, ap, ◌∙◌, arith, true, leb, some, List, [], ◌∷◌,
  ◌++◌, length, All, lt→ltb, length-append, replicate, take-length_append,
}
use mathlib.Core.List.{append_assoc, append-nil, map}
use orta_vm.Result.{ok}
use orta_vm.Program.{Program, InstructionData, Label}
use orta_vm.Heap.{to_bytes}
use orta_vm.Vm.{OrtaVm, OrtaMeta}
use orta_vm.Flags.Bounds.{IsFlags, set_flags-IsFlags}
use orta_vm.Xbin.{instructions_bytes, labels_bytes, program_bytes, meta_bytes, create_xbin}
use orta_vm.Xbin.Load.{
  Source, got, read_bytes, load_all_labels, load_program, load_meta, load, release_variables,
  array_limit,
}
use orta_vm.Xbin.Numbers.{read_bytes-append, read_number-to_bytes, read_one}
use orta_vm.Xbin.RoundTrip.{
  IsText, IsInstruction, IsLabel, instruction_through, read_text-text_bytes,
  load_instructions-instructions_bytes, load_labels-labels_bytes,
}

-- The texts and counts of a program fit in their fields.
pub record IsProgram (p : Program) : Type 0 where
  pub filename_fits : IsText p.filename
  pub few_instructions : length p.instructions < array_limit
  pub instructions_fit : All IsInstruction p.instructions
  pub few_labels : length p.labels < array_limit
  pub labels_fit : All IsLabel p.labels

-- What a loader makes of `p` in a machine that held `old`.
abbrev pub program_through : Source → Program → Program → Program
program_through src old p = record old {
  filename = p.filename;
  instructions = map (instruction_through src) p.instructions;
  instructions_capacity = length p.instructions;
  labels = p.labels;
  labels_capacity = length p.labels;
  variables = [];
}

length-map :
    (f : InstructionData → InstructionData) (is : List InstructionData)
    → length (map f is) ≡ length is
length-map f [] = refl
length-map f (i ∷ is) = ap suc (length-map f is)

load_all_labels-labels_bytes :
    (is : List InstructionData) (ls : List Label)
    → length ls < array_limit
    → All IsLabel ls
    → load_all_labels is (to_bytes 8 (length ls) ++ labels_bytes ls) ≡ got ls []
unfolding load_all_labels
load_all_labels-labels_bytes is ls n k =
    rw
      (
        read_number-to_bytes 8 (length ls) (labels_bytes ls) (omega arith),
        lt→ltb (length ls) array_limit n,
        sym (append-nil (labels_bytes ls)),
      )
      (load_labels-labels_bytes ls 0 is [] k)

load_program-program_bytes :
    (src : Source) (old p : Program)
    → IsProgram p
    → load_program src 0 old (program_bytes p) ≡ got (program_through src old p) []
unfolding load_program program_bytes
load_program-program_bytes src old p v =
    let tail = to_bytes 8 (length p.labels) ++ labels_bytes p.labels in
    let body = instructions_bytes p.instructions ++ tail in
    let head : length p.instructions < 256 ^ 8 = omega (arith, v.few_instructions) in
    rw
      (
        read_text-text_bytes p.filename (to_bytes 8 (length p.instructions) ++ body)
            v.filename_fits,
        read_number-to_bytes 8 (length p.instructions) body head,
        lt→ltb (length p.instructions) array_limit v.few_instructions,
        load_instructions-instructions_bytes src p.instructions [] tail v.instructions_fit,
        load_all_labels-labels_bytes (map (instruction_through src) p.instructions) p.labels
            v.few_labels v.labels_fit,
        length-map (instruction_through src) p.instructions,
      )
      refl

read_part :
    (n : ℕ) (part rest : List ℕ) → length part ≡ n → read_bytes n (part ++ rest) ≡ got part rest
read_part n part rest e =
    ap (λ k. read_bytes k (part ++ rest)) (sym e) ∙ read_bytes-append part rest

length-replicate : (n : ℕ) → length {A = ℕ} (replicate n 0) ≡ n
length-replicate zero = refl
length-replicate (suc n) = ap suc (length-replicate n)

le→leb : (a b : ℕ) → a ≤ b → leb a b ≡ true
le→leb a b h = ground arith

load_meta-meta_bytes :
    (m : OrtaMeta) (rest : List ℕ)
    → length m.magic ≡ 4
    → length m.flags ≤ 4
    → load_meta (meta_bytes m ++ rest) ≡ got m rest
unfolding load_meta meta_bytes
load_meta-meta_bytes m rest four few =
    let cells = m.flags ++ replicate (4 - length m.flags) 0 in
    let e : length cells ≡ 4 = omega (
      arith,
      length-append m.flags (replicate (4 - length m.flags) 0),
      length-replicate (4 - length m.flags),
    ) in
    rw
      (
        append_assoc,
        read_part 4 m.magic (length m.flags ∷ (cells ++ rest)) four,
        read_one (length m.flags) (cells ++ rest),
        read_part 4 cells rest e,
        le→leb (length m.flags) 4 few,
        take-length_append m.flags (replicate (4 - length m.flags) 0),
      )
      refl

IsFlags-four : (flags : List ℕ) → IsFlags flags → length flags ≤ 4
IsFlags-four flags v =
    omega (arith, v.counted, v.stack_once, v.memory_once, v.xcall_once, v.external_once)

-- For a program that fits and good flags, `create_xbin` succeeds, and each loader on what it wrote, in a
-- machine without variables and with the unset bytes of the opcode zero, answers the same file name and
-- labels, the flags of the program, and every instruction with its opcode byte, its line and its operands
-- as they pass through the file.
pub load-create_xbin :
    (src : Source) (vm target : OrtaVm)
    → IsProgram vm.program
    → IsFlags vm.meta.flags
    → length vm.meta.magic ≡ 4
    → target.program.variables ≡ []
    → (file : List ℕ) × (flags : List ℕ) × (create_xbin vm
        ≡ ok (file, record vm { meta = record (vm.meta) { flags = flags } }))
      × (load src 0 target file
          ≡ ok (
              some (record target {
                meta = record (vm.meta) { flags = flags };
                program = program_through src target.program vm.program;
              })))
unfolding create_xbin load release_variables
load-create_xbin src vm target fits good four clear =
    let (flags, e, fine) = set_flags-IsFlags vm.program.instructions vm.meta.flags good in
    let m : OrtaMeta = record (vm.meta) { flags = flags } in
    (
      meta_bytes m ++ program_bytes vm.program,
      flags,
      rw e refl,
      rw
          (
            clear,
            load_meta-meta_bytes m (program_bytes vm.program) four (IsFlags-four flags fine),
            load_program-program_bytes src target.program vm.program fits,
          )
          refl,
    )
