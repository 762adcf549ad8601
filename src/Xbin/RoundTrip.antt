-- ===== src/Xbin/RoundTrip.antt =====
-- Programs through a bytecode file.
pub mod Files
use orta_vm.Prelude.{
  ℕ, zero, suc, ◌+◌, ◌-◌, ◌*◌, ◌%◌, ◌^◌, ◌≤◌, ◌<◌, ◌≡◌, refl, sym, ap, ◌∙◌, arith, Bool, true,
  false, if◌then◌else◌, ltb, ◌==◌, Option, none, some, List, [], ◌∷◌, ◌++◌, Str, length, get_elem?,
  get_or, All, Bool-cases, inl, inr, length-append, lt→ltb, str_case_eq, take, drop,
}
use mathlib.Core.List.{append_assoc, append-nil, map}
use orta_vm.Number.{is_number, atoll, print_int64, two_64}
use orta_vm.Register.{
  register_names, find_register, register_name_to_enum, names_register, is_register, register_name,
}
use orta_vm.Instruction.{Instruction, number_of, instruction_of}
use orta_vm.Program.{Program, InstructionData, Label}
use orta_vm.Heap.{to_bytes, of_bytes}
use orta_vm.Heap.Laws.{NoNul}
use orta_vm.Xbin.{
  text_bytes, register_id, operand_bytes, operands_bytes, instruction_bytes, instructions_bytes,
  label_bytes, labels_bytes, program_bytes, number_bytes,
}
use orta_vm.Xbin.Load.{
  Source, Scan, got, failed, broken, read_bytes, read_number, read_text, before_nul, read_int64,
  load_operand, load_operands, load_instruction, load_instructions, load_label, load_labels,
  load_all_labels, load_program, array_limit, checked, ◌>>>◌, or_freed,
}
use orta_vm.Xbin.Numbers.{
  read_bytes-append, read_number-to_bytes, read_one, through, read_int64-number_bytes,
}

-- A text that a file can hold.
abbrev pub IsText : Str → Type 0
IsText s = NoNul s × (length s < array_limit)

pub before_nul-NoNul : (s : Str) → NoNul s → before_nul s ≡ s
unfolding before_nul
before_nul-NoNul [] h = refl
before_nul-NoNul (c ∷ s) (hc, hs) = ground (arith, before_nul-NoNul s hs)

largest : (n : ℕ) → n < array_limit → (n == two_64 - 1) ≡ false
largest n h = ground arith

pub read_text-text_bytes :
    (s rest : List ℕ) → IsText s → read_text (text_bytes s ++ rest) ≡ got s rest
unfolding read_text text_bytes
read_text-text_bytes s rest (k, l) =
    rw
      (
        append_assoc,
        read_number-to_bytes 8 (length s) (s ++ rest) (omega arith),
        largest (length s) l,
        read_bytes-append s rest,
        before_nul-NoNul s k,
      )
      refl

-- An operand after it was written and loaded: a register in the table's spelling, a number in its decimal
-- form, cut to its width and widened again, and any other text as it was.
abbrev register_text : Option ℕ → Str
register_text none = []
register_text (some r) = get_or register_names r []

unfoldable pub operand_through : Source → Str → Str
operand_through src s =
    if is_register s
    then register_text (register_name_to_enum s)
    else if is_number s
    then print_int64 (through src (atoll s))
    else s

get_elem?-get_or :
    (names : List Str) (r : ℕ) → r < length names → get_elem? names r ≡ some (get_or names r [])
get_elem?-get_or [] r h = absurd (omega arith)
get_elem?-get_or (n ∷ names) zero h = refl
get_elem?-get_or (n ∷ names) (suc r) h = get_elem?-get_or names r (omega arith)

find_register-names_register :
    (names : List Str) (i : ℕ) (s : Str)
    → names_register names s ≡ true
    → (r : ℕ) × (find_register names i s ≡ some r) × (r < i + length names)
unfolding find_register names_register
find_register-names_register [] i s h = cc
find_register-names_register (name ∷ names) i s h = elim (Bool-cases (str_case_eq s name)) [
  | inl e ↦ (i, rw e refl, omega arith)
  | inr e ↦
      let (r, found, l) = find_register-names_register names (i + 1) s (rw e at h) in
      (r, rw e found, omega (arith, l))
]

register_name_to_enum-is_register :
    (s : Str) → is_register s ≡ true → (r : ℕ) × (register_name_to_enum s ≡ some r) × (r < 15)
unfolding is_register register_name_to_enum
register_name_to_enum-is_register s h = find_register-names_register register_names 0 s h

load_operand-operand_bytes :
    (src : Source) (s rest : List ℕ)
    → IsText s
    → load_operand src (operand_bytes s ++ rest) ≡ got (operand_through src s) rest
unfolding load_operand operand_bytes operand_through register_name
load_operand-operand_bytes src s rest k = elim (Bool-cases (is_register s)) [
  | inl r ↦
      let (n, e, l) = register_name_to_enum-is_register s r in
      rw
        (
          r,
          e,
          read_one b'R' (to_bytes 4 n ++ rest),
          read_number-to_bytes 4 n rest (omega arith),
          get_elem?-get_or register_names n l,
        )
        refl
  | inr r ↦ elim (Bool-cases (is_number s)) [
    | inl n ↦
        rw
          (
            r,
            n,
            read_one b'N' (number_bytes (atoll s) ++ rest),
            read_int64-number_bytes src (atoll s) rest,
          )
          refl
    | inr n ↦ rw (r, n, read_one b'S' (text_bytes s ++ rest), read_text-text_bytes s rest k) refl
  ]
]

load_operands-operands_bytes :
    (src : Source) (ss : List Str) (rest : List ℕ)
    → All IsText ss
    → load_operands src (length ss) (operands_bytes ss ++ rest)
      ≡ got (map (operand_through src) ss) rest
unfolding load_operands operands_bytes
load_operands-operands_bytes src [] rest k = refl
load_operands-operands_bytes src (s ∷ ss) rest (k, ks) =
    rw
      (
        append_assoc,
        load_operand-operand_bytes src s (operands_bytes ss ++ rest) k,
        load_operands-operands_bytes src ss rest ks,
      )
      refl

-- The counts and numbers of an instruction fit in their fields.
abbrev pub IsInstruction : InstructionData → Type 0
IsInstruction i = (i.line < 2 ^ 32) × (length i.operands < array_limit) × All IsText i.operands

-- An instruction after it was written and loaded, with an opcode whose other bytes were zero.
unfoldable pub instruction_through : Source → InstructionData → InstructionData
unfolding operand_through
instruction_through src i = record {
  opcode = instruction_of (number_of i.opcode % 256 + 256 * 0);
  operands = map (operand_through src) i.operands;
  line = i.line;
}

load_instruction-instruction_bytes :
    (src : Source) (i : InstructionData) (rest : List ℕ)
    → IsInstruction i
    → load_instruction src 0 (instruction_bytes i ++ rest) ≡ got (instruction_through src i) rest
unfolding load_instruction instruction_bytes instruction_through
load_instruction-instruction_bytes src i rest (l, n, k) =
    rw
      (
        append_assoc,
        append_assoc,
        append_assoc,
        read_number-to_bytes 1 (number_of i.opcode % 256)
            (to_bytes 4 i.line
              ++ (to_bytes 8 (length i.operands) ++ (operands_bytes i.operands ++ rest)))
            (omega arith),
        read_number-to_bytes 4 i.line
            (to_bytes 8 (length i.operands) ++ (operands_bytes i.operands ++ rest)) (omega arith),
        read_number-to_bytes 8 (length i.operands) (operands_bytes i.operands ++ rest)
            (omega arith),
        load_operands-operands_bytes src i.operands rest k,
      )
      refl

pub load_instructions-instructions_bytes :
    (src : Source) (is : List InstructionData) (loaded : List InstructionData) (rest : List ℕ)
    → All IsInstruction is
    → load_instructions src 0 (length is) loaded (instructions_bytes is ++ rest)
      ≡ got (loaded ++ map (instruction_through src) is) rest
unfolding load_instructions instructions_bytes
load_instructions-instructions_bytes src [] loaded rest k =
    ap (λ x. got x rest) (sym (append-nil loaded))
load_instructions-instructions_bytes src (i ∷ is) loaded rest (k, ks) =
    rw (append_assoc, load_instruction-instruction_bytes src i (instructions_bytes is ++ rest) k)
      (load_instructions-instructions_bytes src is (loaded ++ (instruction_through src i ∷ [])) rest
          ks
        ∙ ap (λ x. got x rest)
            (append_assoc loaded (instruction_through src i ∷ [])
              (map (instruction_through src) is)))

abbrev pub IsLabel : Label → Type 0
IsLabel l = IsText l.name × (l.address < two_64)

pub load_labels-labels_bytes :
    (ls : List Label) (k : ℕ) (is : List InstructionData) (rest : List ℕ)
    → All IsLabel ls
    → load_labels (length ls) k is (labels_bytes ls ++ rest) ≡ got ls rest
unfolding load_labels labels_bytes load_label label_bytes
load_labels-labels_bytes [] k is rest h = refl
load_labels-labels_bytes (l ∷ ls) k is rest ((n, a), hs) =
    rw
      (
        append_assoc,
        append_assoc,
        read_text-text_bytes l.name (to_bytes 8 l.address ++ (labels_bytes ls ++ rest)) n,
        read_number-to_bytes 8 l.address (labels_bytes ls ++ rest) a,
        load_labels-labels_bytes ls (k + 1) is rest hs,
      )
      refl
