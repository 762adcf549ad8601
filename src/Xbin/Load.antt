-- ===== src/Xbin/Load.antt =====
-- The loaders of src/orta.h: `load_xbin`, which reads a file, and `load_bytecode_from_memory`.
use orta_vm.Prelude.{
  ℕ, zero, suc, ◌+◌, ◌-◌, ◌*◌, ◌^◌, Bool, ◌||◌, Option, none, some, List, [], ◌∷◌, ◌++◌, Str,
  length, ltb, leb, ◌==◌, if◌then◌else◌, take, drop, not,
}
use orta_vm.Result.{Result, ok, undefined, ◌>>=◌}
use orta_vm.Number.{print_int64, two_64}
use orta_vm.Register.{register_name}
use orta_vm.Instruction.{instruction_of}
use orta_vm.Program.{Program, InstructionData, Label, Variable}
use orta_vm.Variables.{release}
use orta_vm.Heap.{Heap, of_bytes}
use orta_vm.Vm.{OrtaVm, OrtaMeta}

pub data Source : Type 0 where
  from_file from_memory : Source

-- What a part of a loader makes of the bytes that are left: a value and the bytes behind it, the jump
-- to an error label, or what C does not define.
pub data Scan (A : Type 0) : Type 0 where
  got : A → List ℕ → Scan A
  failed : Scan A
  broken : Scan A

infixl 5 ◌>>>◌
abbrev pub ◌>>>◌ : {A B : Type 0} → Scan A → (A → List ℕ → Scan B) → Scan B
got a bytes >>> next = next a bytes
failed >>> next = failed
broken >>> next = broken

-- `fread` or `memcpy` of `n` bytes, if they are there.
unfoldable pub read_bytes : ℕ → List ℕ → Scan (List ℕ)
read_bytes n bytes = if leb n (length bytes) then got (take n bytes) (drop n bytes) else failed

unfoldable pub read_number : ℕ → List ℕ → Scan ℕ
unfolding read_bytes
read_number n bytes = read_bytes n bytes >>> λ part rest. got (of_bytes part) rest

-- `strdup` of a buffer with a terminator behind it ends at the first zero.
unfoldable pub before_nul : List ℕ → Str
before_nul [] = []
before_nul (c ∷ cs) = if c == 0 then [] else c ∷ before_nul cs

-- A length and a text. `malloc` fails for lengths that are too large, which ends like a file that is too
-- short, but of the largest one, for which `malloc(0)` is called.
unfoldable pub read_text : List ℕ → Scan Str
unfolding read_number before_nul
read_text bytes = read_number 8 bytes >>> λ n rest.
    if n == two_64 - 1
    then broken
    else (read_bytes n rest >>> λ part after. got (before_nul part) after)

-- The number that `n` bytes stand for, as an int64_t. From a file four bytes are not extended, since the
-- mask `~0xFFFFFFFF` is an unsigned zero.
abbrev pub extend : ℕ → ℕ → ℕ
extend half v = if leb half v then v + (two_64 - half * 2) else v

unfoldable pub widen : Source → ℕ → ℕ → ℕ
widen from_file n v = if n == 1 then extend (2 ^ 7) v else if n == 2 then extend (2 ^ 15) v else v
widen from_memory n v =
    if n == 1
    then extend (2 ^ 7) v
    else if n == 2
    then extend (2 ^ 15) v
    else if n == 4
    then extend (2 ^ 31) v
    else v

abbrev pub is_width : ℕ → Bool
is_width n = n == 1 || n == 2 || n == 4 || n == 8

-- A size that is no width leaves 0. From a file its bytes are not read; in memory they are passed over.
abbrev odd_width : Source → ℕ → List ℕ → Scan ℕ
odd_width from_file n bytes = got 0 bytes
odd_width from_memory n bytes = read_bytes n bytes >>> λ part rest. got 0 rest

unfoldable pub read_int64 : Source → List ℕ → Scan ℕ
unfolding widen
read_int64 src bytes = read_number 1 bytes >>> λ n rest.
    if is_width n
    then (read_number n rest >>> λ v after. got (widen src n v) after)
    else odd_width src n rest

abbrev from_table : Option Str → List ℕ → Scan Str
from_table none bytes = failed
from_table (some name) bytes = got name bytes

unfoldable pub load_operand : Source → List ℕ → Scan Str
unfolding read_int64 read_text
load_operand src bytes = read_number 1 bytes >>> λ type rest.
    if type == b'R'
    then (read_number 4 rest >>> λ id after. from_table (register_name id) after)
    else if type == b'N'
    then (read_int64 src rest >>> λ v after. got (print_int64 v) after)
    else if type == b'S'
    then read_text rest
    else failed

unfoldable pub load_operands : Source → ℕ → List ℕ → Scan (List Str)
unfolding load_operand
load_operands src zero bytes = got [] bytes
load_operands src (suc n) bytes =
    load_operand src bytes >>> λ s rest. load_operands src n rest >>> λ ss after. got (s ∷ ss) after

-- The opcode is one byte of a variable that is not set: `garbage` is its other three bytes.
unfoldable pub load_instruction : Source → ℕ → List ℕ → Scan InstructionData
unfolding load_operands
load_instruction src garbage bytes = read_number 1 bytes >>> λ op rest.
    read_number 4 rest >>> λ line rest₁. read_number 8 rest₁ >>> λ count rest₂.
    load_operands src count rest₂ >>> λ operands after.
    got (record { opcode = instruction_of (op + 256 * garbage); operands = operands; line = line })
      after

-- `free_program_instructions` frees what the first bytes of an operand's text point to, so it is
-- defined only for instructions without operands.
abbrev has_operands : InstructionData → Bool
has_operands i = not (length i.operands == 0)

-- An error that frees the first `k` of the instructions.
unfoldable pub freed : {A : Type 0} → ℕ → List InstructionData → Scan A
freed zero is = failed
freed (suc k) [] = broken
freed {A = A} (suc k) (i ∷ is) =
    let rest = freed {A = A} k is in if has_operands i then broken else rest

abbrev pub or_freed :
    {A B : Type 0} → ℕ → List InstructionData → Scan A → (A → List ℕ → Scan B) → Scan B
or_freed k is (got a bytes) next = next a bytes
or_freed k is failed next = freed k is
or_freed k is broken next = broken

-- `n` instructions behind those loaded. An error frees the latter.
unfoldable pub load_instructions :
    Source → ℕ → ℕ → List InstructionData → List ℕ → Scan (List InstructionData)
unfolding load_instruction freed
load_instructions src garbage zero loaded bytes = got loaded bytes
load_instructions src garbage (suc n) loaded bytes =
    or_freed (length loaded) loaded (load_instruction src garbage bytes)
      (λ i rest. load_instructions src garbage n (loaded ++ (i ∷ [])) rest)

unfoldable pub load_label : List ℕ → Scan Label
unfolding read_text
load_label bytes = read_text bytes >>> λ name rest.
    read_number 8 rest >>> λ a after. got (record { name = name; address = a }) after

-- `n` labels behind the first `k`. An error frees as many instructions as there are labels before it.
unfoldable pub load_labels : ℕ → ℕ → List InstructionData → List ℕ → Scan (List Label)
unfolding load_label freed
load_labels zero k is bytes = got [] bytes
load_labels (suc n) k is bytes =
    or_freed k is (load_label bytes)
      (λ l rest. load_labels n (k + 1) is rest >>> λ ls after. got (l ∷ ls) after)

-- Behind this count the size of an array does not fit in a `size_t`, and C writes outside it. A count
-- below it for which `malloc` fails ends like a file that is too short, which it is.
abbrev pub array_limit : ℕ
array_limit = 2 ^ 57

abbrev pub checked : ℕ → {A : Type 0} → Scan A → Scan A
checked n rest = if ltb n array_limit then rest else broken

unfoldable pub load_all_labels : List InstructionData → List ℕ → Scan (List Label)
unfolding load_labels freed
load_all_labels is bytes =
    or_freed (length is) is (read_number 8 bytes) (λ n rest. checked n (load_labels n 0 is rest))

-- The file name, the instructions and the labels. The variables go; `halted` and the exit code stay.
unfoldable pub load_program : Source → ℕ → Program → List ℕ → Scan Program
unfolding load_instructions load_all_labels
load_program src garbage p bytes = read_text bytes >>> λ filename rest.
    read_number 8 rest >>> λ n rest₁.
    checked n (load_instructions src garbage n [] rest₁) >>> λ is rest₂.
    load_all_labels is rest₂ >>> λ ls after.
    got
      (record p {
        filename = filename;
        instructions = is;
        instructions_capacity = length is;
        labels = ls;
        labels_capacity = length ls;
        variables = [];
      })
      after

-- `OrtaMeta`. A count beyond the four cells, which stands for no flags, is left open.
unfoldable pub load_meta : List ℕ → Scan OrtaMeta
load_meta bytes = read_bytes 4 bytes >>> λ magic rest. read_number 1 rest >>> λ n rest₁.
    read_bytes 4 rest₁ >>> λ cells after.
    if leb n 4 then got (record { magic = magic; flags = take n cells }) after else broken

-- `program_free` frees the strings and the blocks of the variables.
unfoldable pub release_variables : List Variable → Heap → Result Heap
release_variables [] h = ok h
release_variables (v ∷ vs) h = release v.value.type v.value h >>= release_variables vs

-- What a loader answers: the machine with the program for 1, and `none` for 0, after which its callers
-- end or go on with a program that is not usable.
abbrev answer : OrtaVm → Scan (OrtaMeta × Program) → Result (Option OrtaVm)
answer vm (got (m, p) rest) = ok (some (record vm { meta = m; program = p }))
answer vm failed = ok none
answer vm broken = undefined

unfoldable pub load : Source → ℕ → OrtaVm → List ℕ → Result (Option OrtaVm)
unfolding load_meta load_program release_variables
load src garbage vm bytes = release_variables vm.program.variables vm.heap >>= λ h.
    answer (record vm { heap = h })
      (load_meta bytes >>> λ m rest.
        load_program src garbage vm.program rest >>> λ p after. got (m, p) after)

unfoldable pub load_xbin : ℕ → OrtaVm → List ℕ → Result (Option OrtaVm)
unfolding load
load_xbin garbage vm bytes = load from_file garbage vm bytes

unfoldable pub load_bytecode_from_memory : ℕ → OrtaVm → List ℕ → Result (Option OrtaVm)
unfolding load
load_bytecode_from_memory garbage vm bytes = load from_memory garbage vm bytes
