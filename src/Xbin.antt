-- ===== src/Xbin.antt =====
-- The bytecode files of src/orta.h: what `create_xbin` writes, as a list of bytes. Opening, writing and
-- closing the file are taken to succeed. The machine is the 64-bit one, the lowest byte first.
pub mod Load
pub mod Numbers
pub mod RoundTrip
use orta_vm.Prelude.{
  ℕ, ◌+◌, ◌-◌, ◌%◌, ◌^◌, Option, none, some, List, [], ◌∷◌, ◌++◌, Str, length, ltb, leb,
  if◌then◌else◌, replicate,
}
use orta_vm.Result.{Result, ok, ◌>>=◌}
use orta_vm.Number.{is_number, atoll, two_63, two_64}
use orta_vm.Register.{is_register, register_name_to_enum}
use orta_vm.Instruction.{number_of}
use orta_vm.Program.{Program, InstructionData, Label}
use orta_vm.Heap.{to_bytes}
use orta_vm.Flags.{set_flags}
use orta_vm.Vm.{OrtaVm, OrtaMeta}

-- The bytes that `value` needs: its sign picks the signed or the unsigned types.
unfoldable pub optimal_size : ℕ → ℕ
optimal_size v =
    if leb two_63 v
    then (if leb (two_64 - v) (2 ^ 7)
        then 1
        else if leb (two_64 - v) (2 ^ 15)
        then 2
        else if leb (two_64 - v) (2 ^ 31)
        then 4
        else 8)
    else if ltb v (2 ^ 8)
    then 1
    else if ltb v (2 ^ 16)
    then 2
    else if ltb v (2 ^ 32)
    then 4
    else 8

-- The cast to the type of that size, and its bytes.
unfoldable pub number_bytes : ℕ → List ℕ
unfolding optimal_size
number_bytes v = optimal_size v ∷ to_bytes (optimal_size v) (v % 256 ^ optimal_size v)

-- `strlen` and the text.
unfoldable pub text_bytes : Str → List ℕ
text_bytes s = to_bytes 8 (length s) ++ s

abbrev pub register_id : Option ℕ → ℕ
register_id none = 2 ^ 32 - 1
register_id (some r) = r

unfoldable pub operand_bytes : Str → List ℕ
unfolding number_bytes text_bytes
operand_bytes s =
    if is_register s
    then b'R' ∷ to_bytes 4 (register_id (register_name_to_enum s))
    else if is_number s
    then b'N' ∷ number_bytes (atoll s)
    else b'S' ∷ text_bytes s

unfoldable pub operands_bytes : List Str → List ℕ
unfolding operand_bytes
operands_bytes [] = []
operands_bytes (s ∷ ss) = operand_bytes s ++ operands_bytes ss

-- One byte of the opcode, the line and the operands.
unfoldable pub instruction_bytes : InstructionData → List ℕ
unfolding operands_bytes
instruction_bytes i =
    to_bytes 1 (number_of i.opcode % 256)
    ++ (to_bytes 4 i.line ++ (to_bytes 8 (length i.operands) ++ operands_bytes i.operands))

unfoldable pub instructions_bytes : List InstructionData → List ℕ
unfolding instruction_bytes
instructions_bytes [] = []
instructions_bytes (i ∷ is) = instruction_bytes i ++ instructions_bytes is

unfoldable pub label_bytes : Label → List ℕ
unfolding text_bytes
label_bytes l = text_bytes l.name ++ to_bytes 8 l.address

unfoldable pub labels_bytes : List Label → List ℕ
unfolding label_bytes
labels_bytes [] = []
labels_bytes (l ∷ ls) = label_bytes l ++ labels_bytes ls

-- `OrtaMeta`: four bytes of magic, the number of flags, and four cells of flags.
unfoldable pub meta_bytes : OrtaMeta → List ℕ
meta_bytes m = m.magic ++ (length m.flags ∷ (m.flags ++ replicate (4 - length m.flags) 0))

unfoldable pub program_bytes : Program → List ℕ
unfolding instructions_bytes labels_bytes
program_bytes p =
    text_bytes p.filename
    ++ (to_bytes 8 (length p.instructions)
        ++ (instructions_bytes p.instructions
            ++ (to_bytes 8 (length p.labels) ++ labels_bytes p.labels)))

-- The file, and the machine with the flags of its program.
unfoldable pub create_xbin : OrtaVm → Result (List ℕ × OrtaVm)
unfolding set_flags meta_bytes program_bytes
create_xbin vm = do
  flags ← set_flags vm.program.instructions vm.meta.flags
  let m = record (vm.meta) { flags = flags }
  ok (meta_bytes m ++ program_bytes vm.program, record vm { meta = m })
