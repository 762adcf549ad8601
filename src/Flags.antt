-- ===== src/Flags.antt =====
-- The flags of a bytecode file in src/orta.h: `add_flag` and `set_flags`.
pub mod Bounds
use orta_vm.Prelude.{
  ℕ, ◌+◌, Bool, true, false, ◌||◌, List, [], ◌∷◌, ◌++◌, length, ltb, ◌==◌, if◌then◌else◌,
}
use orta_vm.Result.{Result, ok, exit, undefined, ◌>>=◌}
use orta_vm.Instruction.{Instruction, ipush, ipop, ialloc, ireadmem, iwritemem, ixcall}
use orta_vm.Program.{InstructionData}
use orta_vm.Vm.{OrtaVm}

abbrev pub flag_stack : ℕ
flag_stack = 1

abbrev pub flag_memory : ℕ
flag_memory = 2

abbrev pub flag_xcall : ℕ
flag_xcall = 3

abbrev pub flag_external_library : ℕ
flag_external_library = 4

unfoldable pub has_flag : List ℕ → ℕ → Bool
has_flag [] flag = false
has_flag (f ∷ fs) flag = f == flag || has_flag fs flag

-- The array has four cells; a fifth flag would be written behind it.
unfoldable pub add_flag : List ℕ → ℕ → Result (List ℕ)
unfolding has_flag
add_flag flags flag =
    if has_flag flags flag
    then ok flags
    else if ltb (length flags) 4
    then ok (flags ++ (flag ∷ []))
    else undefined

-- The flag that an instruction sets, as the `switch` of `set_flags` has it.
unfoldable pub flag_opcode : Instruction → List ℕ → Result (List ℕ)
unfolding add_flag
flag_opcode ipush flags = add_flag flags flag_stack
flag_opcode ipop flags = add_flag flags flag_stack
flag_opcode ialloc flags = add_flag flags flag_memory
flag_opcode ireadmem flags = add_flag flags flag_memory
flag_opcode iwritemem flags = add_flag flags flag_memory
flag_opcode ixcall flags = add_flag flags flag_xcall
flag_opcode _ flags = ok flags

unfoldable pub set_flags : List InstructionData → List ℕ → Result (List ℕ)
unfolding flag_opcode
set_flags [] flags = ok flags
set_flags (i ∷ is) flags = flag_opcode i.opcode flags >>= set_flags is
