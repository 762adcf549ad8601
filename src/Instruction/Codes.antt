-- ===== src/Instruction/Codes.antt =====
-- The table of instructions: names and numbers.
use orta_vm.Prelude.{◌%◌, ◌≡◌, arith, All, some}
use orta_vm.Instruction.{
  instructions, number_of, instruction_of, parse_instruction, instruction_to_string,
}

-- The number of every instruction of the table fits in one byte, and the byte stands for the instruction.
pub instruction_of-number_of :
    All (λ e. instruction_of (number_of e.instruction % 256) ≡ e.instruction) instructions
unfolding number_of instruction_of
instruction_of-number_of = ground arith

-- The name printed for every instruction of the table is read back as that instruction.
pub parse_instruction-instruction_to_string :
    All
      (λ e. parse_instruction (instruction_to_string e.instruction) ≡ some e.instruction)
      instructions
unfolding number_of parse_instruction instruction_to_string
parse_instruction-instruction_to_string = ground arith
