-- ===== src/Program.antt =====
-- `Program` of src/orta.h: the instructions and labels in arrays that double when they are full, and
-- the global variables. A list holds the cells of an array below its count.
pub mod Growth
pub mod Labels
use orta_vm.Prelude.{
  ℕ, ◌+◌, ◌*◌, Bool, Option, none, some, List, [], ◌∷◌, ◌++◌, Str, length, leb, ltb, if◌then◌else◌,
  str_eq,
}
use orta_vm.Result.{Result, ok, undefined, ◌>>=◌}
use orta_vm.Instruction.{Instruction, inop}
use orta_vm.Word.{Word}

pub record InstructionData : Type 0 where
  pub opcode : Instruction
  pub operands : List Str
  pub line : ℕ

pub record Label : Type 0 where
  pub name : Str
  pub address : ℕ

pub record Variable : Type 0 where
  pub name : Str
  pub value : Word

pub record Program : Type 0 where
  pub filename : Str
  pub instructions : List InstructionData
  pub instructions_capacity : ℕ
  pub labels : List Label
  pub labels_capacity : ℕ
  pub variables : List Variable
  pub halted : Bool
  pub exit_code : ℕ

abbrev pub instructions_count : Program → ℕ
instructions_count p = length p.instructions

abbrev pub labels_count : Program → ℕ
labels_count p = length p.labels

-- `halted` is not set: it is whatever the caller's memory holds.
unfoldable pub program_init : Str → Bool → Program
program_init filename garbage = record {
  filename = filename;
  instructions = [];
  instructions_capacity = 128;
  labels = [];
  labels_capacity = 32;
  variables = [];
  halted = garbage;
  exit_code = 0;
}

-- The capacity of an array of `n` cells in use, before one more is written.
abbrev pub grow : ℕ → ℕ → ℕ
grow n capacity = if leb capacity n then capacity * 2 else capacity

-- A write to a cell behind the capacity is outside the array.
unfoldable pub add_instruction : Program → InstructionData → Result Program
add_instruction p instr =
    let capacity = grow (instructions_count p) p.instructions_capacity in
    if ltb (instructions_count p) capacity
    then ok (record p {
      instructions = p.instructions ++ (instr ∷ []);
      instructions_capacity = capacity;
    })
    else undefined

-- The instruction `(InstructionData){INOP, nop_operands}` has no operands, and line 0.
abbrev pub nop_instruction : InstructionData
nop_instruction = record { opcode = inop; operands = []; line = 0 }

unfoldable pub push_label : Program → Str → ℕ → Result Program
push_label p name address =
    let capacity = grow (labels_count p) p.labels_capacity in
    if ltb (labels_count p) capacity
    then ok (record p {
      labels = p.labels ++ (record { name = name; address = address } ∷ []);
      labels_capacity = capacity;
    })
    else undefined

unfoldable pub add_label : Program → Str → ℕ → Result Program
unfolding push_label add_instruction
add_label p name address = push_label p name address >>= λ q. add_instruction q nop_instruction

-- The loop of `find_label`: the address of the first label of that name.
unfoldable pub find_in : List Label → Str → Option ℕ
find_in [] name = none
find_in (l ∷ ls) name = if str_eq l.name name then some l.address else find_in ls name

unfoldable pub find_label : Program → Str → Option ℕ
unfolding find_in
find_label p name = find_in p.labels name
