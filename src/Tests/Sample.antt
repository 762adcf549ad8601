-- ===== src/Tests/Sample.antt =====
-- A platform and machines for the concrete inputs. The floats of this platform are whole numbers.
use orta_vm.Prelude.{
  ◌+◌, ◌-◌, ◌*◌, ◌/◌, ◌%◌, ◌^◌, false, List, [], ◌∷◌, Str, codes, none, ltb, leb, ◌==◌,
}
use orta_vm.Result.{Result, ok}
use orta_vm.Floats.{Floats}
use orta_vm.Platform.{Platform}
use orta_vm.Instruction.{Instruction}
use orta_vm.Program.{Program, InstructionData, Label}
use orta_vm.Word.{Word, null_word}
use orta_vm.Heap.{empty_heap}
use orta_vm.Stack.{XStack}
use orta_vm.Vm.{OrtaVm}

abbrev pub whole_floats : Floats
whole_floats = record {
  add = λ a b. a + b;
  sub = λ a b. a - b;
  mul = λ a b. a * b;
  div = λ a b. a / b;
  eq = λ a b. a % 2 ^ 31 == b % 2 ^ 31;
  lt = λ a b. ltb a b;
  le = λ a b. leb a b;
  of_int = λ a. a;
  to_int = λ a. a;
  strtod_end = λ s. s;
  atof = λ s. 0;
  show = λ a. [];
}

abbrev pub plain : Platform
plain = record {
  floats = whole_floats;
  strcmp = λ s t. 0;
  memcmp = λ s t. 0;
  strtoull = λ s. 0;
  show_pointer = λ p. [];
  stack_address = 0;
  call_dynlib = λ lib_path func_name vm. ok vm;
}

abbrev pub no_sprintf : OrtaVm → InstructionData → Result OrtaVm
no_sprintf vm instr = ok vm

abbrev pub instr : Instruction → List Str → InstructionData
instr op operands = record { opcode = op; operands = operands; line = 1 }

abbrev pub registers_of : Word → List Word
registers_of w = w ∷ w ∷ w ∷ w ∷ w ∷ w ∷ w ∷ w ∷ w ∷ w ∷ w ∷ w ∷ w ∷ w ∷ w ∷ []

abbrev pub stack_of : List Word → XStack
stack_of items = record { items = items; capacity = 4 }

abbrev pub program_of : List InstructionData → List Label → Program
program_of is ls = record {
  filename = codes "t.x";
  instructions = is;
  instructions_capacity = 128;
  labels = ls;
  labels_capacity = 32;
  variables = [];
  halted = false;
  exit_code = 0;
}

abbrev pub machine : List Word → Program → OrtaVm
machine items p = record {
  xpu = record {
    registers = registers_of null_word;
    stack = stack_of items;
    ip = 0;
    call_stack = stack_of [];
  };
  program = p;
  meta = record { magic = codes "XBIN"; flags = [] };
  local_scope = none;
  heap = empty_heap;
  out = [];
}
