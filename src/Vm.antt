-- ===== src/Vm.antt =====
-- The state of the machine, `OrtaVM` of src/orta.h, with what its code keeps in globals and in the
-- process: the scope pointer, the heap and the printed lines.
use orta_vm.Prelude.{
  ℕ, ◌+◌, ◌-◌, ◌%◌, ◌^◌, Bool, Option, none, some, List, [], ◌∷◌, Str, get_elem?, get_or, set,
  replicate,
}
use orta_vm.Result.{Result, ok, exit}
use orta_vm.Word.{Word, null_word}
use orta_vm.Stack.{XStack, xstack_create, xstack_pop, push}
use orta_vm.Register.{reg_count}
use orta_vm.Program.{Program, InstructionData, Variable, program_init}
use orta_vm.Heap.{Heap, empty_heap}

pub record Xpu : Type 0 where
  pub registers : List Word
  pub stack : XStack
  pub ip : ℕ
  pub call_stack : XStack

-- The flags in use; the other bytes of the array are FLAG_NOTHING. The magic is "XBIN".
pub record OrtaMeta : Type 0 where
  pub magic : Str
  pub flags : List ℕ

-- `local_scope` is `none` while `current_scope` points to the program's variables.
pub record OrtaVm : Type 0 where
  pub xpu : Xpu
  pub program : Program
  pub meta : OrtaMeta
  pub local_scope : Option (List Variable)
  pub heap : Heap
  pub out : List Str

unfoldable pub xpu_init : ℕ → Xpu
unfolding xstack_create
xpu_init stack_size = record {
  registers = replicate reg_count null_word;
  stack = xstack_create stack_size;
  ip = 0;
  call_stack = xstack_create 1024;
}

abbrev magic_bytes : Str
magic_bytes = b'X' ∷ b'B' ∷ b'I' ∷ b'N' ∷ []

-- `garbage` is what the uninitialised `halted` holds.
unfoldable pub ortavm_create : Str → ℕ → Bool → OrtaVm
unfolding xpu_init program_init
ortavm_create filename stack_size garbage = record {
  xpu = xpu_init stack_size;
  program = program_init filename garbage;
  meta = record { magic = magic_bytes; flags = [] };
  local_scope = none;
  heap = empty_heap;
  out = [];
}

-- `vector_get_str(&instr->operands, i)`: the container library ends the process out of range.
abbrev pub operand : InstructionData → ℕ → Result Str
operand instr i = elim (get_elem? instr.operands i) [ none ↦ exit 1 | some s ↦ ok s ]

abbrev pub with_stack : OrtaVm → XStack → OrtaVm
with_stack vm s = record vm { xpu = record (vm.xpu) { stack = s } }

abbrev pub push_word : OrtaVm → Word → OrtaVm
push_word vm w = with_stack vm (push vm.xpu.stack w)

abbrev pub pop_word : OrtaVm → Word × OrtaVm
pop_word vm = let (w, s) = xstack_pop vm.xpu.stack in (w, with_stack vm s)

abbrev pub register : OrtaVm → ℕ → Word
register vm r = get_or vm.xpu.registers r null_word

abbrev pub with_register : OrtaVm → ℕ → Word → OrtaVm
with_register vm r w = record vm { xpu = record (vm.xpu) { registers = set vm.xpu.registers r w } }

abbrev pub with_heap : OrtaVm → Heap → OrtaVm
with_heap vm h = record vm { heap = h }

abbrev pub with_ip : OrtaVm → ℕ → OrtaVm
with_ip vm ip = record vm { xpu = record (vm.xpu) { ip = ip } }

abbrev pub with_program : OrtaVm → Program → OrtaVm
with_program vm p = record vm { program = p }

-- `xpu->ip++`, and `xpu->ip = target - 1`, on a `size_t`.
abbrev pub next_ip : ℕ → ℕ
next_ip ip = (ip + 1) % 2 ^ 64

abbrev pub before_ip : ℕ → ℕ
before_ip target = (target + (2 ^ 64 - 1)) % 2 ^ 64

abbrev pub print_line : OrtaVm → Str → OrtaVm
print_line vm line = record vm { out = line ∷ vm.out }

-- The variables that `current_scope` points to, and a change of them.
abbrev pub scope : OrtaVm → List Variable
scope vm = elim vm.local_scope [ none ↦ vm.program.variables | some locals ↦ locals ]

abbrev pub with_globals : OrtaVm → List Variable → OrtaVm
with_globals vm vars = with_program vm (record (vm.program) { variables = vars })

abbrev pub with_scope : OrtaVm → List Variable → OrtaVm
with_scope vm vars = elim vm.local_scope [
  | none ↦ with_globals vm vars
  | some locals ↦ record vm { local_scope = some vars }
]
