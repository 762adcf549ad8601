-- ===== src/Program/Growth.antt =====
-- The room in the arrays of `Program`, in `add_instruction` and `add_label`.
use orta_vm.Prelude.{ℕ, ◌≤◌, ◌<◌, ◌≡◌, ap, ◌∙◌, arith, Bool, [], ◌∷◌, ◌++◌, Str, length-append}
use orta_vm.Result.{ok, ◌>>=◌}
use orta_vm.Program.{
  Program, InstructionData, program_init, add_instruction, add_label, push_label,
  instructions_count, labels_count, nop_instruction, grow,
}

-- The counts stay within the capacities, which are not 0.
pub record HasRoom (p : Program) : Type 0 where
  pub instructions_fit : instructions_count p ≤ p.instructions_capacity
  pub instructions_some : 0 < p.instructions_capacity
  pub labels_fit : labels_count p ≤ p.labels_capacity
  pub labels_some : 0 < p.labels_capacity

pub program_init-HasRoom :
    (filename : Str) (garbage : Bool) → HasRoom (program_init filename garbage)
unfolding program_init
program_init-HasRoom filename garbage = omega arith

-- `p` with `instr` at the end of its instructions.
abbrev pub with_instruction : Program → InstructionData → Program
with_instruction p instr = record p {
  instructions = p.instructions ++ (instr ∷ []);
  instructions_capacity = grow (instructions_count p) p.instructions_capacity;
}

abbrev pub with_label : Program → Str → ℕ → Program
with_label p name address = record p {
  labels = p.labels ++ (record { name = name; address = address } ∷ []);
  labels_capacity = grow (labels_count p) p.labels_capacity;
}

pub add_instruction-ok :
    (p : Program) (instr : InstructionData)
    → HasRoom p
    → (add_instruction p instr ≡ ok (with_instruction p instr)) × HasRoom (with_instruction p instr)
unfolding add_instruction
add_instruction-ok p instr v =
    (ground arith, ground (arith, length-append p.instructions (instr ∷ [])))

push_label-ok :
    (p : Program) (name : Str) (address : ℕ)
    → HasRoom p
    → (push_label p name address ≡ ok (with_label p name address))
      × HasRoom (with_label p name address)
unfolding push_label
push_label-ok p name address v = (
  ground arith,
  ground (arith, length-append p.labels (record { name = name; address = address } ∷ [])),
)

-- A label is written within its array: in a program with room, `add_label` appends the label and the
-- `nop` that stands for it, grows the arrays that are full, and leaves a program with room.
pub add_label-ok :
    (p : Program) (name : Str) (address : ℕ)
    → HasRoom p
    → (add_label p name address ≡ ok (with_instruction (with_label p name address) nop_instruction))
      × HasRoom (with_instruction (with_label p name address) nop_instruction)
unfolding add_label
add_label-ok p name address v =
    let (e, w) = push_label-ok p name address v in
    let (e', w') = add_instruction-ok (with_label p name address) nop_instruction w in
    (ap (λ m. m >>= λ q. add_instruction q nop_instruction) e ∙ e', w')
