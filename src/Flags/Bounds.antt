-- ===== src/Flags/Bounds.antt =====
-- The four cells for flags, in `add_flag` and `set_flags`.
use orta_vm.Prelude.{
  ℕ, ◌+◌, ◌≤◌, ◌<◌, ◌≡◌, refl, ap, ◌∙◌, arith, false, List, [], ◌∷◌, ◌++◌, length, ◌==◌,
  if◌then◌else◌, length-append, Bool-cases, inl, inr,
}
use orta_vm.Result.{ok, ◌>>=◌}
use orta_vm.Instruction.{Instruction}
use orta_vm.Program.{InstructionData}
use orta_vm.Flags.{add_flag, has_flag, flag_opcode, set_flags, flag_stack, flag_memory, flag_xcall}

abbrev pub count_flag : ℕ → List ℕ → ℕ
count_flag f [] = 0
count_flag f (g ∷ gs) = (if g == f then 1 else 0) + count_flag f gs

-- Every flag is one of the four, and no flag stands twice.
pub record IsFlags (flags : List ℕ) : Type 0 where
  pub counted :
      length flags
      ≡ count_flag 1 flags + count_flag 2 flags + count_flag 3 flags + count_flag 4 flags
  pub stack_once : count_flag 1 flags ≤ 1
  pub memory_once : count_flag 2 flags ≤ 1
  pub xcall_once : count_flag 3 flags ≤ 1
  pub external_once : count_flag 4 flags ≤ 1

count_flag-append :
    (f : ℕ) (xs ys : List ℕ) → count_flag f (xs ++ ys) ≡ count_flag f xs + count_flag f ys
count_flag-append f [] ys = omega arith
count_flag-append f (x ∷ xs) ys = omega (arith, count_flag-append f xs ys)

absent : (f : ℕ) (flags : List ℕ) → has_flag flags f ≡ false → count_flag f flags ≡ 0
unfolding has_flag
absent f [] h = refl
absent f (g ∷ gs) h = ground (arith, absent f gs)

snoc-IsFlags :
    (flags : List ℕ) (f : ℕ)
    → IsFlags flags
    → 0 < f
    → f ≤ 4
    → has_flag flags f ≡ false
    → IsFlags (flags ++ (f ∷ []))
snoc-IsFlags flags f v lo hi new = ground (
  arith,
  absent f flags,
  length-append flags (f ∷ []),
  count_flag-append 1 flags (f ∷ []),
  count_flag-append 2 flags (f ∷ []),
  count_flag-append 3 flags (f ∷ []),
  count_flag-append 4 flags (f ∷ []),
)

few :
    (flags : List ℕ) (f : ℕ)
    → IsFlags flags
    → 0 < f
    → f ≤ 4
    → has_flag flags f ≡ false
    → length flags < 4
few flags f v lo hi new = ground (arith, absent f flags)

-- A flag that is one of the four finds a cell.
pub add_flag-IsFlags :
    (flags : List ℕ) (f : ℕ)
    → IsFlags flags
    → 0 < f
    → f ≤ 4
    → (out : List ℕ) × (add_flag flags f ≡ ok out) × IsFlags out
unfolding add_flag
add_flag-IsFlags flags f v lo hi = elim (Bool-cases (has_flag flags f)) [
  | inl old ↦ (flags, rw old, v)
  | inr new ↦ (flags ++ (f ∷ []), ground (arith, few flags f), snoc-IsFlags flags f v lo hi new)
]

flag_opcode-IsFlags :
    (i : Instruction) (flags : List ℕ)
    → IsFlags flags
    → (out : List ℕ) × (flag_opcode i flags ≡ ok out) × IsFlags out
unfolding flag_opcode
flag_opcode-IsFlags Instruction.ipush flags v =
    add_flag-IsFlags flags flag_stack v (omega arith) (omega arith)
flag_opcode-IsFlags Instruction.ipop flags v =
    add_flag-IsFlags flags flag_stack v (omega arith) (omega arith)
flag_opcode-IsFlags Instruction.ialloc flags v =
    add_flag-IsFlags flags flag_memory v (omega arith) (omega arith)
flag_opcode-IsFlags Instruction.ireadmem flags v =
    add_flag-IsFlags flags flag_memory v (omega arith) (omega arith)
flag_opcode-IsFlags Instruction.iwritemem flags v =
    add_flag-IsFlags flags flag_memory v (omega arith) (omega arith)
flag_opcode-IsFlags Instruction.ixcall flags v =
    add_flag-IsFlags flags flag_xcall v (omega arith) (omega arith)
flag_opcode-IsFlags _ flags v = (flags, refl, v)

-- On flags that are each there at most once, `set_flags` never writes outside the four cells, for any
-- program, and leaves each flag there at most once.
pub set_flags-IsFlags :
    (is : List InstructionData) (flags : List ℕ)
    → IsFlags flags
    → (out : List ℕ) × (set_flags is flags ≡ ok out) × IsFlags out
unfolding set_flags
set_flags-IsFlags [] flags v = (flags, refl, v)
set_flags-IsFlags (i ∷ is) flags v =
    let (fs, e, w) = flag_opcode-IsFlags i.opcode flags v in
    let (out, e', w') = set_flags-IsFlags is fs w in
    (out, (ap (λ m. m >>= set_flags is) e ∙ e'), w')
