-- ===== src/Instruction.antt =====
-- The instruction set of src/orta.h: the opcodes, the table of names and argument counts, and the
-- lookups in it.
pub mod Codes
use orta_vm.Prelude.{
  ℕ, Bool, ◌&&◌, Option, none, some, List, [], ◌∷◌, Str, codes, leb, ◌==◌, if◌then◌else◌, str_eq,
  get_or,
}

-- `Instruction`. A byte of a file may be no member of the enumeration: `other`, for what is 55 or
-- more, and for `(Instruction)-1`.
pub data Instruction : Type 0 where
  inop ipush imov ipop iadd isub imul idiv imod iand ior ixor inot ieq ine ilt igt ile ige ijmp :
      Instruction
  ijmpif icall iret iload istore iprint idup iswap idrop irotl irotr ialloc ihalt imerge ixcall :
      Instruction
  isizeof imemcmp idec iinc ieval icmp ireadmem icpymem iwritemem ivar isetvar igetvar ifree :
      Instruction
  itogglelocalscope igetglobalvar isetglobalvar iovm icast ihere isprintf : Instruction
  other : ℕ → Instruction

-- The value of the C enumeration.
unfoldable pub number_of : Instruction → ℕ
number_of inop = 0
number_of ipush = 1
number_of imov = 2
number_of ipop = 3
number_of iadd = 4
number_of isub = 5
number_of imul = 6
number_of idiv = 7
number_of imod = 8
number_of iand = 9
number_of ior = 10
number_of ixor = 11
number_of inot = 12
number_of ieq = 13
number_of ine = 14
number_of ilt = 15
number_of igt = 16
number_of ile = 17
number_of ige = 18
number_of ijmp = 19
number_of ijmpif = 20
number_of icall = 21
number_of iret = 22
number_of iload = 23
number_of istore = 24
number_of iprint = 25
number_of idup = 26
number_of iswap = 27
number_of idrop = 28
number_of irotl = 29
number_of irotr = 30
number_of ialloc = 31
number_of ihalt = 32
number_of imerge = 33
number_of ixcall = 34
number_of isizeof = 35
number_of imemcmp = 36
number_of idec = 37
number_of iinc = 38
number_of ieval = 39
number_of icmp = 40
number_of ireadmem = 41
number_of icpymem = 42
number_of iwritemem = 43
number_of ivar = 44
number_of isetvar = 45
number_of igetvar = 46
number_of ifree = 47
number_of itogglelocalscope = 48
number_of igetglobalvar = 49
number_of isetglobalvar = 50
number_of iovm = 51
number_of icast = 52
number_of ihere = 53
number_of isprintf = 54
number_of (other n) = n

abbrev pub enumeration : List Instruction
enumeration =
    inop ∷ ipush ∷ imov ∷ ipop ∷ iadd ∷ isub ∷ imul ∷ idiv ∷ imod ∷ iand ∷ ior ∷ ixor ∷ inot ∷ ieq
    ∷ ine ∷ ilt ∷ igt ∷ ile ∷ ige ∷ ijmp ∷ ijmpif ∷ icall ∷ iret ∷ iload ∷ istore ∷ iprint ∷ idup
    ∷ iswap ∷ idrop ∷ irotl ∷ irotr ∷ ialloc ∷ ihalt ∷ imerge ∷ ixcall ∷ isizeof ∷ imemcmp ∷ idec
    ∷ iinc ∷ ieval ∷ icmp ∷ ireadmem ∷ icpymem ∷ iwritemem ∷ ivar ∷ isetvar ∷ igetvar ∷ ifree
    ∷ itogglelocalscope ∷ igetglobalvar ∷ isetglobalvar ∷ iovm ∷ icast ∷ ihere ∷ isprintf ∷ []

-- The member with a given value.
unfoldable pub instruction_of : ℕ → Instruction
instruction_of n = get_or enumeration n (other n)

pub data ArgRequirementType : Type 0 where
  arg_exact arg_min arg_max arg_range : ArgRequirementType

pub record ArgRequirement : Type 0 where
  pub type : ArgRequirementType
  pub value : ℕ
  pub value2 : ℕ

pub record InstructionInfo : Type 0 where
  pub name : Str
  pub instruction : Instruction
  pub args : ArgRequirement

abbrev info : Str → Instruction → ArgRequirementType → ℕ → ℕ → InstructionInfo
info name instruction type value value2 = record {
  name = name;
  instruction = instruction;
  args = record { type = type; value = value; value2 = value2 };
}

abbrev pub instructions : List InstructionInfo
instructions =
    info (codes "push") ipush arg_exact 1 1
    ∷ info (codes "mov") imov arg_exact 2 2
    ∷ info (codes "pop") ipop arg_exact 1 1
    ∷ info (codes "add") iadd arg_range 0 2
    ∷ info (codes "sub") isub arg_range 0 2
    ∷ info (codes "mul") imul arg_min 0 0
    ∷ info (codes "div") idiv arg_min 0 0
    ∷ info (codes "mod") imod arg_exact 0 0
    ∷ info (codes "and") iand arg_exact 0 0
    ∷ info (codes "or") ior arg_exact 0 0
    ∷ info (codes "xor") ixor arg_exact 2 2
    ∷ info (codes "not") inot arg_exact 0 0
    ∷ info (codes "eq") ieq arg_exact 0 0
    ∷ info (codes "ne") ine arg_exact 0 0
    ∷ info (codes "lt") ilt arg_exact 0 0
    ∷ info (codes "gt") igt arg_exact 0 0
    ∷ info (codes "le") ile arg_exact 0 0
    ∷ info (codes "ge") ige arg_exact 0 0
    ∷ info (codes "jmp") ijmp arg_exact 1 1
    ∷ info (codes "jmpif") ijmpif arg_exact 1 1
    ∷ info (codes "call") icall arg_min 1 1
    ∷ info (codes "ret") iret arg_exact 0 0
    ∷ info (codes "load") iload arg_exact 1 1
    ∷ info (codes "store") istore arg_exact 1 1
    ∷ info (codes "print") iprint arg_min 0 0
    ∷ info (codes "dup") idup arg_exact 0 0
    ∷ info (codes "swap") iswap arg_exact 0 0
    ∷ info (codes "drop") idrop arg_exact 0 0
    ∷ info (codes "rotl") irotl arg_exact 1 1
    ∷ info (codes "rotr") irotr arg_exact 1 1
    ∷ info (codes "alloc") ialloc arg_min 0 0
    ∷ info (codes "halt") ihalt arg_min 0 0
    ∷ info (codes "merge") imerge arg_min 0 0
    ∷ info (codes "xcall") ixcall arg_exact 0 0
    ∷ info (codes "sizeof") isizeof arg_exact 1 1
    ∷ info (codes "dec") idec arg_exact 1 1
    ∷ info (codes "inc") iinc arg_exact 1 1
    ∷ info (codes "eval") ieval arg_min 0 0
    ∷ info (codes "cmp") icmp arg_min 1 1
    ∷ info (codes "@r") ireadmem arg_min 1 1
    ∷ info (codes "@cpy") icpymem arg_exact 0 0
    ∷ info (codes "@w") iwritemem arg_min 1 1
    ∷ info (codes "@cmp") imemcmp arg_min 1 1
    ∷ info (codes "var") ivar arg_exact 1 0
    ∷ info (codes "setvar") isetvar arg_exact 1 0
    ∷ info (codes "getvar") igetvar arg_exact 1 0
    ∷ info (codes "free") ifree arg_min 0 0
    ∷ info (codes "togglelocalscope") itogglelocalscope arg_min 0 0
    ∷ info (codes "getglobalvar") igetglobalvar arg_exact 1 0
    ∷ info (codes "setglobalvar") isetglobalvar arg_exact 1 0
    ∷ info (codes "nop") inop arg_exact 0 0
    ∷ info (codes "ovm") iovm arg_exact 1 1
    ∷ info (codes "cast") icast arg_exact 1 1
    ∷ info (codes "here") ihere arg_exact 0 0
    ∷ info (codes "sprintf") isprintf arg_min 0 0
    ∷ []

-- The loop of `instruction_expected_args`. The value that C returns for a missing entry,
-- {ARG_EXACT, -1, 0}, is `none`: no count of operands satisfies it.
unfoldable pub expected_args_in : List InstructionInfo → Instruction → Option ArgRequirement
expected_args_in [] i = none
expected_args_in (e ∷ es) i =
    if number_of e.instruction == number_of i then some e.args else expected_args_in es i

unfoldable pub instruction_expected_args : Instruction → Option ArgRequirement
unfolding expected_args_in number_of
instruction_expected_args i = expected_args_in instructions i

unfoldable pub count_fits : ArgRequirementType → ℕ → ℕ → ℕ → Bool
count_fits arg_exact value value2 n = n == value
count_fits arg_min value value2 n = leb value n
count_fits arg_max value value2 n = leb n value
count_fits arg_range value value2 n = leb value n && leb n value2

unfoldable pub validate_arg_count : ArgRequirement → ℕ → Bool
unfolding count_fits
validate_arg_count req n = count_fits req.type req.value req.value2 n

-- The loop of `parse_instruction`; `none` is `(Instruction)-1`.
unfoldable pub parse_in : List InstructionInfo → Str → Option Instruction
parse_in [] name = none
parse_in (e ∷ es) name = if str_eq e.name name then some e.instruction else parse_in es name

unfoldable pub parse_instruction : Str → Option Instruction
unfolding parse_in
parse_instruction name = parse_in instructions name

-- The loop of `instruction_to_string`.
unfoldable pub name_in : List InstructionInfo → Instruction → Str
name_in [] i = codes "unknown"
name_in (e ∷ es) i = if number_of e.instruction == number_of i then e.name else name_in es i

unfoldable pub instruction_to_string : Instruction → Str
unfolding name_in number_of
instruction_to_string i = name_in instructions i
