-- ===== src/Asm/Parse/Programs.antt =====
-- The programs that the parser adds to.
use orta_vm.Prelude.{
  ℕ, ◌+◌, ◌≤◌, ◌<◌, ◌≡◌, refl, arith, true, Option, none, some, List, [], ◌∷◌, Str, length,
  length-append, All, All-append,
}
use orta_vm.Result.{Result, ok, exit, undefined}
use orta_vm.Result.Ensures.{Ensures, if-Ensures, map-Ensures}
use orta_vm.Result.Fueled.{Settles, ok-Settles}
use orta_vm.Instruction.{instruction_expected_args, validate_arg_count}
use orta_vm.Program.{
  Program, InstructionData, Label, instructions_count, add_instruction, add_label, nop_instruction,
}
use orta_vm.Program.Growth.{HasRoom, with_instruction, with_label, add_instruction-ok, add_label-ok}
use orta_vm.Asm.Lexer.{Token}
use orta_vm.Asm.Tokens.{TokenStream, is_comma, token_stream_skip_newlines}
use orta_vm.Asm.Parse.{ends_operands, put_operand, parse_operands, accepts}

-- An instruction with a count of operands that it takes.
abbrev pub IsAccepted : InstructionData → Type 0
IsAccepted i = accepts i.opcode (length i.operands) ≡ true

abbrev LandsBelow : ℕ → Label → Type 0
LandsBelow n l = l.address < n

-- A program that can be run: the arrays have room, each instruction takes its operands, and each label is the
-- address of an instruction.
pub record IsAssembled (p : Program) : Type 0 where
  pub room : HasRoom p
  pub accepted : All IsAccepted p.instructions
  pub lands : All (LandsBelow (instructions_count p)) p.labels

lands-later : (m n : ℕ) (ls : List Label) → m ≤ n → All (LandsBelow m) ls → All (LandsBelow n) ls
lands-later m n [] h v = tt
lands-later m n (l ∷ ls) h (x, xs) = (omega (arith, x, h), lands-later m n ls h xs)

with_instruction-IsAssembled :
    (p : Program) (i : InstructionData)
    → HasRoom (with_instruction p i)
    → IsAccepted i
    → All IsAccepted p.instructions
    → All (LandsBelow (instructions_count p + 1)) p.labels
    → IsAssembled (with_instruction p i)
with_instruction-IsAssembled p i r a v w = record {
  room = r;
  accepted = All-append IsAccepted p.instructions (i ∷ []) v (a, tt);
  lands =
      lands-later (instructions_count p + 1) _ p.labels
        (omega (arith, length-append p.instructions (i ∷ []))) w;
}

pub add_instruction-Settles :
    (p : Program) (i : InstructionData)
    → IsAssembled p
    → IsAccepted i
    → Settles IsAssembled (some (add_instruction p i))
add_instruction-Settles p i v a =
    let (e, r) = add_instruction-ok p i v.room in
    rw e (
      ok-Settles IsAssembled (with_instruction p i) (
        with_instruction-IsAssembled p i r a v.accepted (
          lands-later (instructions_count p) (instructions_count p + 1) p.labels (omega arith)
            v.lands)))

nop-IsAccepted : IsAccepted nop_instruction
unfolding instruction_expected_args validate_arg_count
nop-IsAccepted = refl

pub add_label-Settles :
    (p : Program) (name : Str)
    → IsAssembled p
    → Settles IsAssembled (some (add_label p name (instructions_count p)))
add_label-Settles p name v =
    let here = instructions_count p in
    let q = with_label p name here in
    let (e, r) = add_label-ok p name here v.room in
    rw e (
      ok-Settles IsAssembled (with_instruction q nop_instruction) (
        with_instruction-IsAssembled q nop_instruction r nop-IsAccepted v.accepted (
          All-append (LandsBelow (here + 1)) p.labels _
            (lands-later here (here + 1) p.labels (omega arith) v.lands) (omega arith, tt))))

-- The stream behind the operands is no longer.
abbrev pub Shortens : TokenStream → List Str × TokenStream → Type 0
Shortens ts r = length r.1 ≤ length ts

put_operand-Shortens :
    (t : Token) (ts : TokenStream) (value : Option Str) (r : Result (List Str × TokenStream))
    → Ensures (Shortens ts) r
    → Ensures (Shortens (t ∷ ts)) (put_operand value r)
unfolding Ensures
put_operand-Shortens t ts (some v) (ok r) h = omega (arith, h)
put_operand-Shortens t ts (some v) (exit n) h = tt
put_operand-Shortens t ts (some v) undefined h = tt
put_operand-Shortens t ts none r h = tt

pub parse_operands-Shortens : (ts : TokenStream) → Ensures (Shortens ts) (parse_operands ts)
unfolding parse_operands Ensures
parse_operands-Shortens [] = omega arith
parse_operands-Shortens (t ∷ ts) =
    if-Ensures (Shortens (t ∷ ts)) (ends_operands t.type) _ _ (omega arith) (
      if-Ensures (Shortens (t ∷ ts)) (is_comma t.type) _ _
        (map-Ensures (Shortens (t ∷ ts)) (Shortens ts) (parse_operands ts) (λ r h. omega (arith, h))
          (parse_operands-Shortens ts))
        (put_operand-Shortens t ts t.value (parse_operands ts) (parse_operands-Shortens ts)))

pub length-skip_newlines : (ts : TokenStream) → length (token_stream_skip_newlines ts) ≤ length ts
unfolding token_stream_skip_newlines
length-skip_newlines [] = omega arith
length-skip_newlines (t ∷ ts) = ground (arith, length-skip_newlines ts)
