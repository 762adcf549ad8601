-- ===== src/Nyva/Codegen/Runs.antt =====
-- What the machine does with the instructions that the compiler of src/nyva.c writes for an operator.
use mathlib.Core.List.{append_assoc}
use mathlib.Core.Option.{some-injective}
use orta_vm.Prelude.{
  ℕ, ◌<◌, ◌≡◌, refl, ap, Str, Bool, true, false, Option, none, some, List, [], ◌∷◌, codes, length,
  ◌==◌, ◌++◌, ◌||◌, if◌then◌else◌, Bool-cases, inl, inr,
}
use orta_vm.Result.{Result, ok, exit, undefined, ◌>>=◌}
use orta_vm.Instruction.{
  Instruction, ipush, igetvar, iadd, isub, imul, idiv, imod, parse_instruction,
}
use orta_vm.Int32.{add32, sub32, mul32, div32, mod32, lt32, bool_int}
use orta_vm.Floats.{Floats}
use orta_vm.Platform.{Platform}
use orta_vm.Word.{Word, as_int, int_word, type_eq, type_number}
use orta_vm.Stack.{xstack_pop, pop_items}
use orta_vm.Program.{InstructionData}
use orta_vm.Stack.Laws.{push-ok}
use orta_vm.Vm.{OrtaVm, with_stack, push_word}
use orta_vm.Exec.{handler}
use orta_vm.Exec.Arith.{exec_not, not_stack, exec_div, exec_mod, is_zero_divisor}
use orta_vm.Exec.Compare.{exec_eq, exec_gt, exec_lt, exec_order, equal_words, order_words}
use orta_vm.Exec.Arith.Effects.{with_items, bare, exec-ints, exec_div-ints, exec_mod-ints}
use orta_vm.Nyva.Tokens.{
  TokenType, token_plus, token_minus, token_multiply, token_divide, token_modulus, token_gt,
  token_lt, token_eq, token_neq,
}
use orta_vm.Nyva.Syntax.{Node}
use orta_vm.Nyva.Emit.{
  Emission, Written, CodeGenerator, codegen_emit, print_int32, plain, push_number, getvar,
}
use orta_vm.Nyva.Codegen.{emit_operator, merges}
use orta_vm.Nyva.Compile.{generator}

-- The instruction of a line without operands, executed; the assembler knows it by its name.
abbrev execute_named :
    Platform
    → (OrtaVm → InstructionData → Result OrtaVm)
    → Option Instruction
    → OrtaVm
    → Result OrtaVm
execute_named pf exec_sprintf none vm = exit 1
execute_named pf exec_sprintf (some op) vm = handler pf exec_sprintf op vm (bare op 0)

abbrev with_name : Instruction → Str → InstructionData
with_name op s = record { opcode = op; operands = s ∷ []; line = 0 }

-- A line of the code of an operator, of a number or of a name.
abbrev pub execute_line :
    Platform → (OrtaVm → InstructionData → Result OrtaVm) → Emission → OrtaVm → Result OrtaVm
execute_line pf exec_sprintf (plain s) vm = execute_named pf exec_sprintf (parse_instruction s) vm
execute_line pf exec_sprintf (push_number n) vm =
    handler pf exec_sprintf ipush vm (with_name ipush (print_int32 n))
execute_line pf exec_sprintf (getvar s) vm =
    handler pf exec_sprintf igetvar vm (with_name igetvar s)
execute_line pf exec_sprintf _ vm = exit 1

-- Lines executed one after the other.
unfoldable pub execute_lines :
    Platform → (OrtaVm → InstructionData → Result OrtaVm) → List Written → OrtaVm → Result OrtaVm
execute_lines pf exec_sprintf [] vm = ok vm
execute_lines pf exec_sprintf (w ∷ ws) vm =
    execute_line pf exec_sprintf w.emission vm >>= execute_lines pf exec_sprintf ws

-- A line without arguments.
abbrev written_by : CodeGenerator → Str → List Written
written_by g s = record { indent_level = g.indent_level; emission = plain s } ∷ []

-- What a result carries.
abbrev value_in : Result ℕ → Option ℕ
value_in (ok n) = some n
value_in (exit status) = none
value_in undefined = none

-- What an operator makes of two ints, the left one given first: a difference is the right one less the left one,
-- `==` is 1 if they differ and `!=` if they are equal. A quotient and a remainder may have no value.
unfoldable pub operator_value : Floats → TokenType → ℕ → ℕ → Option ℕ
operator_value fl token_plus a b = some (add32 b a)
operator_value fl token_minus a b = some (sub32 b a)
operator_value fl token_multiply a b = some (mul32 a b)
operator_value fl token_divide a b = if b == 0 || fl.eq b 0 then none else value_in (div32 a b)
operator_value fl token_modulus a b = if b == 0 then none else value_in (mod32 a b)
operator_value fl token_gt a b = some (bool_int (lt32 b a))
operator_value fl token_lt a b = some (bool_int (lt32 a b))
operator_value fl token_eq a b = some (bool_int (bool_int (b == a) == 0))
operator_value fl token_neq a b = some (bool_int (b == a))
operator_value fl _ a b = none

-- An `int` as it is read back from a word.
abbrev pub cut : ℕ → ℕ
cut n = as_int (int_word n)

value_in-ok : (r : Result ℕ) (c : ℕ) → value_in r ≡ some c → r ≡ ok c
value_in-ok (ok n) c h = ap ok (some-injective _ _ h)
value_in-ok (exit status) c h = absurd cc
value_in-ok undefined c h = absurd cc

-- Whether an operator joins texts: a plus between names and strings.
abbrev pub joins : TokenType → Node → Node → Bool
joins token_plus left right = merges left right
joins _ left right = false

module _ (vm : OrtaVm) (rest : List Word) where
  -- A machine with these two ints on its stack, the right one on top, or with one int.
  abbrev pub two_ints : ℕ → ℕ → OrtaVm
  two_ints a b = with_items vm (int_word b ∷ int_word a ∷ rest)

  abbrev pub one_int : ℕ → OrtaVm
  one_int a = with_items vm (int_word a ∷ rest)

-- The int that is left, by its value.
module _ (vm : OrtaVm) (rest : List Word) where
  value : {n c : ℕ} → some n ≡ some c → ok (one_int vm rest n) ≡ ok (one_int vm rest c)
  value h = ap (λ n. ok (one_int vm rest n)) (some-injective _ _ h)

module _ (pf : Platform) (exec_sprintf : OrtaVm → InstructionData → Result OrtaVm) (vm : OrtaVm)
    (rest : List Word) (fits : length rest < vm.xpu.stack.capacity) where
  pub lands : (w : Word) → ok (push_word (with_items vm rest) w) ≡ ok (with_items vm (w ∷ rest))
  lands w = ap (λ s. ok (with_stack vm s)) (push-ok (record (vm.xpu.stack) { items = rest }) w fits)

  compared :
      (a b : ℕ)
      → (exec_gt pf.floats (two_ints vm rest a b)
          ≡ ok (one_int vm rest (bool_int (lt32 (cut b) (cut a)))))
        × (exec_lt pf.floats (two_ints vm rest a b)
            ≡ ok (one_int vm rest (bool_int (lt32 (cut a) (cut b)))))
        × (exec_eq pf.floats (two_ints vm rest a b)
            ≡ ok (one_int vm rest (bool_int (cut b == cut a))))
  unfolding exec_gt exec_lt exec_order order_words exec_eq equal_words xstack_pop pop_items type_eq
      type_number
  compared a b = (lands _, lands _, lands _)

  negated :
      (a : ℕ)
      → exec_not pf.floats (one_int vm rest a) ≡ ok (one_int vm rest (bool_int (cut a == 0)))
  unfolding exec_not not_stack xstack_pop pop_items type_eq
  negated a = lands _

  bool_int-int : (b : Bool) → cut (bool_int b) ≡ bool_int b
  bool_int-int true = refl
  bool_int-int false = refl

  divides :
      (a b c : ℕ)
      → operator_value pf.floats token_divide (cut a) (cut b) ≡ some c
      → exec_div pf.floats (two_ints vm rest a b) ≡ ok (one_int vm rest c)
  unfolding operator_value is_zero_divisor
  divides a b c h = elim (Bool-cases (cut b == 0 || pf.floats.eq (cut b) 0)) [
    | inl z ↦ absurd cc
    | inr z ↦ exec_div-ints pf.floats vm idiv 0 b a rest c z (value_in-ok _ c (rw z at h)) fits
  ]

  remains :
      (a b c : ℕ)
      → operator_value pf.floats token_modulus (cut a) (cut b) ≡ some c
      → exec_mod (two_ints vm rest a b) ≡ ok (one_int vm rest c)
  unfolding operator_value
  remains a b c h = elim (Bool-cases (cut b == 0)) [
    | inl z ↦ absurd cc
    | inr z ↦ exec_mod-ints pf.floats vm imod 0 b a rest c z (value_in-ok _ c (rw z at h)) fits
  ]

  -- What an operator writes behind the code of its operands, and what it does to two ints.
  unfoldable pub Operates : CodeGenerator → ℕ → ℕ → ℕ → Result CodeGenerator → Type 0
  Operates g a b c r =
      (ws : List Written) × (r ≡ ok (record g { out = g.out ++ ws }))
      × (execute_lines pf exec_sprintf ws (two_ints vm rest a b) ≡ ok (one_int vm rest c))

  pub emit_operator-Operates :
      (type : TokenType) (left right : Node) (a b c : ℕ) (g : CodeGenerator)
      → operator_value pf.floats type (cut a) (cut b) ≡ some c
      → joins type left right ≡ false
      → Operates g a b c (emit_operator type left right g)
  unfolding Operates emit_operator codegen_emit execute_lines handler parse_instruction
      operator_value
  emit_operator-Operates token_plus left right a b c g h m = (
    written_by g (codes "add"),
    rw m refl,
    rw ((exec-ints pf.floats vm iadd 0 b a rest fits).0) (value vm rest h),
  )
  emit_operator-Operates token_minus left right a b c g h m =
      (_, refl, rw ((exec-ints pf.floats vm isub 0 b a rest fits).1) (value vm rest h))
  emit_operator-Operates token_multiply left right a b c g h m =
      (_, refl, rw ((exec-ints pf.floats vm imul 0 b a rest fits).2) (value vm rest h))
  emit_operator-Operates token_divide left right a b c g h m = (_, refl, rw (divides a b c h) refl)
  emit_operator-Operates token_modulus left right a b c g h m = (_, refl, rw (remains a b c h) refl)
  emit_operator-Operates token_gt left right a b c g h m =
      (_, refl, rw ((compared a b).0) (value vm rest h))
  emit_operator-Operates token_lt left right a b c g h m =
      (_, refl, rw ((compared a b).1) (value vm rest h))
  emit_operator-Operates token_neq left right a b c g h m =
      (_, refl, rw ((compared a b).2) (value vm rest h))
  emit_operator-Operates token_eq left right a b c g h m =
      let same = cut b == cut a in
      (
        _,
        ap (λ o. ok (record g { out = o })) (append_assoc g.out (_ ∷ []) (_ ∷ [])),
        rw ((compared a b).2) (rw (negated (bool_int same), bool_int-int same) (value vm rest h)),
      )
  emit_operator-Operates _ left right a b c g h m = absurd cc

  -- The code of an operator, run on two ints while the stack has room, leaves the one int that the operator makes of
  -- them, if it has a value (a quotient by zero has none, nor has one by a divisor whose bits are a float equal to
  -- zero), and unless it is a plus between names and strings, which joins texts.
  pub emit_operator-runs :
      (type : TokenType) (left right : Node) (a b c : ℕ)
      → operator_value pf.floats type (cut a) (cut b) ≡ some c
      → joins type left right ≡ false
      → (g : CodeGenerator) × (emit_operator type left right generator ≡ ok g)
        × (execute_lines pf exec_sprintf g.out (two_ints vm rest a b) ≡ ok (one_int vm rest c))
  unfolding Operates
  emit_operator-runs type left right a b c h m =
      let (ws, written, runs) = emit_operator-Operates type left right a b c generator h m in
      (record generator { out = ws }, written, runs)
