-- ===== src/Nyva/Codegen/Values.antt =====
-- What the machine does with the code that the compiler of src/nyva.c writes for an expression of numbers.
use orta_vm.Prelude.{
  ℕ, suc, ◌^◌, ◌≡◌, Bool, true, false, Option, none, some, List, ◌∷◌, ◌++◌, ltb, leb, if◌then◌else◌,
}
use orta_vm.Result.{Result, ok}
use orta_vm.Floats.{Floats}
use orta_vm.Platform.{Platform}
use orta_vm.Word.{Word, WordType, wint, int_word}
use orta_vm.Program.{InstructionData, Variable}
use orta_vm.Variables.{find_variable}
use orta_vm.Vm.{OrtaVm}
use orta_vm.Exec.Arith.Effects.{with_items}
use orta_vm.Nyva.Syntax.{Node, binary_expression, identifier, number}
use orta_vm.Nyva.Emit.{Written, CodeGenerator}
use orta_vm.Nyva.Codegen.Runs.{execute_lines, joins, operator_value, cut}

-- The int in a word.
abbrev pub int_in : WordType → ℕ → Option ℕ
int_in wint n = if ltb n (2 ^ 32) then some n else none
int_in _ n = none

abbrev pub operate : Bool → Option ℕ → Option ℕ → (ℕ → ℕ → Option ℕ) → Option ℕ
operate true a b f = none
operate false none b f = none
operate false (some a) none f = none
operate false (some a) (some b) f = f a b

-- The value of an expression of numbers, operators and names of variables that hold ints, where it has one.
unfoldable pub value_of : Floats → List Variable → Node → Option ℕ
value_of fl vars (number n) = if ltb n (2 ^ 32) then some n else none
value_of fl vars (identifier s) = elim (find_variable vars s) [
  | none ↦ none
  | some w ↦ int_in w.type w.bits
]
value_of fl vars (binary_expression left type right) =
    operate (joins type left right) (value_of fl vars left) (value_of fl vars right)
      λ a b. operator_value fl type (cut a) (cut b)
value_of fl vars _ = none

-- The words that its evaluation has on the stack at most.
unfoldable pub depth : Node → ℕ
depth (binary_expression left type right) =
    let a = depth left in let b = suc (depth right) in if leb a b then b else a
depth _ = 1

module _ (pf : Platform) (exec_sprintf : OrtaVm → InstructionData → Result OrtaVm)
    (vm : OrtaVm) where
  -- What an expression of this value writes, and what it does to a machine with these words on its stack.
  unfoldable Evaluates : CodeGenerator → List Word → ℕ → Result CodeGenerator → Type 0
  Evaluates g rest n r =
      (ws : List Written) × (r ≡ ok (record g { out = g.out ++ ws }))
      × (execute_lines pf exec_sprintf ws (with_items vm rest)
          ≡ ok (with_items vm (int_word n ∷ rest)))
