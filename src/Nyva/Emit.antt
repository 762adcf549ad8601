-- ===== src/Nyva/Emit.antt =====
-- What the code generator of src/nyva.c keeps, and how it writes a line of assembly.
pub mod Decimal
use orta_vm.Prelude.{
  ℕ, ◌+◌, ◌-◌, ◌*◌, ◌^◌, Bool, true, false, List, [], ◌∷◌, ◌++◌, Str, codes, replicate, ltb, ◌==◌,
  if◌then◌else◌,
}
use orta_vm.Number.{digits}

-- A call of `codegen_emit`: a constructor for each format string with a conversion, and its arguments.
pub data Emission : Type 0 where
  -- a format without a conversion
  plain : Str → Emission
  push_number : ℕ → Emission
  push_string getvar setvar var call jmp jmpif label : Str → Emission
  -- `"; BUILTIN CALL %s"` and the like
  comment : Str → Str → Emission
  -- `"; %s(%d)"` and `"; END %s(%d)"`
  signature : Str → Str → ℕ → Emission

-- A line of the output, with the indentation that was set.
pub record Written : Type 0 where
  pub indent_level : ℕ
  pub emission : Emission

-- The global pointer to the label behind the innermost loop; its text is freed with the loop.
pub data BreakLabel : Type 0 where
  null_label freed_label : BreakLabel
  live_label : Str → BreakLabel

-- `CodeGenerator` and the globals that it works with.
pub record CodeGenerator : Type 0 where
  pub out : List Written
  pub label_counter : ℕ
  pub indent_level : ℕ
  pub error_not_enough_args : Str
  pub current_break_label : BreakLabel
  pub imported_files : List Str

unfoldable pub codegen_emit : Emission → CodeGenerator → CodeGenerator
codegen_emit e g = record g {
  out = g.out ++ (record { indent_level = g.indent_level; emission = e } ∷ []);
}

-- `%d` of an `int`, given by its 32 bits.
unfoldable pub print_int32 : ℕ → Str
unfolding digits
print_int32 v = if ltb v (2 ^ 31) then digits 10 v else b'-' ∷ digits 10 (2 ^ 32 - v)

-- `"__%s_%d"`
unfoldable pub label_text : Str → ℕ → Str
unfolding print_int32
label_text prefix n = codes "__" ++ (prefix ++ (codes "_" ++ print_int32 n))

unfoldable pub codegen_create_label : Str → CodeGenerator → Str × CodeGenerator
unfolding label_text
codegen_create_label prefix g =
    (label_text prefix g.label_counter, record g { label_counter = g.label_counter + 1 })

-- The text of a format with its arguments.
unfoldable pub emission_text : Emission → Str
unfolding print_int32
emission_text (plain s) = s
emission_text (push_number n) = codes "push " ++ print_int32 n
emission_text (push_string s) = codes "push \"" ++ (s ++ codes "\"")
emission_text (getvar s) = codes "getvar " ++ s
emission_text (setvar s) = codes "setvar " ++ s
emission_text (var s) = codes "var " ++ s
emission_text (call s) = codes "call " ++ s
emission_text (jmp s) = codes "jmp " ++ s
emission_text (jmpif s) = codes "jmpif " ++ s
emission_text (label s) = s ++ codes ":"
emission_text (comment head s) = head ++ s
emission_text (signature head s n) = head ++ (s ++ (codes "(" ++ (print_int32 n ++ codes ")")))

unfoldable pub ends_colon : Str → Bool
ends_colon [] = false
ends_colon (c ∷ []) = c == b':'
ends_colon (c ∷ d ∷ s) = ends_colon (d ∷ s)

-- A format that ends in a colon is a label, and is not indented.
unfoldable pub is_label : Emission → Bool
unfolding ends_colon
is_label (plain s) = ends_colon s
is_label (label s) = true
is_label _ = false

unfoldable pub line_text : Written → Str
unfolding emission_text is_label
line_text w =
    let indent = if is_label w.emission then [] else replicate (4 * w.indent_level) b' ' in
    indent ++ (emission_text w.emission ++ codes "\n")

-- The content of the output file.
unfoldable pub output_text : List Written → Str
unfolding line_text
output_text [] = []
output_text (w ∷ ws) = line_text w ++ output_text ws
