-- ===== src/Operand.antt =====
-- How src/orta.h tells the kinds of operands apart.
pub mod Kinds
use orta_vm.Prelude.{
  ℕ, ◌+◌, ◌-◌, ◌≤◌, Bool, true, false, not, ◌&&◌, ◌||◌, List, [], ◌∷◌, Str, leb, ◌==◌, length, take,
  drop, if◌then◌else◌,
}
use orta_vm.Number.{is_number, is_empty}
use orta_vm.Register.{is_register}
use orta_vm.Floats.{Floats}

abbrev pub first_is : ℕ → Str → Bool
first_is c [] = false
first_is c (d ∷ s) = d == c

unfoldable pub last_is : ℕ → Str → Bool
last_is c [] = false
last_is c (d ∷ []) = d == c
last_is c (d ∷ e ∷ s) = last_is c (e ∷ s)

unfoldable pub contains : ℕ → Str → Bool
contains c [] = false
contains c (d ∷ s) = d == c || contains c s

unfoldable pub is_pointer : Str → Bool
unfolding last_is
is_pointer s = leb 2 (length s) && first_is b'(' s && last_is b')' s

unfoldable pub is_string : Str → Bool
unfolding last_is
is_string s = leb 2 (length s) && first_is b'"' s && last_is b'"' s

unfoldable pub is_label_declaration : Str → Bool
unfolding last_is
is_label_declaration s = last_is b':' s

-- The text between the quotes: `len - 2` bytes from the second on.
unfoldable pub unquote : Str → Str
unquote s = take (length s - 2) (drop 1 s)

module _ (fl : Floats) where
  unfoldable pub is_float : Str → Bool
  unfolding contains
  is_float s = is_empty (fl.strtod_end s) && contains b'.' s

  unfoldable pub is_label_reference : Str → Bool
  unfolding is_float is_number is_register is_string
  is_label_reference s =
      not (is_number s) && not (is_float s) && not (is_register s) && not (is_string s)
