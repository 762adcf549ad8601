-- ===== src/Register.antt =====
-- The register table of src/orta.h and the lookups by name. A register is its number, the index in
-- `register_table`, which is also its `id`.
use orta_vm.Prelude.{
  ℕ, ◌+◌, Bool, true, false, Option, none, some, List, [], ◌∷◌, Str, codes, str_case_eq,
  if◌then◌else◌, get_elem?,
}

-- The names of `register_table`, in the order of `XRegisters`.
abbrev pub register_names : List Str
register_names =
    codes "RAX"
    ∷ codes "RBX"
    ∷ codes "RCX"
    ∷ codes "RDX"
    ∷ codes "RSI"
    ∷ codes "RDI"
    ∷ codes "R8"
    ∷ codes "R9"
    ∷ codes "R10"
    ∷ codes "R11"
    ∷ codes "R12"
    ∷ codes "R13"
    ∷ codes "R14"
    ∷ codes "R15"
    ∷ codes "FR"
    ∷ []

abbrev pub reg_count : ℕ
reg_count = 15

-- The loop over the table from index `i` on. `none` is `(XRegisters)-1`.
unfoldable pub find_register : List Str → ℕ → Str → Option ℕ
find_register [] i s = none
find_register (name ∷ names) i s =
    if str_case_eq s name then some i else find_register names (i + 1) s

unfoldable pub register_name_to_enum : Str → Option ℕ
unfolding find_register
register_name_to_enum s = find_register register_names 0 s

-- The loop of `is_register`.
unfoldable pub names_register : List Str → Str → Bool
names_register [] s = false
names_register (name ∷ names) s = if str_case_eq s name then true else names_register names s

unfoldable pub is_register : Str → Bool
unfolding names_register
is_register s = names_register register_names s

-- The name that the loaders write back for an id, if there is one.
unfoldable pub register_name : ℕ → Option Str
register_name r = get_elem? register_names r
