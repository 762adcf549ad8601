-- ===== src/Program/Labels.antt =====
-- What `find_label` finds.
use orta_vm.Prelude.{
  ◌≡◌, refl, arith, none, some, List, [], ◌∷◌, ◌++◌, Str, str_eq, str_eq_refl, false,
}
use orta_vm.Program.{Label, find_in}

-- No label of the list has the name.
abbrev pub IsAbsent : Str → List Label → Type 0
IsAbsent name [] = Unit
IsAbsent name (l ∷ ls) = (str_eq l.name name ≡ false) × IsAbsent name ls

-- Of several labels of one name the first is found: if none before has the name, its address is.
pub find_in-append :
    (before after : List Label) (l : Label)
    → IsAbsent l.name before
    → find_in (before ++ (l ∷ after)) l.name ≡ some l.address
unfolding find_in
find_in-append [] after l h = ground (arith, str_eq_refl l.name)
find_in-append (b ∷ before) after l (h, hs) = ground (arith, find_in-append before after l hs)

pub find_in-absent : (ls : List Label) (name : Str) → IsAbsent name ls → find_in ls name ≡ none
unfolding find_in
find_in-absent [] name h = refl
find_in-absent (l ∷ ls) name (h, hs) = ground (arith, find_in-absent ls name hs)
