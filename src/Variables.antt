-- ===== src/Variables.antt =====
-- The variables of src/orta.h: `getvar`, `is_variable` and `setvar` on one vector of variables.
pub mod Laws
use orta_vm.Prelude.{
  ℕ, Bool, true, false, Option, none, some, List, [], ◌∷◌, ◌++◌, Str, ◌==◌, if◌then◌else◌, str_eq,
}
use orta_vm.Result.{Result, ok, exit, undefined, ◌>>=◌}
use orta_vm.Word.{
  Word, WordType, wint, wfloat, wcharp, w_char, wpointer, wbool, unknown, null_word, string_word,
}
use orta_vm.Program.{Variable}
use orta_vm.Heap.{Heap, free, strdup}

-- The loop that `getvar`, `is_variable` and `setvar` begin with.
unfoldable pub find_variable : List Variable → Str → Option Word
find_variable [] name = none
find_variable (v ∷ vs) name = if str_eq v.name name then some v.value else find_variable vs name

unfoldable pub is_variable : Str → List Variable → Bool
unfolding find_variable
is_variable name vars = elim (find_variable vars name) [ none ↦ false | some w ↦ true ]

-- A copy of a word, with its string duplicated.
unfoldable pub copy_word : WordType → Word → Heap → Result (Word × Heap)
copy_word wcharp w h = do (p, h') ← strdup w.bits h; ok (string_word p, h')
copy_word _ w h = ok (w, h)

unfoldable pub copy_found : Option Word → Heap → Result (Word × Heap)
unfolding copy_word
copy_found none h = ok (null_word, h)
copy_found (some w) h = copy_word w.type w h

unfoldable pub getvar : Str → List Variable → Heap → Result (Word × Heap)
unfolding copy_found find_variable
getvar name vars h = copy_found (find_variable vars name) h

-- What a variable gives up before it is assigned: its string, or the block behind its pointer.
unfoldable pub release : WordType → Word → Heap → Result Heap
release wcharp w h = free w.bits h
release wpointer w h = if w.bits == 0 then ok h else free w.bits h
release _ w h = ok h

-- The value of the first variable of that name replaced.
unfoldable pub replace_value : List Variable → Str → Word → List Variable
replace_value [] name w = []
replace_value (v ∷ vs) name w =
    if str_eq v.name name then record v { value = w } ∷ vs else v ∷ replace_value vs name w

-- A new variable, whose value is the null pointer.
abbrev pub fresh_variable : Str → Variable
fresh_variable name = record { name = name; value = null_word }

unfoldable pub assign : Str → List Variable → Word → Word → Heap → Result (List Variable × Heap)
unfolding release copy_word replace_value
assign name vars old new h = do
  h₁ ← release old.type old h
  (w, h₂) ← copy_word new.type new h₁
  ok (replace_value vars name w, h₂)

unfoldable pub set_found :
    Option Word → Str → List Variable → Word → Heap → Result (List Variable × Heap)
unfolding assign
set_found none name vars new h = assign name (vars ++ (fresh_variable name ∷ [])) null_word new h
set_found (some old) name vars new h = assign name vars old new h

unfoldable pub setvar : Str → List Variable → Word → Heap → Result (List Variable × Heap)
unfolding set_found find_variable
setvar name vars new h = set_found (find_variable vars name) name vars new h
