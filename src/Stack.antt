-- ===== src/Stack.antt =====
-- `XStack` of src/orta.h. The cells below `count` are a list, the top first; `count` is its length.
-- `malloc` is taken to succeed.
pub mod Laws
use orta_vm.Prelude.{
  ℕ, Bool, true, false, Option, List, [], ◌∷◌, length, leb, get_or, if◌then◌else◌,
}
use orta_vm.Word.{Word, null_word}

pub record XStack : Type 0 where
  pub items : List Word
  pub capacity : ℕ

abbrev pub count : XStack → ℕ
count s = length s.items

unfoldable pub xstack_create : ℕ → XStack
xstack_create capacity = record { items = []; capacity = capacity }

-- The flag is the `int` that C returns.
unfoldable pub xstack_push : XStack → Word → Bool × XStack
xstack_push s w =
    if leb s.capacity (count s) then (false, s) else (true, record s { items = w ∷ s.items })

-- A push by a caller that ignores the flag, as all do.
abbrev pub push : XStack → Word → XStack
push s w = (xstack_push s w).1

unfoldable pub pop_items : List Word → Word × List Word
pop_items [] = (null_word, [])
pop_items (w ∷ rest) = (w, rest)

unfoldable pub xstack_pop : XStack → Word × XStack
unfolding pop_items
xstack_pop s = let (w, rest) = pop_items s.items in (w, record s { items = rest })

unfoldable pub xstack_peek : XStack → ℕ → Word
xstack_peek s offset = get_or s.items offset null_word

unfoldable pub xstack_check : XStack → ℕ → Bool
xstack_check s expected = leb expected (count s)
