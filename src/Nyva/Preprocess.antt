-- ===== src/Nyva/Preprocess.antt =====
-- What src/nyva.c removes from the text in front of the lexer: comments and types.
pub mod Removes
use orta_vm.Prelude.{
  ℕ, zero, suc, ◌+◌, Bool, true, false, not, ◌&&◌, ◌||◌, Option, none, some, List, [], ◌∷◌, Str,
  length, ◌==◌, if◌then◌else◌, isspace, isalnum,
}

-- What is left of a text behind the characters that pass the test.
unfoldable pub skip_while : (ℕ → Bool) → Str → Str
skip_while test [] = []
skip_while test (c ∷ s) = let rest = skip_while test s in if test c then rest else c ∷ s

abbrev pub is_type_char : ℕ → Bool
is_type_char c =
    isalnum c
    || c == b'_'
    || c == b'<'
    || c == b'>'
    || c == b'|'
    || c == b'['
    || c == b']'
    || c == b'.'

abbrev pub begins_type : ℕ → Bool
begins_type c = isalnum c || c == b'_' || c == b'<' || c == b'>'

-- What a round of the loop does at a text that is not empty: it moves past a part of it, or copies the
-- first character.
pub data Round : Type 0 where
  skip : Str → Round
  copy : ℕ → Str → Round

-- The newline behind a comment is copied.
unfoldable pub after_comment : Str → Round
after_comment [] = skip []
after_comment (c ∷ s) = copy c s

-- A colon in front of white space, whose text is given: with a type behind it both are removed.
unfoldable pub after_colon : Str → Str → Round
unfolding skip_while
after_colon whole [] = copy b':' whole
after_colon whole (d ∷ t) =
    if begins_type d then skip (skip_while is_type_char (d ∷ t)) else copy b':' whole

unfoldable pub begins_space : Str → Bool
begins_space [] = false
begins_space (c ∷ s) = isspace c

unfoldable pub begins_with : ℕ → Str → Bool
begins_with d [] = false
begins_with d (c ∷ s) = c == d

unfoldable pub rest_of : Str → Str
rest_of [] = []
rest_of (c ∷ s) = s

-- A round at the character `c` with `s` behind it.
unfoldable pub preprocess_round : ℕ → Str → Round
unfolding skip_while after_comment after_colon begins_space begins_with rest_of
preprocess_round c s =
    if c == b'/' && begins_with b'/' s
    then after_comment (skip_while (λ d. not (d == b'\n')) s)
    else if c == b'-' && begins_with b'>' s
    then skip (skip_while is_type_char (skip_while isspace (rest_of s)))
    else if c == b':' && begins_space s
    then after_colon s (skip_while isspace s)
    else copy c s

-- The loop; `none` is that the fuel ran out.
unfoldable pub preprocess_from : ℕ → Str → Option Str
unfolding preprocess_round
preprocess_from f [] = some []
preprocess_from zero (c ∷ s) = none
preprocess_from (suc f) (c ∷ s) = elim (preprocess_round c s) [
  | skip t ↦ preprocess_from f t
  | copy d t ↦ elim (preprocess_from f t) [ none ↦ none | some r ↦ some (d ∷ r) ]
]

-- Every round removes a character at least.
unfoldable pub preprocess : Str → Option Str
unfolding preprocess_from
preprocess s = preprocess_from (length s) s
