-- ===== src/Nyva/Preprocess/Removes.antt =====
-- `preprocess` of src/nyva.c only removes characters.
use orta_vm.Prelude.{
  ℕ, zero, suc, ◌≤◌, ◌≡◌, refl, arith, Bool, true, false, not, ◌&&◌, Option, none, some, [], ◌∷◌,
  Str, length, ◌==◌, if◌then◌else◌, isspace, Bool-cases, inl, inr,
}
use orta_vm.Nyva.Preprocess.{
  Round, skip, copy, skip_while, is_type_char, after_comment, after_colon, begins_space,
  begins_with, rest_of, begins_type, preprocess_round, preprocess_from, preprocess,
}

-- The first text is the second with some of its characters left out.
pub data Sublist : Str → Str → Type 0 where
  done : {s : Str} → Sublist [] s
  keep : {c : ℕ} {r s : Str} → Sublist r s → Sublist (c ∷ r) (c ∷ s)
  drop : {c : ℕ} {r s : Str} → Sublist r s → Sublist r (c ∷ s)

pub Sublist-length : {r s : Str} → Sublist r s → length r ≤ length s
Sublist-length done = omega arith
Sublist-length (keep h) = omega (arith, Sublist-length h)
Sublist-length (drop h) = omega (arith, Sublist-length h)

-- The second text is an end of the first.
data Suffix : Str → Str → Type 0 where
  whole : {s : Str} → Suffix s s
  further : {c : ℕ} {s t : Str} → Suffix s t → Suffix (c ∷ s) t

Suffix_trans : {s t u : Str} → Suffix s t → Suffix t u → Suffix s u
Suffix_trans whole h = h
Suffix_trans (further g) h = further (Suffix_trans g h)

Suffix-length : {s t : Str} → Suffix s t → length t ≤ length s
Suffix-length whole = omega arith
Suffix-length (further h) = omega (arith, Suffix-length h)

Sublist-Suffix : {r s t : Str} → Suffix s t → Sublist r t → Sublist r s
Sublist-Suffix whole h = h
Sublist-Suffix (further g) h = drop (Sublist-Suffix g h)

skip_while-Suffix : (test : ℕ → Bool) (s : Str) → Suffix s (skip_while test s)
unfolding skip_while
skip_while-Suffix test [] = whole
skip_while-Suffix test (c ∷ s) = elim (Bool-cases (test c)) [
  | inl e ↦ rw e (further (skip_while-Suffix test s))
  | inr e ↦ rw e whole
]

rest_of-Suffix : (s : Str) → Suffix s (rest_of s)
unfolding rest_of
rest_of-Suffix [] = whole
rest_of-Suffix (c ∷ s) = further whole

-- A round at this text takes a character of it at least, and copies no other.
data Takes : Str → Round → Type 0 where
  skips : {c : ℕ} {s t : Str} → Suffix s t → Takes (c ∷ s) (skip t)
  copies : {c d : ℕ} {s t : Str} → Suffix (c ∷ s) (d ∷ t) → Takes (c ∷ s) (copy d t)

if-Takes :
    {s : Str} (b : Bool) {r r' : Round}
    → Takes s r
    → (b ≡ false → Takes s r')
    → Takes s (if b then r else r')
if-Takes true h k = h
if-Takes false h k = k refl

after_comment-Takes : (c : ℕ) (s t : Str) → Suffix s t → Takes (c ∷ s) (after_comment t)
unfolding after_comment
after_comment-Takes c s [] h = skips h
after_comment-Takes c s (d ∷ t) h = copies (further h)

after_colon-Takes : (s t : Str) → Suffix s t → Takes (b':' ∷ s) (after_colon s t)
unfolding after_colon
after_colon-Takes s [] h = copies whole
after_colon-Takes s (d ∷ t) h =
    if-Takes (begins_type d) (skips (Suffix_trans h (skip_while-Suffix is_type_char (d ∷ t))))
      λ _. copies whole

-- The colon of the last test is the character that is copied.
colon-Takes : (c : ℕ) (s t : Str) → Suffix s t → c ≡ b':' → Takes (c ∷ s) (after_colon s t)
colon-Takes c s t h e = rw e (after_colon-Takes s t h)

colon_of : (c : ℕ) (b : Bool) → (c == b':' && b) ≡ true → c ≡ b':'
colon_of c b h = ground arith

preprocess_round-Takes : (c : ℕ) (s : Str) → Takes (c ∷ s) (preprocess_round c s)
unfolding preprocess_round
preprocess_round-Takes c s =
    if-Takes (c == b'/' && begins_with b'/' s)
      (after_comment-Takes c s _ (skip_while-Suffix (λ d. not (d == b'\n')) s))
      λ _.
        if-Takes (c == b'-' && begins_with b'>' s)
          (skips (
            Suffix_trans (rest_of-Suffix s) (
              Suffix_trans (skip_while-Suffix isspace (rest_of s))
                (skip_while-Suffix is_type_char _))))
          λ _. elim (Bool-cases (c == b':' && begins_space s)) [
            | inl e ↦
                rw e
                  (colon-Takes c s _ (skip_while-Suffix isspace s) (colon_of c (begins_space s) e))
            | inr e ↦ rw e (copies whole)
          ]

-- What is left when a round and then the loop have run.
pub record Removed (s : Str) (o : Option Str) : Type 0 where
  pub text : Str
  pub is_result : o ≡ some text
  pub is_sublist : Sublist text s

round-Removed :
    (f c : ℕ) (s : Str) (r : Round)
    → length (c ∷ s) ≤ suc f
    → ((t : Str) → length t ≤ f → Removed t (preprocess_from f t))
    → Takes (c ∷ s) r
    → Removed (c ∷ s) (elim r [
      | skip t ↦ preprocess_from f t
      | copy d t ↦ elim (preprocess_from f t) [ none ↦ none | some u ↦ some (d ∷ u) ]
    ])
round-Removed f c s (skip t) h again (skips g) =
    let rest = again t (omega (arith, Suffix-length g, h)) in
    record {
      text = rest.text;
      is_result = rest.is_result;
      is_sublist = drop (Sublist-Suffix g rest.is_sublist);
    }
round-Removed f c s (copy d t) h again (copies g) =
    let rest = again t (omega (arith, Suffix-length g, h)) in
    record {
      text = d ∷ rest.text;
      is_result = rw (rest.is_result) refl;
      is_sublist = Sublist-Suffix g (keep rest.is_sublist);
    }

pub preprocess_from-Removed : (f : ℕ) (s : Str) → length s ≤ f → Removed s (preprocess_from f s)
unfolding preprocess_from
preprocess_from-Removed f [] h = record { text = []; is_result = refl; is_sublist = done }
preprocess_from-Removed zero (c ∷ s) h = absurd (omega (arith, h))
preprocess_from-Removed (suc f) (c ∷ s) h =
    round-Removed f c s _ h (preprocess_from-Removed f) (preprocess_round-Takes c s)

-- `preprocess` ends on every text, with that text less some of its characters: what is left has them in
-- the same order, and fits in the buffer, which has the length of the text and a terminator.
pub preprocess-Sublist :
    (s : Str) → (r : Str) × (preprocess s ≡ some r) × Sublist r s × (length r ≤ length s)
unfolding preprocess
preprocess-Sublist s =
    let left = preprocess_from-Removed (length s) s (omega arith) in
    (left.text, left.is_result, left.is_sublist, Sublist-length left.is_sublist)
