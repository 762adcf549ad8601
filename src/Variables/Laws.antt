-- ===== src/Variables/Laws.antt =====
-- Assignments and what is read afterwards.
use orta_vm.Prelude.{
  ◌≡◌, ◌≢◌, refl, arith, true, false, Option, none, some, List, [], ◌∷◌, ◌++◌, Str, str_eq,
  str_eq_refl, str_eq→eq, sym, ap, ◌∙◌,
}
use orta_vm.Result.{Result, ok, ◌>>=◌}
use orta_vm.Word.{Word, WordType, wcharp, null_word, string_word}
use orta_vm.Program.{Variable}
use orta_vm.Heap.{Heap, load_string, new_string, strdup}
use orta_vm.Heap.Laws.{load_string-new_string, load_string-NoNul}
use orta_vm.Variables.{
  find_variable, getvar, setvar, replace_value, copy_word, release, assign, set_found,
  fresh_variable, copy_found,
}

find-replace_self :
    (vars : List Variable) (name : Str) (old new : Word)
    → find_variable vars name ≡ some old
    → find_variable (replace_value vars name new) name ≡ some new
unfolding find_variable replace_value
find-replace_self [] name old new h = cc
find-replace_self (v ∷ vs) name old new h = ground (arith, find-replace_self vs name old new)

str_eq_other : (v a b : Str) → str_eq a b ≡ false → str_eq v a ≡ true → str_eq v b ≡ false
str_eq_other v a b h e = rw (str_eq→eq v a e) h

find-replace_other :
    (vars : List Variable) (name other : Str) (new : Word)
    → str_eq name other ≡ false
    → find_variable (replace_value vars name new) other ≡ find_variable vars other
unfolding find_variable replace_value
find-replace_other [] name other new h = refl
find-replace_other (v ∷ vs) name other new h =
    ground (arith, find-replace_other vs name other new, str_eq_other v.name name other h)

find-snoc_self :
    (vars : List Variable) (name : Str)
    → find_variable vars name ≡ none
    → find_variable (vars ++ (fresh_variable name ∷ [])) name ≡ some null_word
unfolding find_variable
find-snoc_self [] name h = ground (arith, str_eq_refl name)
find-snoc_self (v ∷ vs) name h = ground (arith, find-snoc_self vs name)

find-snoc_other :
    (vars : List Variable) (name other : Str)
    → str_eq name other ≡ false
    → find_variable (vars ++ (fresh_variable name ∷ [])) other ≡ find_variable vars other
unfolding find_variable
find-snoc_other [] name other h = ground arith
find-snoc_other (v ∷ vs) name other h = ground (arith, find-snoc_other vs name other h)

-- A word that can be copied: one that is no string, or a string that can be read.
pub data Readable (h : Heap) (w : Word) : Type 0 where
  plain_word : w.type ≢ wcharp → Readable h w
  string_at : (s : Str) → w.type ≡ wcharp → load_string w.bits h ≡ ok s → Readable h w

-- A copy of a word: the word itself, or another string with the same text.
pub data IsCopy (h : Heap) (w : Word) (h' : Heap) (w' : Word) : Type 0 where
  same_word : w.type ≢ wcharp → w' ≡ w → IsCopy h w h' w'
  same_text :
      (s : Str)
      → w.type ≡ wcharp
      → load_string w.bits h ≡ ok s
      → w'.type ≡ wcharp
      → load_string w'.bits h' ≡ ok s
      → IsCopy h w h' w'

copy-plain : (t : WordType) (w : Word) (h : Heap) → t ≢ wcharp → copy_word t w h ≡ ok (w, h)
unfolding copy_word
copy-plain wcharp w h n = absurd (n refl)
copy-plain _ w h n = refl

-- What a word that was copied into this heap is.
record Copied (h : Heap) (w : Word) (r : Result (Word × Heap)) : Type 0 where
  word : Word
  heap : Heap
  is_result : r ≡ ok (word, heap)
  is_copy : IsCopy h w heap word

copy_word-Copied : (h : Heap) (w : Word) → Readable h w → Copied h w (copy_word w.type w h)
unfolding copy_word strdup
copy_word-Copied h w (plain_word n) = record {
  word = w;
  heap = h;
  is_result = copy-plain w.type w h n;
  is_copy = same_word n refl;
}
copy_word-Copied h w (string_at s t e) = record {
  word = string_word (new_string s h).0;
  heap = (new_string s h).1;
  is_result =
      ap (λ k. copy_word k w h) t
      ∙ ap (λ r. r >>= (λ s'. ok (new_string s' h)) >>= λ r'. ok (string_word r'.0, r'.1)) e;
  is_copy = same_text s t e refl (load_string-new_string s h (load_string-NoNul w.bits h s e));
}

copy-Readable : {h h' : Heap} {w w' : Word} → IsCopy h w h' w' → Readable h' w'
copy-Readable (same_word n e) = plain_word (rw e n)
copy-Readable (same_text s t e t' e') = string_at s t' e'

copy-copy :
    {h h' h'' : Heap} {w w' w'' : Word}
    → IsCopy h w h' w'
    → IsCopy h' w' h'' w''
    → IsCopy h w h'' w''
copy-copy (same_word n e) (same_word n' e') = same_word n (e' ∙ e)
copy-copy (same_word n e) (same_text s t r t' r') = absurd (n (ap (λ x. x.type) (sym e) ∙ t))
copy-copy (same_text s t r t' r') (same_word n e) = absurd (n t')
copy-copy (same_text s t r t' r') (same_text s' u r₁ u' r₂) = same_text s t r u' (r₂ ∙ sym r₁ ∙ r')

-- What `setvar` takes from the variable before it assigns: the null pointer, if there is no such variable.
abbrev pub held : Option Word → Word
held none = null_word
held (some w) = w

record Assigned (name : Str) (vars : List Variable) (w : Word) (vars' : List Variable)
    : Type 0 where
  self : find_variable vars' name ≡ some w
  other : (k : Str) → str_eq name k ≡ false → find_variable vars' k ≡ find_variable vars k

-- The variables after an assignment of this word.
abbrev assigned : Option Word → Str → List Variable → Word → List Variable
assigned none name vars w = replace_value (vars ++ (fresh_variable name ∷ [])) name w
assigned (some old) name vars w = replace_value vars name w

assigned-Assigned :
    (found : Option Word) (name : Str) (vars : List Variable) (w : Word)
    → find_variable vars name ≡ found
    → Assigned name vars w (assigned found name vars w)
assigned-Assigned none name vars w f =
    let more = vars ++ (fresh_variable name ∷ []) in
    record {
      self = find-replace_self more name null_word w (find-snoc_self vars name f);
      other = λ k d. find-replace_other more name k w d ∙ find-snoc_other vars name k d;
    }
assigned-Assigned (some old) name vars w f = record {
  self = find-replace_self vars name old w f;
  other = λ k d. find-replace_other vars name k w d;
}

set_found-assigned :
    (found : Option Word) (name : Str) (vars : List Variable) (new w : Word) (h h₁ h₂ : Heap)
    → release (held found).type (held found) h ≡ ok h₁
    → copy_word new.type new h₁ ≡ ok (w, h₂)
    → set_found found name vars new h ≡ ok (assigned found name vars w, h₂)
unfolding set_found assign
set_found-assigned none name vars new w h h₁ h₂ r c =
    ap
      (λ x. x >>= λ k. copy_word new.type new k >>= λ a.
        ok (replace_value (vars ++ (fresh_variable name ∷ [])) name a.0, a.1))
      r
    ∙ rw c refl
set_found-assigned (some old) name vars new w h h₁ h₂ r c = rw r (rw c refl)

-- If what the variable held can be released, and the new word can then be copied, the assignment succeeds; reading
-- the variable gives the word again, a string as another string with the same text, and a variable of another name
-- holds what it held.
pub getvar-setvar :
    (name other : Str) (vars : List Variable) (new : Word) (h h₁ : Heap)
    → release (held (find_variable vars name)).type (held (find_variable vars name)) h ≡ ok h₁
    → Readable h₁ new
    → str_eq name other ≡ false
    → (vars' : List Variable) × (h' : Heap) × (w : Word) × (h'' : Heap) × (setvar name vars new h
        ≡ ok (vars', h'))
      × (getvar name vars' h' ≡ ok (w, h''))
      × IsCopy h₁ new h'' w
      × (find_variable vars' other ≡ find_variable vars other)
unfolding setvar getvar copy_found
getvar-setvar name other vars new h h₁ released readable apart =
    let found = find_variable vars name in
    let stored = copy_word-Copied h₁ new readable in
    let read = copy_word-Copied stored.heap stored.word (copy-Readable (stored.is_copy)) in
    let now = assigned-Assigned found name vars stored.word refl in
    (
      assigned found name vars stored.word,
      stored.heap,
      read.word,
      read.heap,
      set_found-assigned found name vars new stored.word h h₁ stored.heap released
          (stored.is_result),
      ap (λ f. copy_found f stored.heap) (now.self) ∙ read.is_result,
      copy-copy (stored.is_copy) (read.is_copy),
      now.other other apart,
    )
