-- ===== src/Nyva/Escape.antt =====
-- `escape_string` of src/nyva.c, which spells a text so that the lexer reads it back. The code generator does
-- not call it.
use orta_vm.Prelude.{
  ℕ, ◌*◌, ◌≤◌, ◌<◌, ◌≡◌, refl, arith, ap, ◌∙◌, Bool, true, false, [], ◌∷◌, ◌++◌, Str, length, ◌==◌,
  if◌then◌else◌, length-append, lt→ltb,
}
use mathlib.Core.List.{append_assoc}
use orta_vm.Result.{ok}
use orta_vm.Nyva.Lexer.{
  Lexer, enter, lexer_advance, advance_in, unescaped, collect_quoted, in_buffer,
  lexer_collect_string,
}
use orta_vm.Nyva.Lexer.Ends.{enter-unread}

-- The cases of the switch.
unfoldable pub escape_char : ℕ → Str
escape_char c =
    if c == b'\\'
    then b'\\' ∷ b'\\' ∷ []
    else if c == b'"'
    then b'\\' ∷ b'"' ∷ []
    else if c == b'\n'
    then b'\\' ∷ b'n' ∷ []
    else if c == b'\r'
    then b'\\' ∷ b'r' ∷ []
    else if c == b'\t'
    then b'\\' ∷ b't' ∷ []
    else c ∷ []

unfoldable pub escape_string : Str → Str
unfolding escape_char
escape_string [] = []
escape_string (c ∷ s) = escape_char c ++ escape_string s

-- The text fits in the buffer that `escape_string` allocates.
pub escape_string-length : (s : Str) → length (escape_string s) ≤ length s * 2
unfolding escape_string escape_char
escape_string-length [] = omega arith
escape_string-length (c ∷ s) =
    ground (arith, escape_string-length s, length-append (escape_char c) (escape_string s))

-- The lexer reads this character of a text in quotes, and goes on with the rest.
abbrev Reads : ℕ → Str → Str → Lexer → Type 0
Reads c spelled rest l =
    (l' : Lexer) × (collect_quoted false (spelled ++ rest) l
      ≡ (c ∷ (collect_quoted false rest l').0, (collect_quoted false rest l').1))

if-Reads :
    (c : ℕ) (b : Bool) (x y rest : Str) (l : Lexer)
    → (b ≡ true → Reads c x rest l)
    → (b ≡ false → Reads c y rest l)
    → Reads c (if b then x else y) rest l
if-Reads c true x y rest l h k = h refl
if-Reads c false x y rest l h k = k refl

escaped-Reads :
    (d c : ℕ) (rest : Str) (l : Lexer) → unescaped d ≡ c → Reads c (b'\\' ∷ d ∷ []) rest l
unfolding collect_quoted
escaped-Reads d c rest l e =
    let next = enter (d ∷ rest) l.line l.column in (enter rest next.line next.column, rw e refl)

same-Reads : (d c : ℕ) (x rest : Str) (l : Lexer) → d ≡ c → Reads d x rest l → Reads c x rest l
same-Reads d c x rest l e h = rw (← e) h

plain-Reads :
    (c : ℕ) (rest : Str) (l : Lexer)
    → (c == b'"') ≡ false
    → (c == b'\\') ≡ false
    → Reads c (c ∷ []) rest l
unfolding collect_quoted
plain-Reads c rest l q b = (enter rest l.line l.column, rw (q, b) refl)

is_code : (c d : ℕ) → (c == d) ≡ true → d ≡ c
is_code c d h = ground arith

escape_char-Reads : (c : ℕ) (rest : Str) (l : Lexer) → Reads c (escape_char c) rest l
unfolding escape_char unescaped
escape_char-Reads c rest l =
    let escaped = λ (d v : ℕ) (u : unescaped d ≡ v) (h : (c == v) ≡ true).
      same-Reads v c (b'\\' ∷ d ∷ []) rest l (is_code c v h) (escaped-Reads d v rest l u) in
    if-Reads c (c == b'\\') _ _ rest l (λ h. escaped b'\\' b'\\' refl h)
      λ b.
        if-Reads c (c == b'"') _ _ rest l (λ h. escaped b'"' b'"' refl h)
          λ q.
            if-Reads c (c == b'\n') _ _ rest l (λ h. escaped b'n' b'\n' refl h)
              λ _.
                if-Reads c (c == b'\r') _ _ rest l (λ h. escaped b'r' b'\r' refl h)
                  λ _.
                    if-Reads c (c == b'\t') _ _ rest l (λ h. escaped b't' b'\t' refl h)
                      λ _. plain-Reads c rest l q b

-- The text and the lexer behind the closing quote.
quoted_again :
    (s rest : Str) (l : Lexer)
    → (l' : Lexer) × (collect_quoted false (escape_string s ++ b'"' ∷ rest) l ≡ (s, l'))
      × (l'.unread ≡ rest)
unfolding escape_string collect_quoted
quoted_again [] rest l = (enter rest l.line l.column, refl, enter-unread rest l.line l.column)
quoted_again (c ∷ s) rest l =
    let (l₁, e₁) = escape_char-Reads c (escape_string s ++ b'"' ∷ rest) l in
    let (l₂, e₂, e₃) = quoted_again s rest l₁ in
    (l₂, rw append_assoc (e₁ ∙ ap (λ r. (c ∷ r.0, r.1)) e₂), e₃)

-- A text of fewer than 256 characters that is spelled by `escape_string` in quotes is read back by the lexer
-- as the same text, whatever characters it has, and the lexer stands behind the closing quote.
pub lexer_collect_string-escape_string :
    (s rest : Str) (line column : ℕ)
    → length s < 256
    → (l : Lexer) × (lexer_collect_string (record {
      unread = b'"' ∷ (escape_string s ++ b'"' ∷ rest);
      line = line;
      column = column;
    })
        ≡ ok (s, l))
      × (l.unread ≡ rest)
unfolding lexer_collect_string lexer_advance advance_in in_buffer
lexer_collect_string-escape_string s rest line column h =
    let text = escape_string s ++ b'"' ∷ rest in
    let (l, e, e') = quoted_again s rest (enter text line column) in
    (l, rw (enter-unread, e, lt→ltb (length s) 256 h) refl, e')
