-- ===== src/Nyva/Lexer/Ends.antt =====
-- What the readers of the lexer of src/nyva.c take from the text.
use orta_vm.Prelude.{
  ℕ, ◌+◌, ◌≤◌, ◌≡◌, refl, arith, ap, Bool, true, false, ◌||◌, some, [], ◌∷◌, Str, length, ◌==◌, inl,
  inr, Bool-cases,
}
use orta_vm.Nyva.Tokens.{TokenType, keyword_in, get_keyword_token, is_eof}
use orta_vm.Nyva.Lexer.{
  Lexer, enter, advance_in, collect_while, collect, collect_quoted, punctuation,
}

pub enter-unread : (s : Str) (line column : ℕ) → (enter s line column).unread ≡ s
unfolding enter
enter-unread [] line column = refl
enter-unread (c ∷ s) line column = refl

-- A reader takes no more than what is there.
pub record Within (n : ℕ) (r : Str × Lexer) : Type 0 where
  pub text_fits : length r.0 + length (r.1).unread ≤ n

pub collect_while-Within :
    (test : ℕ → Bool) (s : Str) (l : Lexer)
    → l.unread ≡ s
    → Within (length s) (collect_while test s l)
unfolding collect_while
collect_while-Within test [] l e = record { text_fits = rw e (omega arith) }
collect_while-Within test (c ∷ s) l e =
    let rest =
      collect_while-Within test s (enter s l.line l.column) (enter-unread s l.line l.column) in
    elim (Bool-cases (test c)) [
      | inl h ↦ rw h (record { text_fits = omega (arith, rest.text_fits) })
      | inr h ↦ rw h (record { text_fits = rw e (omega arith) })
    ]

pub collect-Within :
    (first test : ℕ → Bool) (s : Str) (l : Lexer)
    → l.unread ≡ s
    → Within (length s) (collect first test s l)
unfolding collect
collect-Within first test [] l e = record { text_fits = rw e (omega arith) }
collect-Within first test (c ∷ s) l e =
    let rest =
      collect_while-Within test s (enter s l.line l.column) (enter-unread s l.line l.column) in
    elim (Bool-cases (first c)) [
      | inl h ↦ rw h (record { text_fits = omega (arith, rest.text_fits) })
      | inr h ↦ rw h (collect_while-Within test (c ∷ s) l e)
    ]

or_right : (a b : Bool) → a ≡ false → (a || b) ≡ true → b ≡ true
or_right true b e h = cc
or_right false b e h = h

-- What `collect` reads when the first character of the text passes one of its tests: one at least.
pub collect-Takes :
    (first test : ℕ → Bool) (c : ℕ) (s : Str) (l : Lexer)
    → (first c || test c) ≡ true
    → length ((collect first test (c ∷ s) l).1).unread ≤ length s
unfolding collect collect_while
collect-Takes first test c s l h =
    let rest =
      collect_while-Within test s (enter s l.line l.column) (enter-unread s l.line l.column) in
    elim (Bool-cases (first c)) [
      | inl e ↦ rw e (omega (arith, rest.text_fits))
      | inr e ↦ rw (e, or_right (first c) (test c) e h) (omega (arith, rest.text_fits))
    ]

pub collect_quoted-Within :
    (escaped : Bool) (s : Str) (l : Lexer)
    → l.unread ≡ s
    → Within (length s) (collect_quoted escaped s l)
unfolding collect_quoted
collect_quoted-Within escaped [] l e = record { text_fits = rw e (omega arith) }
collect_quoted-Within true (c ∷ s) l e =
    let next = enter s l.line l.column in
    let rest = collect_quoted-Within false s next (enter-unread s l.line l.column) in
    record { text_fits = omega (arith, rest.text_fits) }
collect_quoted-Within false (c ∷ s) l e =
    let next = enter s l.line l.column in
    let plain = collect_quoted-Within false s next (enter-unread s l.line l.column) in
    let escape = collect_quoted-Within true s next (enter-unread s l.line l.column) in
    elim (Bool-cases (c == b'"')) [
      | inl h ↦ rw h (record { text_fits = rw enter-unread (omega arith) })
      | inr h ↦ elim (Bool-cases (c == b'\\')) [
        | inl k ↦ rw (h, k) (record { text_fits = omega (arith, escape.text_fits) })
        | inr k ↦ rw (h, k) (record { text_fits = omega (arith, plain.text_fits) })
      ]
    ]

pub advance_in-length :
    (s : Str) (l : Lexer) → l.unread ≡ s → length (advance_in s l).unread ≤ length s
unfolding advance_in
advance_in-length [] l e = omega (arith, ap length e)
advance_in-length (c ∷ s) l e = omega (arith, ap length (enter-unread s l.line l.column))

-- No character of the switch, and no keyword, makes a token of the end.
pub punctuation_not_eof :
    (c : ℕ) (type : TokenType) → punctuation c ≡ some type → is_eof type ≡ false
unfolding punctuation
punctuation_not_eof c type h = ground arith

pub keyword_not_eof : (s : Str) → is_eof (get_keyword_token s) ≡ false
unfolding get_keyword_token keyword_in
keyword_not_eof s = ground arith
