-- ===== src/Asm/Lexer/Takes.antt =====
-- What the readers of single tokens take from the text.
use orta_vm.Prelude.{
  ℕ, zero, suc, ◌-◌, ◌<◌, ◌≡◌, refl, sym, ap, arith, Bool, true, false, ◌&&◌, ◌||◌, Option, none,
  some, [], ◌∷◌, ◌++◌, Str, length, ltb, ◌==◌, if◌then◌else◌, isdigit,
}
use orta_vm.Result.{undefined}
use orta_vm.Result.Ensures.{Ensures, if-Ensures}
use orta_vm.Asm.Lexer.{
  Token, TokenType, Lexer, token_identifier, token_label, token_local_label, token_number,
  token_comma, token_newline, token_comment, token_directive, token_lparen, token_rparen, token_eof,
  token_error, passed, read_while, is_identifier_char, isxdigit, token_create, read_token,
  lexer_read_local_identifier, hex_number, read_number_in, lexer_read_number, read_quoted,
  lexer_read_string, is_eof,
}

-- How a token with this value stands in the text.
abbrev pub Spells : TokenType → Option Str → Str → Type 0
Spells token_eof v text = text ≡ []
Spells token_error v text = (v ≡ none) × (length text ≡ 1)
Spells token_label v text = (s : Str) × (v ≡ some s) × (text ≡ s ++ (b':' ∷ []))
Spells token_local_label v text = (s : Str) × (v ≡ some s) × (text ≡ s ++ (b':' ∷ []))
Spells _ v text = v ≡ some text

-- A token read from the front of `input`: it is not the last one, and takes some of it.
pub record Takes (input : Str) (r : Token × Lexer) : Type 0 where
  pub text : Str
  pub whole : input ≡ text ++ (r.1).input
  pub spelled : Spells (r.0).type (r.0).value text
  pub inner : is_eof (r.0).type ≡ false
  pub some_text : 0 < length text

pub read_while-append :
    (test : ℕ → Bool) (room : ℕ) (s : Str) (l : Lexer)
    → l.input ≡ s
    → s ≡ (read_while test room s l).0 ++ ((read_while test room s l).1).input
unfolding read_while
read_while-append test room [] l e = sym e
read_while-append test zero (c ∷ s) l e = sym e
read_while-append test (suc room) (c ∷ s) l e =
    ground (arith, read_while-append test room s (passed c s l) refl)

pub read_while-some :
    (test : ℕ → Bool) (room c : ℕ) (s : Str) (l : Lexer)
    → test c ≡ true
    → 0 < length (read_while test (suc room) (c ∷ s) l).0
unfolding read_while
read_while-some test room c s l h = rw h (omega arith)

-- A type of token whose value is its text.
pub record IsPlain (type : TokenType) : Type 0 where
  pub spells : (text : Str) → Spells type (some text) text
  pub inner : is_eof type ≡ false

abbrev pub plain_identifier : IsPlain token_identifier
plain_identifier = record { spells = λ text. refl; inner = refl }

abbrev plain_number : IsPlain token_number
plain_number = record { spells = λ text. refl; inner = refl }

abbrev pub plain_comment : IsPlain token_comment
plain_comment = record { spells = λ text. refl; inner = refl }

abbrev pub plain_newline : IsPlain token_newline
plain_newline = record { spells = λ text. refl; inner = refl }

abbrev pub plain_comma : IsPlain token_comma
plain_comma = record { spells = λ text. refl; inner = refl }

abbrev pub plain_lparen : IsPlain token_lparen
plain_lparen = record { spells = λ text. refl; inner = refl }

abbrev pub plain_rparen : IsPlain token_rparen
plain_rparen = record { spells = λ text. refl; inner = refl }

abbrev pub plain_directive : IsPlain token_directive
plain_directive = record { spells = λ text. refl; inner = refl }

-- The lexer in front of `s`.
abbrev pub standing : Str → Lexer → Lexer
standing s l = record l { input = s }

pub read_token-Takes :
    (type : TokenType) (test : ℕ → Bool) (c : ℕ) (s : Str) (l : Lexer)
    → IsPlain type
    → test c ≡ true
    → Takes (c ∷ s) (read_token type test (standing (c ∷ s) l))
read_token-Takes type test c s l p h = record {
  text = (read_while test 255 (c ∷ s) (standing (c ∷ s) l)).0;
  whole = read_while-append test 255 (c ∷ s) (standing (c ∷ s) l) refl;
  spelled = p.spells _;
  inner = p.inner;
  some_text = read_while-some test 254 c s (standing (c ∷ s) l) h;
}

hex_number-Takes : (c d : ℕ) (s : Str) (l : Lexer) → Takes (c ∷ d ∷ s) (hex_number c d s l)
unfolding hex_number
hex_number-Takes c d s l = record {
  text = c ∷ d ∷ (read_while isxdigit 253 s (passed d s (passed c (d ∷ s) l))).0;
  whole =
      ap (λ t. c ∷ d ∷ t) (read_while-append isxdigit 253 s (passed d s (passed c (d ∷ s) l)) refl);
  spelled = refl;
  inner = refl;
  some_text = omega arith;
}

pub lexer_read_local_identifier-Takes :
    (c : ℕ) (s : Str) (l : Lexer) → Takes (c ∷ s) (lexer_read_local_identifier c s l)
unfolding lexer_read_local_identifier
lexer_read_local_identifier-Takes c s l = record {
  text = c ∷ (read_while is_identifier_char 254 s (passed c s l)).0;
  whole = ap (λ t. c ∷ t) (read_while-append is_identifier_char 254 s (passed c s l) refl);
  spelled = refl;
  inner = refl;
  some_text = omega arith;
}

pub if-Takes :
    (b : Bool) (input : Str) (x y : Token × Lexer)
    → (b ≡ true → Takes input x)
    → (b ≡ false → Takes input y)
    → Takes input (if b then x else y)
if-Takes true input x y h k = h refl
if-Takes false input x y h k = k refl

pub lexer_read_number-Takes :
    (c : ℕ) (s : Str) (l : Lexer)
    → isdigit c ≡ true
    → Takes (c ∷ s) (lexer_read_number (standing (c ∷ s) l))
unfolding lexer_read_number read_number_in
lexer_read_number-Takes c [] l h = read_token-Takes token_number isdigit c [] l plain_number h
lexer_read_number-Takes c (d ∷ s) l h =
    if-Takes (c == b'0' && (d == b'x' || d == b'X')) (c ∷ d ∷ s) _ _
      (λ x. hex_number-Takes c d s (standing (c ∷ d ∷ s) l))
      (λ x. read_token-Takes token_number isdigit c (d ∷ s) l plain_number h)

read_quoted-append :
    (room : ℕ) (s : Str) (l : Lexer)
    → l.input ≡ s
    → s ≡ (read_quoted room s l).0 ++ ((read_quoted room s l).1).input
unfolding read_quoted
read_quoted-append room [] l e = sym e
read_quoted-append room (c ∷ []) l e = ground arith
read_quoted-append room (c ∷ d ∷ s) l e = ground (
  arith,
  read_quoted-append (room - 1) (d ∷ s) (passed c (d ∷ s) l) refl,
  read_quoted-append (room - 2) s (passed d s (passed c (d ∷ s) l)) refl,
)

pub lexer_read_string-Ensures :
    (c : ℕ) (s : Str) (l : Lexer) → Ensures (Takes (c ∷ s)) (lexer_read_string c s l)
unfolding lexer_read_string Ensures
lexer_read_string-Ensures c s l =
    if-Ensures (Takes (c ∷ s)) (ltb (length (c ∷ (read_quoted 509 s (passed c s l)).0)) 512) _
      undefined
      (record {
        text = c ∷ (read_quoted 509 s (passed c s l)).0;
        whole = ap (λ t. c ∷ t) (read_quoted-append 509 s (passed c s l) refl);
        spelled = refl;
        inner = refl;
        some_text = omega arith;
      })
      tt

pub single-Takes :
    (type : TokenType) (c : ℕ) (s : Str) (l : Lexer)
    → IsPlain type
    → Takes (c ∷ s) (token_create type (c ∷ []) l, passed c s l)
single-Takes type c s l p = record {
  text = c ∷ [];
  whole = refl;
  spelled = p.spells (c ∷ []);
  inner = p.inner;
  some_text = omega arith;
}
