-- ===== src/Asm/Lexer.antt =====
-- The lexer of src/asm.h. What it has not read yet is a list of characters, none of them 0, so `pos` and
-- `length` are not kept.
pub mod Takes
pub mod Splits
use orta_vm.Prelude.{
  ℕ, zero, suc, ◌+◌, ◌-◌, ◌≤◌, Bool, true, false, not, ◌&&◌, ◌||◌, Option, none, some, List, [],
  ◌∷◌, ◌++◌, Str, length, ltb, leb, ◌==◌, if◌then◌else◌, isspace, isdigit, isalpha, isalnum,
}
use orta_vm.Result.{Result, ok, exit, undefined, ◌>>=◌}

pub data TokenType : Type 0 where
  token_identifier token_label token_local_label token_instruction token_number : TokenType
  token_string token_comma token_newline token_comment token_directive : TokenType
  token_lparen token_rparen token_eof token_error : TokenType

-- `type == TOKEN_EOF`
abbrev pub is_eof : TokenType → Bool
is_eof token_eof = true
is_eof _ = false

-- The value is `none` where the source has NULL.
pub record Token : Type 0 where
  pub type : TokenType
  pub value : Option Str
  pub line : ℕ
  pub column : ℕ

pub record Lexer : Type 0 where
  pub input : Str
  pub line : ℕ
  pub column : ℕ

unfoldable pub lexer_create : Str → Lexer
lexer_create input = record { input = input; line = 1; column = 1 }

-- The character that is next, or 0 at the end.
unfoldable pub lexer_peek : Str → ℕ
lexer_peek [] = 0
lexer_peek (c ∷ s) = c

abbrev pub line_after : ℕ → ℕ → ℕ
line_after c line = if c == b'\n' then line + 1 else line

abbrev pub column_after : ℕ → ℕ → ℕ
column_after c column = if c == b'\n' then 1 else column + 1

-- `lexer_advance` past the character `c`, with `s` behind it.
abbrev pub passed : ℕ → Str → Lexer → Lexer
passed c s l = record { input = s; line = line_after c l.line; column = column_after c l.column }

unfoldable pub lexer_advance : Lexer → Str → Lexer
lexer_advance l [] = l
lexer_advance l (c ∷ s) = passed c s l

-- `while (isspace(peek) && peek != '\n') advance`, on the text in front of the lexer.
unfoldable pub skip_whitespace : Str → Lexer → Lexer
skip_whitespace [] l = l
skip_whitespace (c ∷ s) l =
    let rest = skip_whitespace s (passed c s l) in if isspace c && not (c == b'\n') then rest else l

unfoldable pub lexer_skip_whitespace : Lexer → Lexer
unfolding skip_whitespace
lexer_skip_whitespace l = skip_whitespace l.input l

-- `while (test(peek) && i < sizeof(buffer) - 1) buffer[i++] = advance`, with `room` for the bytes of the
-- buffer that are left.
unfoldable pub read_while : (ℕ → Bool) → ℕ → Str → Lexer → Str × Lexer
read_while test room [] l = ([], l)
read_while test zero (c ∷ s) l = ([], l)
read_while test (suc room) (c ∷ s) l =
    let (text, l') = read_while test room s (passed c s l) in
    if test c then (c ∷ text, l') else ([], l)

abbrev pub is_identifier_start : ℕ → Bool
is_identifier_start c = isalpha c || c == b'_'

abbrev pub is_identifier_char : ℕ → Bool
is_identifier_char c = isalnum c || c == b'_'

abbrev pub isxdigit : ℕ → Bool
isxdigit c = isdigit c || (leb 65 c && leb c 70) || (leb 97 c && leb c 102)

-- The text in front of a `\0` or a newline.
abbrev pub in_line : ℕ → Bool
in_line c = not (c == b'\n')

abbrev pub token_create : TokenType → Str → Lexer → Token
token_create type value start = record {
  type = type;
  value = some value;
  line = start.line;
  column = start.column;
}

-- A token of characters that pass the test, in a buffer of 256.
abbrev pub read_token : TokenType → (ℕ → Bool) → Lexer → Token × Lexer
read_token type test l =
    let (text, l') = read_while test 255 l.input l in (token_create type text l, l')

unfoldable pub lexer_read_identifier : Lexer → Token × Lexer
unfolding read_while
lexer_read_identifier l = read_token token_identifier is_identifier_char l

unfoldable pub lexer_read_comment : Lexer → Token × Lexer
unfolding read_while
lexer_read_comment l = read_token token_comment in_line l

unfoldable pub lexer_read_directive : Lexer → Token × Lexer
unfolding read_while
lexer_read_directive l = read_token token_directive in_line l

-- A dot and what may stand in an identifier; `c` is the dot, `s` what stands behind it.
unfoldable pub lexer_read_local_identifier : ℕ → Str → Lexer → Token × Lexer
unfolding read_while
lexer_read_local_identifier c s l =
    let (text, l') = read_while is_identifier_char 254 s (passed c s l) in
    (token_create token_identifier (c ∷ text) l, l')

-- A number in hexadecimal, or a run of digits.
unfoldable pub hex_number : ℕ → ℕ → Str → Lexer → Token × Lexer
unfolding read_while
hex_number c d s l =
    let (text, l') = read_while isxdigit 253 s (passed d s (passed c (d ∷ s) l)) in
    (token_create token_number (c ∷ d ∷ text) l, l')

unfoldable pub read_number_in : Str → Lexer → Token × Lexer
unfolding hex_number read_while
read_number_in (c ∷ d ∷ s) l =
    if c == b'0' && (d == b'x' || d == b'X')
    then hex_number c d s l
    else read_token token_number isdigit l
read_number_in _ l = read_token token_number isdigit l

unfoldable pub lexer_read_number : Lexer → Token × Lexer
unfolding read_number_in
lexer_read_number l = read_number_in l.input l

-- The loop of `lexer_read_string` behind the first quote, and the closing quote. It runs while the index
-- is below 510, `room` more bytes; an escape takes two at once.
unfoldable pub read_quoted : ℕ → Str → Lexer → Str × Lexer
read_quoted room [] l = ([], l)
read_quoted room (c ∷ []) l =
    if c == b'"' || not (room == 0) then (c ∷ [], passed c [] l) else ([], l)
read_quoted room (c ∷ d ∷ s) l =
    let (plain, l₁) = read_quoted (room - 1) (d ∷ s) (passed c (d ∷ s) l) in
    let (escaped, l₂) = read_quoted (room - 2) s (passed d s (passed c (d ∷ s) l)) in
    if c == b'"'
    then (c ∷ [], passed c (d ∷ s) l)
    else if room == 0
    then ([], l)
    else if c == b'\\'
    then (c ∷ d ∷ escaped, l₂)
    else (c ∷ plain, l₁)

-- The terminator goes to the index behind the text, in a buffer of 512.
unfoldable pub lexer_read_string : ℕ → Str → Lexer → Result (Token × Lexer)
unfolding read_quoted
lexer_read_string c s l =
    let (text, l') = read_quoted 509 s (passed c s l) in
    if ltb (length (c ∷ text)) 512
    then ok (token_create token_string (c ∷ text) l, l')
    else undefined

-- A token of one character.
abbrev pub single : TokenType → ℕ → Str → Lexer → Result (Token × Lexer)
single type c s l = ok (token_create type (c ∷ []) l, passed c s l)

-- A colon behind an identifier makes it a label.
abbrev pub label_or : TokenType → Token → Lexer → Token × Lexer
label_or type t l =
    if lexer_peek l.input == b':'
    then (record t { type = type }, lexer_advance l l.input)
    else (t, l)

abbrev pub null_token : TokenType → Lexer → Token
null_token type l = record { type = type; value = none; line = l.line; column = l.column }

abbrev pub labelled : TokenType → Token × Lexer → Result (Token × Lexer)
labelled type (t, l) = ok (label_or type t l)

-- The token at `l`, whose text is given: `c` is next.
unfoldable pub token_at : ℕ → Str → Lexer → Result (Token × Lexer)
unfolding lexer_peek lexer_advance lexer_read_comment lexer_read_directive lexer_read_string
    lexer_read_number lexer_read_identifier lexer_read_local_identifier
token_at c s l =
    if c == b'\n'
    then single token_newline c s l
    else if c == b';'
    then ok (lexer_read_comment l)
    else if c == b'#'
    then ok (lexer_read_directive l)
    else if c == b'"'
    then lexer_read_string c s l
    else if c == b','
    then single token_comma c s l
    else if c == b'('
    then single token_lparen c s l
    else if c == b')'
    then single token_rparen c s l
    else if isdigit c
    then ok (lexer_read_number l)
    else if is_identifier_start c
    then labelled token_label (lexer_read_identifier l)
    else if c == b'.'
    then labelled token_local_label (lexer_read_local_identifier c s l)
    else ok (null_token token_error l, passed c s l)

unfoldable pub next_token_in : Str → Lexer → Result (Token × Lexer)
unfolding token_at
next_token_in [] l = ok (null_token token_eof l, l)
next_token_in (c ∷ s) l = token_at c s l

unfoldable pub lexer_next_token : Lexer → Result (Token × Lexer)
unfolding lexer_skip_whitespace next_token_in
lexer_next_token l = let l' = lexer_skip_whitespace l in next_token_in l'.input l'
