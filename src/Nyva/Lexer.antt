-- ===== src/Nyva/Lexer.antt =====
-- The lexer of src/nyva.c. `unread` is the current character and what stands behind it, none of them 0,
-- and is empty where `current_char` is 0, so `pos` and `input_len` are not kept.
pub mod Ends
pub mod Fetches
use orta_vm.Prelude.{
  ℕ, zero, suc, ◌+◌, Bool, true, false, not, ◌&&◌, ◌||◌, Option, none, some, List, [], ◌∷◌, Str,
  codes, length, ltb, leb, ◌==◌, if◌then◌else◌, isspace, isdigit, isalpha, isalnum,
}
use orta_vm.Result.{Result, ok, exit, undefined, ◌>>=◌}
use orta_vm.Nyva.Tokens.{
  TokenType, Token, is_eof, get_keyword_token, token_eof, token_identifier, token_number,
  token_string, token_equal, token_plus, token_minus, token_multiply, token_divide, token_gt,
  token_lt, token_eq, token_neq, token_lparen, token_rparen, token_lbrace, token_rbrace,
  token_comma, token_semicolon, token_colon, token_at, token_and, token_backslash, token_modulus,
}

pub record Lexer : Type 0 where
  pub unread : Str
  pub line : ℕ
  pub column : ℕ

-- The lexer with this text in front, when the first character of it is taken as the current one.
unfoldable pub enter : Str → ℕ → ℕ → Lexer
enter [] line column = record { unread = []; line = line; column = column }
enter (c ∷ s) line column = record {
  unread = c ∷ s;
  line = if c == b'\n' then line + 1 else line;
  column = if c == b'\n' then 0 else column + 1;
}

-- `lexer_advance` when this stands behind the current character.
unfoldable pub advance_in : Str → Lexer → Lexer
unfolding enter
advance_in [] l = l
advance_in (c ∷ s) l = enter s l.line l.column

unfoldable pub lexer_advance : Lexer → Lexer
unfolding advance_in
lexer_advance l = advance_in l.unread l

unfoldable pub current_in : Str → ℕ
current_in [] = 0
current_in (c ∷ s) = c

unfoldable pub current_char : Lexer → ℕ
unfolding current_in
current_char l = current_in l.unread

-- `while (current_char != '\0' && test(current_char)) { text += current_char; lexer_advance(); }`
unfoldable pub collect_while : (ℕ → Bool) → Str → Lexer → Str × Lexer
unfolding enter
collect_while test [] l = ([], l)
collect_while test (c ∷ s) l =
    let (text, l') = collect_while test s (enter s l.line l.column) in
    if test c then (c ∷ text, l') else ([], l)

unfoldable pub lexer_skip_whitespace : Lexer → Lexer
unfolding collect_while
lexer_skip_whitespace l = (collect_while isspace l.unread l).1

-- The text and its terminator go to a buffer of 256 bytes, which the source does not check.
unfoldable pub in_buffer : Str × Lexer → Result (Str × Lexer)
in_buffer (text, l) = if ltb (length text) 256 then ok (text, l) else undefined

-- A first character that may stand in front, and the run behind it.
unfoldable pub collect : (ℕ → Bool) → (ℕ → Bool) → Str → Lexer → Str × Lexer
unfolding enter collect_while
collect first test [] l = ([], l)
collect first test (c ∷ s) l =
    let (text, l') = collect_while test s (enter s l.line l.column) in
    if first c then (c ∷ text, l') else collect_while test (c ∷ s) l

abbrev pub is_name_char : ℕ → Bool
is_name_char c = isalnum c || c == b'_'

unfoldable pub lexer_collect_identifier : Lexer → Result (Str × Lexer)
unfolding in_buffer collect
lexer_collect_identifier l = in_buffer (collect (λ c. c == b'@') is_name_char l.unread l)

unfoldable pub lexer_collect_number : Lexer → Result (Str × Lexer)
unfolding in_buffer collect
lexer_collect_number l = in_buffer (collect (λ c. c == b'-') isdigit l.unread l)

-- The character that an escape stands for.
unfoldable pub unescaped : ℕ → ℕ
unescaped c =
    if c == b'n' then b'\n' else if c == b't' then b'\t' else if c == b'r' then b'\r' else c

-- The loop of `lexer_collect_string`, and the quote that ends it.
unfoldable pub collect_quoted : Bool → Str → Lexer → Str × Lexer
unfolding enter unescaped
collect_quoted escaped [] l = ([], l)
collect_quoted true (c ∷ s) l =
    let (text, l') = collect_quoted false s (enter s l.line l.column) in (unescaped c ∷ text, l')
collect_quoted false (c ∷ s) l =
    let next = enter s l.line l.column in
    let escape = collect_quoted true s next in
    let (text, l') = collect_quoted false s next in
    if c == b'"' then ([], next) else if c == b'\\' then escape else (c ∷ text, l')

unfoldable pub lexer_collect_string : Lexer → Result (Str × Lexer)
unfolding in_buffer collect_quoted lexer_advance
lexer_collect_string l = let l' = lexer_advance l in in_buffer (collect_quoted false l'.unread l')

-- The cases of the switch that take one character.
unfoldable pub punctuation : ℕ → Option TokenType
punctuation c =
    if c == b'+'
    then some token_plus
    else if c == b'-'
    then some token_minus
    else if c == b'*'
    then some token_multiply
    else if c == b'/'
    then some token_divide
    else if c == b'>'
    then some token_gt
    else if c == b'<'
    then some token_lt
    else if c == b'('
    then some token_lparen
    else if c == b')'
    then some token_rparen
    else if c == b'{'
    then some token_lbrace
    else if c == b'}'
    then some token_rbrace
    else if c == b','
    then some token_comma
    else if c == b';'
    then some token_semicolon
    else if c == b':'
    then some token_colon
    else if c == b'@'
    then some token_at
    else if c == b'&'
    then some token_and
    else if c == b'\\'
    then some token_backslash
    else if c == b'%'
    then some token_modulus
    else none

-- The place of a token is where the lexer stood before the white space in front of it.
abbrev pub token_from : TokenType → Option Str → Lexer → Token
token_from type value start = record {
  type = type;
  value = value;
  line = start.line;
  column = start.column;
}

-- The token of a collected text.
unfoldable pub collected : (Str → TokenType) → Lexer → Result (Str × Lexer) → Result (Token × Lexer)
collected type start r = r >>= λ (text, l). ok (token_from (type text) (some text) start, l)

-- The switch, on the character that is next and the lexer behind it; `start` is where the call began.
unfoldable pub switch_token : Lexer → ℕ → Lexer → Result (Token × Lexer)
unfolding current_char lexer_advance punctuation
switch_token start c l =
    if c == b'='
    then if current_char l == b'='
      then ok (token_from token_eq (some (codes "==")) start, lexer_advance l)
      else ok (token_from token_equal (some (codes "=")) start, l)
    else if c == b'!'
    then if current_char l == b'='
      then ok (token_from token_neq (some (codes "!=")) start, lexer_advance l)
      else exit 1
    else elim (punctuation c) [
      | none ↦ exit 1
      | some type ↦ ok (token_from type (some (c ∷ [])) start, l)
    ]

-- A minus in front of a digit begins a number.
unfoldable pub begins_negative : ℕ → Str → Bool
unfolding current_in
begins_negative c s = c == b'-' && isdigit (current_in s)

-- The token that begins at `l`, whose text is given.
unfoldable pub token_in : Lexer → Str → Lexer → Result (Token × Lexer)
unfolding begins_negative collected lexer_collect_identifier lexer_collect_number
    lexer_collect_string get_keyword_token switch_token enter
token_in start [] l = ok (token_from token_eof none start, l)
token_in start (c ∷ s) l =
    if begins_negative c s
    then collected (λ _. token_number) start (lexer_collect_number l)
    else if c == b'@'
    then collected (λ _. token_identifier) start (lexer_collect_identifier l)
    else if isalpha c || c == b'_'
    then collected get_keyword_token start (lexer_collect_identifier l)
    else if isdigit c
    then collected (λ _. token_number) start (lexer_collect_number l)
    else if c == b'"'
    then collected (λ _. token_string) start (lexer_collect_string l)
    else switch_token start c (enter s l.line l.column)

unfoldable pub lexer_get_next_token : Lexer → Result (Token × Lexer)
unfolding lexer_skip_whitespace token_in
lexer_get_next_token start = let l = lexer_skip_whitespace start in token_in start l.unread l

-- The loop of `tokenize`, with `room` for the tokens that the array of 1024 still takes.
unfoldable pub tokenize_from : ℕ → Lexer → Result (List Token)
unfolding lexer_get_next_token
tokenize_from zero l = lexer_get_next_token l >>= λ _. undefined
tokenize_from (suc room) l = lexer_get_next_token l >>= λ (t, l'). elim (is_eof t.type) [
  | true ↦ ok (t ∷ [])
  | false ↦ tokenize_from room l' >>= λ ts. ok (t ∷ ts)
]

unfoldable pub tokenize : Str → Result (List Token)
unfolding tokenize_from enter
tokenize input = tokenize_from 1024 (enter input 1 0)
