-- ===== src/Nyva/Tokens.antt =====
-- The tokens of src/nyva.c, and its keywords.
use orta_vm.Prelude.{ℕ, Bool, Option, List, [], ◌∷◌, Str, codes, str_eq, ◌==◌, if◌then◌else◌}

pub data TokenType : Type 0 where
  token_eof token_identifier token_number token_string : TokenType
  token_var token_if token_else token_equal : TokenType
  token_plus token_minus token_multiply token_divide : TokenType
  token_gt token_lt token_eq token_neq : TokenType
  token_lparen token_rparen token_lbrace token_rbrace : TokenType
  token_comma token_semicolon token_colon token_and token_backslash : TokenType
  token_fn token_return token_for token_while : TokenType
  token_at token_import token_break token_modulus : TokenType

-- The value of the C enumeration.
abbrev pub token_type_number : TokenType → ℕ
token_type_number token_eof = 0
token_type_number token_identifier = 1
token_type_number token_number = 2
token_type_number token_string = 3
token_type_number token_var = 4
token_type_number token_if = 5
token_type_number token_else = 6
token_type_number token_equal = 7
token_type_number token_plus = 8
token_type_number token_minus = 9
token_type_number token_multiply = 10
token_type_number token_divide = 11
token_type_number token_gt = 12
token_type_number token_lt = 13
token_type_number token_eq = 14
token_type_number token_neq = 15
token_type_number token_lparen = 16
token_type_number token_rparen = 17
token_type_number token_lbrace = 18
token_type_number token_rbrace = 19
token_type_number token_comma = 20
token_type_number token_semicolon = 21
token_type_number token_colon = 22
token_type_number token_and = 23
token_type_number token_backslash = 24
token_type_number token_fn = 25
token_type_number token_return = 26
token_type_number token_for = 27
token_type_number token_while = 28
token_type_number token_at = 29
token_type_number token_import = 30
token_type_number token_break = 31
token_type_number token_modulus = 32

abbrev pub equal_types : TokenType → TokenType → Bool
equal_types a b = token_type_number a == token_type_number b

-- `type == TOKEN_EOF`
abbrev pub is_eof : TokenType → Bool
is_eof type = equal_types type token_eof

-- The value is `none` where the source has NULL.
pub record Token : Type 0 where
  pub type : TokenType
  pub value : Option Str
  pub line : ℕ
  pub column : ℕ

pub record Keyword : Type 0 where
  pub name : Str
  pub token : TokenType

abbrev keyword : Str → TokenType → Keyword
keyword name token = record { name = name; token = token }

abbrev pub keywords : List Keyword
keywords =
    keyword (codes "var") token_var
    ∷ keyword (codes "const") token_var
    ∷ keyword (codes "if") token_if
    ∷ keyword (codes "else") token_else
    ∷ keyword (codes "fn") token_fn
    ∷ keyword (codes "return") token_return
    ∷ keyword (codes "for") token_for
    ∷ keyword (codes "import") token_import
    ∷ keyword (codes "break") token_break
    ∷ keyword (codes "while") token_while
    ∷ []

unfoldable pub keyword_in : List Keyword → Str → TokenType
keyword_in [] identifier = token_identifier
keyword_in (k ∷ ks) identifier =
    if str_eq identifier k.name then k.token else keyword_in ks identifier

unfoldable pub get_keyword_token : Str → TokenType
unfolding keyword_in
get_keyword_token identifier = keyword_in keywords identifier
