-- ===== src/Word.antt =====
-- `Word` of src/orta.h: a tag and a union of eight bytes, here the number that these bytes hold.
-- A store through a member of less than eight bytes is taken to clear the others.
use orta_vm.Prelude.{
  ℕ, ◌+◌, ◌-◌, ◌%◌, ◌^◌, Bool, true, false, ◌&&◌, ltb, ◌==◌, if◌then◌else◌, Str, codes, str_eq,
}

-- `unknown` is `(WordType)-1`, which `get_type` answers to a name that is none.
pub data WordType : Type 0 where
  wint wfloat wcharp w_char wpointer wbool unknown : WordType

pub record Word : Type 0 where
  pub type : WordType
  pub bits : ℕ

unfoldable pub type_number : WordType → ℕ
type_number wint = 0
type_number wfloat = 1
type_number wcharp = 2
type_number w_char = 3
type_number wpointer = 4
type_number wbool = 5
type_number unknown = 2 ^ 32 - 1

unfoldable pub type_eq : WordType → WordType → Bool
unfolding type_number
type_eq a b = type_number a == type_number b

abbrev pub two_32 : ℕ
two_32 = 2 ^ 32

abbrev pub as_int : Word → ℕ
as_int w = w.bits % two_32

abbrev pub as_float : Word → ℕ
as_float w = w.bits % two_32

abbrev pub as_char : Word → ℕ
as_char w = w.bits % 256

abbrev pub int_word : ℕ → Word
int_word n = record { type = wint; bits = n % two_32 }

abbrev pub float_word : ℕ → Word
float_word n = record { type = wfloat; bits = n % two_32 }

abbrev pub char_word : ℕ → Word
char_word n = record { type = w_char; bits = n % 256 }

abbrev pub string_word : ℕ → Word
string_word p = record { type = wcharp; bits = p }

abbrev pub pointer_word : ℕ → Word
pointer_word p = record { type = wpointer; bits = p }

abbrev pub null_word : Word
null_word = pointer_word 0

abbrev pub is_type : WordType → Word → Bool
is_type t w = type_eq w.type t

-- `w.type == WPOINTER && w.as_pointer == NULL`
abbrev pub is_null : Word → Bool
is_null w = is_type wpointer w && w.bits == 0

-- An `int` where C converts it to `size_t`: sign extension to 64 bits.
abbrev pub int_to_size : ℕ → ℕ
int_to_size n = if ltb n (2 ^ 31) then n else n + (2 ^ 64 - 2 ^ 32)

unfoldable pub get_type : Str → WordType
get_type s =
    if str_eq s (codes "int")
    then wint
    else if str_eq s (codes "float")
    then wfloat
    else if str_eq s (codes "charp")
    then wcharp
    else if str_eq s (codes "char")
    then w_char
    else if str_eq s (codes "bool")
    then wbool
    else if str_eq s (codes "pointer")
    then wpointer
    else unknown

unfoldable pub is_type_name : Str → Bool
unfolding get_type type_eq
is_type_name s = if type_eq (get_type s) unknown then false else true

-- `sizeof` of the member of each type, as IALLOC takes it and as ISIZEOF does.
unfoldable pub alloc_size : WordType → ℕ
alloc_size wint = 4
alloc_size wfloat = 4
alloc_size wcharp = 8
alloc_size w_char = 1
alloc_size wpointer = 8
alloc_size _ = 1

unfoldable pub type_size : WordType → ℕ
type_size wint = 4
type_size wfloat = 4
type_size wcharp = 8
type_size w_char = 1
type_size wpointer = 8
type_size _ = 0
