-- ===== src/Builder.antt =====
-- The string builder of src/libs/sb.h: the characters in use and the capacity of the buffer. `realloc` does not
-- fail, and a doubled capacity does not overflow.
pub mod Laws
use orta_vm.Prelude.{
  ℕ, zero, suc, ◌+◌, ◌-◌, ◌*◌, ◌%◌, ◌^◌, Bool, true, false, Option, none, some, List, [], ◌∷◌, ◌++◌,
  Str, length, take, ltb, ◌==◌, if◌then◌else◌,
}
use orta_vm.Result.{Result, ok, exit, undefined, ◌>>=◌}

-- `data` is the first `size` characters.
pub record StringBuilder : Type 0 where
  pub data_bytes : Str
  pub capacity_bytes : ℕ

-- With a capacity below 1 the builder is empty and has no buffer.
unfoldable pub sb_init : ℕ → StringBuilder
sb_init capacity = record { data_bytes = []; capacity_bytes = capacity }

unfoldable pub sb_resize : StringBuilder → ℕ → StringBuilder
sb_resize sb new_capacity = record sb { capacity_bytes = new_capacity }

-- The capacity that a full builder is given.
unfoldable pub grown : ℕ → ℕ
grown zero = 1
grown (suc n) = suc n * 2

-- A write behind the buffer is undefined; it is grown first.
unfoldable pub sb_append : StringBuilder → ℕ → Result StringBuilder
unfolding sb_resize grown
sb_append sb ch =
    let sb' =
      if ltb sb.capacity_bytes (length sb.data_bytes + 1)
      then sb_resize sb (grown sb.capacity_bytes)
      else sb in
    if ltb (length sb'.data_bytes) sb'.capacity_bytes
    then ok (record sb' { data_bytes = sb'.data_bytes ++ (ch ∷ []) })
    else undefined

-- The last character, and the others.
unfoldable pub last_of : ℕ → Str → Str × ℕ
last_of c [] = ([], c)
last_of c (d ∷ s) = let (front, last) = last_of d s in (c ∷ front, last)

-- The assertion ends the process with the status of `abort`.
abbrev pub aborted : ℕ
aborted = 134

unfoldable pub pop_of : Str → StringBuilder → Result (ℕ × StringBuilder)
unfolding last_of
pop_of [] sb = exit aborted
pop_of (c ∷ s) sb = let (front, last) = last_of c s in ok (last, record sb { data_bytes = front })

unfoldable pub sb_pop : StringBuilder → Result (ℕ × StringBuilder)
unfolding pop_of
sb_pop sb = pop_of sb.data_bytes sb

unfoldable pub append_all : Str → StringBuilder → Result StringBuilder
unfolding sb_append
append_all [] sb = ok sb
append_all (c ∷ s) sb = do sb' ← sb_append sb c; append_all s sb'

-- The number of characters appended, cut to an `int`; a NULL text appends none.
unfoldable pub sb_append_str : StringBuilder → Option Str → Result (ℕ × StringBuilder)
unfolding append_all
sb_append_str sb none = ok (0, sb)
sb_append_str sb (some s) = do
  sb' ← append_all s sb
  ok ((length sb'.data_bytes - length sb.data_bytes) % 2 ^ 32, sb')

unfoldable pub pop_times : ℕ → StringBuilder → Result StringBuilder
unfolding sb_pop
pop_times zero sb = ok sb
pop_times (suc n) sb = do r ← sb_pop sb; pop_times n r.1

-- The number of characters removed, cut to an `int`.
unfoldable pub sb_remove : StringBuilder → ℕ → Result (ℕ × StringBuilder)
unfolding pop_times
sb_remove sb chars = do
  let count = if ltb (length sb.data_bytes) chars then length sb.data_bytes else chars
  sb' ← pop_times count sb
  ok (count % 2 ^ 32, sb')

unfoldable pub sb_to_cstr : StringBuilder → Str
sb_to_cstr sb = sb.data_bytes

unfoldable pub sb_slice : StringBuilder → ℕ → StringBuilder
unfolding sb_init
sb_slice sb chars =
    let count = if ltb (length sb.data_bytes) chars then length sb.data_bytes else chars in
    record (sb_init count) { data_bytes = take count sb.data_bytes }

unfoldable pub sb_reset : StringBuilder → StringBuilder
sb_reset sb = record sb { data_bytes = [] }

unfoldable pub sb_destroy : StringBuilder → StringBuilder
sb_destroy sb = record { data_bytes = []; capacity_bytes = 0 }
