-- ===== src/Asm/Preprocess.antt =====
-- `preprocess_file` of src/asm.h: the tokens of a file, written out again with its definitions replaced, its
-- local labels made global and the files it includes in their places.
pub mod Strings
pub mod Rounds
pub mod Buffers
use orta_vm.Prelude.{
  ℕ, zero, suc, ◌+◌, ◌-◌, ◌&&◌, ◌||◌, not, Bool, true, false, Option, none, some, List, [], ◌∷◌,
  ◌++◌, Str, codes, length, take, drop, ltb, ◌==◌, isspace, if◌then◌else◌,
}
use orta_vm.Result.{Result, ok, exit, undefined}
use orta_vm.Result.Fueled.{Fueled, ◌>>=◌}
use orta_vm.Number.{skip_space}
use orta_vm.Asm.Lexer.{
  Token, TokenType, token_identifier, token_label, token_local_label, token_newline, token_comment,
  token_directive,
}
use orta_vm.Asm.Tokens.{TokenStream, tokenize}
use orta_vm.Asm.Defines.{
  Preprocessor, starts_with, preprocessor_add_define, preprocessor_expand_defines,
}
use orta_vm.Asm.Locals.{
  preprocessor_get_local_label_global_name, preprocessor_update_global_context,
}

-- A run of at most `n` characters that pass the test, as `%ns` and `%n[...]` of `sscanf` read it.
unfoldable pub scan_run : (ℕ → Bool) → ℕ → Str → Str × Str
scan_run test zero s = ([], s)
scan_run test (suc n) [] = ([], [])
scan_run test (suc n) (c ∷ s) =
    let (run, rest) = scan_run test n s in if test c then (c ∷ run, rest) else ([], c ∷ s)

abbrev pub not_space : ℕ → Bool
not_space c = not (isspace c)

abbrev pub is_nil : Str → Bool
is_nil [] = true
is_nil (c ∷ s) = false

-- `sscanf(s, " %63s %255[^\n]", name, value)`, and `sscanf(s, " %63s", name)` where that reads no value: the
-- name, and the value or `1`.
unfoldable pub scan_define : Str → Option (Str × Str)
unfolding scan_run skip_space
scan_define s =
    let (name, rest) = scan_run not_space 63 (skip_space s) in
    let (value, end) = scan_run (λ c. not (c == b'\n')) 255 (skip_space rest) in
    if is_nil name then none else some (name, if is_nil value then codes "1" else value)

-- `sscanf(s, " \"%255[^\"]\"", file)`, for an opening and a closing character.
unfoldable pub scan_between : ℕ → ℕ → Str → Option Str
scan_between opening closing [] = none
scan_between opening closing (c ∷ s) =
    let (file, end) = scan_run (λ d. not (d == closing)) 255 s in
    if c == opening && not (is_nil file) then some file else none

unfoldable pub scan_include : Str → Option Str
unfolding scan_between skip_space
scan_include s = elim (scan_between b'"' b'"' (skip_space s)) [
  | some file ↦ some file
  | none ↦ scan_between b'<' b'>' (skip_space s)
]

-- The loop's variables. The result is a buffer of 8192 bytes, and `pos` its length.
pub record Output : Type 0 where
  pub pp : Preprocessor
  pub result : Str
  pub on_new_line : Bool

-- `if (pos < max_len) result[pos++] = c`
abbrev pub put_char : ℕ → Str → Str
put_char c result = if ltb (length result) 8191 then result ++ (c ∷ []) else result

-- `if (pos + strlen(text) < max_len) strcpy(result + pos, text)`
abbrev pub put_text : Str → Str → Str
put_text text result = if ltb (length result + length text) 8191 then result ++ text else result

abbrev pub put_blank : Bool → Str → Str
put_blank on_new_line result = if on_new_line then result else put_char b' ' result

abbrev pub fueled : {A : Type 0} → Option A → Fueled A
fueled none = none
fueled (some a) = some (ok a)

-- A file that is included, or its name if it could not be read.
abbrev pub Include : Type 0
Include = Preprocessor → Str → Fueled (Option Str × Preprocessor)

-- What an included file adds.
abbrev pub included : Output → Option Str × Preprocessor → Fueled Output
included out (none, pp) = some (ok (record out { pp = pp; on_new_line = true }))
included out (some text, pp) =
    some (ok (record out { pp = pp; result = put_text text out.result; on_new_line = true }))

unfoldable pub directive : Include → Output → Str → Fueled Output
unfolding starts_with scan_define scan_include preprocessor_add_define
directive include out value =
    if starts_with (codes "#define") value
    then (elim (scan_define (drop 7 value)) [
      | none ↦ some (ok (record out { on_new_line = true }))
      | some (name, text) ↦
          some
            (ok (record out { pp = preprocessor_add_define out.pp name text; on_new_line = true }))
    ])
    else if starts_with (codes "#include") value
    then (elim (scan_include (drop 8 value)) [
      | none ↦ some (ok (record out { on_new_line = true }))
      | some file ↦ include out.pp file >>= included out
    ])
    else some (ok (record out { on_new_line = true }))

-- A label, its definitions replaced. It ends the scope of the local labels first.
unfoldable pub global_label : Output → Str → Fueled Output
unfolding preprocessor_expand_defines preprocessor_update_global_context
global_label out value =
    let pp = preprocessor_update_global_context out.pp value in
    fueled (preprocessor_expand_defines pp value) >>= λ expanded. some (
      ok (record {
        pp = pp;
        result = put_char b':' (put_text expanded (put_blank out.on_new_line out.result));
        on_new_line = false;
      }))

-- A local label or a use of one, and what stands behind its global name.
unfoldable pub local_label : (Str → Str) → Output → Str → Fueled Output
unfolding preprocessor_get_local_label_global_name
local_label behind out value =
    let (global_name, pp) = preprocessor_get_local_label_global_name out.pp value in
    some (
      ok (record {
        pp = pp;
        result = behind (put_text global_name (put_blank out.on_new_line out.result));
        on_new_line = false;
      }))

-- Any other token with a value.
unfoldable pub plain_token : Output → Str → Fueled Output
unfolding preprocessor_expand_defines
plain_token out value = fueled (preprocessor_expand_defines out.pp value) >>= λ expanded. some (
    ok (record out {
      result = put_text expanded (put_blank out.on_new_line out.result);
      on_new_line = false;
    }))

abbrev pub starts_dot : Str → Bool
starts_dot [] = false
starts_dot (c ∷ s) = c == b'.'

-- One round of the loop. A missing value is read through a null pointer by the branches that do not ask.
unfoldable pub preprocess_token : Include → Output → TokenType → Option Str → Fueled Output
unfolding directive global_label local_label plain_token
preprocess_token include out token_directive (some value) = directive include out value
preprocess_token include out token_directive none = some undefined
preprocess_token include out token_comment v = some (ok out)
preprocess_token include out token_newline v =
    some (ok (record out { result = put_char b'\n' out.result; on_new_line = true }))
preprocess_token include out token_label (some value) = global_label out value
preprocess_token include out token_label none = some undefined
preprocess_token include out token_local_label (some value) = local_label (put_char b':') out value
preprocess_token include out token_local_label none = some undefined
preprocess_token include out token_identifier (some value) =
    if starts_dot value then local_label (λ result. result) out value else plain_token out value
preprocess_token include out _ (some value) = plain_token out value
preprocess_token include out _ none = some (ok (record out { on_new_line = false }))

unfoldable pub preprocess_tokens : Include → TokenStream → Output → Fueled Output
unfolding preprocess_token
preprocess_tokens include [] out = some (ok out)
preprocess_tokens include (t ∷ ts) out =
    preprocess_token include out t.type t.value >>= preprocess_tokens include ts

abbrev pub deeper : Preprocessor → Preprocessor
deeper pp = record pp { preprocessing_depth = pp.preprocessing_depth + 1 }

abbrev pub shallower : Preprocessor → Preprocessor
shallower pp = record pp { preprocessing_depth = pp.preprocessing_depth - 1 }

-- `read_file` answers what the file system holds, up to the first byte 0. Past the sixth level a file is
-- empty.
module _ (read_file : Str → Option Str) where
  unfoldable pub preprocess_file : ℕ → Include
  unfolding tokenize preprocess_tokens
  preprocess_file zero pp filename = none
  preprocess_file (suc n) pp filename =
      if ltb 5 pp.preprocessing_depth then some (ok (some [], pp)) else elim (read_file filename) [
        | none ↦ some (ok (none, pp))
        | some content ↦ some (tokenize content) >>= λ stream.
            preprocess_tokens (preprocess_file n) stream
              (record { pp = deeper pp; result = []; on_new_line = true })
            >>= λ out. some (ok (some out.result, shallower out.pp))
      ]
