-- ===== src/Asm/Defines.antt =====
-- The preprocessor's state in src/asm.h, and its `#define`s. The arrays are reallocated when they are full,
-- so a list stands for each.
pub mod Expand
use orta_vm.Prelude.{
  ℕ, zero, suc, ◌+◌, ◌&&◌, not, Bool, true, false, Option, none, some, List, [], ◌∷◌, ◌++◌, Str,
  codes, length, take, drop, ltb, ◌==◌, isspace, if◌then◌else◌,
}
use orta_vm.Asm.Lexer.{lexer_peek, is_identifier_char}

-- `args` is never used.
pub record Define : Type 0 where
  pub name : Str
  pub value : Str
  pub is_function_macro : Bool
  pub argc : ℕ

pub record LocalLabelMapping : Type 0 where
  pub local_name : Str
  pub global_name : Str
  pub is_resolved : Bool

pub record Preprocessor : Type 0 where
  pub defines : List Define
  pub include_paths : List Str
  pub local_mappings : List LocalLabelMapping
  pub current_global_label : Str
  pub local_counter : ℕ
  pub preprocessing_depth : ℕ

unfoldable pub preprocessor_create : Preprocessor
preprocessor_create = record {
  defines = [];
  include_paths = [];
  local_mappings = [];
  current_global_label = codes "__global";
  local_counter = 0;
  preprocessing_depth = 0;
}

-- `strncpy` into 64 and 256 bytes, and the terminator.
unfoldable pub preprocessor_add_define : Preprocessor → Str → Str → Preprocessor
preprocessor_add_define pp name value = record pp {
  defines =
      pp.defines
      ++ (record {
        name = take 63 name;
        value = take 255 value;
        is_function_macro = false;
        argc = 0;
      }
          ∷ []);
}

unfoldable pub preprocessor_add_include_path : Preprocessor → Str → Preprocessor
preprocessor_add_include_path pp path = record pp {
  include_paths = pp.include_paths ++ (path ∷ []);
}

-- `strncmp(p, s, strlen(p)) == 0`
unfoldable pub starts_with : Str → Str → Bool
starts_with [] s = true
starts_with (c ∷ p) [] = false
starts_with (c ∷ p) (d ∷ s) = c == d && starts_with p s

-- Whether the loop replaces this name at `p`, with `i` bytes in the result.
unfoldable pub replaces : Str → ℕ → Define → Bool
unfolding starts_with lexer_peek
replaces p i def =
    starts_with def.name p
    && not (is_identifier_char (lexer_peek (drop (length def.name) p)))
    && ltb (i + length def.value) 4095

-- The inner loop: the first name that is replaced.
unfoldable pub find_define : List Define → Str → ℕ → Option Define
unfolding replaces
find_define [] p i = none
find_define (def ∷ defs) p i = if replaces p i def then some def else find_define defs p i

-- The outer loop, on fuel: each round takes a name or a character.
unfoldable pub expand_loop : ℕ → List Define → Str → Str → Option Str
unfolding find_define
expand_loop zero defs p result = none
expand_loop (suc n) defs [] result = some result
expand_loop (suc n) defs (c ∷ p) result =
    if ltb (length result) 4095
    then (elim (find_define defs (c ∷ p) (length result)) [
      | none ↦ expand_loop n defs p (result ++ (c ∷ []))
      | some def ↦ expand_loop n defs (drop (length def.name) (c ∷ p)) (result ++ def.value)
    ])
    else some result

-- The depth is put back at the end.
unfoldable pub preprocessor_expand_defines : Preprocessor → Str → Option Str
unfolding expand_loop
preprocessor_expand_defines pp text =
    if ltb 10 pp.preprocessing_depth
    then some text
    else expand_loop (suc (length text)) pp.defines text []
