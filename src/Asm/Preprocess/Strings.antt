-- ===== src/Asm/Preprocess/Strings.antt =====
-- The strings of the preprocessor and the arrays that hold them.
use orta_vm.Prelude.{
  ℕ, ◌≤◌, ◌<◌, ◌≡◌, refl, arith, Bool, true, false, Option, none, some, [], ◌∷◌, ◌++◌, Str, codes,
  length, length-append, length-take, All, All-append,
}
use orta_vm.Number.{print_int64}
use orta_vm.Asm.Defines.{
  Define, LocalLabelMapping, Preprocessor, preprocessor_create, preprocessor_add_define,
}
use orta_vm.Asm.Defines.Expand.{IsNamed}
use orta_vm.Asm.Locals.{
  find_mapping, global_name_of, preprocessor_get_local_label_global_name,
  preprocessor_update_global_context,
}
use orta_vm.Asm.Preprocess.{Output, put_char, put_text, put_blank}

-- `char name[64]` and `char value[256]`
abbrev DefineFits : Define → Type 0
DefineFits d = (length d.name ≤ 63) × (length d.value ≤ 255)

-- `char local_name[64]` and `char global_name[128]`
abbrev MappingFits : LocalLabelMapping → Type 0
MappingFits m = (length m.local_name ≤ 63) × (length m.global_name ≤ 127)

-- The strings of the preprocessor stand within their arrays, and no definition has an empty name.
pub record IsBuffered (pp : Preprocessor) : Type 0 where
  pub names : All IsNamed pp.defines
  pub defines_fit : All DefineFits pp.defines
  pub mappings_fit : All MappingFits pp.local_mappings
  pub label_fits : length pp.current_global_label ≤ 127

pub preprocessor_create-IsBuffered : IsBuffered preprocessor_create
unfolding preprocessor_create
preprocessor_create-IsBuffered = record {
  names = tt;
  defines_fit = tt;
  mappings_fit = tt;
  label_fits = omega arith;
}

pub add_define-IsBuffered :
    (pp : Preprocessor) (name value : Str)
    → 0 < length name
    → IsBuffered pp
    → IsBuffered (preprocessor_add_define pp name value)
unfolding preprocessor_add_define
add_define-IsBuffered pp name value h v = record {
  names = All-append IsNamed pp.defines _ v.names (omega (arith, h, length-take 63 name), tt);
  defines_fit =
      All-append DefineFits pp.defines _ v.defines_fit
        ((omega (arith, length-take 63 name), omega (arith, length-take 255 value)), tt);
  mappings_fit = v.mappings_fit;
  label_fits = v.label_fits;
}

pub add_define-depth :
    (pp : Preprocessor) (name value : Str)
    → (preprocessor_add_define pp name value).preprocessing_depth ≡ pp.preprocessing_depth
unfolding preprocessor_add_define
add_define-depth pp name value = refl

pub update_global_context-depth :
    (pp : Preprocessor) (name : Str)
    → (preprocessor_update_global_context pp name).preprocessing_depth ≡ pp.preprocessing_depth
unfolding preprocessor_update_global_context
update_global_context-depth pp name = refl

pub update_global_context-IsBuffered :
    (pp : Preprocessor) (name : Str)
    → IsBuffered pp
    → IsBuffered (preprocessor_update_global_context pp name)
unfolding preprocessor_update_global_context
update_global_context-IsBuffered pp name v = record {
  names = v.names;
  defines_fit = v.defines_fit;
  mappings_fit = tt;
  label_fits = omega (arith, length-take 127 name);
}

-- The state of the loop at this depth, its result within the buffer of 8192 bytes.
pub record Fits (depth : ℕ) (out : Output) : Type 0 where
  pub buffered : IsBuffered out.pp
  pub level : (out.pp).preprocessing_depth ≡ depth
  pub fits : length out.result ≤ 8191

pub put_char-fits :
    (c : ℕ) (result : Str) → length result ≤ 8191 → length (put_char c result) ≤ 8191
put_char-fits c result h = ground (arith, length-append result (c ∷ []))

pub put_text-fits :
    (text result : Str) → length result ≤ 8191 → length (put_text text result) ≤ 8191
put_text-fits text result h = ground (arith, length-append result text)

pub put_blank-fits :
    (b : Bool) (result : Str) → length result ≤ 8191 → length (put_blank b result) ≤ 8191
put_blank-fits true result h = h
put_blank-fits false result h = put_char-fits b' ' result h

global_name_of-fits : (current : Str) (n : ℕ) → length (global_name_of current n) ≤ 127
unfolding global_name_of
global_name_of-fits current n =
    omega (arith, length-take 127 (current ++ codes "__local_" ++ print_int64 n))

-- The same depth, and the strings within their arrays.
abbrev Kept : Preprocessor → Preprocessor → Type 0
Kept pp pp' = IsBuffered pp' × (pp'.preprocessing_depth ≡ pp.preprocessing_depth)

elim-Kept :
    (pp : Preprocessor) (o : Option Str) (r : Str × Preprocessor)
    → IsBuffered pp
    → Kept pp r.1
    → Kept pp (elim o as (λ x. Str × Preprocessor) [ some g ↦ (g, pp) | none ↦ r ]).1
elim-Kept pp (some g) r v k = (v, refl)
elim-Kept pp none r v k = k

pub local_name-Kept :
    (pp : Preprocessor) (name : Str)
    → IsBuffered pp
    → Kept pp (preprocessor_get_local_label_global_name pp name).1
unfolding preprocessor_get_local_label_global_name
local_name-Kept pp name v = elim-Kept pp (find_mapping pp.local_mappings name) _ v (
  record {
    names = v.names;
    defines_fit = v.defines_fit;
    mappings_fit = All-append MappingFits pp.local_mappings _ v.mappings_fit (
      (
        omega (arith, length-take 63 name),
        global_name_of-fits pp.current_global_label pp.local_counter,
      ),
      tt,
    );
    label_fits = v.label_fits;
  },
  refl,
)
