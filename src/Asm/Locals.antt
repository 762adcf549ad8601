-- ===== src/Asm/Locals.antt =====
-- The local labels of src/asm.h, which stand for global ones up to the next label.
use orta_vm.Prelude.{
  ℕ, ◌+◌, true, Option, none, some, List, [], ◌∷◌, ◌++◌, Str, codes, take, str_eq, if◌then◌else◌,
}
use orta_vm.Number.{print_int64}
use orta_vm.Asm.Defines.{LocalLabelMapping, Preprocessor}

unfoldable pub find_mapping : List LocalLabelMapping → Str → Option Str
find_mapping [] name = none
find_mapping (m ∷ ms) name =
    if str_eq m.local_name name then some m.global_name else find_mapping ms name

-- `snprintf(global_name, 128, "%s__local_%d", current, counter)`
unfoldable pub global_name_of : Str → ℕ → Str
unfolding print_int64
global_name_of current counter = take 127 (current ++ codes "__local_" ++ print_int64 counter)

unfoldable pub preprocessor_get_local_label_global_name : Preprocessor → Str → Str × Preprocessor
unfolding find_mapping global_name_of
preprocessor_get_local_label_global_name pp local_name =
    elim (find_mapping pp.local_mappings local_name) [
      | some global_name ↦ (global_name, pp)
      | none ↦
          (let global_name = global_name_of pp.current_global_label pp.local_counter in
            (
              global_name,
              record pp {
                local_mappings =
                    pp.local_mappings
                    ++ (record {
                      local_name = take 63 local_name;
                      global_name = global_name;
                      is_resolved = true;
                    }
                        ∷ []);
                local_counter = pp.local_counter + 1;
              },
            ))
    ]

-- A label opens a new scope of local ones.
unfoldable pub preprocessor_update_global_context : Preprocessor → Str → Preprocessor
preprocessor_update_global_context pp label_name = record pp {
  current_global_label = take 127 label_name;
  local_mappings = [];
  local_counter = 0;
}
