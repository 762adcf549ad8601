-- ===== src/Tests/HelperWitnesses.antt =====
-- The theorems of the hex dump and the string builder at concrete inputs.
use orta_vm.Prelude.{ℕ, ◌≡◌, arith, true, some, List, [], ◌∷◌, ◌++◌, Str, codes}
use orta_vm.Result.{ok}
use orta_vm.Hex.{Options, xhex_print_hex_dump, xhex_reverse_hex_dump}
use orta_vm.Hex.Lines.{whole_file}
use orta_vm.Hex.RoundTrip.{xhex_reverse_hex_dump-xhex_print_hex_dump}
use orta_vm.Builder.{StringBuilder, sb_append_str, sb_to_cstr}
use orta_vm.Builder.Laws.{FitsBuffer, sb_append_str-Holds}

abbrev upper : Options
upper = whole_file true true true 16 2

abbrev short_file : List ℕ
short_file = 72 ∷ 10 ∷ 200 ∷ []

xhex_reverse_hex_dump-xhex_print_hex_dump_example :
    (text : Str) × (xhex_print_hex_dump upper short_file ≡ some text)
    × (xhex_reverse_hex_dump upper text ≡ some short_file)
xhex_reverse_hex_dump-xhex_print_hex_dump_example =
    xhex_reverse_hex_dump-xhex_print_hex_dump true true true 15 2 short_file (omega arith)
      (omega arith, (omega arith, (omega arith, tt)))

abbrev one_letter : StringBuilder
one_letter = record { data_bytes = codes "a"; capacity_bytes = 1 }

sb_append_str-Holds_example :
    (sb : StringBuilder) × (sb_append_str one_letter (some (codes "bcd")) ≡ ok (3, sb))
    × (sb_to_cstr sb ≡ codes "a" ++ codes "bcd")
    × FitsBuffer sb
unfolding sb_to_cstr
sb_append_str-Holds_example =
    sb_append_str-Holds one_letter (codes "bcd") (record { within = omega arith })
