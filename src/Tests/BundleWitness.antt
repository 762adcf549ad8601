-- ===== src/Tests/BundleWitness.antt =====
-- A bundle of one file at concrete inputs.
use orta_vm.Prelude.{◌≡◌, refl, arith, Bool, true, none, some, List, [], ◌∷◌, Str, codes}
use orta_vm.Result.{ok}
use orta_vm.Bundle.{Bundle, Files, bundle_files, bundled, unbundle_files}
use orta_vm.Bundle.RoundTrip.{write_all, unbundle_files-bundled}

abbrev one_file : List Bundle
one_file = record { filename = codes "a.xbin"; contents = 88 ∷ 0 ∷ 7 ∷ [] } ∷ []

abbrev no_files : Files
no_files s = none

abbrev all_open : Str → Bool
all_open s = true

abbrev on_disk : Files
on_disk s = some (88 ∷ 0 ∷ 7 ∷ [])

one_is_bundled :
    bundle_files on_disk true (codes "a.xbin" ∷ []) (codes "a.xbin")
    ≡ some (bundled one_file (codes "a.xbin"))
unfolding bundle_files
one_is_bundled = refl

-- The size is cut off: the files that were read are removed again.
cut_off :
    (r : Files) × (unbundle_files all_open
        (1 ∷ 0 ∷ 0 ∷ 0 ∷ 1 ∷ 0 ∷ 0 ∷ 0 ∷ 97 ∷ 2 ∷ 0 ∷ 0 ∷ 0 ∷ 98 ∷ 99 ∷ 1 ∷ [])
        no_files
      ≡ ok (none, r))
unfolding unbundle_files orta_vm.Heap.of_bytes
cut_off = (_, refl)

unbundle_files-bundled_example :
    unbundle_files all_open (bundled one_file (codes "a.xbin")) no_files
    ≡ ok (
      some (record { filenames = codes "a.xbin" ∷ []; main_executable = codes "a.xbin" }),
      write_all one_file no_files,
    )
unbundle_files-bundled_example =
    unbundle_files-bundled all_open (codes "a.xbin") one_file no_files (omega arith) (ground arith)
      (ground arith)
