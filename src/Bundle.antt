-- ===== src/Bundle.antt =====
-- `BundleFiles` and `UnbundleFiles` of src/xbd.c. A bundle is the list of its bytes.
pub mod RoundTrip
use orta_vm.Prelude.{
  ℕ, zero, suc, ◌-◌, ◌^◌, Bool, true, false, ◌||◌, Option, none, some, List, [], ◌∷◌, ◌++◌, Str,
  length, leb, ◌==◌, str_eq, if◌then◌else◌, map,
}
use orta_vm.Result.{Result, ok, undefined}
use orta_vm.Heap.{to_bytes}
use orta_vm.Xbin.Load.{Scan, got, failed, broken, ◌>>>◌, read_bytes, read_number, before_nul}

-- A file's name and contents.
pub record Bundle : Type 0 where
  pub filename : Str
  pub contents : List ℕ

pub record UnbundledFiles : Type 0 where
  pub filenames : List Str
  pub main_executable : Str

-- The files that there are.
abbrev pub Files : Type 0
Files = Str → Option (List ℕ)

abbrev pub load_next : Str → Option (List ℕ) → Option (List Bundle) → Option (List Bundle)
load_next name (some contents) (some bundles) =
    some (record { filename = name; contents = contents } ∷ bundles)
load_next name _ _ = none

unfoldable pub load_files_into_bundles : Files → List Str → Option (List Bundle)
load_files_into_bundles files [] = some []
load_files_into_bundles files (name ∷ names) =
    load_next name (files name) (load_files_into_bundles files names)

unfoldable pub bundle_bytes : List Bundle → List ℕ
unfolding to_bytes
bundle_bytes [] = []
bundle_bytes (b ∷ bs) =
    to_bytes 4 (length b.filename)
    ++ (b.filename ++ (to_bytes 8 (length b.contents) ++ (b.contents ++ bundle_bytes bs)))

-- The bytes of a bundle of these files.
unfoldable pub bundled : List Bundle → Str → List ℕ
unfolding bundle_bytes
bundled bundles runfile =
    to_bytes 4 (length bundles)
    ++ (to_bytes 4 (length runfile) ++ (runfile ++ bundle_bytes bundles))

-- No bundle is written if a file cannot be read, or the bundle cannot be opened.
unfoldable pub bundle_files : Files → Bool → List Str → Str → Option (List ℕ)
unfolding load_files_into_bundles bundled
bundle_files files opens_bundle filenames runfile = elim (load_files_into_bundles files filenames) [
  | none ↦ none
  | some bundles ↦ if opens_bundle then some (bundled bundles runfile) else none
]

-- `readString` for an `int`. The size `len + 1` overflows at the largest one, which C does not define. A negative
-- one is too much for `malloc`, but -1, for which `malloc(0)` is called and the byte in front of it is written.
unfoldable pub read_string : ℕ → List ℕ → Scan Str
unfolding read_bytes before_nul
read_string len bytes =
    if len == 2 ^ 32 - 1 || len == 2 ^ 31 - 1
    then broken
    else if leb (2 ^ 31) len
    then failed
    else (read_bytes len bytes >>> λ part rest. got (before_nul part) rest)

abbrev pub read_name : List ℕ → Scan Str
read_name bytes = read_number 4 bytes >>> read_string

-- A `long` and as many bytes; a negative one is too much for `malloc`.
abbrev pub read_data : List ℕ → Scan (List ℕ)
read_data bytes =
    read_number 8 bytes >>> λ n rest. if leb (2 ^ 63) n then failed else read_bytes n rest

unfoldable pub write_file : Str → List ℕ → Files → Files
write_file name contents files s = if str_eq s name then some contents else files s

unfoldable pub remove_files : List Str → Files → Files
remove_files [] files s = files s
remove_files (name ∷ names) files s = if str_eq s name then none else remove_files names files s

-- What `UnbundleFiles` answers, and the files then.
abbrev pub Answer : Type 0
Answer = Result (Option UnbundledFiles × Files)

-- The jump to `error`: the files of these names are removed.
abbrev pub error : List Str → Files → Answer
error names files = ok (none, remove_files names files)

-- `opens` says which files can be written.
module _ (opens : Str → Bool) where
  abbrev pub Loop : Type 0
  Loop = List ℕ → List Str → Files → Answer

  abbrev pub write_next : Loop → Str → Scan (List ℕ) → List Str → Files → Answer
  write_next again name broken names files = undefined
  write_next again name failed names files = error (names ++ (name ∷ [])) files
  write_next again name (got contents rest) names files =
      if opens name
      then again rest (names ++ (name ∷ [])) (write_file name contents files)
      else error (names ++ (name ∷ [])) files

  abbrev pub unbundle_next : Loop → Scan Str → List Str → Files → Answer
  unbundle_next again broken names files = undefined
  unbundle_next again failed names files = error names files
  unbundle_next again (got name rest) names files =
      write_next again name (read_data rest) names files

  unfoldable pub unbundle_loop : Str → ℕ → Loop
  unfolding read_number read_string write_file remove_files
  unbundle_loop runfile zero bytes names files =
      ok (some (record { filenames = names; main_executable = runfile }), files)
  unbundle_loop runfile (suc n) bytes names files =
      unbundle_next (unbundle_loop runfile n) (read_name bytes) names files

  -- The two numbers and the name at the start.
  abbrev pub read_head : List ℕ → Scan (ℕ × Str)
  read_head bytes = read_number 4 bytes >>> λ count rest.
      read_name rest >>> λ runfile after. got (count, runfile) after

  abbrev pub unbundle_from : Scan (ℕ × Str) → Files → Answer
  unbundle_from broken files = undefined
  unbundle_from failed files = ok (none, files)
  unbundle_from (got (count, runfile) rest) files =
      if leb (2 ^ 31) count then ok (none, files) else unbundle_loop runfile count rest [] files

  unfoldable pub unbundle_files : List ℕ → Files → Answer
  unfolding unbundle_loop read_number read_string
  unbundle_files bytes files = unbundle_from (read_head bytes) files
