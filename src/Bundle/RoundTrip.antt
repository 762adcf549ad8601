-- ===== src/Bundle/RoundTrip.antt =====
-- A bundle unpacked again.
use orta_vm.Prelude.{
  ◌||◌, ℕ, ◌-◌, ◌^◌, ◌<◌, ◌≡◌, sym, ap, ◌∙◌, arith, Bool, true, false, none, some, List, [], ◌∷◌,
  ◌++◌, Str, length, leb, ◌==◌, All, map, if◌then◌else◌,
}
use mathlib.Core.List.{append_assoc, append-nil}
use orta_vm.Result.{ok}
use orta_vm.Heap.{to_bytes}
use orta_vm.Heap.Laws.{NoNul}
use orta_vm.Xbin.Load.{got, failed, ◌>>>◌, read_bytes, before_nul}
use orta_vm.Xbin.Numbers.{read_bytes-append, read_number-to_bytes}
use orta_vm.Xbin.RoundTrip.{before_nul-NoNul}
use orta_vm.Bundle.{
  Bundle, Answer, error, Files, bundle_bytes, bundled, read_string, read_name, read_data,
  write_file, unbundle_next, write_next, unbundle_loop, unbundle_from, unbundle_files,
}

-- A C string whose length is an `int`, with room for the terminator.
abbrev pub IsName : Str → Type 0
IsName s = NoNul s × (length s < 2 ^ 31 - 1)

module _ (opens : Str → Bool) where
  -- A file whose size is a `long`, and that can be written.
  abbrev pub IsFile : Bundle → Type 0
  IsFile b = IsName b.filename × (length b.contents < 2 ^ 63) × (opens b.filename ≡ true)

read_string-append : (s rest : List ℕ) → IsName s → read_string (length s) (s ++ rest) ≡ got s rest
unfolding read_string
read_string-append s rest (k, h) =
    let some_room : (length s == 2 ^ 32 - 1 || length s == 2 ^ 31 - 1) ≡ false =
      ground (arith, h) in
    let positive : leb (2 ^ 31) (length s) ≡ false = ground (arith, h) in
    rw some_room (
      rw positive (
        ap (λ x. x >>> λ part after. got (before_nul part) after) (read_bytes-append s rest)
        ∙ ap (λ x. got x rest) (before_nul-NoNul s k)))

read_name-append :
    (s rest : List ℕ) → IsName s → read_name (to_bytes 4 (length s) ++ (s ++ rest)) ≡ got s rest
read_name-append s rest (k, h) =
    ap (λ x. x >>> read_string) (read_number-to_bytes 4 (length s) (s ++ rest) (omega (arith, h)))
    ∙ read_string-append s rest (k, h)

read_data-append :
    (d rest : List ℕ)
    → length d < 2 ^ 63
    → read_data (to_bytes 8 (length d) ++ (d ++ rest)) ≡ got d rest
read_data-append d rest h =
    let positive : leb (2 ^ 63) (length d) ≡ false = ground (arith, h) in
    ap (λ x. x >>> λ n after. if leb (2 ^ 63) n then failed else read_bytes n after)
      (read_number-to_bytes 8 (length d) (d ++ rest) (omega (arith, h)))
    ∙ ap (λ b. if b then failed else read_bytes (length d) (d ++ rest)) positive
    ∙ read_bytes-append d rest

-- The files, one after the other.
abbrev pub write_all : List Bundle → Files → Files
write_all [] files = files
write_all (b ∷ bs) files = write_all bs (write_file b.filename b.contents files)

module _ (opens : Str → Bool) (runfile : Str) where
  loop-bundle_bytes :
      (bs : List Bundle) (names : List Str) (files : Files)
      → All (IsFile opens) bs
      → unbundle_loop opens runfile (length bs) (bundle_bytes bs) names files
        ≡ ok (
          some
              (record { filenames = names ++ map (λ b. b.filename) bs; main_executable = runfile }),
          write_all bs files,
        )
  unfolding unbundle_loop bundle_bytes
  loop-bundle_bytes [] names files v =
      ap (λ x. ok (some (record { filenames = x; main_executable = runfile }), files))
        (sym (append-nil names))
  loop-bundle_bytes (b ∷ bs) names files ((name, long, open_file), v) =
      let again = unbundle_loop opens runfile (length bs) in
      let rest = to_bytes 8 (length b.contents) ++ (b.contents ++ bundle_bytes bs) in
      ap (λ x. unbundle_next opens again x names files) (read_name-append b.filename rest name)
      ∙ ap (λ x. write_next opens again b.filename x names files)
          (read_data-append b.contents (bundle_bytes bs) long)
      ∙ ap
          (λ t.
            if◌then◌else◌ {A = Answer} t
              (again (bundle_bytes bs) (names ++ (b.filename ∷ []))
                (write_file b.filename b.contents files))
              (error (names ++ (b.filename ∷ [])) files))
          open_file
      ∙ loop-bundle_bytes bs (names ++ (b.filename ∷ [])) (write_file b.filename b.contents files) v
      ∙ ap
          (λ x.
            ok (
              some (record { filenames = x; main_executable = runfile }),
              write_all (b ∷ bs) files,
            ))
          (append_assoc names (b.filename ∷ []) (map (λ c. c.filename) bs))

  -- A bundle of files is unpacked into the same files and answers their names and the main executable, if they can
  -- be written: for fewer than 2 ^ 31 files, names of fewer than 2 ^ 31 - 1 characters without a byte
  -- 0, and contents below 2 ^ 63.
  pub unbundle_files-bundled :
      (bs : List Bundle) (files : Files)
      → length bs < 2 ^ 31
      → IsName runfile
      → All (IsFile opens) bs
      → unbundle_files opens (bundled bs runfile) files
        ≡ ok (
          some (record { filenames = map (λ b. b.filename) bs; main_executable = runfile }),
          write_all bs files,
        )
  unfolding unbundle_files bundled
  unbundle_files-bundled bs files few name v =
      let rest = bundle_bytes bs in
      let positive : leb (2 ^ 31) (length bs) ≡ false = ground (arith, few) in
      ap
        (λ x.
          unbundle_from opens
            (x >>> λ count after. read_name after >>> λ run end. got (count, run) end) files)
        (read_number-to_bytes 4 (length bs) (to_bytes 4 (length runfile) ++ (runfile ++ rest))
          (omega (arith, few)))
      ∙ ap (λ x. unbundle_from opens (x >>> λ run end. got (length bs, run) end) files)
          (read_name-append runfile rest name)
      ∙ ap
          (λ t.
            if◌then◌else◌ {A = Answer} t (ok (none, files))
              (unbundle_loop opens runfile (length bs) rest [] files))
          positive
      ∙ loop-bundle_bytes bs [] files v
