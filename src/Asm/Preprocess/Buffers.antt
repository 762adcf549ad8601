-- ===== src/Asm/Preprocess/Buffers.antt =====
-- The buffers of the preprocessor, its depth and its fuel.
use orta_vm.Prelude.{
  ℕ, zero, suc, ◌+◌, ◌≤◌, ◌<◌, ◌≡◌, refl, arith, Option, some, [], Str, length, ltb,
}
use orta_vm.Result.{Result, ok, exit, undefined}
use orta_vm.Result.Ensures.{Ensures}
use orta_vm.Result.Fueled.{Settles, ok-Settles, some-Settles, >>=-Settles, if-Settles, elim-Settles}
use mathlib.Core.Path.{subst}
use mathlib.Core.Option.{some-injective}
use orta_vm.Asm.Tokens.{tokenize}
use orta_vm.Asm.Defines.{Preprocessor}
use orta_vm.Asm.Preprocess.{preprocess_file}
use orta_vm.Asm.Preprocess.Strings.{IsBuffered, Fits}
use orta_vm.Asm.Preprocess.Rounds.{Included, preprocess_tokens-Settles}

pub any_result : {A : Type 0} (r : Result A) → Ensures (λ a. Unit) r
unfolding Ensures
any_result (ok a) = tt
any_result (exit n) = tt
any_result undefined = tt

same_strings-IsBuffered :
    (pp : Preprocessor) (n : ℕ) → IsBuffered pp → IsBuffered (record pp { preprocessing_depth = n })
same_strings-IsBuffered pp n v = record {
  names = v.names;
  defines_fit = v.defines_fit;
  mappings_fit = v.mappings_fit;
  label_fits = v.label_fits;
}

some_text : (s text : Str) → some s ≡ some text → length s ≤ 8191 → length text ≤ 8191
some_text s text e h = subst (λ t. length t ≤ 8191) (some-injective s text e) h

module _ (read_file : Str → Option Str) where
  file-Settles :
      (n d : ℕ) (pp : Preprocessor) (filename : Str)
      → IsBuffered pp
      → pp.preprocessing_depth ≡ d
      → d ≤ 6
      → 6 < n + d
      → Settles (Included d) (preprocess_file read_file n pp filename)
  unfolding preprocess_file
  file-Settles zero d pp filename v e h k = absurd (omega (arith, h, k))
  file-Settles (suc n) d pp filename v e h k =
      if-Settles (Included d) (ltb 5 pp.preprocessing_depth) _ _
        (λ deep. ok-Settles (Included d) _ (record {
          buffered = v;
          level = e;
          fits = λ text e'. some_text [] text e' (omega arith);
        }))
        (λ room.
          elim-Settles (Included d) (read_file filename) _ _
            (λ missing.
              ok-Settles (Included d) _ (record { buffered = v; level = e; fits = λ text e'. cc }))
            (λ content found.
              >>=-Settles (Included d) (λ ts. Unit) _ _
                (some-Settles _ (tokenize content) (any_result _))
                (λ ts w.
                  >>=-Settles (Included d) (Fits (suc d)) _ _
                    (preprocess_tokens-Settles (suc d) (preprocess_file read_file n) ts _
                      (omega (arith, h))
                      (λ pp' file v' e'.
                        file-Settles n (suc d) pp' file v' e' (ground (arith, room, e))
                          (omega (arith, k)))
                      (record {
                        buffered = same_strings-IsBuffered pp _ v;
                        level = omega (arith, e);
                        fits = omega arith;
                      }))
                    (λ out w'. ok-Settles (Included d) _ (record {
                      buffered = same_strings-IsBuffered out.pp _ w'.buffered;
                      level = omega (arith, w'.level);
                      fits = λ text e'. some_text out.result text e' w'.fits;
                    })))))

  -- Preprocessing ends: for a depth of at most 6, seven levels of files less the depth are fuel enough.
  -- Unless it runs into what C does not define, such as a string that overflows its buffer, what it
  -- leaves of a preprocessor whose strings are in bounds is in bounds: the text in its 8192 bytes, the
  -- names and values of the definitions and labels in theirs, and the depth at which it began.
  pub preprocess_file-Included :
      (n : ℕ) (pp : Preprocessor) (filename : Str)
      → IsBuffered pp
      → pp.preprocessing_depth ≤ 6
      → 6 < n + pp.preprocessing_depth
      → Settles (Included pp.preprocessing_depth) (preprocess_file read_file n pp filename)
  preprocess_file-Included n pp filename v h k =
      file-Settles n pp.preprocessing_depth pp filename v refl h k
