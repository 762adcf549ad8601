-- ===== src/Asm/Preprocess/Rounds.antt =====
-- The rounds of the preprocessor.
use orta_vm.Prelude.{
  ℕ, ◌≤◌, ◌<◌, ◌≡◌, sym, ◌∙◌, arith, Option, none, some, [], ◌∷◌, Str, codes, length, drop,
  if◌then◌else◌,
}
use orta_vm.Result.Ensures.{Ensures}
use orta_vm.Result.Fueled.{
  Settles, ok-Settles, undefined-Settles, >>=-Settles, if-Settles, elim-Settles,
}
use mathlib.Core.Path.{subst}
use mathlib.Core.Option.{some-injective}
use orta_vm.Asm.Lexer.{
  TokenType, token_identifier, token_label, token_local_label, token_newline, token_comment,
  token_directive,
}
use orta_vm.Asm.Tokens.{TokenStream}
use orta_vm.Asm.Defines.{Preprocessor, starts_with, preprocessor_expand_defines}
use orta_vm.Asm.Defines.Expand.{preprocessor_expand_defines-Expanded}
use orta_vm.Asm.Locals.{preprocessor_update_global_context}
use orta_vm.Asm.Preprocess.{
  Output, Include, put_char, fueled, included, scan_define, scan_include, is_nil, directive,
  global_label, local_label, plain_token, starts_dot, preprocess_token, preprocess_tokens,
}
use orta_vm.Asm.Preprocess.Strings.{
  IsBuffered, add_define-IsBuffered, add_define-depth, update_global_context-depth,
  update_global_context-IsBuffered, Fits, put_char-fits, put_text-fits, put_blank-fits,
  local_name-Kept,
}

-- What the file read at a depth answers.
pub record Included (depth : ℕ) (r : Option Str × Preprocessor) : Type 0 where
  pub buffered : IsBuffered r.1
  pub level : (r.1).preprocessing_depth ≡ depth
  pub fits : (text : Str) → r.0 ≡ some text → length text ≤ 8191

fueled-Settles :
    (P : Str → Type 0) (r : Option Str)
    → (text : Str) × (r ≡ some text) × P text
    → Settles P (fueled r)
unfolding Settles Ensures
fueled-Settles P none (text, e, p) = cc
fueled-Settles P (some t) (text, e, p) = subst P (some-injective text t (sym e)) p

included-Settles :
    (d : ℕ) (out : Output) (r : Option Str × Preprocessor)
    → Fits d out
    → Included d r
    → Settles (Fits d) (included out r)
unfolding Settles Ensures
included-Settles d out (none, pp) v w = record {
  buffered = w.buffered;
  level = w.level;
  fits = v.fits;
}
included-Settles d out (some text, pp) v w = record {
  buffered = w.buffered;
  level = w.level;
  fits = put_text-fits text out.result v.fits;
}

some_name :
    (n v name value : Str)
    → if◌then◌else◌ {A = Option (Str × Str)} (is_nil n) none (some (n, v)) ≡ some (name, value)
    → 0 < length name
some_name [] v name value e = cc
some_name (c ∷ n) v name value e = ground (arith, e)

scan_define-named : (s name value : Str) → scan_define s ≡ some (name, value) → 0 < length name
unfolding scan_define
scan_define-named s name value e = some_name _ _ name value e

module _ (d : ℕ) (include : Include) where
  -- What the files included at this depth answer.
  abbrev pub Includes : Type 0
  Includes =
      (pp : Preprocessor) (file : Str)
      → IsBuffered pp
      → pp.preprocessing_depth ≡ d
      → Settles (Included d) (include pp file)

  directive-Settles :
      (out : Output) (value : Str)
      → Includes
      → Fits d out
      → Settles (Fits d) (directive include out value)
  unfolding directive
  directive-Settles out value h v =
      if-Settles (Fits d) (starts_with (codes "#define") value) _ _
        (λ b.
          elim-Settles (Fits d) (scan_define (drop 7 value)) _ _
            (λ e.
              ok-Settles (Fits d) _
                (record { buffered = v.buffered; level = v.level; fits = v.fits }))
            (λ (name, text) e. ok-Settles (Fits d) _ (record {
              buffered =
                  add_define-IsBuffered out.pp name text
                    (scan_define-named (drop 7 value) name text e) v.buffered;
              level = add_define-depth out.pp name text ∙ v.level;
              fits = v.fits;
            })))
        (λ b.
          if-Settles (Fits d) (starts_with (codes "#include") value) _ _
            (λ b'.
              elim-Settles (Fits d) (scan_include (drop 8 value)) _ _
                (λ e.
                  ok-Settles (Fits d) _
                    (record { buffered = v.buffered; level = v.level; fits = v.fits }))
                (λ file e.
                  >>=-Settles (Fits d) (Included d) _ _ (h out.pp file v.buffered v.level)
                    (λ r w. included-Settles d out r v w)))
            (λ b'.
              ok-Settles (Fits d) _
                (record { buffered = v.buffered; level = v.level; fits = v.fits })))

  expanded :
      (pp : Preprocessor) (value : Str)
      → d ≤ 10
      → IsBuffered pp
      → pp.preprocessing_depth ≡ d
      → Settles (λ text. length text ≤ 4095) (fueled (preprocessor_expand_defines pp value))
  expanded pp value h v e =
      fueled-Settles _ (preprocessor_expand_defines pp value)
        (preprocessor_expand_defines-Expanded pp value v.names (omega (arith, e, h)))

  global_label-Settles :
      (out : Output) (value : Str) → d ≤ 10 → Fits d out → Settles (Fits d) (global_label out value)
  unfolding global_label
  global_label-Settles out value h v =
      let pp = preprocessor_update_global_context out.pp value in
      let buffered : IsBuffered pp = update_global_context-IsBuffered out.pp value v.buffered in
      let level : pp.preprocessing_depth ≡ d = update_global_context-depth out.pp value ∙ v.level in
      >>=-Settles (Fits d) (λ text. length text ≤ 4095) _ _ (expanded pp value h buffered level)
        (λ text w. ok-Settles (Fits d) _ (record {
          buffered = buffered;
          level = level;
          fits =
              put_char-fits b':' _
                (put_text-fits text _ (put_blank-fits out.on_new_line out.result v.fits));
        }))

  local_label-Settles :
      (behind : Str → Str) (out : Output) (value : Str)
      → ((s : Str) → length s ≤ 8191 → length (behind s) ≤ 8191)
      → Fits d out
      → Settles (Fits d) (local_label behind out value)
  unfolding local_label
  local_label-Settles behind out value h v =
      let (buffered, level) = local_name-Kept out.pp value v.buffered in
      ok-Settles (Fits d) _ (record {
        buffered = buffered;
        level = level ∙ v.level;
        fits = h _ (put_text-fits _ _ (put_blank-fits out.on_new_line out.result v.fits));
      })

  plain_token-Settles :
      (out : Output) (value : Str) → d ≤ 10 → Fits d out → Settles (Fits d) (plain_token out value)
  unfolding plain_token
  plain_token-Settles out value h v =
      >>=-Settles (Fits d) (λ text. length text ≤ 4095) _ _
        (expanded out.pp value h v.buffered v.level)
        (λ text w. ok-Settles (Fits d) _ (record {
          buffered = v.buffered;
          level = v.level;
          fits = put_text-fits text _ (put_blank-fits out.on_new_line out.result v.fits);
        }))

  preprocess_token-Settles :
      (out : Output) (type : TokenType) (value : Option Str)
      → d ≤ 10
      → Includes
      → Fits d out
      → Settles (Fits d) (preprocess_token include out type value)
  unfolding preprocess_token
  preprocess_token-Settles out token_directive (some value) h k v = directive-Settles out value k v
  preprocess_token-Settles out token_directive none h k v = undefined-Settles (Fits d)
  preprocess_token-Settles out token_comment value h k v = ok-Settles (Fits d) _ v
  preprocess_token-Settles out token_newline value h k v = ok-Settles (Fits d) _ (record {
    buffered = v.buffered;
    level = v.level;
    fits = put_char-fits b'\n' out.result v.fits;
  })
  preprocess_token-Settles out token_label (some value) h k v = global_label-Settles out value h v
  preprocess_token-Settles out token_label none h k v = undefined-Settles (Fits d)
  preprocess_token-Settles out token_local_label (some value) h k v =
      local_label-Settles (put_char b':') out value (put_char-fits b':') v
  preprocess_token-Settles out token_local_label none h k v = undefined-Settles (Fits d)
  preprocess_token-Settles out token_identifier (some value) h k v =
      if-Settles (Fits d) (starts_dot value) _ _
        (λ b. local_label-Settles (λ result. result) out value (λ s w. w) v)
        (λ b. plain_token-Settles out value h v)
  preprocess_token-Settles out _ (some value) h k v = plain_token-Settles out value h v
  preprocess_token-Settles out _ none h k v =
      ok-Settles (Fits d) _ (record { buffered = v.buffered; level = v.level; fits = v.fits })

  pub preprocess_tokens-Settles :
      (ts : TokenStream) (out : Output)
      → d ≤ 10
      → Includes
      → Fits d out
      → Settles (Fits d) (preprocess_tokens include ts out)
  unfolding preprocess_tokens
  preprocess_tokens-Settles [] out h k v = ok-Settles (Fits d) out v
  preprocess_tokens-Settles (t ∷ ts) out h k v =
      >>=-Settles (Fits d) (Fits d) _ _ (preprocess_token-Settles out t.type t.value h k v)
        (λ out' w. preprocess_tokens-Settles ts out' h k w)
