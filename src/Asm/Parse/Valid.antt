-- ===== src/Asm/Parse/Valid.antt =====
-- The programs that `parse_program` makes.
use orta_vm.Prelude.{
  ℕ, zero, suc, ◌≤◌, ◌<◌, ◌≡◌, refl, arith, Bool, true, false, Option, none, some, List, [], ◌∷◌,
  Str, length,
}
use orta_vm.Result.Fueled.{
  Settles, ok-Settles, undefined-Settles, some-Settles, >>=-Settles, if-Settles, elim-Settles,
}
use orta_vm.Instruction.{Instruction, parse_instruction}
use orta_vm.Program.{Program}
use orta_vm.Vm.{OrtaVm, with_program}
use orta_vm.Asm.Lexer.{TokenType, token_identifier, token_label, token_local_label, is_eof}
use orta_vm.Asm.Tokens.{TokenStream, tokenize, token_stream_match, token_stream_skip_newlines}
use orta_vm.Asm.Defines.{Preprocessor, preprocessor_create, preprocessor_add_include_path}
use orta_vm.Asm.Preprocess.Strings.{IsBuffered}
use orta_vm.Asm.Preprocess.Rounds.{Included}
use orta_vm.Asm.Preprocess.Buffers.{any_result, preprocess_file-Included}
use orta_vm.Asm.Parse.{
  Rest, accepts, take_label, put_instruction, take_instruction, parse_token, parse_round,
  parse_loop, parse_text, parse_preprocessed, parse_program, first_preprocessor,
}
use orta_vm.Asm.Parse.Programs.{
  IsAssembled, add_instruction-Settles, add_label-Settles, Shortens, parse_operands-Shortens,
  length-skip_newlines,
}

-- What the parser answers with: the program, whether it is complete or not.
abbrev pub Leaves : Bool × Program → Type 0
Leaves r = IsAssembled r.1

module _ (n : ℕ) (again : Rest) where
  -- The rest of the loop, on fewer than `n` tokens.
  Continues : Type 0
  Continues =
      (ts : TokenStream) (p : Program) → length ts < n → IsAssembled p → Settles Leaves (again ts p)

  take_label-Settles :
      (name : Str) (ts : TokenStream) (p : Program)
      → Continues
      → length ts < n
      → IsAssembled p
      → Settles Leaves (take_label again name ts p)
  unfolding Continues
  take_label-Settles name ts p k h v =
      >>=-Settles Leaves IsAssembled _ (again ts) (add_label-Settles p name v) (λ q w. k ts q h w)

  put_instruction-Settles :
      (i : Instruction) (line : ℕ) (p : Program) (operands : List Str) (ts : TokenStream)
      → Continues
      → length ts < n
      → IsAssembled p
      → Settles Leaves (put_instruction again i line p (operands, ts))
  unfolding Continues
  put_instruction-Settles i line p operands ts k h v =
      if-Settles Leaves (accepts i (length operands)) _ _
        (λ a.
          >>=-Settles Leaves IsAssembled _ (again ts) (add_instruction-Settles p _ v a)
            (λ q w. k ts q h w))
        (λ a. ok-Settles Leaves (false, p) v)

  take_instruction-Settles :
      (name : Str) (line : ℕ) (ts : TokenStream) (p : Program)
      → Continues
      → length ts < n
      → IsAssembled p
      → Settles Leaves (take_instruction again name line ts p)
  take_instruction-Settles name line ts p k h v =
      elim-Settles Leaves (parse_instruction name) _ _ (λ e. ok-Settles Leaves (false, p) v)
        (λ i e.
          >>=-Settles Leaves (Shortens ts) _ _
            (some-Settles (Shortens ts) _ (parse_operands-Shortens ts))
            (λ (operands, rest) w.
              put_instruction-Settles i line p operands rest k (omega (arith, w, h)) v))

  parse_token-Settles :
      (type : TokenType) (value : Option Str) (line : ℕ) (ts : TokenStream) (p : Program)
      → Continues
      → length ts < n
      → IsAssembled p
      → Settles Leaves (parse_token again type value line ts p)
  unfolding parse_token Continues
  parse_token-Settles token_label (some name) line ts p k h v = take_label-Settles name ts p k h v
  parse_token-Settles token_label none line ts p k h v = undefined-Settles Leaves
  parse_token-Settles token_local_label (some name) line ts p k h v =
      take_label-Settles name ts p k h v
  parse_token-Settles token_local_label none line ts p k h v = undefined-Settles Leaves
  parse_token-Settles token_identifier (some name) line ts p k h v =
      take_instruction-Settles name line ts p k h v
  parse_token-Settles token_identifier none line ts p k h v = undefined-Settles Leaves
  parse_token-Settles _ value line ts p k h v = k ts p h v

  parse_round-Settles :
      (ts : TokenStream) (p : Program)
      → Continues
      → length ts ≤ n
      → IsAssembled p
      → Settles Leaves (parse_round again ts p)
  unfolding parse_round
  parse_round-Settles [] p k h v = ok-Settles Leaves (true, p) v
  parse_round-Settles (t ∷ ts) p k h v =
      if-Settles Leaves (is_eof t.type) _ _ (λ e. ok-Settles Leaves (true, p) v)
        (λ e. parse_token-Settles t.type t.value t.line ts p k (omega (arith, h)) v)

-- The loop of `parse_program` ends if it is given one round more than there are tokens, and leaves an
-- assembled program from an assembled one, also when it stops at an error.
pub parse_loop-Settles :
    (n : ℕ) (ts : TokenStream) (p : Program)
    → length ts < n
    → IsAssembled p
    → Settles Leaves (parse_loop n ts p)
unfolding parse_loop Continues
parse_loop-Settles zero ts p h v = absurd (omega (arith, h))
parse_loop-Settles (suc n) ts p h v =
    if-Settles Leaves (token_stream_match ts is_eof) _ _ (λ e. ok-Settles Leaves (true, p) v)
      (λ e.
        parse_round-Settles n (parse_loop n) (token_stream_skip_newlines ts) p
          (parse_loop-Settles n) (omega (arith, h, length-skip_newlines ts)) v)

parse_text-Settles : (text : Str) (p : Program) → IsAssembled p → Settles Leaves (parse_text text p)
parse_text-Settles text p v =
    >>=-Settles Leaves (λ ts. Unit) _ _ (some-Settles _ (tokenize text) (any_result _))
      (λ ts w. parse_loop-Settles (suc (length ts)) ts p (omega arith) v)

first_preprocessor-IsBuffered : IsBuffered first_preprocessor
unfolding first_preprocessor preprocessor_add_include_path preprocessor_create
first_preprocessor-IsBuffered = record {
  names = tt;
  defines_fit = tt;
  mappings_fit = tt;
  label_fits = omega arith;
}

first_preprocessor-depth : first_preprocessor.preprocessing_depth ≡ 0
unfolding first_preprocessor preprocessor_add_include_path preprocessor_create
first_preprocessor-depth = refl

parse_preprocessed-Settles :
    (p : Program) (r : Option Str × Preprocessor)
    → IsAssembled p
    → Settles Leaves (parse_preprocessed p r)
parse_preprocessed-Settles p (none, pp) v = ok-Settles Leaves (false, p) v
parse_preprocessed-Settles p (some text, pp) v = parse_text-Settles text p v

-- Whatever the files hold, `parse_program` ends. Unless it runs into what C does not define, such as a
-- string that overflows its buffer or an operand without a text, it leaves an assembled program from an
-- assembled one, also when it answers 0.
pub parse_program-IsAssembled :
    (read_file : Str → Option Str) (vm : OrtaVm) (filename : Str)
    → IsAssembled vm.program
    → Settles (λ r. IsAssembled (r.1).program) (parse_program read_file vm filename)
unfolding parse_program
parse_program-IsAssembled read_file vm filename v =
    let P = λ (r : Bool × OrtaVm). IsAssembled (r.1).program in
    >>=-Settles P Leaves _ _
      (>>=-Settles Leaves (Included first_preprocessor.preprocessing_depth) _ _
        (preprocess_file-Included read_file 7 first_preprocessor filename
          first_preprocessor-IsBuffered (omega (arith, first_preprocessor-depth))
          (omega (arith, first_preprocessor-depth)))
        (λ r w. parse_preprocessed-Settles vm.program r v))
      (λ (b, q) w. ok-Settles P (b, with_program vm q) w)
