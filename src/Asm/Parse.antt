-- ===== src/Asm/Parse.antt =====
-- `parse_program` of src/asm.h. Its loop takes fuel. The answer is what it returns, and the program as it
-- left it.
pub mod Programs
pub mod Valid
use orta_vm.Prelude.{
  ℕ, zero, suc, ◌||◌, Bool, true, false, Option, none, some, List, [], ◌∷◌, ◌++◌, Str, codes,
  length, if◌then◌else◌,
}
use orta_vm.Result.{Result, ok, exit, undefined}
use orta_vm.Result.Fueled.{Fueled, ◌>>=◌}
use orta_vm.Instruction.{
  Instruction, ArgRequirement, parse_instruction, instruction_expected_args, validate_arg_count,
}
use orta_vm.Program.{Program, InstructionData, instructions_count, add_instruction, add_label}
use orta_vm.Vm.{OrtaVm, with_program}
use orta_vm.Asm.Lexer.{Token, TokenType, token_identifier, token_label, token_local_label, is_eof}
use orta_vm.Asm.Tokens.{
  TokenStream, tokenize, token_stream_peek, token_stream_advance, token_stream_match,
  token_stream_skip_newlines, is_newline, is_comment, is_comma,
}
use orta_vm.Asm.Defines.{Preprocessor, preprocessor_create, preprocessor_add_include_path}
use orta_vm.Asm.Preprocess.{preprocess_file}

-- What ends the operands.
abbrev pub ends_operands : TokenType → Bool
ends_operands type = is_newline type || is_eof type || is_comment type

-- `strdup(token->value)`, which reads through a null pointer if there is no value.
abbrev pub put_operand :
    Option Str → Result (List Str × TokenStream) → Result (List Str × TokenStream)
put_operand (some v) (ok (operands, ts)) = ok (v ∷ operands, ts)
put_operand (some v) (exit n) = exit n
put_operand (some v) undefined = undefined
put_operand none r = undefined

-- The operands, and the stream behind them.
unfoldable pub parse_operands : TokenStream → Result (List Str × TokenStream)
unfolding token_stream_match
parse_operands [] = ok ([], [])
parse_operands (t ∷ ts) =
    let rest = parse_operands ts in
    if ends_operands t.type
    then ok ([], t ∷ ts)
    else if is_comma t.type
    then rest
    else put_operand t.value rest

-- What follows a line: the rest of the loop.
abbrev pub Rest : Type 0
Rest = TokenStream → Program → Fueled (Bool × Program)

-- `add_label` at the address of the next instruction.
abbrev pub take_label : Rest → Str → TokenStream → Program → Fueled (Bool × Program)
take_label again name ts p = some (add_label p name (instructions_count p)) >>= again ts

abbrev pub accepts : Instruction → ℕ → Bool
accepts i n = elim (instruction_expected_args i) [
  | none ↦ false
  | some req ↦ validate_arg_count req n
]

abbrev pub put_instruction :
    Rest → Instruction → ℕ → Program → List Str × TokenStream → Fueled (Bool × Program)
put_instruction again i line p (operands, ts) =
    if accepts i (length operands)
    then some (add_instruction p (record { opcode = i; operands = operands; line = line }))
      >>= again ts
    else some (ok (false, p))

abbrev pub take_instruction : Rest → Str → ℕ → TokenStream → Program → Fueled (Bool × Program)
take_instruction again name line ts p = elim (parse_instruction name) [
  | none ↦ some (ok (false, p))
  | some i ↦ some (parse_operands ts) >>= put_instruction again i line p
]

-- A token at the front of a line, and the stream behind it.
unfoldable pub parse_token :
    Rest → TokenType → Option Str → ℕ → TokenStream → Program → Fueled (Bool × Program)
unfolding parse_operands
parse_token again token_label (some name) line ts p = take_label again name ts p
parse_token again token_label none line ts p = some undefined
parse_token again token_local_label (some name) line ts p = take_label again name ts p
parse_token again token_local_label none line ts p = some undefined
parse_token again token_identifier (some name) line ts p = take_instruction again name line ts p
parse_token again token_identifier none line ts p = some undefined
parse_token again _ value line ts p = again ts p

-- A round behind the newlines and comments.
unfoldable pub parse_round : Rest → TokenStream → Program → Fueled (Bool × Program)
unfolding parse_token
parse_round again [] p = some (ok (true, p))
parse_round again (t ∷ ts) p =
    if is_eof t.type then some (ok (true, p)) else parse_token again t.type t.value t.line ts p

unfoldable pub parse_loop : ℕ → Rest
unfolding parse_round token_stream_match token_stream_skip_newlines
parse_loop zero ts p = none
parse_loop (suc n) ts p =
    if token_stream_match ts is_eof
    then some (ok (true, p))
    else parse_round (parse_loop n) (token_stream_skip_newlines ts) p

-- The preprocessor that `parse_program` and `orta_preprocess` begin with. Its paths are never searched.
unfoldable pub first_preprocessor : Preprocessor
unfolding preprocessor_create preprocessor_add_include_path
first_preprocessor =
    preprocessor_add_include_path (preprocessor_add_include_path preprocessor_create (codes "."))
      (codes "~/.orta/")

-- A round takes a token at least, so one round more than there are tokens is enough.
abbrev pub parse_text : Str → Program → Fueled (Bool × Program)
parse_text text p = some (tokenize text) >>= λ stream. parse_loop (suc (length stream)) stream p

-- The parse of the preprocessed file, or 0 if it could not be read.
abbrev pub parse_preprocessed : Program → Option Str × Preprocessor → Fueled (Bool × Program)
parse_preprocessed p (none, pp) = some (ok (false, p))
parse_preprocessed p (some text, pp) = parse_text text p

-- Seven levels of files are fuel enough for the preprocessor.
unfoldable pub parse_program : (Str → Option Str) → OrtaVm → Str → Fueled (Bool × OrtaVm)
unfolding preprocess_file first_preprocessor tokenize parse_loop
parse_program read_file vm filename =
    preprocess_file read_file 7 first_preprocessor filename
    >>= parse_preprocessed vm.program
    >>= λ (parsed, p). some (ok (parsed, with_program vm p))

-- What `orta_preprocess` returns and writes, if the output file opens.
abbrev pub written : Bool → Option Str × Preprocessor → Bool × Option Str
written opens (none, pp) = (false, none)
written opens (some text, pp) =
    if◌then◌else◌ {A = Bool × Option Str} opens (true, some text) (false, none)

unfoldable pub orta_preprocess : (Str → Option Str) → Bool → Str → Fueled (Bool × Option Str)
unfolding preprocess_file first_preprocessor
orta_preprocess read_file opens filename =
    preprocess_file read_file 7 first_preprocessor filename >>= λ r. some (ok (written opens r))
