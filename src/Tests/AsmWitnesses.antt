-- ===== src/Tests/AsmWitnesses.antt =====
-- The theorems on the assembler at concrete inputs.
use orta_vm.Prelude.{arith, false, [], ◌∷◌, codes}
use orta_vm.Result.Ensures.{Ensures}
use orta_vm.Result.Fueled.{Settles}
use orta_vm.Asm.Lexer.{Lexer, lexer_next_token}
use orta_vm.Asm.Lexer.Splits.{Reads, lexer_next_token-Reads}
use orta_vm.Asm.Tokens.{tokenize}
use orta_vm.Asm.Tokens.Stream.{Tokenizes, tokenize-Tokenizes}
use orta_vm.Asm.Defines.{Preprocessor, preprocessor_create, preprocessor_expand_defines}
use orta_vm.Asm.Defines.Expand.{Expanded, preprocessor_expand_defines-Expanded}
use orta_vm.Asm.Preprocess.{preprocess_file}
use orta_vm.Asm.Preprocess.Strings.{preprocessor_create-IsBuffered}
use orta_vm.Asm.Preprocess.Rounds.{Included}
use orta_vm.Asm.Preprocess.Buffers.{preprocess_file-Included}
use orta_vm.Asm.Parse.{parse_program}
use orta_vm.Asm.Parse.Valid.{parse_program-IsAssembled}
use orta_vm.Asm.Parse.Programs.{IsAssembled}
use orta_vm.Vm.{OrtaVm}
use orta_vm.Tests.Sample.{machine, program_of}
use orta_vm.Tests.Assembly.{files, written_text}

abbrev at_start : Lexer
at_start = record { input = codes " push 3"; line = 1; column = 1 }

lexer_next_token-Reads_example : Ensures (Reads at_start) (lexer_next_token at_start)
lexer_next_token-Reads_example = lexer_next_token-Reads at_start

tokenize-Tokenizes_example : Ensures (Tokenizes written_text) (tokenize written_text)
tokenize-Tokenizes_example = tokenize-Tokenizes written_text

abbrev one_define : Preprocessor
one_define = record {
  defines =
      record { name = codes "N"; value = codes "3"; is_function_macro = false; argc = 0 } ∷ [];
  include_paths = [];
  local_mappings = [];
  current_global_label = codes "__global";
  local_counter = 0;
  preprocessing_depth = 1;
}

preprocessor_expand_defines-Expanded_example :
    Expanded (preprocessor_expand_defines one_define (codes "N"))
preprocessor_expand_defines-Expanded_example =
    preprocessor_expand_defines-Expanded one_define (codes "N") (omega arith, tt) (omega arith)

preprocess_file-Included_example :
    Settles (Included 0) (preprocess_file files 7 preprocessor_create (codes "main"))
unfolding preprocessor_create
preprocess_file-Included_example =
    preprocess_file-Included files 7 preprocessor_create (codes "main")
      preprocessor_create-IsBuffered (omega arith) (omega arith)

abbrev empty_machine : OrtaVm
empty_machine = machine [] (program_of [] [])

parse_program-IsAssembled_example :
    Settles (λ r. IsAssembled (r.1).program) (parse_program files empty_machine (codes "main"))
parse_program-IsAssembled_example =
    parse_program-IsAssembled files empty_machine (codes "main")
      (record { room = omega arith; accepted = tt; lands = tt })
