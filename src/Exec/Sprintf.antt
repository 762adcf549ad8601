-- ===== src/Exec/Sprintf.antt =====
-- The handler of `sprintf`. What `snprintf` writes for a single conversion is an argument.
use orta_vm.Prelude.{
  ℕ, suc, ◌+◌, ◌&&◌, ◌||◌, not, Bool, true, false, Option, none, some, List, [], ◌∷◌, ◌++◌, Str,
  codes, length, ltb, ◌==◌, isalpha, if◌then◌else◌,
}
use mathlib.Core.List.{reverse}
use orta_vm.Result.{Result, ok, undefined, eerror, ◌>>=◌}
use orta_vm.Heap.{Heap, load_string, new_string, free}
use orta_vm.Word.{
  Word, WordType, wint, wfloat, wcharp, w_char, wpointer, wbool, unknown, is_type, as_int, as_float,
  as_char, string_word,
}
use orta_vm.Stack.{xstack_check}
use orta_vm.Program.{InstructionData}
use orta_vm.Platform.{Platform}
use orta_vm.Vm.{OrtaVm, with_stack, with_heap, push_word, pop_word}
use orta_vm.Asm.Lexer.{lexer_peek}
use orta_vm.Exec.Text.{print_int}
use orta_vm.Exec.StackOps.{pop_many}

-- A `%` that another does not follow.
abbrev pub begins_conversion : ℕ → Str → Bool
begins_conversion c s = c == b'%' && not (lexer_peek s == b'%')

-- What ends a conversion.
abbrev pub ends_conversion : ℕ → Bool
ends_conversion c = isalpha c || c == b'%'

abbrev pub one_more : Result ℕ → Result ℕ
one_more r = r >>= λ n. ok (suc n)

-- The loop that counts the conversions; `inside` one. A conversion without an end is followed past the
-- terminator. The second of two `%` is looked at once more.
unfoldable pub count_arguments : Bool → Str → Result ℕ
unfolding lexer_peek
count_arguments true [] = undefined
count_arguments false [] = ok 0
count_arguments true (c ∷ s) =
    if ends_conversion c then count_arguments false s else count_arguments true s
count_arguments false (c ∷ s) =
    if begins_conversion c s then one_more (count_arguments true s) else count_arguments false s

-- The value of a word as an argument of `snprintf`.
pub data Argument : Type 0 where
  int_argument : ℕ → Argument
  float_argument : ℕ → Argument
  string_argument : Str → Argument
  char_argument : ℕ → Argument
  pointer_argument : ℕ → Argument

abbrev pub as_bool : Word → Bool
as_bool w = not (w.bits == 0)

abbrev pub bool_name : Bool → Str
bool_name b = if b then codes "true" else codes "false"

-- A string of the heap, with a text for the null pointer.
abbrev pub string_or : Str → Word → Heap → Result Str
string_or text w h = if w.bits == 0 then ok text else load_string w.bits h

-- The type `unknown` is passed over.
unfoldable pub argument_of : WordType → Word → Heap → Result (Option Argument)
argument_of wint w h = ok (some (int_argument (as_int w)))
argument_of wfloat w h = ok (some (float_argument (as_float w)))
argument_of wcharp w h = string_or (codes "(null)") w h >>= λ s. ok (some (string_argument s))
argument_of w_char w h = ok (some (char_argument (as_char w)))
argument_of wpointer w h = ok (some (pointer_argument w.bits))
argument_of wbool w h = ok (some (string_argument (bool_name (as_bool w))))
argument_of unknown w h = ok none

-- Where the loop that writes stands: between conversions, behind the first of two `%`, or in a conversion
-- with these characters so far.
pub data Mode : Type 0 where
  plain : Mode
  doubled : Mode
  conversion : Str → Mode

abbrev pub in_front : Str → Result Str → Result Str
in_front s r = r >>= λ t. ok (s ++ t)

-- The strings of the arguments, given back.
unfoldable pub free_strings : List Word → Heap → Result Heap
free_strings [] h = ok h
free_strings (w ∷ ws) h =
    if is_type wcharp w && not (w.bits == 0)
    then free w.bits h >>= free_strings ws
    else free_strings ws h

module _ (pf : Platform) (snprintf : Str → Argument → Result Str) where
  -- The bytes that are reserved for an argument.
  unfoldable pub argument_size : WordType → Word → Heap → Result ℕ
  argument_size wint w h = ok (length (print_int (as_int w)))
  argument_size wfloat w h = ok (length (pf.floats.show (as_float w)))
  argument_size wcharp w h = string_or (codes "NULL") w h >>= λ s. ok (length s)
  argument_size w_char w h = ok 1
  argument_size wpointer w h = ok (length (pf.show_pointer w.bits))
  argument_size wbool w h = ok (length (bool_name (as_bool w)))
  argument_size unknown w h = eerror

  unfoldable pub arguments_size : List Word → Heap → Result ℕ
  unfolding argument_size
  arguments_size [] h = ok 0
  arguments_size (w ∷ ws) h = do n ← argument_size w.type w h; m ← arguments_size ws h; ok (n + m)

  -- One conversion: the specifier is in a buffer of 32 bytes.
  unfoldable pub convert : Str → Word → Heap → Result Str
  unfolding argument_of
  convert specifier w h =
      if ltb (length specifier) 32
      then (argument_of w.type w h >>= λ a. elim a [ none ↦ ok [] | some x ↦ snprintf specifier x ])
      else undefined

  abbrev pub convert_next : Str → List Word → Heap → Result Str
  convert_next specifier [] h = undefined
  convert_next specifier (w ∷ ws) h = convert specifier w h

  abbrev pub behind_first : List Word → List Word
  behind_first [] = []
  behind_first (w ∷ ws) = ws

  unfoldable pub render : Mode → Str → List Word → Heap → Result Str
  unfolding convert lexer_peek
  render plain [] args h = ok []
  render doubled [] args h = ok []
  render (conversion k) [] args h = undefined
  render doubled (c ∷ s) args h = render plain s args h
  render plain (c ∷ s) args h =
      if begins_conversion c s
      then render (conversion []) s args h
      else if c == b'%'
      then in_front (c ∷ []) (render doubled s args h)
      else in_front (c ∷ []) (render plain s args h)
  render (conversion k) (c ∷ s) args h =
      if ends_conversion c
      then (convert_next (b'%' ∷ (k ++ (c ∷ []))) args h >>= λ text.
          in_front text (render plain s (behind_first args) h))
      else render (conversion (k ++ (c ∷ []))) s args h

  -- The text, if it fits with its terminator in the bytes that are reserved. Nothing is cut off then. The sizes
  -- are taken not to overflow an `int`.
  abbrev pub formatted : Str → List Word → Heap → Result Str
  formatted fmt args h = do
    n ← arguments_size args h
    text ← render plain fmt args h
    (if ltb (length text) (n + length fmt + 1) then ok text else undefined)

  -- The result is pushed before the strings are given back.
  abbrev pub push_formatted : OrtaVm → Word → List Word → Str → Result OrtaVm
  push_formatted vm format_word args text =
      let (p, h) = new_string text vm.heap in
      free_strings args h >>= λ h₁.
      free format_word.bits h₁ >>= λ h₂. ok (push_word (with_heap vm h₂) (string_word p))

  abbrev pub sprintf_with : OrtaVm → Word → Str → ℕ → Result OrtaVm
  sprintf_with vm format_word fmt n =
      if xstack_check vm.xpu.stack n
      then (let (ws, s) = pop_many n vm.xpu.stack in
          formatted fmt (reverse ws) vm.heap
          >>= push_formatted (with_stack vm s) format_word (reverse ws))
      else eerror

  unfoldable pub exec_sprintf : OrtaVm → InstructionData → Result OrtaVm
  unfolding count_arguments arguments_size render free_strings
  exec_sprintf vm instr =
      let (format_word, vm') = pop_word vm in
      if is_type wcharp format_word && not (format_word.bits == 0)
      then (do
        fmt ← load_string format_word.bits vm'.heap
        n ← count_arguments false fmt
        sprintf_with vm' format_word fmt n)
      else eerror
