-- ===== src/Hex.antt =====
-- The hexadecimal dump of src/libs/xhex.h and its reverse. Input and output are lists of bytes; a text that is
-- read back has no NUL, at which the reverse would leave the line.
pub mod Lines
pub mod Lengths
pub mod RoundTrip
use orta_vm.Prelude.{
  ℕ, zero, suc, ◌+◌, ◌-◌, ◌*◌, ◌/◌, ◌%◌, ◌^◌, Bool, true, false, not, ◌&&◌, ◌||◌, Option, none,
  some, List, [], ◌∷◌, ◌++◌, Str, codes, length, take, drop, map, replicate, ltb, leb, ◌==◌,
  if◌then◌else◌, isspace,
}
use orta_vm.Number.{digits}
use orta_vm.Asm.Lexer.{isxdigit}

-- The options that the two functions read.
pub record Options : Type 0 where
  pub show_ascii : Bool
  pub uppercase : Bool
  pub include_header : Bool
  pub columns : ℕ
  pub group_size : ℕ
  pub start_offset : ℕ
  pub limit : ℕ
  pub var_name : Str
  pub c_style_output : Bool

unfoldable pub xhex_to_printable : ℕ → ℕ
xhex_to_printable c = if leb 32 c && leb c 126 then c else b'.'

unfoldable pub xhex_to_hex_char : ℕ → Bool → ℕ
xhex_to_hex_char nibble uppercase =
    let low = nibble % 16 in
    if ltb low 10 then b'0' + low else (if uppercase then b'A' else b'a') + (low - 10)

unfoldable pub xhex_byte_to_hex : ℕ → Bool → Str
unfolding xhex_to_hex_char
xhex_byte_to_hex byte uppercase =
    xhex_to_hex_char (byte / 16) uppercase ∷ xhex_to_hex_char byte uppercase ∷ []

-- The value of one digit.
unfoldable pub hex_value : ℕ → Option ℕ
hex_value c =
    if leb b'0' c && leb c b'9'
    then some (c - b'0')
    else if leb b'a' c && leb c b'f'
    then some (c - b'a' + 10)
    else if leb b'A' c && leb c b'F'
    then some (c - b'A' + 10)
    else none

-- `none` is -1.
unfoldable pub xhex_hex_to_byte : ℕ → ℕ → Option ℕ
unfolding hex_value
xhex_hex_to_byte c d = elim (hex_value c) [
  | none ↦ none
  | some high ↦ elim (hex_value d) [ none ↦ none | some low ↦ some (high * 16 + low) ]
]

-- Hexadecimal digits, the highest first; `f` at most.
unfoldable pub hex_digits : ℕ → ℕ → Str
unfolding xhex_to_hex_char
hex_digits zero n = []
hex_digits (suc f) n =
    let front = hex_digits f (n / 16) in
    if ltb n 16 then xhex_to_hex_char n false ∷ [] else front ++ (xhex_to_hex_char n false ∷ [])

-- `"%08lx"`
unfoldable pub print_offset : ℕ → Str
unfolding hex_digits
print_offset n = let text = hex_digits 16 n in replicate (8 - length text) b'0' ++ text

unfoldable pub xhex_print_header : Options → ℕ → Str
unfolding print_offset
xhex_print_header o offset =
    if o.c_style_output
    then codes "  /* " ++ (print_offset offset ++ codes " */")
    else print_offset offset ++ codes ":"

-- The blank behind a group.
unfoldable pub group_end : Options → ℕ → Str
group_end o i =
    if ltb 0 o.group_size && (elim o.group_size [ zero ↦ false | suc k ↦ (i + 1) % suc k == 0 ])
    then codes " "
    else []

-- The byte in column `i`; `last` is whether no comma stands behind it.
unfoldable pub cell : Options → Bool → ℕ → ℕ → Str
unfolding xhex_byte_to_hex group_end
cell o last i byte =
    let hex = xhex_byte_to_hex byte o.uppercase in
    let text =
      if o.c_style_output
      then codes "0x" ++ (hex ++ ((if last then [] else codes ",") ++ codes " "))
      else b' ' ∷ hex in
    text ++ group_end o i

-- A column without a byte.
unfoldable pub blank_cell : Options → ℕ → Str
unfolding group_end
blank_cell o i = if o.c_style_output then [] else codes "   " ++ group_end o i

-- The loop over the columns from `i` on, of which `left` are left; `ends` is whether the last byte of the
-- line is the last of all.
unfoldable pub cells : Options → Bool → ℕ → ℕ → List ℕ → Str
unfolding cell blank_cell
cells o ends zero i bytes = []
cells o ends (suc left) i [] = blank_cell o i ++ cells o ends left (i + 1) []
cells o ends (suc left) i (b ∷ []) = cell o ends i b ++ cells o ends left (i + 1) []
cells o ends (suc left) i (b ∷ b' ∷ bs) = cell o false i b ++ cells o ends left (i + 1) (b' ∷ bs)

unfoldable pub ascii : Options → List ℕ → Str
unfolding xhex_to_printable
ascii o bytes =
    if o.show_ascii && not o.c_style_output
    then codes " |" ++ (map xhex_to_printable bytes ++ codes "|")
    else []

-- A line of the dump, without the newline.
unfoldable pub dump_line : Options → ℕ → ℕ → List ℕ → Str
unfolding xhex_print_header cells ascii
dump_line o offset total bytes =
    (if o.include_header then xhex_print_header o offset else [])
    ++ (cells o (total + length bytes == o.limit) o.columns 0 bytes ++ ascii o bytes)

-- What a read of `bytes` leaves to dump when a limit is set.
unfoldable pub within_limit : Options → ℕ → List ℕ → List ℕ
within_limit o total bytes =
    if ltb 0 o.limit && ltb o.limit (total + length bytes)
    then take (o.limit - total) bytes
    else bytes

-- The loop of `xhex_print_hex_dump`, and the number of bytes dumped; `none` is that the fuel ran out.
unfoldable pub dump_loop : ℕ → Options → ℕ → List ℕ → Option (Str × ℕ)
unfolding dump_line within_limit
dump_loop zero o total input = none
dump_loop (suc f) o total input = elim (within_limit o total (take o.columns input)) [
  | [] ↦ some ([], total)
  | b ∷ bs ↦
      let total' = total + length (b ∷ bs) in
      let line = dump_line o (o.start_offset + total) total (b ∷ bs) ++ codes "\n" in
      elim (ltb 0 o.limit && leb o.limit total') [
        | true ↦ some (line, total')
        | false ↦ elim (dump_loop f o total' (drop o.columns input)) [
          | none ↦ none
          | some (text, end) ↦ some (line ++ text, end)
        ]
      ]
]

unfoldable pub xhex_print_hex_dump : Options → List ℕ → Option Str
unfolding dump_loop
xhex_print_hex_dump o input = elim (dump_loop (length input + 1) o 0 (drop o.start_offset input)) [
  | none ↦ none
  | some (text, total) ↦ some (
      if o.c_style_output
      then codes "unsigned char "
        ++ (o.var_name
            ++ (codes "[] = {\n"
                ++ (text
                    ++ (codes "};\nconst size_t "
                        ++ (o.var_name
                            ++ (codes "_size = " ++ (digits 20 total ++ codes ";\n")))))))
      else text)
]

-- `fgets` into a buffer with room for as many characters: the line with its newline, and what is left.
unfoldable pub read_line : ℕ → Str → Str × Str
read_line room [] = ([], [])
read_line zero (c ∷ s) = ([], c ∷ s)
read_line (suc room) (c ∷ s) =
    let (line, rest) = read_line room s in if c == b'\n' then (c ∷ [], s) else (c ∷ line, rest)

-- The text behind the first colon, if there is one.
unfoldable pub after_offset : Str → Str
after_offset [] = []
after_offset (c ∷ s) = if c == b':' then s else after_offset s

-- The loop over a line; `skipping` is whether it is in the text behind a bar.
unfoldable pub line_bytes : Bool → Str → List ℕ
unfolding xhex_hex_to_byte
line_bytes skipping [] = []
line_bytes true (c ∷ s) =
    let text = line_bytes true s in let end = line_bytes false s in if c == b'\n' then end else text
line_bytes false (c ∷ []) = []
line_bytes false (c ∷ d ∷ s) =
    let next = line_bytes false (d ∷ s) in
    let bar = line_bytes true (d ∷ s) in
    let pair = line_bytes false s in
    if isspace c
    then next
    else if c == b'|'
    then bar
    else if isxdigit c && isxdigit d
    then elim (xhex_hex_to_byte c d) [ none ↦ pair | some b ↦ b ∷ pair ]
    else next

-- The buffer of 1024 bytes and what was written.
pub record Sink : Type 0 where
  pub buffer : List ℕ
  pub output : List ℕ

unfoldable pub put_byte : Sink → ℕ → Sink
put_byte k b =
    if leb 1024 (length k.buffer + 1)
    then record { buffer = []; output = k.output ++ (k.buffer ++ (b ∷ [])) }
    else record { buffer = k.buffer ++ (b ∷ []); output = k.output }

unfoldable pub put_decoded : Sink → List ℕ → Sink
unfolding put_byte
put_decoded k [] = k
put_decoded k (b ∷ bs) = put_decoded (put_byte k b) bs

-- The loop of `xhex_reverse_hex_dump`; `none` is that the fuel ran out.
unfoldable pub reverse_loop : ℕ → Options → Sink → Str → Option Sink
unfolding read_line after_offset line_bytes put_decoded
reverse_loop f o k [] = some k
reverse_loop zero o k (c ∷ s) = none
reverse_loop (suc f) o k (c ∷ s) =
    let (line, rest) = read_line 1023 (c ∷ s) in
    let text = if o.include_header then after_offset line else line in
    reverse_loop f o (put_decoded k (line_bytes false text)) rest

-- What is left in the buffer is written at the end.
unfoldable pub xhex_reverse_hex_dump : Options → Str → Option (List ℕ)
unfolding reverse_loop
xhex_reverse_hex_dump o input =
    elim (reverse_loop (length input) o (record { buffer = []; output = [] }) input) [
      | none ↦ none
      | some k ↦ some (k.output ++ k.buffer)
    ]
