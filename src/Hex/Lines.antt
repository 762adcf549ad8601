-- ===== src/Hex/Lines.antt =====
-- The lines of a dump of src/libs/xhex.h, and what the reverse reads of one.
use mathlib.Core.List.{append_assoc}
use orta_vm.Prelude.{
  ℕ, zero, suc, ◌+◌, ◌-◌, ◌*◌, ◌/◌, ◌%◌, ◌≤◌, ◌<◌, ◌≡◌, refl, ap, ◌∙◌, arith, Bool, true, false,
  some, List, [], ◌∷◌, ◌++◌, Str, codes, length, map, replicate, ltb, ◌==◌, if◌then◌else◌, isspace,
  All, All-append, Bool-cases, inl, inr, length-append,
}
use orta_vm.Asm.Lexer.{isxdigit}
use orta_vm.Hex.{
  Options, xhex_to_printable, xhex_to_hex_char, xhex_byte_to_hex, hex_value, xhex_hex_to_byte,
  hex_digits, print_offset, group_end, cell, blank_cell, cells, ascii, after_offset, line_bytes,
  read_line,
}

-- A dump of a whole file that is not C text; these are the options that are left.
abbrev pub whole_file : Bool → Bool → Bool → ℕ → ℕ → Options
whole_file show_ascii uppercase include_header columns group_size = record {
  show_ascii = show_ascii;
  uppercase = uppercase;
  include_header = include_header;
  columns = columns;
  group_size = group_size;
  start_offset = 0;
  limit = 0;
  var_name = [];
  c_style_output = false;
}

abbrev pub AreBytes : List ℕ → Type 0
AreBytes bs = All (λ b. b < 256) bs

-- A digit is read back, and is neither a blank nor a bar nor a colon nor a newline.
pub record IsDigit (c v : ℕ) : Type 0 where
  pub reads : hex_value c ≡ some v
  pub is_digit : isxdigit c ≡ true
  pub is_no_space : isspace c ≡ false
  pub is_no_bar : (c == b'|') ≡ false
  pub is_no_colon : (c == b':') ≡ false
  pub is_no_newline : (c == b'\n') ≡ false

pub xhex_to_hex_char-IsDigit : (n : ℕ) (u : Bool) → IsDigit (xhex_to_hex_char n u) (n % 16)
unfolding xhex_to_hex_char hex_value
xhex_to_hex_char-IsDigit n true = record {
  reads = ground arith;
  is_digit = ground arith;
  is_no_space = ground arith;
  is_no_bar = ground arith;
  is_no_colon = ground arith;
  is_no_newline = ground arith;
}
xhex_to_hex_char-IsDigit n false = record {
  reads = ground arith;
  is_digit = ground arith;
  is_no_space = ground arith;
  is_no_bar = ground arith;
  is_no_colon = ground arith;
  is_no_newline = ground arith;
}

-- Two digits of a byte are read as the byte.
pub pair-line_bytes :
    (b : ℕ) (u : Bool) (t : Str)
    → b < 256
    → line_bytes false (xhex_byte_to_hex b u ++ t) ≡ b ∷ line_bytes false t
unfolding line_bytes xhex_byte_to_hex xhex_hex_to_byte
pair-line_bytes b u t h =
    let high = xhex_to_hex_char-IsDigit (b / 16) u in
    let low = xhex_to_hex_char-IsDigit b u in
    let whole : b / 16 % 16 * 16 + b % 16 ≡ b = omega arith in
    rw (high.is_no_space, high.is_no_bar, high.is_digit, low.is_digit, high.reads, low.reads)
      (ap (λ v. v ∷ line_bytes false t) whole)

blank-line_bytes : (t : Str) → line_bytes false (b' ' ∷ t) ≡ line_bytes false t
unfolding line_bytes
blank-line_bytes [] = refl
blank-line_bytes (c ∷ t) = refl

group-line_bytes :
    (b : Bool) (t : Str)
    → line_bytes false ((if b then codes " " else []) ++ t) ≡ line_bytes false t
group-line_bytes true t = blank-line_bytes t
group-line_bytes false t = refl

blanks-line_bytes :
    (o : Options) (i : ℕ) (t : Str) → line_bytes false (group_end o i ++ t) ≡ line_bytes false t
unfolding group_end
blanks-line_bytes o i t = group-line_bytes _ t

module _ (show_ascii uppercase include_header : Bool) (columns group_size : ℕ) where
  abbrev pub o : Options
  o = whole_file show_ascii uppercase include_header columns group_size

  cell-line_bytes :
      (last : Bool) (i b : ℕ) (t : Str)
      → b < 256
      → line_bytes false (cell o last i b ++ t) ≡ b ∷ line_bytes false t
  unfolding cell
  cell-line_bytes last i b t h = rw append_assoc (
      blank-line_bytes (xhex_byte_to_hex b uppercase ++ (group_end o i ++ t))
      ∙ pair-line_bytes b uppercase (group_end o i ++ t) h
      ∙ ap (λ v. b ∷ v) (blanks-line_bytes o i t))

  blank_cell-line_bytes :
      (i : ℕ) (t : Str) → line_bytes false (blank_cell o i ++ t) ≡ line_bytes false t
  unfolding blank_cell
  blank_cell-line_bytes i t =
      blank-line_bytes _ ∙ blank-line_bytes _ ∙ blank-line_bytes _ ∙ blanks-line_bytes o i t

  pub cells-line_bytes :
      (ends : Bool) (left i : ℕ) (bs : List ℕ) (t : Str)
      → length bs ≤ left
      → AreBytes bs
      → line_bytes false (cells o ends left i bs ++ t) ≡ bs ++ line_bytes false t
  unfolding cells
  cells-line_bytes ends zero i [] t h k = refl
  cells-line_bytes ends zero i (b ∷ bs) t h k = absurd (omega (arith, h))
  cells-line_bytes ends (suc left) i [] t h k =
      rw append_assoc
        (blank_cell-line_bytes i _ ∙ cells-line_bytes ends left (i + 1) [] t (omega arith) k)
  cells-line_bytes ends (suc left) i (b ∷ []) t h (k, ks) = rw append_assoc (
      cell-line_bytes ends i b _ k
      ∙ ap (λ v. b ∷ v) (cells-line_bytes ends left (i + 1) [] t (omega arith) ks))
  cells-line_bytes ends (suc left) i (b ∷ b' ∷ bs) t h (k, ks) = rw append_assoc (
      cell-line_bytes false i b _ k
      ∙ ap (λ v. b ∷ v) (cells-line_bytes ends left (i + 1) (b' ∷ bs) t (omega (arith, h)) ks))

-- What is printed for a byte is no newline.
abbrev pub NoNewline : Str → Type 0
NoNewline s = All (λ c. (c == b'\n') ≡ false) s

pub printable-NoNewline : (bs : List ℕ) → NoNewline (map xhex_to_printable bs)
unfolding xhex_to_printable
printable-NoNewline [] = tt
printable-NoNewline (b ∷ bs) = (ground arith, printable-NoNewline bs)

skipped-line_bytes : (s t : Str) → NoNewline s → line_bytes true (s ++ t) ≡ line_bytes true t
unfolding line_bytes
skipped-line_bytes [] t h = refl
skipped-line_bytes (c ∷ s) t (h, hs) = rw h (skipped-line_bytes s t hs)

bar-line_bytes : (s : Str) → line_bytes false (b' ' ∷ b'|' ∷ s) ≡ line_bytes true s
unfolding line_bytes
bar-line_bytes [] = refl
bar-line_bytes (c ∷ s) = refl

last_bar-line_bytes : line_bytes true (b'|' ∷ b'\n' ∷ []) ≡ []
unfolding line_bytes
last_bar-line_bytes = refl

newline-line_bytes : line_bytes false (b'\n' ∷ []) ≡ []
unfolding line_bytes
newline-line_bytes = refl

shown-line_bytes :
    (b : Bool) (s : Str)
    → NoNewline s
    → line_bytes false ((if b then codes " |" ++ (s ++ codes "|") else []) ++ (b'\n' ∷ [])) ≡ []
shown-line_bytes true s h =
    bar-line_bytes ((s ++ codes "|") ++ (b'\n' ∷ []))
    ∙ ap (line_bytes true) (append_assoc s (codes "|") (b'\n' ∷ []))
    ∙ skipped-line_bytes s (codes "|" ++ (b'\n' ∷ [])) h
    ∙ last_bar-line_bytes
shown-line_bytes false s h = newline-line_bytes

pub ascii-line_bytes :
    (p : Options) (bs : List ℕ) → line_bytes false (ascii p bs ++ (b'\n' ∷ [])) ≡ []
unfolding ascii
ascii-line_bytes p bs = shown-line_bytes _ (map xhex_to_printable bs) (printable-NoNewline bs)

-- Neither a colon nor a newline is a digit of an offset.
abbrev pub NoColon : Str → Type 0
NoColon s = All (λ c. (c == b':') ≡ false) s

-- What `read_line` and `after_offset` take for granted of the text in front of a line.
abbrev pub Plain : Str → Type 0
Plain s = NoColon s × NoNewline s

hex_digits-Plain : (f n : ℕ) → Plain (hex_digits f n) × (length (hex_digits f n) ≤ f)
unfolding hex_digits
hex_digits-Plain zero n = ((tt, tt), omega arith)
hex_digits-Plain (suc f) n =
    let digit = xhex_to_hex_char-IsDigit n false in
    let ((colons, newlines), h) = hex_digits-Plain f (n / 16) in
    let text = hex_digits f (n / 16) in
    elim (Bool-cases (ltb n 16)) [
      | inl e ↦ rw e (((digit.is_no_colon, tt), (digit.is_no_newline, tt)), omega arith)
      | inr e ↦ rw e (
        (
          All-append _ text _ colons (digit.is_no_colon, tt),
          All-append _ text _ newlines (digit.is_no_newline, tt),
        ),
        omega (arith, h, length-append text (xhex_to_hex_char n false ∷ [])),
      )
    ]

zeros-Plain : (n : ℕ) → Plain (replicate n b'0') × (length {A = ℕ} (replicate n b'0') ≡ n)
zeros-Plain zero = ((tt, tt), refl)
zeros-Plain (suc n) = let ((a, b), e) = zeros-Plain n in (((refl, a), (refl, b)), ap suc e)

pub print_offset-Plain : (n : ℕ) → Plain (print_offset n) × (length (print_offset n) ≤ 24)
unfolding print_offset
print_offset-Plain n =
    let text = hex_digits 16 n in
    let zeros : Str = replicate (8 - length text) b'0' in
    let ((a, b), h) = hex_digits-Plain 16 n in
    let ((c, d), e) = zeros-Plain (8 - length text) in
    (
      (All-append _ zeros text c a, All-append _ zeros text d b),
      omega (arith, h, e, length-append zeros text),
    )

pub after_offset-colon : (s t : Str) → NoColon s → after_offset (s ++ b':' ∷ t) ≡ t
unfolding after_offset
after_offset-colon [] t h = refl
after_offset-colon (c ∷ s) t (h, hs) = rw h (after_offset-colon s t hs)

-- A line of fewer characters than there is room for is read with its newline.
pub read_line-append :
    (room : ℕ) (s t : Str)
    → NoNewline s
    → length s < room
    → read_line room (s ++ b'\n' ∷ t) ≡ (s ++ (b'\n' ∷ []), t)
unfolding read_line
read_line-append zero s t h k = absurd (omega (arith, k))
read_line-append (suc room) [] t h k = refl
read_line-append (suc room) (c ∷ s) t (h, hs) k =
    rw (h, read_line-append room s t hs (omega (arith, k))) refl
