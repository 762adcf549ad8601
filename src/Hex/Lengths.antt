-- ===== src/Hex/Lengths.antt =====
-- A line of a dump of src/libs/xhex.h has no newline, fits in the buffer of a line, and is read back as its bytes.
use mathlib.Core.List.{append_assoc, append-nil}
use orta_vm.Prelude.{
  ℕ, zero, suc, ◌+◌, ◌*◌, ◌/◌, ◌==◌, ◌≤◌, ◌≡◌, refl, ap, ◌∙◌, arith, Bool, true, false, List, [],
  ◌∷◌, ◌++◌, Str, codes, length, map, if◌then◌else◌, All-append, length-append,
}
use orta_vm.Hex.{
  Options, xhex_to_printable, xhex_byte_to_hex, xhex_print_header, group_end, cell, blank_cell,
  cells, ascii, dump_line, after_offset, line_bytes, print_offset,
}
use orta_vm.Hex.Lines.{
  whole_file, AreBytes, NoNewline, xhex_to_hex_char-IsDigit, cells-line_bytes, ascii-line_bytes,
  printable-NoNewline, print_offset-Plain, after_offset-colon,
}

-- A text without a newline, of at most so many characters.
pub record IsShort (n : ℕ) (s : Str) : Type 0 where
  pub no_newline : NoNewline s
  pub is_short : length s ≤ n

join-IsShort : (n m : ℕ) (s t : Str) → IsShort n s → IsShort m t → IsShort (n + m) (s ++ t)
join-IsShort n m s t h k = record {
  no_newline = All-append _ s t (h.no_newline) (k.no_newline);
  is_short = omega (arith, h.is_short, k.is_short, length-append s t);
}

blank-IsShort : (b : Bool) → IsShort 1 (if b then codes " " else [])
blank-IsShort true = record { no_newline = (refl, tt); is_short = omega arith }
blank-IsShort false = record { no_newline = tt; is_short = omega arith }

wider : (n m : ℕ) (s : Str) → n ≤ m → IsShort n s → IsShort m s
wider n m s le h = record { no_newline = h.no_newline; is_short = omega (arith, le, h.is_short) }

more :
    (k left : ℕ) (s t : Str) → IsShort k s → IsShort (k * left) t → IsShort (k * suc left) (s ++ t)
more k left s t h g =
    wider (k + k * left) (k * suc left) (s ++ t) (omega arith) (join-IsShort _ _ s t h g)

group_end-IsShort : (p : Options) (i : ℕ) → IsShort 1 (group_end p i)
unfolding group_end
group_end-IsShort p i = blank-IsShort _

hex-IsShort : (b : ℕ) (u : Bool) → IsShort 2 (xhex_byte_to_hex b u)
unfolding xhex_byte_to_hex
hex-IsShort b u =
    let high = xhex_to_hex_char-IsDigit (b / 16) u in
    let low = xhex_to_hex_char-IsDigit b u in
    record { no_newline = (high.is_no_newline, (low.is_no_newline, tt)); is_short = omega arith }

map-length : (bs : List ℕ) → length (map xhex_to_printable bs) ≡ length bs
map-length [] = refl
map-length (b ∷ bs) = ap suc (map-length bs)

shown-IsShort :
    (b : Bool) (n : ℕ) (s : Str)
    → IsShort n s
    → IsShort (n + 3) (if b then codes " |" ++ (s ++ codes "|") else [])
shown-IsShort true n s h = record {
  no_newline = (refl, (refl, All-append _ s (codes "|") (h.no_newline) (refl, tt)));
  is_short = omega (arith, h.is_short, length-append s (codes "|"));
}
shown-IsShort false n s h = record { no_newline = tt; is_short = omega arith }

ascii-IsShort : (p : Options) (bs : List ℕ) → IsShort (length bs + 3) (ascii p bs)
unfolding ascii
ascii-IsShort p bs =
    shown-IsShort _ (length bs) (map xhex_to_printable bs)
      (record { no_newline = printable-NoNewline bs; is_short = omega (arith, map-length bs) })

module _ (show_ascii uppercase include_header : Bool) (columns group_size : ℕ) where
  abbrev o : Options
  o = whole_file show_ascii uppercase include_header columns group_size

  cell-IsShort : (last : Bool) (i b : ℕ) → IsShort 4 (cell o last i b)
  unfolding cell
  cell-IsShort last i b =
      let hex = xhex_byte_to_hex b uppercase in
      let h = hex-IsShort b uppercase in
      let spaced : IsShort 3 (b' ' ∷ hex) = record {
        no_newline = (refl, h.no_newline);
        is_short = omega (arith, h.is_short);
      } in
      join-IsShort 3 1 (b' ' ∷ hex) (group_end o i) spaced (group_end-IsShort o i)

  blank_cell-IsShort : (i : ℕ) → IsShort 4 (blank_cell o i)
  unfolding blank_cell
  blank_cell-IsShort i =
      let blanks : IsShort 3 (codes "   ") = record {
        no_newline = (refl, (refl, (refl, tt)));
        is_short = omega arith;
      } in
      join-IsShort 3 1 (codes "   ") (group_end o i) blanks (group_end-IsShort o i)

  cells-IsShort :
      (ends : Bool) (left i : ℕ) (bs : List ℕ) → IsShort (4 * left) (cells o ends left i bs)
  unfolding cells
  cells-IsShort ends zero i bs = record { no_newline = tt; is_short = omega arith }
  cells-IsShort ends (suc left) i [] =
      more 4 left _ _ (blank_cell-IsShort i) (cells-IsShort ends left (i + 1) [])
  cells-IsShort ends (suc left) i (b ∷ []) =
      more 4 left _ _ (cell-IsShort ends i b) (cells-IsShort ends left (i + 1) [])
  cells-IsShort ends (suc left) i (b ∷ b' ∷ bs) =
      more 4 left _ _ (cell-IsShort false i b) (cells-IsShort ends left (i + 1) (b' ∷ bs))

  -- The header, or nothing.
  front : Bool → ℕ → Str
  front true offset = print_offset offset ++ codes ":"
  front false offset = []

  front-IsShort : (b : Bool) (offset : ℕ) → IsShort 25 (front b offset)
  unfolding front
  front-IsShort true offset =
      let ((_, newlines), h) = print_offset-Plain offset in
      join-IsShort 24 1 (print_offset offset) (codes ":")
        (record { no_newline = newlines; is_short = h })
        (record { no_newline = (refl, tt); is_short = omega arith })
  front-IsShort false offset = record { no_newline = tt; is_short = omega arith }

  dump_line-front :
      (b : Bool) (offset : ℕ) → (if b then xhex_print_header o offset else []) ≡ front b offset
  unfolding xhex_print_header front
  dump_line-front true offset = refl
  dump_line-front false offset = refl

  -- What the reverse reads behind the header.
  header-after_offset :
      (b : Bool) (offset : ℕ) (t : Str)
      → (if b then after_offset (front b offset ++ t) else (front b offset ++ t)) ≡ t
  unfolding front
  header-after_offset true offset t =
      let ((colons, _), _) = print_offset-Plain offset in
      rw append_assoc (after_offset-colon (print_offset offset) t colons)
  header-after_offset false offset t = refl

  pub dump_line-IsShort :
      (offset total : ℕ) (bs : List ℕ)
      → length bs ≤ columns
      → columns ≤ 150
      → IsShort 1000 (dump_line o offset total bs)
  unfolding dump_line
  dump_line-IsShort offset total bs h w =
      let c = cells-IsShort (total + length bs == 0) columns 0 bs in
      let a = ascii-IsShort o bs in
      let b = join-IsShort _ _ _ _ c a in
      rw dump_line-front (
        wider _ 1000 _ (omega (arith, h, w))
          (join-IsShort _ _ _ _ (front-IsShort include_header offset) b))

  pub dump_line-line_bytes :
      (offset total : ℕ) (bs : List ℕ)
      → length bs ≤ columns
      → AreBytes bs
      → line_bytes false (
          if include_header
          then after_offset (dump_line o offset total bs ++ (b'\n' ∷ []))
          else (dump_line o offset total bs ++ (b'\n' ∷ [])))
        ≡ bs
  unfolding dump_line
  dump_line-line_bytes offset total bs h k =
      let text = cells o (total + length bs == 0) columns 0 bs in
      rw (dump_line-front, append_assoc, header-after_offset, append_assoc)
        (cells-line_bytes show_ascii uppercase include_header columns group_size
            (total + length bs == 0) columns 0 bs _ h k
          ∙ ap (λ t. bs ++ t) (ascii-line_bytes o bs)
          ∙ append-nil bs)
