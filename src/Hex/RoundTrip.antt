-- ===== src/Hex/RoundTrip.antt =====
-- The reverse of a dump of src/libs/xhex.h is the file.
use mathlib.Core.List.{append_assoc, append-nil}
use orta_vm.Prelude.{
  ℕ, zero, suc, ◌+◌, ◌≤◌, ◌<◌, ◌≡◌, refl, sym, ap, ◌∙◌, arith, Bool, false, Option, none, some,
  List, [], ◌∷◌, ◌++◌, Str, length, take, drop, leb, if◌then◌else◌, length-append, length-take,
  length-drop, Bool-cases, inl, inr,
}
use orta_vm.Hex.{
  Options, dump_line, within_limit, dump_loop, xhex_print_hex_dump, read_line, after_offset,
  line_bytes, Sink, put_byte, put_decoded, reverse_loop, xhex_reverse_hex_dump,
}
use orta_vm.Hex.Lines.{whole_file, AreBytes, read_line-append}
use orta_vm.Hex.Lengths.{IsShort, dump_line-IsShort, dump_line-line_bytes}

-- Everything that went to the sink.
written_bytes : Sink → List ℕ
written_bytes k = k.output ++ k.buffer

put_byte-written_bytes :
    (k : Sink) (b : ℕ) → written_bytes (put_byte k b) ≡ written_bytes k ++ (b ∷ [])
unfolding written_bytes put_byte
put_byte-written_bytes k b = elim (Bool-cases (leb 1024 (length k.buffer + 1))) [
  | inl e ↦ rw e (
      append-nil (k.output ++ (k.buffer ++ (b ∷ [])))
      ∙ sym (append_assoc k.output k.buffer (b ∷ [])))
  | inr e ↦ rw e (sym (append_assoc k.output k.buffer (b ∷ [])))
]

put_decoded-written_bytes :
    (k : Sink) (bs : List ℕ) → written_bytes (put_decoded k bs) ≡ written_bytes k ++ bs
unfolding put_decoded
put_decoded-written_bytes k [] = sym (append-nil (written_bytes k))
put_decoded-written_bytes k (b ∷ bs) =
    put_decoded-written_bytes (put_byte k b) bs
    ∙ ap (λ w. w ++ bs) (put_byte-written_bytes k b)
    ∙ append_assoc (written_bytes k) (b ∷ []) bs

-- The loop on a line that ends in a newline, and on what stands behind it.
reverse_loop-line :
    (f : ℕ) (p : Options) (k : Sink) (line text : Str)
    → IsShort 1000 line
    → reverse_loop (suc f) p k ((line ++ (b'\n' ∷ [])) ++ text)
      ≡ reverse_loop f p
          (put_decoded k (
            line_bytes false (
              if p.include_header
              then after_offset (line ++ (b'\n' ∷ []))
              else (line ++ (b'\n' ∷ [])))))
          text
unfolding reverse_loop
reverse_loop-line f p k [] text h = refl
reverse_loop-line f p k (c ∷ line) text h =
    ap
      (λ r.
        reverse_loop f p
          (put_decoded k (line_bytes false (if p.include_header then after_offset r.0 else r.0)))
          r.1)
      (ap (read_line 1023) (append_assoc (c ∷ line) (b'\n' ∷ []) text)
        ∙ read_line-append 1023 (c ∷ line) text (h.no_newline) (omega (arith, h.is_short)))

take-AreBytes : (n : ℕ) (bs : List ℕ) → AreBytes bs → AreBytes (take n bs)
take-AreBytes zero bs h = tt
take-AreBytes (suc n) [] h = tt
take-AreBytes (suc n) (b ∷ bs) (h, hs) = (h, take-AreBytes n bs hs)

drop-AreBytes : (n : ℕ) (bs : List ℕ) → AreBytes bs → AreBytes (drop n bs)
drop-AreBytes zero bs h = h
drop-AreBytes (suc n) [] h = tt
drop-AreBytes (suc n) (b ∷ bs) (h, hs) = drop-AreBytes n bs hs

take-drop : (n : ℕ) (bs : List ℕ) → take n bs ++ drop n bs ≡ bs
take-drop zero bs = refl
take-drop (suc n) [] = refl
take-drop (suc n) (b ∷ bs) = ap (λ r. b ∷ r) (take-drop n bs)

module _ (show_ascii uppercase include_header : Bool) (columns group_size : ℕ) where
  abbrev options : Options
  options = whole_file show_ascii uppercase include_header (suc columns) group_size

  -- A dump of these bytes that the reverse reads back, whatever it has read before.
  record Dumped (input : List ℕ) (r : Option (Str × ℕ)) : Type 0 where
    text : Str
    end : ℕ
    is_dump : r ≡ some (text, end)
    reversed :
        (f : ℕ) (k : Sink)
        → length text ≤ f
        → (k' : Sink) × (reverse_loop f options k text ≡ some k')
          × (written_bytes k' ≡ written_bytes k ++ input)

  empty_reverse : (f : ℕ) (k : Sink) → reverse_loop f options k [] ≡ some k
  unfolding reverse_loop
  empty_reverse zero k = refl
  empty_reverse (suc f) k = refl

  reverse_step :
      (f : ℕ) (k : Sink) (line : Str) (bs left : List ℕ) {r : Option (Str × ℕ)}
      (rest : Dumped left r)
      → length ((line ++ (b'\n' ∷ [])) ++ rest.text) ≤ f
      → IsShort 1000 line
      → line_bytes false
          (if include_header then after_offset (line ++ (b'\n' ∷ [])) else (line ++ (b'\n' ∷ [])))
        ≡ bs
      → (k' : Sink) × (reverse_loop f options k ((line ++ (b'\n' ∷ [])) ++ rest.text) ≡ some k')
        × (written_bytes k' ≡ written_bytes k ++ (bs ++ left))
  reverse_step zero k line bs left rest le short e = absurd (
      omega (
        arith,
        le,
        length-append (line ++ (b'\n' ∷ [])) rest.text,
        length-append line (b'\n' ∷ []),
      ))
  reverse_step (suc f) k line bs left rest le short e =
      let le' : length rest.text ≤ f = omega (
        arith,
        le,
        length-append (line ++ (b'\n' ∷ [])) rest.text,
        length-append line (b'\n' ∷ []),
      ) in
      let (k', runs, holds) = rest.reversed f (put_decoded k bs) le' in
      (
        k',
        reverse_loop-line f options k line rest.text short
            ∙ ap (λ b. reverse_loop f options (put_decoded k b) rest.text) e
            ∙ runs,
        holds
            ∙ ap (λ w. w ++ left) (put_decoded-written_bytes k bs)
            ∙ append_assoc (written_bytes k) bs left,
      )

  dump_loop-Dumped :
      (f total : ℕ) (input : List ℕ)
      → length input < f
      → suc columns ≤ 150
      → AreBytes input
      → Dumped input (dump_loop f options total input)
  unfolding dump_loop within_limit
  dump_loop-Dumped zero total input h w a = absurd (omega (arith, h))
  dump_loop-Dumped (suc f) total [] h w a = record {
    text = [];
    end = total;
    is_dump = refl;
    reversed = λ f' k le. (k, empty_reverse f' k, sym (append-nil (written_bytes k)));
  }
  dump_loop-Dumped (suc f) total (b ∷ input) h w a =
      let bs = b ∷ take columns input in
      let left = drop columns input in
      let rest =
        dump_loop-Dumped f (total + length bs) left (omega (arith, h, length-drop columns input)) w
          (drop-AreBytes columns input a.1) in
      let line = dump_line options (0 + total) total bs in
      let short : length bs ≤ suc columns = omega (arith, length-take columns input) in
      let areBytes : AreBytes bs = (a.0, take-AreBytes columns input a.1) in
      record {
        text = (line ++ (b'\n' ∷ [])) ++ rest.text;
        end = rest.end;
        is_dump = rw (rest.is_dump) refl;
        reversed = λ f' k le.
            let (k', runs, holds) =
              reverse_step f' k line bs left rest le
                (dump_line-IsShort show_ascii uppercase include_header (suc columns) group_size
                  (0 + total) total bs short w)
                (dump_line-line_bytes show_ascii uppercase include_header (suc columns) group_size
                  (0 + total) total bs short areBytes) in
            (k', runs, holds ∙ ap (λ t. written_bytes k ++ (b ∷ t)) (take-drop columns input));
      }

  -- The reverse of the dump of a file is the file: for any setting of the header, the letters, the text column
  -- and the groups, and 1 to 150 columns.
  pub xhex_reverse_hex_dump-xhex_print_hex_dump :
      (input : List ℕ)
      → suc columns ≤ 150
      → AreBytes input
      → (text : Str) × (xhex_print_hex_dump options input ≡ some text)
        × (xhex_reverse_hex_dump options text ≡ some input)
  unfolding xhex_print_hex_dump xhex_reverse_hex_dump written_bytes
  xhex_reverse_hex_dump-xhex_print_hex_dump input w a =
      let dumped = dump_loop-Dumped (length input + 1) 0 input (omega arith) w a in
      let empty : Sink = record { buffer = []; output = [] } in
      let (k, runs, holds) = dumped.reversed (length dumped.text) empty (omega arith) in
      (
        dumped.text,
        ap (λ r. elim r [ none ↦ none | some (t, e) ↦ some t ]) (dumped.is_dump),
        ap (λ r. elim r [ none ↦ none | some s ↦ some (s.output ++ s.buffer) ]) runs
            ∙ ap some holds,
      )
