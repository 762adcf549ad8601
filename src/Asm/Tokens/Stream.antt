-- ===== src/Asm/Tokens/Stream.antt =====
-- What `tokenize` makes of a text.
use orta_vm.Prelude.{
  ℕ, zero, suc, ◌<◌, ◌≡◌, ◌≢◌, sym, ap, ◌∙◌, arith, true, false, none, some, [], ◌∷◌, ◌++◌, Str,
  length, length-append, All,
}
use mathlib.Core.Path.{subst, ap₂}
use orta_vm.Result.Ensures.{Ensures}
use orta_vm.Result.Fueled.{
  Fueled, Settles, Settles-ne-none, some-Settles, ok-Settles, if-Settles, >>=-Settles,
}
use mathlib.Core.List.{append-nil}
use orta_vm.Asm.Lexer.{Token, Lexer, is_eof, lexer_create}
use orta_vm.Asm.Lexer.Takes.{Spells}
use orta_vm.Asm.Lexer.Splits.{Reads, IsBlank, lexer_next_token-Reads}
use orta_vm.Asm.Tokens.{TokenStream, tokens_after, tokenize_loop, finished, tokenize}

-- A text that is read as these tokens: blanks and the text of each, up to the last one and the end.
pub data Tokenizes : Str → TokenStream → Type 0 where
  last :
      (blank : Str) (t : Token)
      → All IsBlank blank
      → is_eof t.type ≡ true
      → Tokenizes blank (t ∷ [])
  next :
      (blank text rest : Str) (t : Token) (ts : TokenStream)
      → All IsBlank blank
      → is_eof t.type ≡ false
      → Spells t.type t.value text
      → Tokenizes rest ts
      → Tokenizes (blank ++ (text ++ rest)) (t ∷ ts)

-- The token of a round that is not the last takes a character at least.
Reads-shorter :
    (l : Lexer) (t : Token) (l' : Lexer)
    → Reads l (t, l')
    → is_eof t.type ≡ false
    → length l'.input < length l.input
Reads-shorter l t l' r h = omega (
  arith,
  r.inside h,
  ap length r.whole,
  length-append r.blank (r.text ++ l'.input),
  length-append r.text l'.input,
)

last-Tokenizes :
    (l : Lexer) (t : Token) (l' : Lexer)
    → Reads l (t, l')
    → is_eof t.type ≡ true
    → Tokenizes l.input (t ∷ [])
last-Tokenizes l t l' v h =
    let (nothing, end) = v.at_end h in
    let all_blank : l.input ≡ v.blank =
      v.whole ∙ ap (λ x. v.blank ++ x) (ap₂ (λ x y. x ++ y) nothing end) ∙ append-nil v.blank in
    subst (λ x. Tokenizes x (t ∷ [])) (sym all_blank) (last v.blank t v.blanks h)

next-Tokenizes :
    (l : Lexer) (t : Token) (l' : Lexer) (ts : TokenStream)
    → Reads l (t, l')
    → is_eof t.type ≡ false
    → Tokenizes l'.input ts
    → Tokenizes l.input (t ∷ ts)
next-Tokenizes l t l' ts v h w =
    subst (λ x. Tokenizes x (t ∷ ts)) (sym v.whole)
      (next v.blank v.text l'.input t ts v.blanks h v.spelled w)

tokenize_loop-Settles :
    (n : ℕ) (l : Lexer) → length l.input < n → Settles (Tokenizes l.input) (tokenize_loop n l)
unfolding tokenize_loop
tokenize_loop-Settles zero l h = absurd (omega (arith, h))
tokenize_loop-Settles (suc n) l h =
    let P = Tokenizes l.input in
    >>=-Settles P (Reads l) _ (tokens_after (tokenize_loop n))
      (some-Settles (Reads l) _ (lexer_next_token-Reads l))
      (λ (t, l') v.
        if-Settles P (is_eof t.type) _ _ (λ e. ok-Settles P _ (last-Tokenizes l t l' v e))
          (λ e.
            >>=-Settles P (Tokenizes l'.input) _ _
              (tokenize_loop-Settles n l' (omega (arith, Reads-shorter l t l' v e)))
              (λ ts w. ok-Settles P _ (next-Tokenizes l t l' ts v e w))))

-- The loop of `tokenize` ends, with tokens or in the overflow of the string buffer, whenever it is given one
-- round more than there are characters.
pub tokenize_loop-ne-none : (n : ℕ) (l : Lexer) → length l.input < n → tokenize_loop n l ≢ none
tokenize_loop-ne-none n l h = Settles-ne-none (Tokenizes l.input) _ (tokenize_loop-Settles n l h)

finished-Ensures :
    (s : Str) (r : Fueled TokenStream)
    → Settles (Tokenizes s) r
    → Ensures (Tokenizes s) (finished r)
unfolding Settles
finished-Ensures s none v = absurd v
finished-Ensures s (some r) v = v

-- Unless a string overflows its buffer, `tokenize` cuts the text into its tokens: in their order, each
-- spelled by its part of the text, with nothing but blanks between them, up to the end of the text, where
-- the one token of the end stands.
pub tokenize-Tokenizes : (input : Str) → Ensures (Tokenizes input) (tokenize input)
unfolding tokenize lexer_create
tokenize-Tokenizes input =
    finished-Ensures input (tokenize_loop (suc (length input)) (lexer_create input))
      (tokenize_loop-Settles (suc (length input)) (lexer_create input) (omega arith))
