-- ===== src/Asm/Lexer/Splits.antt =====
-- Where the tokens stand in the text.
use orta_vm.Prelude.{
  ℕ, ◌<◌, ◌≡◌, refl, sym, ap, ◌∙◌, arith, Bool, true, false, not, ◌&&◌, [], ◌∷◌, ◌++◌, Str, length,
  length-append, ◌==◌, ==_iff, if◌then◌else◌, isspace, isdigit, All,
}
use mathlib.Core.Path.{subst}
use mathlib.Core.List.{append_assoc}
use orta_vm.Result.Ensures.{Ensures, map-Ensures, test-Ensures, if-Ensures}
use orta_vm.Asm.Lexer.{
  Token, TokenType, Lexer, token_identifier, token_label, token_local_label, token_comma,
  token_newline, token_comment, token_directive, token_lparen, token_rparen, token_error,
  lexer_peek, passed, lexer_advance, skip_whitespace, lexer_skip_whitespace, read_while,
  is_identifier_start, is_identifier_char, in_line, lexer_read_identifier,
  lexer_read_local_identifier, label_or, null_token, token_at, next_token_in, lexer_next_token,
  is_eof,
}
use orta_vm.Asm.Lexer.Takes.{
  Spells, Takes, read_while-append, read_while-some, plain_identifier, plain_comment, plain_newline,
  plain_comma, plain_lparen, plain_rparen, plain_directive, standing, read_token-Takes,
  lexer_read_local_identifier-Takes, if-Takes, lexer_read_number-Takes, lexer_read_string-Ensures,
  single-Takes,
}

-- A colon behind an identifier is taken with it.
label_or-Takes :
    (input text : Str) (type : TokenType) (t : Token) (s : Str) (l : Lexer)
    → Spells type t.value (text ++ (b':' ∷ []))
    → is_eof type ≡ false
    → input ≡ text ++ s
    → 0 < length text
    → Takes input (t, standing s l)
    → Takes input (label_or type t (standing s l))
unfolding lexer_peek lexer_advance
label_or-Takes input text type t [] l p i w n v = v
label_or-Takes input text type t (d ∷ s) l p i w n v =
    if-Takes (d == b':') input _ _
      (λ colon. record {
        text = text ++ (b':' ∷ []);
        whole =
            w
            ∙ ap (λ x. text ++ (x ∷ s)) ((==_iff d b':').0 colon)
            ∙ sym (append_assoc text (b':' ∷ []) s);
        spelled = p;
        inner = i;
        some_text = omega (arith, length-append text (b':' ∷ []));
      })
      (λ other. v)

lexer_read_identifier-Takes :
    (c : ℕ) (s : Str) (l : Lexer)
    → is_identifier_start c ≡ true
    → Takes (c ∷ s) (lexer_read_identifier (standing (c ∷ s) l))
unfolding lexer_read_identifier
lexer_read_identifier-Takes c s l h =
    read_token-Takes token_identifier is_identifier_char c s l plain_identifier (ground arith)

-- One character, taken as a token without a value.
error-Takes : (c : ℕ) (s : Str) (l : Lexer) → Takes (c ∷ s) (null_token token_error l, passed c s l)
error-Takes c s l = record {
  text = c ∷ [];
  whole = refl;
  spelled = (refl, refl);
  inner = refl;
  some_text = omega arith;
}

token_at-Ensures :
    (c : ℕ) (s : Str) (l : Lexer) → Ensures (Takes (c ∷ s)) (token_at c s (standing (c ∷ s) l))
unfolding token_at Ensures lexer_read_identifier lexer_read_local_identifier
token_at-Ensures c s l =
    let here = standing (c ∷ s) l in
    let P = Takes (c ∷ s) in
    if-Ensures P (c == b'\n') _ _ (single-Takes token_newline c s here plain_newline) (
      test-Ensures P (c == b';') _ _
        (λ h. read_token-Takes token_comment in_line c s l plain_comment (ground arith))
        (λ h₁.
          test-Ensures P (c == b'#') _ _
            (λ h. read_token-Takes token_directive in_line c s l plain_directive (ground arith))
            (λ h₂. if-Ensures P (c == b'"') _ _ (lexer_read_string-Ensures c s here) (
              if-Ensures P (c == b',') _ _ (single-Takes token_comma c s here plain_comma) (
                if-Ensures P (c == b'(') _ _ (single-Takes token_lparen c s here plain_lparen) (
                  if-Ensures P (c == b')') _ _ (single-Takes token_rparen c s here plain_rparen) (
                    test-Ensures P (isdigit c) _ _ (lexer_read_number-Takes c s l) (λ h₃.
                      test-Ensures P (is_identifier_start c) _ _
                        (λ h.
                          label_or-Takes (c ∷ s) (read_while is_identifier_char 255 (c ∷ s) here).0
                            token_label (lexer_read_identifier here).0 _
                            (lexer_read_identifier here).1 (_, refl, refl) refl
                            (read_while-append is_identifier_char 255 (c ∷ s) here refl)
                            (read_while-some is_identifier_char 254 c s here (ground arith))
                            (lexer_read_identifier-Takes c s l h))
                        (λ h₄.
                          if-Ensures P (c == b'.') _ _
                            (label_or-Takes (c ∷ s)
                              (c ∷ (read_while is_identifier_char 254 s (passed c s here)).0)
                              token_local_label (lexer_read_local_identifier c s here).0 _
                              (lexer_read_local_identifier c s here).1 (_, refl, refl) refl
                              (ap (λ t. c ∷ t)
                                (read_while-append is_identifier_char 254 s (passed c s here) refl))
                              (omega arith) (lexer_read_local_identifier-Takes c s here))
                            (error-Takes c s here))))))))))

-- A blank that `lexer_skip_whitespace` passes.
abbrev pub IsBlank : ℕ → Type 0
IsBlank c = (isspace c && not (c == b'\n')) ≡ true

-- The blanks in front, and the text behind them.
record Skips (s : Str) (l' : Lexer) : Type 0 where
  blank : Str
  blanks : All IsBlank blank
  whole : s ≡ blank ++ l'.input

if-Skips :
    (b : Bool) (c : ℕ) (s : Str) (l l' : Lexer)
    → l.input ≡ c ∷ s
    → (isspace c && not (c == b'\n')) ≡ b
    → Skips s l'
    → Skips (c ∷ s) (if b then l' else l)
if-Skips true c s l l' e h rest = record {
  blank = c ∷ rest.blank;
  blanks = (h, rest.blanks);
  whole = ap (λ t. c ∷ t) rest.whole;
}
if-Skips false c s l l' e h rest = record { blank = []; blanks = tt; whole = sym e }

skip_whitespace-Skips : (s : Str) (l : Lexer) → l.input ≡ s → Skips s (skip_whitespace s l)
unfolding skip_whitespace
skip_whitespace-Skips [] l e = record { blank = []; blanks = tt; whole = sym e }
skip_whitespace-Skips (c ∷ s) l e =
    if-Skips (isspace c && not (c == b'\n')) c s l _ e refl
      (skip_whitespace-Skips s (passed c s l) refl)

-- What `lexer_next_token` takes from the text in front of it: blanks, and behind them the token. The last
-- token is taken at the end of the text and nowhere else.
pub record Reads (l : Lexer) (r : Token × Lexer) : Type 0 where
  pub blank : Str
  pub text : Str
  pub blanks : All IsBlank blank
  pub whole : l.input ≡ blank ++ (text ++ (r.1).input)
  pub spelled : Spells (r.0).type (r.0).value text
  pub at_end : is_eof (r.0).type ≡ true → (text ≡ []) × ((r.1).input ≡ [])
  pub inside : is_eof (r.0).type ≡ false → 0 < length text

-- From the blanks and the token behind them.
next_token_in-Reads :
    (l l' : Lexer) (s : Str)
    → Skips l.input l'
    → l'.input ≡ s
    → Ensures (Reads l) (next_token_in s l')
unfolding next_token_in Ensures
next_token_in-Reads l l' [] k e = record {
  blank = k.blank;
  text = [];
  blanks = k.blanks;
  whole = k.whole;
  spelled = refl;
  at_end = λ h. (refl, e);
  inside = λ h. cc;
}
next_token_in-Reads l l' (c ∷ s) k e =
    map-Ensures (Reads l) (Takes (c ∷ s)) (token_at c s l')
      (λ r t. record {
        blank = k.blank;
        text = t.text;
        blanks = k.blanks;
        whole = k.whole ∙ ap (λ x. k.blank ++ x) (e ∙ t.whole);
        spelled = t.spelled;
        at_end = λ h. cc (h, t.inner);
        inside = λ h. t.some_text;
      })
      (subst (λ x. Ensures (Takes (c ∷ s)) (token_at c s (standing x l'))) (sym e)
        (token_at-Ensures c s l'))

-- `lexer_next_token` loses nothing of the text and makes nothing up, unless a string overflows its
-- buffer: in front of what it leaves stand blanks other than newlines, and the text that its token spells
-- (a label's with its colon; the one character of an error, whose value is missing). Every token but the
-- last one takes a character at least, and the last one takes none and leaves none.
pub lexer_next_token-Reads : (l : Lexer) → Ensures (Reads l) (lexer_next_token l)
unfolding lexer_next_token lexer_skip_whitespace
lexer_next_token-Reads l =
    next_token_in-Reads l (lexer_skip_whitespace l) _ (skip_whitespace-Skips l.input l refl) refl
