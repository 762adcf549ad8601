-- ===== src/Nyva/Lexer/Fetches.antt =====
-- The lexer of src/nyva.c on whole texts: what each token takes, and that its buffers are enough for a short text.
use orta_vm.Prelude.{
  ℕ, zero, suc, ◌≤◌, ◌<◌, ◌≡◌, ◌≢◌, refl, arith, ap, Bool, true, false, ◌||◌, none, some, [], ◌∷◌,
  Str, codes, length, ltb, ◌==◌, isspace, isdigit, isalpha, ◌⊎◌, inl, inr, Bool-cases,
}
use orta_vm.Result.{ok, undefined, ◌>>=◌}
use orta_vm.Result.Safe.{
  Safe, Safe-undefined, Safe-ok, ok-Safe, exit-Safe, undefined-Safe, map-Safe,
}
use orta_vm.Result.Safe.Chain.{chain-Safe, branch-Safe, choice-Safe}
use orta_vm.Nyva.Tokens.{
  TokenType, Token, get_keyword_token, is_eof, token_eof, token_identifier, token_number,
  token_string, token_eq, token_equal, token_neq,
}
use orta_vm.Nyva.Lexer.{
  Lexer, enter, advance_in, lexer_advance, current_char, lexer_skip_whitespace, in_buffer, collect,
  is_name_char, lexer_collect_identifier, lexer_collect_number, collect_quoted,
  lexer_collect_string, punctuation, token_from, collected, switch_token, begins_negative, token_in,
  lexer_get_next_token, tokenize_from, tokenize,
}
use orta_vm.Nyva.Parser.{Tokens}
use orta_vm.Nyva.Parser.Ready.{Ready, last, more}
use orta_vm.Nyva.Lexer.Ends.{
  Within, advance_in-length, collect-Takes, collect-Within, collect_quoted-Within, enter-unread,
  keyword_not_eof, punctuation_not_eof, collect_while-Within,
}

module _ (U : Type 0) where
  -- A text in front of the lexer for which every buffer is enough, unless `U` holds.
  abbrev pub Room : Lexer → Type 0
  Room l = (length l.unread < 256) ⊎ U

  no_room :
      (n : ℕ) (text : Str) (l : Lexer)
      → Within n (text, l)
      → (n < 256) ⊎ U
      → ltb (length text) 256 ≡ false
      → U
  no_room n text l h (inl w) e = absurd (ground (arith, h.text_fits))
  no_room n text l h (inr u) e = u

  in_buffer-Safe :
      (n : ℕ) (r : Str × Lexer)
      → Within n r
      → (n < 256) ⊎ U
      → Safe U (λ r'. r' ≡ r) (some (in_buffer r))
  unfolding in_buffer
  in_buffer-Safe n (text, l) h w = elim (Bool-cases (ltb (length text) 256)) [
    | inl e ↦ rw e (ok-Safe U (λ r'. r' ≡ (text, l)) (text, l) refl)
    | inr e ↦ rw e (undefined-Safe U (λ r'. r' ≡ (text, l)) (no_room n text l h w e))
  ]

  -- What is known of a token that was read from `start`, and of the lexer behind it.
  pub data Fetched (start : Lexer) : Token × Lexer → Type 0 where
    ended : {t : Token} {l : Lexer} → is_eof t.type ≡ true → Fetched start (t, l)
    fetched :
        {t : Token} {l : Lexer} {v : Str}
        → is_eof t.type ≡ false
        → t.value ≡ some v
        → length l.unread < length start.unread
        → Fetched start (t, l)

  collected-Safe :
      (type : Str → TokenType) (start whole l : Lexer) (n : ℕ) (r : Str × Lexer)
      → ((s : Str) → is_eof (type s) ≡ false)
      → Within n r
      → (n < 256) ⊎ U
      → length (r.1).unread < length whole.unread
      → Safe U (Fetched whole) (some (collected type start (in_buffer r)))
  unfolding collected
  collected-Safe type start whole l n r e h w lt =
      chain-Safe U (Fetched whole) (λ r'. r' ≡ r) (in_buffer r) _ (in_buffer-Safe n r h w)
        λ r' eq. rw eq (
          ok-Safe U (Fetched whole) (token_from (type r.0) (some r.0) start, r.1)
            (fetched (e r.0) refl lt))

  shorter-Room : (l whole : Lexer) → Room whole → length l.unread ≤ length whole.unread → Room l
  shorter-Room l whole (inl w) h = inl (omega (arith, w, h))
  shorter-Room l whole (inr u) h = inr u

  abbrev at : Str → ℕ → ℕ → Lexer
  at s line column = record { unread = s; line = line; column = column }

  advance_length : (l : Lexer) → length (lexer_advance l).unread ≤ length l.unread
  unfolding lexer_advance
  advance_length l = advance_in-length l.unread l refl

  switch-Safe :
      (start : Lexer) (c : ℕ) (s : Str) (line column : ℕ)
      → Safe U
          (Fetched (at (c ∷ s) line column))
          (some (switch_token start c (enter s line column)))
  unfolding switch_token
  switch-Safe start c s line column =
      let whole = at (c ∷ s) line column in
      let P = Fetched whole in
      let l = enter s line column in
      let e = enter-unread s line column in
      branch-Safe U P (c == b'=') _ _
        (λ _.
          branch-Safe U P (current_char l == b'=') _ _
            (λ _.
              ok-Safe U P (token_from token_eq (some (codes "==")) start, lexer_advance l)
                (fetched refl refl (omega (arith, advance_length l, ap length e))))
            λ _.
              ok-Safe U P (token_from token_equal (some (codes "=")) start, l)
                (fetched refl refl (omega (arith, ap length e))))
        λ _.
          branch-Safe U P (c == b'!') _ _
            (λ _.
              branch-Safe U P (current_char l == b'=') _ _
                (λ _.
                  ok-Safe U P (token_from token_neq (some (codes "!=")) start, lexer_advance l)
                    (fetched refl refl (omega (arith, advance_length l, ap length e))))
                λ _. exit-Safe U P 1)
            λ _.
              choice-Safe U P (punctuation c) _ _ (λ _. exit-Safe U P 1)
                λ type h.
                  ok-Safe U P (token_from type (some (c ∷ [])) start, l)
                    (fetched (punctuation_not_eof c type h) refl (omega (arith, ap length e)))

  string-Safe :
      (start : Lexer) (c : ℕ) (s : Str) (line column : ℕ)
      → Room (at (c ∷ s) line column)
      → Safe U (Fetched (at (c ∷ s) line column)) (
          some
            (collected (λ _. token_string) start (lexer_collect_string (at (c ∷ s) line column))))
  unfolding lexer_collect_string lexer_advance advance_in
  string-Safe start c s line column w =
      let l = enter s line column in
      let quoted = collect_quoted-Within false l.unread l refl in
      let e = ap length (enter-unread s line column) in
      collected-Safe (λ _. token_string) start (at (c ∷ s) line column) l (length l.unread)
        (collect_quoted false l.unread l) (λ _. refl) quoted
        (shorter-Room l (at (c ∷ s) line column) w (omega (arith, e)))
        (omega (arith, quoted.text_fits, e))

  token_in-Safe :
      (start : Lexer) (s : Str) (line column : ℕ)
      → Room (at s line column)
      → Safe U (Fetched (at s line column)) (some (token_in start s (at s line column)))
  unfolding token_in lexer_collect_number lexer_collect_identifier lexer_collect_string
      begins_negative
  token_in-Safe start [] line column w =
      ok-Safe U (Fetched (at [] line column)) (token_from token_eof none start, at [] line column)
        (ended refl)
  token_in-Safe start (c ∷ s) line column w =
      let l = at (c ∷ s) line column in
      let P = Fetched l in
      let reads =
        λ (type : Str → TokenType) (first test : ℕ → Bool)
            (eof : (text : Str) → is_eof (type text) ≡ false) (h : (first c || test c) ≡ true).
          collected-Safe type start l l (length (c ∷ s)) (collect first test (c ∷ s) l) eof
            (collect-Within first test (c ∷ s) l refl) w
            (omega (arith, collect-Takes first test c s l h)) in
      branch-Safe U P _ _ _
        (λ h. reads (λ _. token_number) (λ d. d == b'-') isdigit (λ _. refl) (ground (arith, h)))
        λ _.
          branch-Safe U P (c == b'@') _ _
            (λ h.
              reads (λ _. token_identifier) (λ d. d == b'@') is_name_char (λ _. refl)
                (ground (arith, h)))
            λ _.
              branch-Safe U P (isalpha c || c == b'_') _ _
                (λ h.
                  reads get_keyword_token (λ d. d == b'@') is_name_char keyword_not_eof
                    (ground (arith, h)))
                λ _.
                  branch-Safe U P (isdigit c) _ _
                    (λ h.
                      reads (λ _. token_number) (λ d. d == b'-') isdigit (λ _. refl)
                        (ground (arith, h)))
                    λ _.
                      branch-Safe U P (c == b'"') _ _ (λ _. string-Safe start c s line column w)
                        λ _. switch-Safe start c s line column

  -- Of the lexer as it stood in front of the white space.
  Fetched-from :
      (start l : Lexer) (r : Token × Lexer)
      → length l.unread ≤ length start.unread
      → Fetched l r
      → Fetched start r
  Fetched-from start l r h (ended e) = ended e
  Fetched-from start l r h (fetched e v lt) = fetched e v (omega (arith, h, lt))

  skip_whitespace-length : (l : Lexer) → length (lexer_skip_whitespace l).unread ≤ length l.unread
  unfolding lexer_skip_whitespace
  skip_whitespace-length l =
      let rest = collect_while-Within isspace l.unread l refl in omega (arith, rest.text_fits)

  lexer_get_next_token-Safe :
      (start : Lexer) → Room start → Safe U (Fetched start) (some (lexer_get_next_token start))
  unfolding lexer_get_next_token
  lexer_get_next_token-Safe start w =
      let l = lexer_skip_whitespace start in
      let h = skip_whitespace-length start in
      map-Safe U (Fetched start) (Fetched l) (some (token_in start l.unread l))
        (λ r f. Fetched-from start l r h f)
        (token_in-Safe start l.unread l.line l.column (shorter-Room l start w h))

  less_room :
      (room : ℕ) (l l' : Lexer)
      → (length l.unread < suc room) ⊎ U
      → length l'.unread < length l.unread
      → (length l'.unread < room) ⊎ U
  less_room room l l' (inl h) lt = inl (omega (arith, h, lt))
  less_room room l l' (inr u) lt = inr u

  next-Safe :
      (room : ℕ) (l : Lexer) (t : Token) (l' : Lexer)
      → Room l
      → (length l.unread < suc room) ⊎ U
      → Fetched l (t, l')
      → (Room l'
          → (length l'.unread < room) ⊎ U
          → Safe U (Ready Unit) (some (tokenize_from room l')))
      → Safe U (Ready Unit) (
          some (elim (is_eof t.type) [
            | true ↦ ok (t ∷ [])
            | false ↦ tokenize_from room l' >>= λ ts. ok (t ∷ ts)
          ]))
  next-Safe room l t l' w h (ended e) k = rw e (ok-Safe U (Ready Unit) (t ∷ []) (last e))
  next-Safe room l t l' w h (fetched e v lt) k = rw e (
      chain-Safe U (Ready Unit) (Ready Unit) (tokenize_from room l') _
        (k (shorter-Room l' l w (omega (arith, lt))) (less_room room l l' h lt))
        λ ts r. ok-Safe U (Ready Unit) (t ∷ ts) (more e v (λ _. tt) r))

  -- The tokens from here on, when the text is shorter than the room that is left in the array.
  tokenize_from-Safe :
      (room : ℕ) (l : Lexer)
      → Room l
      → (length l.unread < room) ⊎ U
      → Safe U (Ready Unit) (some (tokenize_from room l))
  unfolding tokenize_from
  tokenize_from-Safe zero l w (inl h) = absurd (omega (arith, h))
  tokenize_from-Safe zero l w (inr u) =
      chain-Safe U (Ready Unit) (Fetched l) (lexer_get_next_token l) _
        (lexer_get_next_token-Safe l w) λ r _. undefined-Safe U (Ready Unit) u
  tokenize_from-Safe (suc room) l w h =
      chain-Safe U (Ready Unit) (Fetched l) (lexer_get_next_token l) _
        (lexer_get_next_token-Safe l w)
        λ (t, l') f. next-Safe room l t l' w h f (tokenize_from-Safe room l')

  entry_room : (s : Str) → (length s < 256) ⊎ U → (length (enter s 1 0).unread < 1024) ⊎ U
  entry_room s (inl h) = inl (omega (arith, h, ap length (enter-unread s 1 0)))
  entry_room s (inr u) = inr u

  pub tokenize-Safe : (s : Str) → (length s < 256) ⊎ U → Safe U (Ready Unit) (some (tokenize s))
  unfolding tokenize
  tokenize-Safe s w =
      let l = enter s 1 0 in
      let e = ap length (enter-unread s 1 0) in
      tokenize_from-Safe 1024 l (shorter-Room l (at s 1 0) w (omega (arith, e))) (entry_room s w)

-- What `tokenize` answers ends in the end of the file, which stands nowhere else, and every other token has
-- its text.
pub tokenize-Ready : (s : Str) (ts : Tokens) → tokenize s ≡ ok ts → Ready Unit ts
tokenize-Ready s ts h =
    Safe-ok Unit (Ready Unit) (some (tokenize s)) ts (tokenize-Safe Unit s (inr tt)) (ap some h)

-- On a text of fewer than 256 characters `tokenize` writes behind none of its buffers: neither behind the
-- 256 bytes of a text nor behind the array of 1024 tokens.
pub tokenize-ne-undefined : (s : Str) → length s < 256 → tokenize s ≢ undefined
tokenize-ne-undefined s h e =
    Safe-undefined ⊥ (Ready Unit) (some (tokenize s)) (tokenize-Safe ⊥ s (inl h)) (ap some e)
