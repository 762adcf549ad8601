-- ===== src/Asm/Tokens.antt =====
-- The token streams of src/asm.h. A stream is what is left of its tokens, so `pos` is not kept. The loop of
-- `tokenize` takes fuel; `none` is that it ran out.
pub mod Stream
use orta_vm.Prelude.{
  ℕ, zero, suc, ◌||◌, Bool, true, false, Option, none, some, List, [], ◌∷◌, Str, length,
  if◌then◌else◌,
}
use orta_vm.Result.{Result, ok, exit, undefined}
use orta_vm.Result.Fueled.{Fueled, ◌>>=◌}
use orta_vm.Asm.Lexer.{
  Token, TokenType, Lexer, token_identifier, token_label, token_local_label, token_instruction,
  token_number, token_string, token_comma, token_newline, token_comment, token_directive,
  token_lparen, token_rparen, token_error, is_eof, lexer_create, lexer_next_token,
}

abbrev pub TokenStream : Type 0
TokenStream = List Token

-- What follows the token and the lexer of a round.
abbrev pub tokens_after : (Lexer → Fueled TokenStream) → Token × Lexer → Fueled TokenStream
tokens_after again (t, l) =
    if is_eof t.type then some (ok (t ∷ [])) else again l >>= λ ts. some (ok (t ∷ ts))

unfoldable pub tokenize_loop : ℕ → Lexer → Fueled TokenStream
tokenize_loop zero l = none
tokenize_loop (suc n) l = some (lexer_next_token l) >>= tokens_after (tokenize_loop n)

abbrev pub finished : Fueled TokenStream → Result TokenStream
finished none = undefined
finished (some r) = r

-- Each round but the last takes a character, so one round more than there are characters is enough.
unfoldable pub tokenize : Str → Result TokenStream
unfolding tokenize_loop
tokenize input = finished (tokenize_loop (suc (length input)) (lexer_create input))

unfoldable pub token_stream_peek : TokenStream → Option Token
token_stream_peek [] = none
token_stream_peek (t ∷ ts) = some t

unfoldable pub token_stream_advance : TokenStream → TokenStream
token_stream_advance [] = []
token_stream_advance (t ∷ ts) = ts

abbrev has_type : (TokenType → Bool) → Option Token → Bool
has_type test none = false
has_type test (some t) = test t.type

-- `token_stream_match`, with the type compared by a test.
unfoldable pub token_stream_match : TokenStream → (TokenType → Bool) → Bool
unfolding token_stream_peek
token_stream_match ts test = has_type test (token_stream_peek ts)

abbrev pub is_newline : TokenType → Bool
is_newline token_newline = true
is_newline _ = false

abbrev pub is_comment : TokenType → Bool
is_comment token_comment = true
is_comment _ = false

abbrev pub is_comma : TokenType → Bool
is_comma token_comma = true
is_comma _ = false

unfoldable pub token_stream_skip_newlines : TokenStream → TokenStream
unfolding token_stream_match
token_stream_skip_newlines [] = []
token_stream_skip_newlines (t ∷ ts) =
    let rest = token_stream_skip_newlines ts in
    if token_stream_match (t ∷ ts) is_newline || token_stream_match (t ∷ ts) is_comment
    then rest
    else t ∷ ts
