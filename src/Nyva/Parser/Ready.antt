-- ===== src/Nyva/Parser/Ready.antt =====
-- The tokens that the parser of src/nyva.c may be given, and what its smallest steps leave of them.
use mathlib.Core.Path.{subst}
use orta_vm.Prelude.{
  ℕ, zero, suc, ◌-◌, ◌≤◌, ◌<◌, ◌≡◌, refl, arith, true, false, some, [], ◌∷◌, Str, length, ◌⊎◌, inl,
  inr,
}
use orta_vm.Result.Safe.{Safe, ok-Safe, exit-Safe, undefined-Safe, >>=-Safe, test-Safe, map-Safe}
use orta_vm.Nyva.Tokens.{TokenType, Token, equal_types, is_eof, token_import, token_identifier}
use orta_vm.Nyva.Syntax.{Node}
use orta_vm.Nyva.Parser.{
  Tokens, Parsed, parser_current_token, parser_advance, current_is, parser_expect, token_text,
  expect_identifier, stored,
}

module _ (U : Type 0) where
  -- The last token, and no other, is the end of the file, and every other one has a text; `U` holds if one
  -- of them is an import.
  pub data Ready : Tokens → Type 0 where
    last : {t : Token} → is_eof t.type ≡ true → Ready (t ∷ [])
    more :
        {t : Token} {ts : Tokens} {v : Str}
        → is_eof t.type ≡ false
        → t.value ≡ some v
        → (t.type ≡ token_import → U)
        → Ready ts
        → Ready (t ∷ ts)

  -- What an array with room for as many more takes, unless `U` holds.
  abbrev pub Fits : ℕ → Tokens → Type 0
  Fits room ts = (length ts ≤ room) ⊎ U

  pub Fits-le : (room : ℕ) (ts ts' : Tokens) → length ts' ≤ length ts → Fits room ts → Fits room ts'
  Fits-le room ts ts' le (inl h) = inl (omega (arith, le, h))
  Fits-le room ts ts' le (inr u) = inr u

  pub Fits-after :
      (room : ℕ) (ts ts' : Tokens) → length ts' < length ts → Fits room ts → Fits (room - 1) ts'
  Fits-after room ts ts' lt (inl h) = inl (omega (arith, lt, h))
  Fits-after room ts ts' lt (inr u) = inr u

  pub Fits-suc :
      (room : ℕ) (ts ts' : Tokens) → length ts' < length ts → Fits (suc room) ts → Fits room ts'
  Fits-suc room ts ts' lt (inl h) = inl (omega (arith, lt, h))
  Fits-suc room ts ts' lt (inr u) = inr u

  -- What is left of the tokens once some were read, and once some may have been.
  pub record Shorter (ts ts' : Tokens) : Type 0 where
    pub ready : Ready ts'
    pub is_shorter : length ts' < length ts

  pub record NoLonger (ts ts' : Tokens) : Type 0 where
    pub ready : Ready ts'
    pub is_no_longer : length ts' ≤ length ts

  abbrev pub Reads : (A : Type 0) → Tokens → A × Tokens → Type 0
  Reads A ts r = Shorter ts r.1

  abbrev pub Keeps : (A : Type 0) → Tokens → A × Tokens → Type 0
  Keeps A ts r = NoLonger ts r.1

  pub data Head : Tokens → Token → Type 0 where
    head : {t : Token} {ts : Tokens} → Head (t ∷ ts) t

  pub current-Safe : (ts : Tokens) → Ready ts → Safe U (Head ts) (parser_current_token ts)
  unfolding parser_current_token
  current-Safe _ (last {t} e) = ok-Safe U (Head (t ∷ [])) t head
  current-Safe _ (more {t} {ts} e v i r) = ok-Safe U (Head (t ∷ ts)) t head

  -- A token that is not the end can be passed, and has a text.
  pub advance-Shorter :
      (ts : Tokens) (t : Token)
      → Ready ts
      → Head ts t
      → is_eof t.type ≡ false
      → Shorter ts (parser_advance ts)
  unfolding parser_advance
  advance-Shorter _ _ (last e) head h = absurd cc
  advance-Shorter _ _ (more e v i r) head h = record { ready = r; is_shorter = omega arith }

  pub text-Safe :
      (ts : Tokens) (t : Token)
      → Ready ts
      → Head ts t
      → is_eof t.type ≡ false
      → Safe U (λ _. Unit) (token_text t)
  unfolding token_text
  text-Safe _ _ (last e) head h = absurd cc
  text-Safe _ _ (more {v = v} e eq i r) head h = rw eq (ok-Safe U (λ _. Unit) v tt)

  pub equal_types-is_eof :
      (a b : TokenType) → equal_types a b ≡ true → is_eof b ≡ false → is_eof a ≡ false
  equal_types-is_eof a b h e = ground arith

  -- A test for another type than the end: if it holds, the token can be passed.
  pub current_is-Safe :
      (type : TokenType) (ts : Tokens)
      → is_eof type ≡ false
      → Ready ts
      → Safe U (λ b. b ≡ true → Shorter ts (parser_advance ts)) (current_is type ts)
  unfolding current_is
  current_is-Safe type ts e r =
      >>=-Safe U _ (Head ts) (parser_current_token ts) _ (current-Safe ts r) λ t h.
        ok-Safe U (λ b. b ≡ true → Shorter ts (parser_advance ts)) (equal_types t.type type)
          λ same. advance-Shorter ts t r h (equal_types-is_eof t.type type same e)

  pub parser_expect-Safe :
      (type : TokenType) (ts : Tokens)
      → is_eof type ≡ false
      → Ready ts
      → Safe U (Shorter ts) (parser_expect type ts)
  unfolding parser_expect
  parser_expect-Safe type ts e r =
      >>=-Safe U (Shorter ts) (λ b. b ≡ true → Shorter ts (parser_advance ts)) (current_is type ts)
        _ (current_is-Safe type ts e r)
        λ b h.
          test-Safe U (Shorter ts) b _ _
            (λ same. ok-Safe U (Shorter ts) (parser_advance ts) (h same))
            λ _. exit-Safe U (Shorter ts) 1

  pub Shorter-trans : (ts ts₁ ts₂ : Tokens) → Shorter ts ts₁ → Shorter ts₁ ts₂ → Shorter ts ts₂
  Shorter-trans ts ts₁ ts₂ h k = record {
    ready = k.ready;
    is_shorter = omega (arith, h.is_shorter, k.is_shorter);
  }

  pub Shorter-NoLonger : (ts ts₁ ts₂ : Tokens) → Shorter ts ts₁ → NoLonger ts₁ ts₂ → Shorter ts ts₂
  Shorter-NoLonger ts ts₁ ts₂ h k = record {
    ready = k.ready;
    is_shorter = omega (arith, h.is_shorter, k.is_no_longer);
  }

  pub weaken : (ts ts₁ : Tokens) → Shorter ts ts₁ → NoLonger ts ts₁
  weaken ts ts₁ h = record { ready = h.ready; is_no_longer = omega (arith, h.is_shorter) }

  -- A token of the expected type is not the end of the file.
  pub expect-Head-Safe :
      (type : TokenType) (ts : Tokens) (t : Token)
      → is_eof type ≡ false
      → Ready ts
      → Head ts t
      → Safe U (λ ts'. Shorter ts ts' × (is_eof t.type ≡ false)) (parser_expect type ts)
  unfolding parser_expect current_is parser_current_token
  expect-Head-Safe type [] t e r _ = elim r [ ]
  expect-Head-Safe type (_ ∷ ts) t e r head =
      let P = λ (ts' : Tokens). Shorter (t ∷ ts) ts' × (is_eof t.type ≡ false) in
      test-Safe U P (equal_types t.type type) _ _
        (λ same.
          let h = equal_types-is_eof t.type type same e in
          ok-Safe U P (parser_advance (t ∷ ts)) (advance-Shorter (t ∷ ts) t r head h, h))
        λ _. exit-Safe U P 1

  pub expect_identifier-Safe :
      (ts : Tokens) → Ready ts → Safe U (Reads Str ts) (expect_identifier ts)
  unfolding expect_identifier
  expect_identifier-Safe ts r =
      >>=-Safe U (Reads Str ts) (Head ts) (parser_current_token ts) _ (current-Safe ts r) λ t h.
        >>=-Safe U (Reads Str ts) _ (parser_expect token_identifier ts) _
          (expect-Head-Safe token_identifier ts t refl r h)
          λ ts₁ (s, e).
            >>=-Safe U (Reads Str ts) (λ _. Unit) (token_text t) _ (text-Safe ts t r h e)
              λ name _. ok-Safe U (Reads Str ts) (name, ts₁) s

  -- An import is where the parser may copy a text that is not there.
  pub import-Ready : (ts : Tokens) (t : Token) → Ready ts → Head ts t → t.type ≡ token_import → U
  import-Ready _ _ (last e) head h = absurd (cc (subst (λ x. is_eof x ≡ true) h e))
  import-Ready _ _ (more e v i r) head h = i h

  abbrev pub Stored : ℕ → Tokens → Node × Tokens → Type 0
  Stored room ts r = Shorter ts r.1 × Fits (room - 1) r.1

  pub stored-Safe :
      (room : ℕ) (n : Node) (ts ts₁ : Tokens)
      → Shorter ts ts₁
      → Fits room ts
      → Safe U (Stored room ts) (stored room n ts₁)
  unfolding stored
  stored-Safe zero n ts ts₁ s (inl h) = absurd (omega (arith, h, s.is_shorter))
  stored-Safe zero n ts ts₁ s (inr u) = undefined-Safe U (Stored 0 ts) u
  stored-Safe (suc room) n ts ts₁ s w =
      ok-Safe U (Stored (suc room) ts) (n, ts₁) (s, Fits-after (suc room) ts ts₁ (s.is_shorter) w)

  -- What a call reads behind tokens that were passed.
  pub Reads-from :
      {A : Type 0} (ts ts₁ : Tokens) (m : Parsed A)
      → Shorter ts ts₁
      → Safe U (Reads A ts₁) m
      → Safe U (Reads A ts) m
  Reads-from {A} ts ts₁ m s h =
      map-Safe U (Reads A ts) (Reads A ts₁) m (λ r k. Shorter-trans ts ts₁ r.1 s k) h

  pub Keeps-from :
      {A : Type 0} (ts ts₁ : Tokens) (m : Parsed A)
      → Shorter ts ts₁
      → Safe U (Keeps A ts₁) m
      → Safe U (Reads A ts) m
  Keeps-from {A} ts ts₁ m s h =
      map-Safe U (Reads A ts) (Keeps A ts₁) m (λ r k. Shorter-NoLonger ts ts₁ r.1 s k) h

  pub Reads-Keeps :
      {A : Type 0} (ts : Tokens) (m : Parsed A) → Safe U (Reads A ts) m → Safe U (Keeps A ts) m
  Reads-Keeps {A} ts m h = map-Safe U (Keeps A ts) (Reads A ts) m (λ r k. weaken ts r.1 k) h

  -- Nothing was read.
  pub same : (ts : Tokens) → Ready ts → NoLonger ts ts
  same ts r = record { ready = r; is_no_longer = omega arith }
