-- ===== src/Asm/Defines/Expand.antt =====
-- The loop that replaces the definitions, and its buffer of 4096 bytes.
use orta_vm.Prelude.{
  ℕ, zero, suc, ◌+◌, ◌≤◌, ◌<◌, ◌≡◌, refl, arith, Bool, true, false, Option, none, some, List, [],
  ◌∷◌, ◌++◌, Str, length, length-append, length-drop, drop, ltb, All, if◌then◌else◌,
}
use orta_vm.Asm.Defines.{
  Define, Preprocessor, replaces, find_define, expand_loop, preprocessor_expand_defines,
}

abbrev pub IsNamed : Define → Type 0
IsNamed def = 0 < length def.name

-- A name that is replaced is not empty, and its value fits.
abbrev Fits : Str → Define → Type 0
Fits result def = (0 < length def.name) × (length result + length def.value < 4095)

replaces-fits :
    (p : Str) (i : ℕ) (def : Define) → replaces p i def ≡ true → i + length def.value < 4095
unfolding replaces
replaces-fits p i def h = ground arith

find_define-Fits :
    (defs : List Define) (p result : Str) (def : Define)
    → All IsNamed defs
    → find_define defs p (length result) ≡ some def
    → Fits result def
unfolding find_define
find_define-Fits [] p result def names e = cc
find_define-Fits (d ∷ defs) p result def (name, names) e =
    ground
      (arith, find_define-Fits defs p result def names, replaces-fits p (length result) d, name)

-- The text that the loop ends with.
abbrev pub Expanded : Option Str → Type 0
Expanded r = (text : Str) × (r ≡ some text) × (length text ≤ 4095)

if-Expanded :
    (b : Bool) (x y : Option Str)
    → (b ≡ true → Expanded x)
    → (b ≡ false → Expanded y)
    → Expanded (if b then x else y)
if-Expanded true x y h k = h refl
if-Expanded false x y h k = k refl

elim-Expanded :
    (o : Option Define) (x : Option Str) (f : Define → Option Str)
    → Expanded x
    → ((def : Define) → o ≡ some def → Expanded (f def))
    → Expanded (elim o [ none ↦ x | some def ↦ f def ])
elim-Expanded none x f h k = h
elim-Expanded (some def) x f h k = k def refl

-- `none` is that the fuel ran out. It does not, since each round takes a character at least, and what is
-- written stays within the buffer.
expand_loop-Expanded :
    (n : ℕ) (defs : List Define) (p result : Str)
    → All IsNamed defs
    → length p < n
    → length result ≤ 4095
    → Expanded (expand_loop n defs p result)
unfolding expand_loop
expand_loop-Expanded zero defs p result names h k = absurd (omega (arith, h))
expand_loop-Expanded (suc n) defs [] result names h k = (result, refl, k)
expand_loop-Expanded (suc n) defs (c ∷ p) result names h k =
    if-Expanded (ltb (length result) 4095) _ _
      (λ room.
        elim-Expanded (find_define defs (c ∷ p) (length result)) _ _
          (expand_loop-Expanded n defs p (result ++ (c ∷ [])) names (omega (arith, h))
            (ground (arith, room, length-append result (c ∷ []))))
          (λ def e.
            let (name, fits) = find_define-Fits defs (c ∷ p) result def names e in
            expand_loop-Expanded n defs (drop (length def.name) (c ∷ p)) (result ++ def.value) names
              (omega (arith, h, name, length-drop (length def.name) (c ∷ p)))
              (omega (arith, fits, length-append result def.value))))
      (λ full. (result, refl, k))

-- Up to the depth of 10 and if no definition has an empty name, `preprocessor_expand_defines` ends, and
-- what it answers fits in its buffer of 4096 bytes.
pub preprocessor_expand_defines-Expanded :
    (pp : Preprocessor) (text : Str)
    → All IsNamed pp.defines
    → pp.preprocessing_depth ≤ 10
    → Expanded (preprocessor_expand_defines pp text)
unfolding preprocessor_expand_defines
preprocessor_expand_defines-Expanded pp text names shallow =
    if-Expanded (ltb 10 pp.preprocessing_depth) _ _ (λ deep. absurd (ground (arith, deep)))
      (λ h.
        expand_loop-Expanded (suc (length text)) pp.defines text [] names (omega arith)
          (omega arith))
