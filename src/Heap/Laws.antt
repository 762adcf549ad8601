-- ===== src/Heap/Laws.antt =====
-- Bytes, texts and blocks on the heap.
use native.Mathlib.Nat.{pow-suc}
use orta_vm.Prelude.{
  ℕ, zero, suc, ◌-◌, ◌/◌, ◌^◌, ◌<◌, ◌≡◌, refl, ap, arith, List, [], ◌==◌, Bool-cases, inl, inr, ◌∷◌,
  length, length-append, All, Str, drop,
}
use mathlib.Core.Path.{subst}
use orta_vm.Result.{Result, ok, exit, undefined, >>=-eq-ok}
use orta_vm.Heap.{
  Heap, free, load_string, new_string, to_bytes, of_bytes, until_nul, c_string, from_option,
  bytes_from,
}

pub length-to_bytes : (n v : ℕ) → length (to_bytes n v) ≡ n
unfolding to_bytes
length-to_bytes zero v = refl
length-to_bytes (suc n) v = ap suc (length-to_bytes n (v / 256))

pub of_bytes-to_bytes : (n v : ℕ) → v < 256 ^ n → of_bytes (to_bytes n v) ≡ v
unfolding to_bytes of_bytes
of_bytes-to_bytes zero v h = omega arith
of_bytes-to_bytes (suc n) v h =
    omega (arith, of_bytes-to_bytes n (v / 256) (omega (arith, pow-suc 256 n)))

-- A text without the terminator in it.
abbrev pub NoNul : Str → Type 0
NoNul = All (λ c. 0 < c)

until_nul-c_string : (s : Str) → NoNul s → until_nul (c_string s) ≡ ok s
unfolding until_nul
until_nul-c_string [] h = refl
until_nul-c_string (c ∷ s) (hc, hs) = ground (arith, until_nul-c_string s hs)

-- A string just allocated reads back, and its address is not NULL.
pub load_string-new_string :
    (s : Str) (h : Heap) → NoNul s → load_string (new_string s h).0 (new_string s h).1 ≡ ok s
unfolding load_string new_string
load_string-new_string s h k = ground (
  arith,
  until_nul-c_string s k,
  length-append s (0 ∷ []),
  ap (λ n. drop n (c_string s)) (self_sub h.next),
)
  where
    self_sub : (n : ℕ) → n - n ≡ 0
    self_sub n = omega arith

-- A block that was just allocated can be freed, and the other blocks are as before.
pub free-new_string :
    (s : Str) (h : Heap)
    → 0 < h.next
    → free (new_string s h).0 (new_string s h).1 ≡ ok (record h { next = (new_string s h).1.next })
unfolding free new_string
free-new_string s h k = ground arith

-- The text that a result carries.
text_of : Result Str → Str
text_of (ok s) = s
text_of (exit n) = []
text_of undefined = []

longer-NoNul :
    (c : ℕ) (r : Result Str) (s : Str)
    → 0 < c
    → ((t : Str) → r ≡ ok t → NoNul t)
    → (elim r [ ok t ↦ ok (c ∷ t) | exit n ↦ exit n | undefined ↦ undefined ]) ≡ ok s
    → NoNul s
unfolding text_of
longer-NoNul c (ok t) s p f h = subst NoNul (ap text_of h) (p, f t refl)
longer-NoNul c (exit n) s p f h = absurd cc
longer-NoNul c undefined s p f h = absurd cc

until_nul-NoNul : (bytes : List ℕ) (s : Str) → until_nul bytes ≡ ok s → NoNul s
unfolding until_nul text_of
until_nul-NoNul [] s h = absurd cc
until_nul-NoNul (c ∷ cs) s h = elim (Bool-cases (c == 0)) [
  | inl e ↦ subst NoNul (ap text_of (rw e at h)) tt
  | inr e ↦ longer-NoNul c (until_nul cs) s (ground (arith, e)) (until_nul-NoNul cs) (rw e at h)
]

-- A string that can be read has no terminator in it.
pub load_string-NoNul : (p : ℕ) (h : Heap) (s : Str) → load_string p h ≡ ok s → NoNul s
unfolding load_string
load_string-NoNul p h s e =
    let (bytes, _, ends) = >>=-eq-ok (from_option (bytes_from p h.blocks)) until_nul e in
    until_nul-NoNul bytes s ends
