-- ===== src/Xbin/Numbers.antt =====
-- Numbers through a bytecode file.
use orta_vm.Prelude.{
  ℕ, ◌-◌, ◌%◌, ◌^◌, ◌≤◌, ◌<◌, ◌≡◌, ◌⊎◌, ◌↔◌, inl, inr, refl, arith, true, List, ◌∷◌, ◌++◌, length,
  ap, ◌∙◌, take-length_append, drop-length_append, length-append, sym,
}
use orta_vm.Number.{two_64}
use orta_vm.Heap.{to_bytes, of_bytes}
use orta_vm.Heap.Laws.{of_bytes-to_bytes, length-to_bytes}
use orta_vm.Xbin.{optimal_size, number_bytes}
use orta_vm.Xbin.Load.{
  Source, from_file, from_memory, got, widen, read_bytes, read_number, read_int64, is_width, ◌>>>◌,
}

-- The integers whose width is read back as it was written: not those that are written unsigned with the
-- top bit set, where that counts as a sign, and from a file not the negative ones of four bytes.
abbrev pub IsWidened : Source → ℕ → Type 0
IsWidened from_file v =
    (v < 2 ^ 7)
    ⊎ ((2 ^ 8 ≤ v) × (v < 2 ^ 15))
    ⊎ ((2 ^ 16 ≤ v) × (v < two_64 - 2 ^ 31))
    ⊎ (two_64 - 2 ^ 15 ≤ v)
IsWidened from_memory v =
    (v < 2 ^ 7) ⊎ ((2 ^ 8 ≤ v) × (v < 2 ^ 15)) ⊎ ((2 ^ 16 ≤ v) × (v < 2 ^ 31)) ⊎ (2 ^ 32 ≤ v)

pub read_bytes-append :
    (part rest : List ℕ) → read_bytes (length part) (part ++ rest) ≡ got part rest
unfolding read_bytes
read_bytes-append part rest =
    ground
      (arith, length-append part rest, take-length_append part rest, drop-length_append part rest)

pub read_number-to_bytes :
    (n v : ℕ) (rest : List ℕ) → v < 256 ^ n → read_number n (to_bytes n v ++ rest) ≡ got v rest
unfolding read_number
read_number-to_bytes n v rest h =
    ap (λ s. s >>> λ part after. got (of_bytes part) after)
      (ap (λ k. read_bytes k (to_bytes n v ++ rest)) (sym (length-to_bytes n v))
        ∙ read_bytes-append (to_bytes n v) rest)
    ∙ ap (λ x. got x rest) (of_bytes-to_bytes n v h)

-- What a number is after it was written and loaded.
abbrev pub through : Source → ℕ → ℕ
through src v = widen src (optimal_size v) (v % 256 ^ optimal_size v)

-- The widths.
IsWidth : ℕ → Type 0
IsWidth n = (n ≡ 1) ⊎ (n ≡ 2) ⊎ (n ≡ 4) ⊎ (n ≡ 8)

optimal_size-IsWidth : (v : ℕ) → IsWidth (optimal_size v)
unfolding optimal_size IsWidth
optimal_size-IsWidth v = ground arith

pub read_one : (c : ℕ) (rest : List ℕ) → read_number 1 (c ∷ rest) ≡ got c rest
unfolding read_number of_bytes
read_one c rest = ground arith

is_width-IsWidth : (n : ℕ) → IsWidth n → is_width n ≡ true
unfolding IsWidth
is_width-IsWidth n w = ground arith

mod-IsWidth : (n v : ℕ) → IsWidth n → v % 256 ^ n < 256 ^ n
unfolding IsWidth
mod-IsWidth n v (inl e) = rw e (omega arith)
mod-IsWidth n v (inr (inl e)) = rw e (omega arith)
mod-IsWidth n v (inr (inr (inl e))) = rw e (omega arith)
mod-IsWidth n v (inr (inr (inr e))) = rw e (omega arith)

read_width :
    (src : Source) (n v : ℕ) (rest : List ℕ)
    → IsWidth n
    → v < 256 ^ n
    → read_int64 src (n ∷ (to_bytes n v ++ rest)) ≡ got (widen src n v) rest
unfolding read_int64 IsWidth
read_width src n v rest w h =
    rw (read_one n (to_bytes n v ++ rest), is_width-IsWidth n w, read_number-to_bytes n v rest h)
      refl

pub read_int64-number_bytes :
    (src : Source) (v : ℕ) (rest : List ℕ)
    → read_int64 src (number_bytes v ++ rest) ≡ got (through src v) rest
unfolding number_bytes
read_int64-number_bytes src v rest =
    read_width src (optimal_size v) (v % 256 ^ optimal_size v) rest (optimal_size-IsWidth v)
      (mod-IsWidth (optimal_size v) v (optimal_size-IsWidth v))

-- An integer below 2 ^ 64, the pattern of an int64_t, that is written to a file and loaded is the same
-- again exactly if it is not written unsigned with the top bit of 1 or 2 bytes set, and is, from a file, no
-- negative one of 4 bytes, or, from memory, no unsigned one of 4 bytes with the top bit set.
pub through-IsWidened : (src : Source) (v : ℕ) → v < two_64 → (through src v ≡ v) ↔ IsWidened src v
unfolding widen optimal_size
through-IsWidened from_file v h = ground arith
through-IsWidened from_memory v h = ground arith
