-- ===== src/Eval/Fuel.antt =====
-- The fuel of `eval`.
use orta_vm.Prelude.{
  ℕ, zero, suc, ◌+◌, ◌*◌, ◌-◌, ◌%◌, ◌^◌, ◌≤◌, ◌<◌, ◌≡◌, ◌≢◌, refl, arith, Bool, true, false, Option,
  none, some, List, [], ◌∷◌, Str, length, isdigit, ◌==◌, if◌then◌else◌, ◌&&◌,
}
use orta_vm.Result.{Result, ok, exit, undefined}
use orta_vm.Number.{skip_space, read_digits}
use orta_vm.Eval.{
  Again, apply_op, closing, continue, pop_op, enter, entered, factor, round, eval_loop, first_ops,
}

length-skip_space : (s : Str) → length (skip_space s) ≤ length s
unfolding skip_space
length-skip_space [] = omega arith
length-skip_space (c ∷ s) = ground (arith, length-skip_space s)

length-read_digits : (acc : ℕ) (s : Str) → length (read_digits acc s).1 ≤ length s
unfolding read_digits
length-read_digits acc [] = omega arith
length-read_digits acc (c ∷ s) = ground (arith, length-read_digits (acc * 10 + (c - 48)) s)

-- A run of digits is taken whole.
length-read_digit :
    (c : ℕ) (s : Str) → isdigit c ≡ true → length (read_digits 0 (c ∷ s)).1 ≤ length s
unfolding read_digits
length-read_digit c s h = ground (arith, length-read_digits (0 * 10 + (c - 48)) s)

abbrev Within : Str → Str → Str → Type 0
Within s inner rest = (length inner ≤ length s) × (length rest ≤ length s)

-- What `closing` answers at a character, from its answer behind it.
abbrev closing_at : Bool → Option (Str × Str) → ℕ → Str → Option (Str × Str)
closing_at b r c s =
    if b then some ([], c ∷ s) else (elim r [ none ↦ none | some (i, t) ↦ some (c ∷ i, t) ])

closing_step :
    (b : Bool) (r : Option (Str × Str)) (c : ℕ) (s inner rest : Str)
    → ((i t : Str) → r ≡ some (i, t) → Within s i t)
    → closing_at b r c s ≡ some (inner, rest)
    → Within (c ∷ s) inner rest
closing_step true r c s inner rest ih e = ground arith
closing_step false none c s inner rest ih e = cc
closing_step false (some (i, t)) c s inner rest ih e = ground (arith, ih i t refl)

closing-shorter :
    (depth : ℕ) (s inner rest : Str) → closing depth s ≡ some (inner, rest) → Within s inner rest
unfolding closing
closing-shorter depth [] inner rest e = cc
closing-shorter depth (c ∷ s) inner rest e =
    closing_step (c == b')' && depth == 1) (closing (next c depth) s) c s inner rest
      (closing-shorter (next c depth) s) e
  where
    next : ℕ → ℕ → ℕ
    next x d = if x == b'(' then d + 1 else if x == b')' then d - 1 else d

-- The rest of the evaluation ends on texts shorter than `n`.
abbrev Ends : ℕ → Again → Type 0
Ends n again = (s : Str) (value : ℕ) (ops : List ℕ) → length s < n → again s value ops ≢ none

pop_op-Ends :
    (n : ℕ) (again : Again)
    → Ends n again
    → (rest : Str) (value : ℕ) (ops : List ℕ) (k : ℕ) → length rest < n
    → pop_op again rest value ops k ≢ none
unfolding pop_op
pop_op-Ends n again h rest value [] k l = cc
pop_op-Ends n again h rest value (op ∷ ops) k l = continued (apply_op op value k)
  where
    continued : (r : Result (Option ℕ)) → continue again rest ops r ≢ none
    continued (ok (some v)) = h rest v ops l
    continued (ok none) = cc
    continued (exit m) = cc
    continued undefined = cc

entered-Ends :
    (n : ℕ) (again : Again) (r : Option (Result ℕ))
    → Ends n again
    → r ≢ none
    → (rest : Str) (value : ℕ) (ops : List ℕ) → length rest < n
    → entered again rest value ops r ≢ none
entered-Ends n again none h ne rest value ops l = absurd (ne refl)
entered-Ends n again (some (ok m)) h ne rest value ops l = pop_op-Ends n again h rest value ops m l
entered-Ends n again (some (exit k)) h ne rest value ops l = cc
entered-Ends n again (some undefined) h ne rest value ops l = cc

enter-Ends :
    (n : ℕ) (again : Again)
    → Ends n again
    → (s : Str) (value : ℕ) (ops : List ℕ) → length s < n
    → (r : Option (Str × Str)) → closing 1 s ≡ r
    → enter again value ops r ≢ none
enter-Ends n again h s value ops l none e = cc
enter-Ends n again h s value ops l (some (inner, rest)) e =
    let (li, lr) = closing-shorter 1 s inner rest e in
    entered-Ends n again (again inner 0 first_ops) h (h inner 0 first_ops (omega arith)) rest value
      ops (omega arith)

number-Ends :
    (n : ℕ) (again : Again)
    → Ends n again
    → (c : ℕ) (s : Str) (value : ℕ) (ops : List ℕ) → isdigit c ≡ true
    → length s < n
    → pop_op again (read_digits 0 (c ∷ s)).1 value ops ((read_digits 0 (c ∷ s)).0 % 2 ^ 32) ≢ none
number-Ends n again h c s value ops d l =
    pop_op-Ends n again h (read_digits 0 (c ∷ s)).1 value ops _
      (omega (arith, length-read_digit c s d))

factor-Ends :
    (n : ℕ) (again : Again)
    → Ends n again
    → (s : Str) (value : ℕ) (ops : List ℕ) → length s < n
    → factor again s value ops ≢ none
unfolding factor
factor-Ends n again h [] value ops l = pop_op-Ends n again h [] value ops 0 l
factor-Ends n again h (c ∷ s) value ops l = ground (
  arith,
  enter-Ends n again h s value ops (omega arith) (closing 1 s) refl,
  number-Ends n again h c s value ops,
  pop_op-Ends n again h (c ∷ s) value ops 0 l,
)

round-Ends :
    (n : ℕ) (again : Again)
    → Ends n again
    → (s : Str) (value : ℕ) (ops : List ℕ) → length s ≤ n
    → round again s value ops ≢ none
unfolding round
round-Ends n again h [] value ops l = cc
round-Ends n again h (c ∷ s) value ops l = ground (
  arith,
  enter-Ends n again h s value ops (omega arith) (closing 1 s) refl,
  number-Ends n again h c s value ops,
  h s value (c ∷ ops),
  h s value ops,
  factor-Ends n again h (skip_space s) value (c ∷ ops),
  length-skip_space s,
)

-- With more fuel than the text has bytes, the loop of `eval` does not run out of fuel, whatever the value
-- and the pending operators are.
pub eval_loop-ne-none :
    (f : ℕ) (s : Str) (value : ℕ) (ops : List ℕ) → length s < f → eval_loop f s value ops ≢ none
unfolding eval_loop
eval_loop-ne-none zero s value ops l = absurd (omega arith)
eval_loop-ne-none (suc f) [] value ops l = cc
eval_loop-ne-none (suc f) (c ∷ s) value ops l =
    round-Ends f (eval_loop f) (eval_loop-ne-none f) (skip_space (c ∷ s)) value ops
      (omega (arith, length-skip_space (c ∷ s)))
