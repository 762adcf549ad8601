-- ===== src/Eval.antt =====
-- `eval` of src/orta.h, behind the instruction `eval`: arithmetic from left to right, with brackets.
-- `values` has one cell in use; `ops` is a list, the last written first. Reads behind the terminator
-- and in front of `ops`, and a write to a cell 100 of `ops`, are undefined. An `int` wraps round.
pub mod Fuel
use orta_vm.Prelude.{
  ℕ, zero, suc, ◌+◌, ◌-◌, ◌%◌, ◌^◌, Bool, ◌&&◌, ◌||◌, Option, none, some, List, [], ◌∷◌, Str,
  length, ltb, ◌==◌, if◌then◌else◌, isdigit,
}
use orta_vm.Result.{Result, ok, exit, undefined, ◌>>=◌}
use orta_vm.Number.{skip_space, read_digits}
use orta_vm.Int32.{add32, sub32, mul32, div32}

-- One operation on the running value; `ok none` is the early `return 0` of a division by zero. A
-- character that the switch does not name leaves the value.
unfoldable pub apply_op : ℕ → ℕ → ℕ → Result (Option ℕ)
apply_op op value n =
    if op == b'+'
    then ok (some (add32 value n))
    else if op == b'-'
    then ok (some (sub32 value n))
    else if op == b'*'
    then ok (some (mul32 value n))
    else if op == b'/'
    then (if n == 0 then ok none else (div32 value n >>= λ q. ok (some q)))
    else ok (some value)

-- The text up to the bracket that closes `depth` of them, and the rest from that bracket on.
unfoldable pub closing : ℕ → Str → Option (Str × Str)
closing depth [] = none
closing depth (c ∷ s) =
    let deeper =
      closing (if c == b'(' then depth + 1 else if c == b')' then depth - 1 else depth) s in
    if c == b')' && depth == 1
    then some ([], c ∷ s)
    else (elim deeper [ none ↦ none | some (inner, rest) ↦ some (c ∷ inner, rest) ])

-- The rest of the evaluation: text, value, operators. `none` is that the fuel ran out.
abbrev pub Again : Type 0
Again = Str → ℕ → List ℕ → Option (Result ℕ)

abbrev pub continue : Again → Str → List ℕ → Result (Option ℕ) → Option (Result ℕ)
continue again rest ops (ok (some v)) = again rest v ops
continue again rest ops (ok none) = some (ok 0)
continue again rest ops (exit n) = some (exit n)
continue again rest ops undefined = some undefined

-- `op = ops[--o_idx]`, and the operation.
unfoldable pub pop_op : Again → Str → ℕ → List ℕ → ℕ → Option (Result ℕ)
unfolding apply_op
pop_op again rest value [] n = some undefined
pop_op again rest value (op ∷ ops) n = continue again rest ops (apply_op op value n)

abbrev pub first_ops : List ℕ
first_ops = b'+' ∷ []

abbrev pub entered : Again → Str → ℕ → List ℕ → Option (Result ℕ) → Option (Result ℕ)
entered again rest value ops none = none
entered again rest value ops (some (ok n)) = pop_op again rest value ops n
entered again rest value ops (some (exit k)) = some (exit k)
entered again rest value ops (some undefined) = some undefined

-- A bracket: its contents are evaluated, and the text goes on at the closing bracket.
abbrev pub enter : Again → ℕ → List ℕ → Option (Str × Str) → Option (Result ℕ)
enter again value ops none = some (ok 0)
enter again value ops (some (inner, rest)) = entered again rest value ops (again inner 0 first_ops)

-- What follows `*` or `/`, the operator stored already: a bracket, a number, or nothing, which is 0.
unfoldable pub factor : Again → Str → ℕ → List ℕ → Option (Result ℕ)
unfolding pop_op closing
factor again [] value ops = pop_op again [] value ops 0
factor again (c ∷ s) value ops =
    if c == b'('
    then enter again value ops (closing 1 s)
    else if isdigit c
    then (let (n, rest) = read_digits 0 (c ∷ s) in pop_op again rest value ops (n % 2 ^ 32))
    else pop_op again (c ∷ s) value ops 0

-- One round of the loop, behind the blanks.
unfoldable pub round : Again → Str → ℕ → List ℕ → Option (Result ℕ)
unfolding factor
round again [] value ops = some undefined
round again (c ∷ s) value ops =
    if isdigit c
    then (let (n, rest) = read_digits 0 (c ∷ s) in pop_op again rest value ops (n % 2 ^ 32))
    else if c == b'+' || c == b'-'
    then (if ltb (length ops) 100 then again s value (c ∷ ops) else some undefined)
    else if c == b'*' || c == b'/'
    then (if ltb (length ops) 100
        then factor again (skip_space s) value (c ∷ ops)
        else some undefined)
    else if c == b'('
    then enter again value ops (closing 1 s)
    else again s value ops

unfoldable pub eval_loop : ℕ → Str → ℕ → List ℕ → Option (Result ℕ)
unfolding round
eval_loop zero s value ops = none
eval_loop (suc f) [] value ops = some (ok value)
eval_loop (suc f) (c ∷ s) value ops = round (eval_loop f) (skip_space (c ∷ s)) value ops

abbrev finished : Option (Result ℕ) → Result ℕ
finished none = undefined
finished (some r) = r

-- A round takes a character at least, so the length of the text is fuel enough.
unfoldable pub eval : Str → Result ℕ
unfolding eval_loop
eval s = finished (eval_loop (suc (length s)) s 0 first_ops)
