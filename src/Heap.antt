-- ===== src/Heap.antt =====
-- The C heap behind `malloc`, `free`, `strdup` and the machine's pointers. A block is its address
-- and its bytes. Addresses are never used again, `malloc` does not fail, and an access outside a
-- live block is undefined. `malloc` is called here with the bytes that the code stores at once.
pub mod Laws
use orta_vm.Prelude.{
  ℕ, zero, suc, ◌+◌, ◌-◌, ◌*◌, ◌/◌, ◌%◌, ◌^◌, Bool, true, false, ◌&&◌, List, [], ◌∷◌, ◌++◌, Option,
  none, some, length, take, drop, leb, ltb, ◌==◌, if◌then◌else◌, Str,
}
use orta_vm.Result.{Result, ok, exit, undefined, ◌>>=◌}

abbrev pub Block : Type 0
Block = ℕ × List ℕ

pub record Heap : Type 0 where
  pub next : ℕ
  pub blocks : List Block

-- The first address is not NULL.
abbrev pub empty_heap : Heap
empty_heap = record { next = 16; blocks = [] }

unfoldable pub malloc : List ℕ → Heap → ℕ × Heap
malloc bytes h =
    (h.next, record { next = h.next + length bytes + 16; blocks = (h.next, bytes) ∷ h.blocks })

unfoldable pub remove_block : ℕ → List Block → Option (List Block)
remove_block p [] = none
remove_block p ((b, bytes) ∷ bs) =
    let rest = remove_block p bs in
    if b == p then some bs else (elim rest [ none ↦ none | some r ↦ some ((b, bytes) ∷ r) ])

abbrev with_blocks : Heap → Option (List Block) → Result Heap
with_blocks h none = undefined
with_blocks h (some bs) = ok (record h { blocks = bs })

-- `free(NULL)` does nothing; `free` of what is no live block is undefined.
unfoldable pub free : ℕ → Heap → Result Heap
unfolding remove_block
free p h = if p == 0 then ok h else with_blocks h (remove_block p h.blocks)

-- The bytes from address `p` to the end of the block that holds it.
unfoldable pub bytes_from : ℕ → List Block → Option (List ℕ)
bytes_from p [] = none
bytes_from p ((b, bytes) ∷ bs) =
    if leb b p && ltb p (b + length bytes) then some (drop (p - b) bytes) else bytes_from p bs

-- A C string: the bytes before the terminator.
unfoldable pub until_nul : List ℕ → Result Str
until_nul [] = undefined
until_nul (c ∷ cs) =
    let rest = until_nul cs in
    if c == 0
    then ok []
    else (elim rest [ ok s ↦ ok (c ∷ s) | exit n ↦ exit n | undefined ↦ undefined ])

abbrev pub from_option {ℓ} : {A : Type ℓ} → Option A → Result A
from_option none = undefined
from_option (some a) = ok a

unfoldable pub load_string : ℕ → Heap → Result Str
unfolding bytes_from until_nul
load_string p h = from_option (bytes_from p h.blocks) >>= until_nul

unfoldable pub load_bytes : ℕ → ℕ → Heap → Result (List ℕ)
unfolding bytes_from
load_bytes p n h = from_option (bytes_from p h.blocks) >>= λ bytes.
    if leb n (length bytes) then ok (take n bytes) else undefined

-- `new` written over the beginning of what stands at offset `i`.
abbrev splice : ℕ → List ℕ → List ℕ → List ℕ
splice i new bytes = take i bytes ++ (new ++ drop (i + length new) bytes)

unfoldable pub store_in : ℕ → List ℕ → List Block → Option (List Block)
store_in p new [] = none
store_in p new ((b, bytes) ∷ bs) =
    let rest = store_in p new bs in
    if leb b p && ltb p (b + length bytes)
    then (if leb (p + length new) (b + length bytes)
        then some ((b, splice (p - b) new bytes) ∷ bs)
        else none)
    else (elim rest [ none ↦ none | some r ↦ some ((b, bytes) ∷ r) ])

unfoldable pub store_bytes : ℕ → List ℕ → Heap → Result Heap
unfolding store_in
store_bytes p new h = with_blocks h (store_in p new h.blocks)

-- A C string as the bytes of a block.
abbrev pub c_string : Str → List ℕ
c_string s = s ++ (0 ∷ [])

-- `malloc`, copy, terminator: what the code does for a literal.
unfoldable pub new_string : Str → Heap → ℕ × Heap
unfolding malloc
new_string s h = malloc (c_string s) h

unfoldable pub strdup : ℕ → Heap → Result (ℕ × Heap)
unfolding load_string new_string
strdup p h = load_string p h >>= λ s. ok (new_string s h)

-- A number in `n` bytes, the lowest first, and back.
unfoldable pub to_bytes : ℕ → ℕ → List ℕ
to_bytes zero v = []
to_bytes (suc n) v = (v % 256) ∷ to_bytes n (v / 256)

unfoldable pub of_bytes : List ℕ → ℕ
of_bytes [] = 0
of_bytes (b ∷ bs) = b + 256 * of_bytes bs
