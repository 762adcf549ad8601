-- ===== src/Exec/StackOps/Rotate.antt =====
-- `rotl` and `rotr` on the words that they pop and push again.
use mathlib.Core.Path.{ap₂}
use mathlib.Core.List.{reverse, reverse-reverse, reverse-append}
use orta_vm.Prelude.{
  ℕ, zero, suc, ◌+◌, ◌≤◌, ◌<◌, ◌^◌, ◌≡◌, refl, sym, ap, ◌∙◌, arith, List, [], ◌∷◌, ◌++◌, length,
  take, drop, length-append, length-take, length-drop, take-length_append, drop-length_append,
  take-append-drop,
}
use orta_vm.Word.{Word}
use orta_vm.Stack.{XStack, count, xstack_pop, push}
use orta_vm.Stack.Laws.{push-ok}
use orta_vm.Exec.StackOps.{pop_many, push_many, first_to_end, last_to_front, rotate}

abbrev stack : List Word → ℕ → XStack
stack items capacity = record { items = items; capacity = capacity }

pop_many-take :
    (n : ℕ) (items : List Word) (capacity : ℕ)
    → n ≤ length items
    → pop_many n (stack items capacity) ≡ (take n items, stack (drop n items) capacity)
unfolding pop_many xstack_pop
pop_many-take zero items capacity h = refl
pop_many-take (suc n) [] capacity h = absurd (omega arith)
pop_many-take (suc n) (w ∷ items) capacity h =
    ap (λ r. (w ∷ r.0, r.1)) (pop_many-take n items capacity (omega arith))

push_many-append :
    (ws items : List Word) (capacity : ℕ)
    → length ws + length items ≤ capacity
    → push_many ws (stack items capacity) ≡ stack (ws ++ items) capacity
unfolding push_many
push_many-append [] items capacity h = refl
push_many-append (w ∷ ws) items capacity h =
    ap (λ s. push s w) (push_many-append ws items capacity (omega arith))
    ∙ push-ok (stack (ws ++ items) capacity) w (omega (arith, length-append ws items))

length-first_to_end : (ws : List Word) → length (first_to_end ws) ≡ length ws
unfolding first_to_end
length-first_to_end [] = refl
length-first_to_end (w ∷ ws) = omega (arith, length-append ws (w ∷ []))

-- The words that a rotation by `n` turns, on a stack that holds more than `n`.
abbrev pub turned : (List Word → List Word) → ℕ → List Word → List Word
turned turn n items = turn (take n items) ++ drop n items

record KeepsLength (turn : List Word → List Word) : Type 0 where
  same : (ws : List Word) → length (turn ws) ≡ length ws

rotate-turned :
    (turn : List Word → List Word) (n : ℕ) (items : List Word) (capacity : ℕ)
    → KeepsLength turn
    → 0 < n
    → n < 2 ^ 31
    → n < length items
    → length items ≤ capacity
    → rotate turn n (stack items capacity) ≡ stack (turned turn n items) capacity
unfolding rotate
rotate-turned turn n items capacity keeps lo small hi fits = ground (
  arith,
  ap (λ r. push_many (turn (r.0)) (r.1)) (pop_many-take n items capacity (omega arith)),
  push_many-append (turn (take n items)) (drop n items) capacity,
  keeps.same (take n items),
  length-take n items,
  length-drop n items,
)

last_to_front-first_to_end : (ws : List Word) → last_to_front (first_to_end ws) ≡ ws
unfolding last_to_front first_to_end
last_to_front-first_to_end [] = refl
last_to_front-first_to_end (w ∷ ws) =
    ap (λ r. reverse (first_to_end r)) (reverse-append ws (w ∷ []))
    ∙ reverse_snoc (reverse ws) w
    ∙ ap (λ r. w ∷ r) (reverse-reverse ws)
  where
    reverse_snoc : (r : List Word) (x : Word) → reverse (r ++ (x ∷ [])) ≡ x ∷ reverse r
    reverse_snoc r x = reverse-append r (x ∷ [])

first-KeepsLength : KeepsLength first_to_end
first-KeepsLength = record { same = length-first_to_end }

length-reverse : (ws : List Word) → length (reverse ws) ≡ length ws
length-reverse [] = refl
length-reverse (w ∷ ws) =
    ap length (reverse-append (w ∷ []) ws)
    ∙ length-append (reverse ws) (w ∷ [])
    ∙ omega (arith, length-reverse ws)

last-KeepsLength : KeepsLength last_to_front
unfolding last_to_front
last-KeepsLength = record {
  same = λ ws.
      length-reverse (first_to_end (reverse ws))
      ∙ length-first_to_end (reverse ws)
      ∙ length-reverse ws;
}

split_at :
    (n : ℕ) (front back : List Word)
    → length front ≡ n
    → (take n (front ++ back) ≡ front) × (drop n (front ++ back) ≡ back)
split_at n front back e = (
  ap (λ k. take k (front ++ back)) (sym e) ∙ take-length_append front back,
  ap (λ k. drop k (front ++ back)) (sym e) ∙ drop-length_append front back,
)

length-front :
    (n : ℕ) (items : List Word) → n ≤ length items → length (first_to_end (take n items)) ≡ n
length-front n items h = omega (arith, length-first_to_end (take n items), length-take n items)

-- `rotl n` moves the top below the n - 1 words under it and leaves the rest, and `rotr n` brings the
-- stack back, if it holds more than n words, 0 < n.
pub rotr-rotl :
    (n : ℕ) (s : XStack)
    → 0 < n
    → n < 2 ^ 31
    → n < count s
    → count s ≤ s.capacity
    → (rotate first_to_end n s
        ≡ record s { items = first_to_end (take n s.items) ++ drop n s.items })
      × (rotate last_to_front n (rotate first_to_end n s) ≡ s)
rotr-rotl n s lo small hi fits =
    let front = first_to_end (take n s.items) in
    let lf = length-front n s.items (omega arith) in
    let (et, ed) = split_at n front (drop n s.items) lf in
    let once = rotate-turned first_to_end n s.items s.capacity first-KeepsLength lo small hi fits in
    let total : length (front ++ drop n s.items) ≡ count s =
      omega (arith, lf, length-append front (drop n s.items), length-drop n s.items) in
    (
      once,
      ap (rotate last_to_front n) once
          ∙ rotate-turned last_to_front n (front ++ drop n s.items) s.capacity last-KeepsLength lo
              small (omega arith) (omega arith)
          ∙ ap (λ items. stack items s.capacity)
              (ap₂ (λ a b. last_to_front a ++ b) et ed
                ∙ ap (λ ws. ws ++ drop n s.items) (last_to_front-first_to_end (take n s.items))
                ∙ take-append-drop n s.items),
    )
