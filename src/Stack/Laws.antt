-- ===== src/Stack/Laws.antt =====
-- The laws of `XStack`.
use orta_vm.Prelude.{◌≡◌, ◌<◌, ◌≤◌, arith, false, ◌∷◌}
use orta_vm.Word.{Word}
use orta_vm.Stack.{XStack, count, push, xstack_push, xstack_pop, xstack_peek}

-- The stack never holds more than it was created for.
pub record IsBounded (s : XStack) : Type 0 where
  pub fits : count s ≤ s.capacity

-- A push on a stack within its capacity leaves it within its capacity, on a full one too.
pub xstack_push-IsBounded : (s : XStack) (w : Word) → IsBounded s → IsBounded (push s w)
unfolding xstack_push
xstack_push-IsBounded s w v = ground arith

pub xstack_pop-IsBounded : (s : XStack) → IsBounded s → IsBounded (xstack_pop s).1
unfolding xstack_pop
xstack_pop-IsBounded s v = ground arith

-- Below the capacity the word pushed last is popped first, and the stack is as before.
pub xstack_pop-xstack_push :
    (s : XStack) (w : Word) → count s < s.capacity → xstack_pop (push s w) ≡ (w, s)
unfolding xstack_pop xstack_push
xstack_pop-xstack_push s w h = ground arith

-- On a full stack a push is lost.
pub xstack_push-full : (s : XStack) (w : Word) → s.capacity ≤ count s → xstack_push s w ≡ (false, s)
unfolding xstack_push
xstack_push-full s w h = ground arith

pub xstack_peek-xstack_push :
    (s : XStack) (w : Word) → count s < s.capacity → xstack_peek (push s w) 0 ≡ w
unfolding xstack_peek xstack_push
xstack_peek-xstack_push s w h = ground arith

-- Below the capacity a push puts the word on top.
pub push-ok :
    (s : XStack) (w : Word)
    → count s < s.capacity
    → push s w ≡ record { items = w ∷ s.items; capacity = s.capacity }
unfolding xstack_push
push-ok s w h = ground arith
