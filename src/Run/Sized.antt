-- ===== src/Run/Sized.antt =====
-- The shape of a machine: the registers of the table, and both stacks within what they were created for;
-- and the rules that follow it through the results of a handler.
pub mod Handlers
pub mod Branches
pub mod Words
pub mod Blocks
pub mod Reads
pub mod Cells
pub mod Sprintf
pub mod Steps
pub mod Whole
use orta_vm.Prelude.{
  ℕ, ◌+◌, ◌≤◌, ◌≡◌, refl, ◌∙◌, arith, Bool, true, false, Option, none, some, length, length-set,
  if◌then◌else◌,
}
use orta_vm.Result.{Result, ok, exit, undefined, eerror, ◌>>=◌}
use orta_vm.Word.{Word}
use orta_vm.Register.{reg_count}
use orta_vm.Heap.{Heap}
use orta_vm.Program.{Program, Variable}
use orta_vm.Stack.{XStack, xstack_push, xstack_pop}
use orta_vm.Stack.Laws.{IsBounded, xstack_push-IsBounded, xstack_pop-IsBounded}
use orta_vm.Vm.{
  OrtaVm, Xpu, with_stack, with_register, with_heap, with_ip, with_program, with_scope, push_word,
  pop_word,
}
use orta_vm.Result.Ensures.{
  Ensures, if-Ensures, ok-Ensures, exit-Ensures, undefined-Ensures, any-Ensures, >>=-Ensures,
  elim-Ensures,
}

pub record IsSized (vm : OrtaVm) : Type 0 where
  pub registers_there : length vm.xpu.registers ≡ reg_count
  pub stack_fits : IsBounded vm.xpu.stack
  pub calls_fit : IsBounded vm.xpu.call_stack

abbrev pub Keeps : Result OrtaVm → Type 0
Keeps = Ensures IsSized

pub push_word-IsSized : (vm : OrtaVm) (w : Word) → IsSized vm → IsSized (push_word vm w)
push_word-IsSized vm w v = record {
  registers_there = v.registers_there;
  stack_fits = xstack_push-IsBounded vm.xpu.stack w v.stack_fits;
  calls_fit = v.calls_fit;
}

pub pop_word-IsSized : (vm : OrtaVm) → IsSized vm → IsSized (pop_word vm).1
pop_word-IsSized vm v = record {
  registers_there = v.registers_there;
  stack_fits = xstack_pop-IsBounded vm.xpu.stack v.stack_fits;
  calls_fit = v.calls_fit;
}

pub with_register-IsSized :
    (vm : OrtaVm) (r : ℕ) (w : Word) → IsSized vm → IsSized (with_register vm r w)
with_register-IsSized vm r w v = record {
  registers_there = length-set vm.xpu.registers r w ∙ v.registers_there;
  stack_fits = v.stack_fits;
  calls_fit = v.calls_fit;
}

-- A change of anything but the registers and the stacks.
pub same_parts-IsSized :
    (vm u : OrtaVm)
    → u.xpu.registers ≡ vm.xpu.registers
    → u.xpu.stack ≡ vm.xpu.stack
    → u.xpu.call_stack ≡ vm.xpu.call_stack
    → IsSized vm
    → IsSized u
same_parts-IsSized vm u r s c v = record {
  registers_there = rw r v.registers_there;
  stack_fits = rw s v.stack_fits;
  calls_fit = rw c v.calls_fit;
}

pub with_heap-IsSized : (vm : OrtaVm) (h : Heap) → IsSized vm → IsSized (with_heap vm h)
with_heap-IsSized vm h v = same_parts-IsSized vm (with_heap vm h) refl refl refl v

pub with_program-IsSized : (vm : OrtaVm) (p : Program) → IsSized vm → IsSized (with_program vm p)
with_program-IsSized vm p v = same_parts-IsSized vm (with_program vm p) refl refl refl v

pub with_ip-IsSized : (vm : OrtaVm) (ip : ℕ) → IsSized vm → IsSized (with_ip vm ip)
with_ip-IsSized vm ip v = same_parts-IsSized vm (with_ip vm ip) refl refl refl v

pub if-IsSized : (b : Bool) (vm u : OrtaVm) → IsSized vm → IsSized u → IsSized (if b then vm else u)
if-IsSized true vm u x y = x
if-IsSized false vm u x y = y

pub ruleset keeps = (
  if-Ensures, ok-Ensures, exit-Ensures, undefined-Ensures, any-Ensures, elim-Ensures, if-IsSized,
  push_word-IsSized, pop_word-IsSized, with_register-IsSized, with_heap-IsSized,
  with_program-IsSized, with_ip-IsSized,
)
