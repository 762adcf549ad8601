-- ===== src/Run/Sized/Sprintf.antt =====
-- The shape of a machine in `sprintf`.
use orta_vm.Prelude.{ℕ, false, not, ◌&&◌, ◌==◌, List, Str}
use mathlib.Core.List.{reverse}
use orta_vm.Result.{Result}
use orta_vm.Result.Ensures.{if-Ensures, exit-Ensures, any-Ensures, ok-Ensures}
use orta_vm.Heap.{new_string, load_string, free}
use orta_vm.Word.{Word, wcharp, is_type}
use orta_vm.Stack.{xstack_check}
use orta_vm.Program.{InstructionData}
use orta_vm.Platform.{Platform}
use orta_vm.Vm.{OrtaVm, with_stack, with_heap, pop_word}
use orta_vm.Exec.StackOps.{pop_many}
use orta_vm.Exec.Sprintf.{
  Argument, count_arguments, free_strings, formatted, push_formatted, sprintf_with, exec_sprintf,
}
use orta_vm.Run.Sized.{IsSized, Keeps, push_word-IsSized, pop_word-IsSized, with_heap-IsSized}
use orta_vm.Run.Sized.Words.{pop_many-IsBounded, with_stack-IsSized}

module _ (pf : Platform) (snprintf : Str → Argument → Result Str) where
  push_formatted-Keeps :
      (vm : OrtaVm) (w : Word) (args : List Word) (text : Str)
      → IsSized vm
      → Keeps (push_formatted pf snprintf vm w args text)
  push_formatted-Keeps vm w args text v =
      any-Ensures IsSized (free_strings args (new_string text vm.heap).1) _ λ h₁.
        any-Ensures IsSized (free w.bits h₁) _ λ h₂.
          ok-Ensures IsSized _ (push_word-IsSized (with_heap vm h₂) _ (with_heap-IsSized vm h₂ v))

  sprintf_with-Keeps :
      (vm : OrtaVm) (w : Word) (fmt : Str) (n : ℕ)
      → IsSized vm
      → Keeps (sprintf_with pf snprintf vm w fmt n)
  sprintf_with-Keeps vm w fmt n v =
      let (ws, s) = pop_many n vm.xpu.stack in
      if-Ensures IsSized (xstack_check vm.xpu.stack n) _ _
        (any-Ensures IsSized (formatted pf snprintf fmt (reverse ws) vm.heap) _ λ text.
          push_formatted-Keeps (with_stack vm s) w (reverse ws) text
            (with_stack-IsSized vm s (pop_many-IsBounded n vm.xpu.stack v.stack_fits) v))
        (exit-Ensures IsSized 1)

  -- `sprintf` keeps the shape of the machine, whatever the format and the conversions are.
  pub exec_sprintf-Keeps :
      (vm : OrtaVm) (i : InstructionData) → IsSized vm → Keeps (exec_sprintf pf snprintf vm i)
  unfolding exec_sprintf
  exec_sprintf-Keeps vm i v =
      let (w, vm') = pop_word vm in
      if-Ensures IsSized (is_type wcharp w && not (w.bits == 0)) _ _
        (any-Ensures IsSized (load_string w.bits vm'.heap) _ λ fmt.
          any-Ensures IsSized (count_arguments false fmt) _
            λ n. sprintf_with-Keeps vm' w fmt n (pop_word-IsSized vm v))
        (exit-Ensures IsSized 1)
