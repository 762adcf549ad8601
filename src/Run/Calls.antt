-- ===== src/Run/Calls.antt =====
-- Steps of the dispatcher that move the instruction pointer: calls, returns and jumps.
use orta_vm.Prelude.{
  ℕ, ◌+◌, ◌^◌, ◌<◌, ◌≡◌, arith, List, [], ◌∷◌, Str, lt→ltb, ap, suc, length, refl, ◌∙◌,
}
use orta_vm.Result.{Result, ok}
use orta_vm.Platform.{Platform}
use orta_vm.Instruction.{Instruction, ijmp, icall, iret}
use orta_vm.Word.{int_word, as_int, int_to_size}
use orta_vm.Result.Ensures.{Ensures}
use orta_vm.Run.Arguments.{Framed, push_arguments-Framed}
use orta_vm.Stack.{count, push}
use orta_vm.Stack.Laws.{xstack_pop-xstack_push}
use orta_vm.Program.{InstructionData, instructions_count}
use orta_vm.Vm.{OrtaVm, with_ip, next_ip, before_ip}
use orta_vm.Exec.{execute_instruction, execute_opcode, handler}
use orta_vm.Exec.Jump.{
  exec_call, exec_jmp, exec_ret, call_target, jump_target, jump_to, push_arguments, push_return,
}

-- An instruction with one operand.
abbrev pub with_target : Instruction → ℕ → Str → InstructionData
with_target op line name = record { opcode = op; operands = name ∷ []; line = line }

-- Writing the cell before the target and advancing gives the target.
next_ip-before_ip : (t : ℕ) → t < 2 ^ 64 → next_ip (before_ip t) ≡ t
next_ip-before_ip t h = omega arith

-- A return address below 2 ^ 31 is read back as it was stored.
return_address : (ip : ℕ) → ip < 2 ^ 31 → next_ip (int_to_size (as_int (int_word ip))) ≡ ip + 1
return_address ip h = ground arith

-- A call of a target with arguments.
abbrev pub call_to : ℕ → Str → List Str → InstructionData
call_to line name names = record { opcode = icall; operands = name ∷ names; line = line }

-- The machine that a return leaves.
abbrev pub returned : OrtaVm → OrtaVm → OrtaVm
returned vm u = record u {
  xpu = record (u.xpu) { ip = vm.xpu.ip + 1; call_stack = vm.xpu.call_stack };
}

module _ (pf : Platform) (exec_sprintf : OrtaVm → InstructionData → Result OrtaVm) (vm : OrtaVm)
    (line : ℕ) where
  -- A jump to a target within the program goes on there and changes nothing else.
  pub jmp-lands :
      (name : Str)
      → instructions_count vm.program < 2 ^ 64
      → jump_target pf.floats vm.program name < instructions_count vm.program
      → execute_instruction pf exec_sprintf vm (with_target ijmp line name)
        ≡ ok (with_ip vm (jump_target pf.floats vm.program name))
  unfolding execute_instruction execute_opcode handler exec_jmp jump_to
  jmp-lands name size lo =
      let to = jump_target pf.floats vm.program name in
      rw (lt→ltb to (instructions_count vm.program) lo)
        (ap (λ k. ok (with_ip vm k)) (next_ip-before_ip to (omega arith)))

  -- A call whose arguments are accepted goes to its target with the return address on top of the call stack,
  -- whatever the arguments are, and a return in any machine with that call stack goes to the instruction behind the
  -- call and takes the return address away again. The call stack has room (a full one loses the address), the target is
  -- in the program and the call is below 2 ^ 31.
  pub ret-call :
      (name : Str) (names : List Str) (target line' : ℕ) (args : List Str) (w u : OrtaVm)
      → call_target pf vm.program name ≡ ok target
      → target < instructions_count vm.program
      → instructions_count vm.program < 2 ^ 64
      → vm.xpu.ip < 2 ^ 31
      → count vm.xpu.call_stack < vm.xpu.call_stack.capacity
      → push_arguments pf
          (suc (length names))
          vm.xpu.ip
          (call_to line name names)
          (with_ip (push_return pf vm) (before_ip target))
        ≡ ok w
      → u.xpu.call_stack ≡ w.xpu.call_stack
      → (execute_instruction pf exec_sprintf vm (call_to line name names) ≡ ok (with_ip w target))
        × (w.xpu.call_stack ≡ push vm.xpu.call_stack (int_word vm.xpu.ip))
        × (execute_instruction pf exec_sprintf u
              (record { opcode = iret; operands = args; line = line' })
            ≡ ok (returned vm u))
  unfolding execute_instruction execute_opcode handler exec_call exec_ret Ensures
  ret-call name names target line' args w u found lo size small room pushed same =
      let calls = push vm.xpu.call_stack (int_word vm.xpu.ip) in
      let kept =
        push_arguments-Framed pf (before_ip target) calls (suc (length names)) vm.xpu.ip
          (call_to line name names) (with_ip (push_return pf vm) (before_ip target)) (refl, refl) in
      let framed : Framed pf (before_ip target) calls w = rw pushed at kept in
      let entered : next_ip w.xpu.ip ≡ target =
        ap next_ip framed.0 ∙ next_ip-before_ip target (omega (arith, lo, size)) in
      (
        rw found (
            rw (lt→ltb target (instructions_count vm.program) lo)
              (rw pushed (ap (λ k. ok (with_ip w k)) entered))),
        framed.1,
        rw (same ∙ framed.1) (
            rw (xstack_pop-xstack_push vm.xpu.call_stack (int_word vm.xpu.ip) room)
              (ap (λ k. ok (with_ip (returned vm u) k)) (return_address vm.xpu.ip small))),
      )
