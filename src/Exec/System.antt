-- ===== src/Exec/System.antt =====
-- The handler of `xcall`: the registers `rax`, `rbx` and `rcx` name a call to the system.
use orta_vm.Prelude.{ℕ, ◌&&◌, ◌==◌, if◌then◌else◌, List}
use orta_vm.Result.{Result, ok, eerror, ◌>>=◌}
use orta_vm.Heap.{load_string}
use orta_vm.Word.{wint, wcharp, is_type, as_int, null_word}
use orta_vm.Vm.{OrtaVm, register, push_word}
use orta_vm.Platform.{Platform}
use orta_vm.Flags.{add_flag, flag_external_library}

abbrev pub with_flags : OrtaVm → List ℕ → OrtaVm
with_flags vm flags = record vm { meta = record (vm.meta) { flags = flags } }

module _ (pf : Platform) where
  -- Call 3: a function of a library, which is given the whole machine.
  unfoldable pub call_library : OrtaVm → Result OrtaVm
  unfolding add_flag
  call_library vm =
      (if is_type wcharp (register vm 1) && is_type wcharp (register vm 2)
        then (do
          lib_path ← load_string ((register vm 1).bits) vm.heap
          func_name ← load_string ((register vm 2).bits) vm.heap
          pf.call_dynlib lib_path func_name vm)
        else eerror)
      >>= λ vm'.
          add_flag vm'.meta.flags flag_external_library >>= λ flags. ok (with_flags vm' flags)

  -- Call 1 sleeps and call 2 runs a command: neither changes the machine, but the command is read.
  unfoldable pub exec_xcall : OrtaVm → Result OrtaVm
  unfolding call_library
  exec_xcall vm =
      if is_type wint (register vm 0)
      then (let call = as_int (register vm 0) in
          if call == 2 && is_type wcharp (register vm 1)
          then (load_string ((register vm 1).bits) vm.heap >>= λ command. ok vm)
          else if call == 3
          then call_library vm
          else if call == 7
          then ok (push_word vm null_word)
          else ok vm)
      else ok vm
