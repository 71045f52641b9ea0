-- ===== src/Syscalls/Calls.antt =====
-- Sequences of timer ticks and system calls, and what every such sequence keeps.
pub mod Turns
pub mod Fair
use demos_os.Base.{ℕ, ◌+◌, ◌≡◌, ◌==◌, if◌then◌else◌, List, [], ◌∷◌}
use demos_os.Base.Int.{ℤ}
use demos_os.Base.Run.{Run, ok, ◌>>=◌}
use demos_os.Pcb.{Ptr, process_running}
use demos_os.Sched.{Kernel, current}
use demos_os.Sched.Tick.{handle_timer_tick}
use demos_os.Sched.Invariant.{Inv}
use demos_os.Syscalls.{syscall_yield, syscall_wait, syscall_exit, syscall_send_signal}

-- What enters the kernel: a tick of the timer, or a call of the current process.
pub data Call : Type 0 where
  tick : Call
  yield_cpu : Call
  wait : (pid : ℤ) → Call
  exit : Call
  signal : (pid : ℤ) (signal_flag : ℕ) → Call

abbrev pub run_call : Call → Kernel → Run Kernel
run_call tick k = handle_timer_tick k
run_call yield_cpu k = syscall_yield k
run_call (wait pid) k = syscall_wait k pid >>= λ (_, k'). ok k'
run_call exit k = syscall_exit k
run_call (signal pid signal_flag) k = ok (syscall_send_signal k pid signal_flag).1

abbrev pub run_calls : List Call → Kernel → Run Kernel
run_calls [] k = ok k
run_calls (c ∷ cs) k = run_call c k >>= λ k'. run_calls cs k'

-- What holds between two calls: the invariant for some queue, and a current process that runs.
abbrev pub Safe : Kernel → Type 0
Safe k = ((xs : List Ptr) × Inv 0 k xs) × ((current k).state ≡ process_running)
