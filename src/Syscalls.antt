-- ===== src/Syscalls.antt =====
-- The system calls of libs/syscalls.c on processes: search, wait, yield, signals, messages,
-- scheduling parameters. `Syscalls.Files` has those on files, `Syscalls.Wait` the search by pid,
-- `Syscalls.Calls` sequences of calls.
pub mod Files
pub mod Wait
pub mod Calls
use demos_os.Base.{
  ℕ, zero, suc, ◌+◌, ◌-◌, ◌^◌, Bool, true, false, not, ◌&&◌, List, ◌==◌, if◌then◌else◌,
}
use demos_os.Base.Int.{ℤ, pos, negsuc, ◌==ℤ◌}
use demos_os.Base.Run.{Run, ok, ◌>>=◌}
use demos_os.Pcb.{Ptr, null, max_processes, process_zombie, process_waiting_another_process, Pcb}
use demos_os.Sched.{Kernel, current, modify_pcb}
use demos_os.Sched.Tick.{schedule, exit_process}
use demos_os.Sched.Params.{sched_set_param}
use demos_os.Ipc.{Attempt, done, send_message, receive_message, send_signal}
use demos_os.Memory.{Memory, allocate_kernel_page}
use demos_os.Fork.{Machine, copy_process}

-- The first slot from `i` on, among `rounds`, that holds a process with this pid.
unfoldable pub search_from : (rounds i : ℕ) → Kernel → ℤ → Ptr
search_from zero i k pid = null
search_from (suc rounds) i k pid =
    let p = k.processes i in
    let rest = search_from rounds (i + 1) k pid in
    if not (p == null) && pos (k.mem p).pid ==ℤ pid then p else rest

unfoldable pub search_process : Kernel → ℤ → Ptr
search_process k pid = search_from max_processes 0 k pid

-- The call waits, unless the process has ended: the status, and the state when the caller goes on
-- or has given up the CPU.
unfoldable pub syscall_wait : Kernel → ℤ → Run (ℤ × Kernel)
syscall_wait k pid =
    let p = search_process k pid in
    let waiting =
      modify_pcb k k.current_process
        (λ c. record c { state = process_waiting_another_process; pid_to_wait = pid }) in
    if p == null
    then ok (negsuc 0, k)
    else if (k.mem p).state == process_zombie
    then ok (pos 0, k)
    else (schedule waiting >>= λ k'. ok (pos 0, k'))

unfoldable pub syscall_yield : Kernel → Run Kernel
syscall_yield k = schedule (modify_pcb k k.current_process (λ c. record c { counter = pos 0 }))

abbrev pub syscall_exit : Kernel → Run Kernel
syscall_exit k = exit_process k

unfoldable pub syscall_set_sched_param : Kernel → (pid param value : ℤ) → ℤ × Kernel
syscall_set_sched_param k pid param value =
    let p = search_process k pid in
    if p == null then (negsuc 0, k) else sched_set_param k p param value

unfoldable pub syscall_send_signal : Kernel → (pid : ℤ) (signal_flag : ℕ) → ℤ × Kernel
syscall_send_signal k pid signal_flag =
    let p = search_process k pid in if p == null then (negsuc 0, k) else send_signal k p signal_flag

unfoldable pub syscall_send_message : Kernel → (pid : ℤ) → List ℕ → Run (Attempt ℤ)
syscall_send_message k pid body =
    let p = search_process k pid in
    if p == null then ok (done (negsuc 0) k) else send_message k k.current_process p body

abbrev pub syscall_receive_message : Kernel → Run (Attempt (List ℕ))
syscall_receive_message k = receive_message k k.current_process

abbrev pub syscall_get_pid : Kernel → ℕ
syscall_get_pid k = (current k).pid

-- `syscall_fork` and `syscall_clone`
abbrev pub syscall_fork : (ret_from_fork : ℕ) → Machine → Run (ℤ × Machine)
syscall_fork ret_from_fork s = copy_process ret_from_fork 0 0 0 s

-- -1 as an `unsigned long` if no page is free.
abbrev pub syscall_malloc : Memory → ℕ × Memory
syscall_malloc m =
    let (address, m') = allocate_kernel_page m in
    if address == 0 then (2 ^ 64 - 1, m') else (address, m')
