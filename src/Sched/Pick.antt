-- ===== src/Sched/Pick.antt =====
-- The selection functions of libs/scheduler.c (the `pick_next` callbacks). Code after the context
-- switch runs on the stack of the process that was switched to: each process that is not running
-- stopped either in such a function or in `ret_from_fork`, so what runs next there is the
-- `preempt_enable` that ends each of them. `Pick.Aging` and `Pick.Lottery` hold two of the functions.
pub mod Aging
pub mod Take
pub mod First
pub mod Ready
pub mod Select
pub mod RoundRobin
pub mod Dispatch
pub mod Lottery
pub mod Multilevel
use demos_os.Base.{ℕ, zero, suc, Bool, true, false, not, ◌&&◌, ◌==◌, if◌then◌else◌}
use demos_os.Base.Int.{ℤ, pos}
use demos_os.Base.Run.{Run, ok, out_of_fuel, ◌>>=◌}
use demos_os.Pcb.{Ptr, null, init_process, process_running, process_ready, Pcb}
use demos_os.Queue.{queue_fuel}
use demos_os.Sched.{
  Kernel, QueueName, ready, current, modify_pcb, dequeue_from, enqueue_by, enqueue_fifo,
  preempt_enable, preempt_disable, handle_process_signals, switch_to_process,
}

-- `while ((p = dequeue_process_from(queue)) != NULL) { handle signals; if READY break; }`
pub take_ready : ℕ → QueueName → Kernel → Run (Ptr × Kernel)
take_ready zero n k = out_of_fuel
take_ready (suc fuel) n k =
    let (p, k₁) = dequeue_from k n in
    if p == null
    then ok (null, k₁)
    else (handle_process_signals k₁ p >>= λ k₂.
        let rest = take_ready fuel n k₂ in
        if (k₂.mem p).state == process_ready then ok (p, k₂) else rest)

-- The current process, if it still runs and is not the idle task, goes back to a queue.
abbrev pub requeue_current : (Kernel → Ptr → Run Kernel) → Kernel → Run Kernel
requeue_current enqueue k =
    if not (k.current_process == init_process) && (current k).state == process_running
    then enqueue k k.current_process
    else ok k

-- The selected process, or the idle task.
abbrev pub or_init : Ptr → Ptr
or_init p = if p == null then init_process else p

-- A new time slice for the selected process, if there is one.
abbrev pub recharge : ℕ → Ptr → Kernel → Kernel
recharge slice p k = if p == null then k else modify_pcb k p (λ c. record c { counter = pos slice })

-- The end of each selection function.
abbrev pub dispatch : Ptr → Kernel → Kernel
dispatch p k = preempt_enable (switch_to_process k (or_init p))

unfoldable pub schedule_round_robin : Kernel → Run Kernel
schedule_round_robin k = requeue_current enqueue_fifo (preempt_disable k) >>= λ k₁.
    take_ready queue_fuel ready k₁ >>= λ (p, k₂). ok (dispatch p (recharge 10 p k₂))

unfoldable pub schedule_queue_head : Kernel → Run Kernel
schedule_queue_head k =
    requeue_current (enqueue_by k.active_algorithm) (preempt_disable k) >>= λ k₁.
    take_ready queue_fuel ready k₁ >>= λ (p, k₂). ok (dispatch p k₂)
