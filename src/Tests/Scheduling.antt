-- ===== src/Tests/Scheduling.antt =====
-- The scheduler at concrete inputs.
use demos_os.Base.{
  ◌+◌, ◌≢◌, zero, suc, List, none, if◌then◌else◌, ◌==◌, ◌≡◌, refl, [], ◌∷◌, arith, ℕ, some,
}
use demos_os.Base.Int.{pos}
use demos_os.Base.Run.{Returns}
use demos_os.Pcb.{Ptr, process_zombie, process_running, CpuContext, zero_context}
use demos_os.Sched.{
  round_robin, fcfs, mlfq, Kernel, current, modify_pcb, switch_to_process, handle_process_signals,
}
use demos_os.Sched.Pick.{schedule_queue_head}
use demos_os.Sched.Pick.RoundRobin.{Scheduled, schedule_queue_head-fcfs}
use demos_os.Queue.{empty_queue}
use demos_os.Queue.Chain.{IsQueue}
use demos_os.Sched.Tick.{drain_level, handle_timer_tick}
use demos_os.Sched.Tick.Boost.{drain_level-moved}
use demos_os.Sched.Preemption.{handle_timer_tick-round_robin}
use demos_os.Sched.Switch.{
  OnlyCurrentRuns, switch_to_process-OnlyCurrentRuns, switch_to_process-restores,
}
use demos_os.Ipc.Signals.{handle_process_signals-order}
use demos_os.Syscalls.Calls.{Call, tick, yield_cpu, wait, exit, signal, Safe}
use demos_os.Syscalls.Calls.Fair.{Served, run_calls-fair}
use demos_os.Tests.Kernels.{
  sample_store, resting_kernel, resting_kernel-Inv, sample_queue, sample_queue-IsQueue,
  sample_kernel, sample_kernel-CanSchedule,
}

-- The process at 3 is killed on the way.
handle_timer_tick-round_robin_example :
    Returns
      (Scheduled (some 10) (sample_kernel round_robin) (3 ∷ 4 ∷ 2 ∷ []))
      (handle_timer_tick (sample_kernel round_robin))
handle_timer_tick-round_robin_example =
    handle_timer_tick-round_robin (sample_kernel round_robin) (3 ∷ 4 ∷ []) refl
      (sample_kernel-CanSchedule round_robin) (ground arith) (ground arith)

sample_kernel-OnlyCurrentRuns : OnlyCurrentRuns (sample_kernel round_robin)
sample_kernel-OnlyCurrentRuns a e = ground arith

switch_to_process-OnlyCurrentRuns_example :
    let k' = switch_to_process (sample_kernel round_robin) 4 in
    (k'.current_process ≡ 4) × ((current k').state ≡ process_running) × OnlyCurrentRuns k'
switch_to_process-OnlyCurrentRuns_example =
    switch_to_process-OnlyCurrentRuns (sample_kernel round_robin) 4 sample_kernel-OnlyCurrentRuns

abbrev other_registers : CpuContext
other_registers = record zero_context { x19 = 99 }

switch_to_process-restores_example :
    let away = switch_to_process (sample_kernel round_robin) 4 in
    let back = switch_to_process (record away { cpu = other_registers }) 2 in
    (away.cpu ≡ zero_context)
    × (back.cpu ≡ record zero_context { x19 = 7; pc = 4096 })
    × (back.current_process ≡ 2)
    × ((back.mem 4).cpu_context ≡ other_registers)
switch_to_process-restores_example =
    switch_to_process-restores (sample_kernel round_robin) 4 other_registers (omega arith)

-- The process at 3 is READY with a kill pending.
handle_process_signals-order_example :
    Returns
      (λ k'.
        ((k'.mem 3).state ≡ process_zombie)
        × ((k'.mem 3).pending_signals + 2 ≡ 2)
        × ((a : Ptr) → a ≢ 3 → k'.mem a ≡ sample_store a))
      (handle_process_signals (sample_kernel round_robin) 3)
handle_process_signals-order_example =
    handle_process_signals-order (sample_kernel round_robin) 3 (omega arith)

-- Level 1 holds the two ready processes, level 0 is empty.
abbrev level_kernel : Kernel
level_kernel = record (sample_kernel mlfq) {
  ml_queues = λ i. if i == 1 then sample_queue else empty_queue;
}

drain_level-moved_example :
    Returns
      (λ k'.
        IsQueue k'.mem (k'.ml_queues 1) []
        × IsQueue k'.mem (k'.ml_queues 0) (3 ∷ 4 ∷ [])
        × (k'.current_process ≡ 2)
        × (k'.n_processes ≡ 5))
      (drain_level 5 1 level_kernel)
drain_level-moved_example =
    drain_level-moved 5 1 level_kernel (3 ∷ 4 ∷ []) [] (omega arith) (omega arith)
      sample_queue-IsQueue (record { chain = refl; last = refl })
      (refl, omega arith, omega arith, (refl, omega arith, omega arith, tt))

-- The process at 3 waits for the end of process 1.
abbrev waiting_kernel : Kernel
waiting_kernel =
    modify_pcb (sample_kernel round_robin) 3 (λ c. record c { state = 6; pid_to_wait = pos 1 })

schedule_queue_head-fcfs_example :
    Returns
      (Scheduled none (sample_kernel fcfs) (3 ∷ 4 ∷ 2 ∷ []))
      (schedule_queue_head (sample_kernel fcfs))
schedule_queue_head-fcfs_example =
    schedule_queue_head-fcfs (sample_kernel fcfs) (3 ∷ 4 ∷ []) refl (sample_kernel-CanSchedule fcfs)

resting_kernel-Safe : Safe resting_kernel
resting_kernel-Safe = ((3 ∷ 4 ∷ [], resting_kernel-Inv), refl)

abbrev ticks_then : ℕ → List Call → List Call
ticks_then zero cs = cs
ticks_then (suc n) cs = tick ∷ ticks_then n cs

-- The process at 2 uses up its slice and the next one ends; a signal, a wait and twenty ticks follow.
abbrev sample_calls : List Call
sample_calls = tick ∷ signal (pos 2) 1 ∷ exit ∷ wait (pos 1) ∷ ticks_then 20 (yield_cpu ∷ [])

run_calls-fair_example : Served 4 sample_calls resting_kernel
run_calls-fair_example =
    run_calls-fair sample_calls 4 resting_kernel (3 ∷ []) [] resting_kernel-Inv refl (omega arith)
      (omega arith) (ground arith)
