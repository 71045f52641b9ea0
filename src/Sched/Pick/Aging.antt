-- ===== src/Sched/Pick/Aging.antt =====
-- `_schedule_priority_aging`.
pub mod Epoch
use demos_os.Base.{ℕ, zero, suc, ◌+◌, ◌==◌, if◌then◌else◌}
use demos_os.Base.Int.{ℤ, pos, ltb_ℤ, ◌+ℤ◌, shift_right_one}
use demos_os.Base.Run.{Run, ok, out_of_fuel, ◌>>=◌}
use demos_os.Pcb.{Ptr, null, max_processes, process_ready, Pcb}
use demos_os.Queue.{queue_fuel}
use demos_os.Sched.{
  Kernel, ready, modify_pcb, remove_from, enqueue_fifo, preempt_disable, handle_process_signals,
}
use demos_os.Sched.Pick.{requeue_current, dispatch}

-- The best candidate so far, the process before it, and its counter.
pub record Best : Type 0 where
  pub best : Ptr
  pub best_previous : Ptr
  pub max_counter : ℤ

abbrev pub no_best : Best
no_best = record { best = null; best_previous = null; max_counter = pos 0 }

abbrev pub better : Pcb → (previous node : Ptr) → Best → Best
better c previous node b =
    if ltb_ℤ b.max_counter c.counter
    then record { best = node; best_previous = previous; max_counter = c.counter }
    else b

-- The walk along the ready queue.
pub scan_ready : ℕ → Kernel → (previous node : Ptr) → Best → Run (Best × Kernel)
scan_ready zero k previous node b = out_of_fuel
scan_ready (suc fuel) k previous node b =
    let next = (k.mem node).next_ready in
    if node == null
    then ok (b, k)
    else (handle_process_signals k node >>= λ k'.
        let c = k'.mem node in
        let keep = c.state == process_ready in
        scan_ready fuel (if keep then k' else remove_from k' ready previous node)
          (if keep then node else previous) next (if keep then better c previous node b else b))

-- `counter = (counter >> 1) + priority`
abbrev pub age : Pcb → Pcb
age c = record c { counter = shift_right_one c.counter +ℤ c.priority }

-- The end of an epoch: every process from slot `i` on, `rounds` slots.
pub age_all : (rounds i : ℕ) → Kernel → Kernel
age_all zero i k = k
age_all (suc rounds) i k =
    age_all rounds (i + 1) (if k.processes i == null then k else modify_pcb k (k.processes i) age)

-- The selection loop: one pass along the queue in each epoch.
pub select_aging : ℕ → Kernel → Run (Ptr × Kernel)
select_aging zero k = out_of_fuel
select_aging (suc epochs) k = scan_ready queue_fuel k null k.ready_queue.head no_best >>= λ (b, k').
    let rest = select_aging epochs (age_all max_processes 0 k') in
    if b.best == null
    then (if k'.ready_queue.head == null then ok (null, k') else rest)
    else ok (b.best, remove_from k' ready b.best_previous b.best)

-- The epochs that one decision goes through, at most.
abbrev pub epoch_fuel : ℕ
epoch_fuel = 65

unfoldable pub schedule_priority_aging : Kernel → Run Kernel
schedule_priority_aging k = requeue_current enqueue_fifo (preempt_disable k) >>= λ k₁.
    select_aging epoch_fuel k₁ >>= λ (p, k₂). ok (dispatch p k₂)
