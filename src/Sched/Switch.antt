-- ===== src/Sched/Switch.antt =====
-- The context switch: `switch_to_process` and `cpu_switch_to_process`.
use demos_os.Base.{◌≡◌, ◌≢◌, arith}
use demos_os.Pcb.{Ptr, process_running, CpuContext}
use demos_os.Sched.{Kernel, current, switch_to_process}

-- No process but the current one is RUNNING.
abbrev pub OnlyCurrentRuns : Kernel → Type 0
OnlyCurrentRuns k = (a : Ptr) → (k.mem a).state ≡ process_running → a ≡ k.current_process

-- After a switch the new process is the current one and RUNNING, and if no other process than the
-- old one was RUNNING, no other process than the new one is.
pub switch_to_process-OnlyCurrentRuns :
    (k : Kernel) (p : Ptr)
    → OnlyCurrentRuns k
    → let k' = switch_to_process k p in
      (k'.current_process ≡ p) × ((current k').state ≡ process_running) × OnlyCurrentRuns k'
unfolding switch_to_process
switch_to_process-OnlyCurrentRuns k p only =
    (ground arith, ground arith, λ a e. ground (arith, only a))

-- A switch to another process loads that process's saved registers. A switch back, whatever stands in
-- the registers by then, gives the first process the registers and the CPU that it had, and saves those
-- of the other one.
pub switch_to_process-restores :
    (k : Kernel) (p : Ptr) (registers : CpuContext)
    → p ≢ k.current_process
    → let away = switch_to_process k p in
      let back = switch_to_process (record away { cpu = registers }) k.current_process in
      (away.cpu ≡ (k.mem p).cpu_context)
      × (back.cpu ≡ k.cpu)
      × (back.current_process ≡ k.current_process)
      × ((back.mem p).cpu_context ≡ registers)
unfolding switch_to_process
switch_to_process-restores k p registers ne = ground arith

-- The links and the queues are not touched.
pub next_ready-switch_to_process :
    (k : Kernel) (p a : Ptr) → ((switch_to_process k p).mem a).next_ready ≡ (k.mem a).next_ready
unfolding switch_to_process
next_ready-switch_to_process k p a = ground arith

pub ready_queue-switch_to_process :
    (k : Kernel) (p : Ptr) → (switch_to_process k p).ready_queue ≡ k.ready_queue
unfolding switch_to_process
ready_queue-switch_to_process k p = ground arith

pub current_process-switch_to_process :
    (k : Kernel) (p : Ptr) → (switch_to_process k p).current_process ≡ p
unfolding switch_to_process
current_process-switch_to_process k p = ground arith

pub state-switch_to_process :
    (k : Kernel) (p : Ptr) → ((switch_to_process k p).mem p).state ≡ process_running
unfolding switch_to_process
state-switch_to_process k p = ground arith

pub counter-switch_to_process :
    (k : Kernel) (p a : Ptr) → ((switch_to_process k p).mem a).counter ≡ (k.mem a).counter
unfolding switch_to_process
counter-switch_to_process k p a = ground arith

pub preempt_disabled-switch_to_process :
    (k : Kernel) (p a : Ptr)
    → ((switch_to_process k p).mem a).preempt_disabled ≡ (k.mem a).preempt_disabled
unfolding switch_to_process
preempt_disabled-switch_to_process k p a = ground arith

-- No PCB but those of the two processes is written.
pub switch_to_process-away :
    (k : Kernel) (p a : Ptr)
    → a ≢ p
    → a ≢ k.current_process
    → (switch_to_process k p).mem a ≡ k.mem a
unfolding switch_to_process
switch_to_process-away k p a ne nc = ground arith
