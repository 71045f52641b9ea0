-- ===== src/Sched.antt =====
-- The state of libs/scheduler.c, the scheduling algorithms' descriptors, the insertion router, the
-- preemption guard, the signals and the context switch. The children hold the rest of the file:
-- `Pick` the selection functions, `Tick` the timer, the dispatcher and the exit, `Params` the
-- registration of a process and the change of a parameter.
pub mod Pick
pub mod Tick
pub mod Params
pub mod Signals
pub mod Switch
pub mod Levels
pub mod Register
pub mod Invariant
pub mod Preemption
use demos_os.Base.{
  ℕ, zero, suc, ◌+◌, ◌-◌, ◌≡◌, Bool, true, false, not, ◌&&◌, Option, none, some, List, [], ◌∷◌, ltb,
  ◌==◌, if◌then◌else◌,
}
use demos_os.Base.Int.{ℤ, pos, negsuc, ◌+ℤ◌, ◌-ℤ◌}
use demos_os.Base.Bits.{test_bit, clear_bit}
use demos_os.Base.Run.{Run, ok, fault, ◌>>=◌}
use demos_os.Pcb.{
  Ptr, null, init_process, max_processes, process_running, process_zombie, process_stopped,
  process_ready, signal_kill, signal_stop, signal_resume, CpuContext, Pcb, Store, modify,
}
use demos_os.Queue.{
  ProcessQueue, not_queueable, enqueue_process_to, dequeue_process_from, remove_process_from,
  enqueue_sorted_to,
}

-- `ML_MAX_LEVELS`
abbrev pub ml_max_levels : ℕ
ml_max_levels = 5

pub record MultilevelPolicy : Type 0 where
  pub n_levels : ℕ
  pub quantum : List ℕ
  pub demote_on_expiry : Bool
  pub boost_period : ℕ

abbrev pub ml_policy_mlq : MultilevelPolicy
ml_policy_mlq = record {
  n_levels = 5;
  quantum = 10 ∷ 12 ∷ 14 ∷ 16 ∷ 20 ∷ [];
  demote_on_expiry = false;
  boost_period = 0;
}

abbrev pub ml_policy_mlfq : MultilevelPolicy
ml_policy_mlfq = record {
  n_levels = 5;
  quantum = 5 ∷ 8 ∷ 10 ∷ 15 ∷ 20 ∷ [];
  demote_on_expiry = true;
  boost_period = 300;
}

-- One constructor for each descriptor. Its function pointers are the functions by cases on it.
pub data SchedAlgorithm : Type 0 where
  round_robin fcfs sjf lottery priority_aging mlq mlfq : SchedAlgorithm

abbrev pub is_preemptive : SchedAlgorithm → Bool
is_preemptive fcfs = false
is_preemptive sjf = false
is_preemptive _ = true

abbrev pub ml_policy : SchedAlgorithm → Option MultilevelPolicy
ml_policy mlq = some ml_policy_mlq
ml_policy mlfq = some ml_policy_mlfq
ml_policy _ = none

-- What the scheduler prints on the UART.
pub data Trace : Type 0 where
  starts_at : (pid level : ℕ) → Trace
  moved_to : (pid level : ℕ) → Trace
  demoted_to : (pid level : ℕ) → Trace
  boost : Trace

-- The file's variables, the PCBs, the registers that a context switch touches and the output.
-- `timer` holds what the reads of the free-running timer will return.
pub record Kernel : Type 0 where
  pub mem : Store
  pub current_process : Ptr
  pub processes : ℕ → Ptr
  pub n_processes : ℕ
  pub ready_queue : ProcessQueue
  pub ml_queues : ℕ → ProcessQueue
  pub queue_level : ℕ → ℕ
  pub active_algorithm : SchedAlgorithm
  pub lottery_rng_state : ℕ
  pub ml_ticks_since_boost : ℕ
  pub cpu : CpuContext
  pub pgd : ℕ
  pub irq_enabled : Bool
  pub timer : ℕ → ℕ
  pub trace : List Trace

-- The PCB of the running process.
abbrev pub current : Kernel → Pcb
current k = k.mem k.current_process

abbrev pub modify_pcb : Kernel → Ptr → (Pcb → Pcb) → Kernel
modify_pcb k p f = record k { mem = modify k.mem p f }

abbrev pub update : {A : Type 0} → (ℕ → A) → ℕ → A → ℕ → A
update f i v j = if j == i then v else f j

-- A `ProcessQueue*`: the ready queue, or one level of the multilevel queues.
pub data QueueName : Type 0 where
  ready : QueueName
  level : ℕ → QueueName

abbrev pub queue_at : Kernel → QueueName → ProcessQueue
queue_at k ready = k.ready_queue
queue_at k (level i) = k.ml_queues i

abbrev pub set_queue : Kernel → QueueName → Store × ProcessQueue → Kernel
set_queue k ready (m, q) = record k { mem = m; ready_queue = q }
set_queue k (level i) (m, q) = record k { mem = m; ml_queues = update k.ml_queues i q }

abbrev pub enqueue_to : Kernel → QueueName → Ptr → Kernel
enqueue_to k n p = set_queue k n (enqueue_process_to k.mem (queue_at k n) p)

abbrev pub dequeue_from : Kernel → QueueName → Ptr × Kernel
dequeue_from k n =
    let (p, m, q) = dequeue_process_from k.mem (queue_at k n) in (p, set_queue k n (m, q))

abbrev pub remove_from : Kernel → QueueName → (previous process : Ptr) → Kernel
remove_from k n previous p = set_queue k n (remove_process_from k.mem (queue_at k n) previous p)

unfoldable pub enqueue_fifo : Kernel → Ptr → Run Kernel
enqueue_fifo k p = ok (enqueue_to k ready p)

unfoldable pub enqueue_sjf : Kernel → Ptr → Run Kernel
enqueue_sjf k p = enqueue_sorted_to k.mem k.ready_queue p >>= λ r. ok (set_queue k ready r)

-- An index outside `queue_level` or `ml_queues` is a fault.
unfoldable pub enqueue_multilevel : Kernel → Ptr → Run Kernel
enqueue_multilevel k p =
    let pid = (k.mem p).pid in
    let at = k.queue_level pid in
    if ltb pid max_processes && ltb at ml_max_levels then ok (enqueue_to k (level at) p) else fault

-- `active_algorithm->enqueue`
abbrev pub enqueue_by : SchedAlgorithm → Kernel → Ptr → Run Kernel
enqueue_by sjf k p = enqueue_sjf k p
enqueue_by mlq k p = enqueue_multilevel k p
enqueue_by mlfq k p = enqueue_multilevel k p
enqueue_by _ k p = enqueue_fifo k p

unfoldable pub enqueue_process : Kernel → Ptr → Run Kernel
enqueue_process k p = if not_queueable p then ok k else enqueue_by k.active_algorithm k p

abbrev pub preempt_enable : Kernel → Kernel
preempt_enable k =
    modify_pcb k k.current_process
      (λ c. record c { preempt_disabled = c.preempt_disabled -ℤ pos 1 })

abbrev pub preempt_disable : Kernel → Kernel
preempt_disable k =
    modify_pcb k k.current_process
      (λ c. record c { preempt_disabled = c.preempt_disabled +ℤ pos 1 })

-- The end of a new process's first context switch.
abbrev pub schedule_tail : Kernel → Kernel
schedule_tail = preempt_enable

abbrev pub clear_signal : ℕ → Pcb → Pcb
clear_signal signal c = record c { pending_signals = clear_bit c.pending_signals signal }

abbrev pub set_state : ℕ → Pcb → Pcb
set_state state c = record c { state = state }

unfoldable pub handle_process_signals : Kernel → Ptr → Run Kernel
handle_process_signals k p =
    let pending = (k.mem p).pending_signals in
    let resumed = modify_pcb k p (clear_signal signal_resume) in
    if pending == 0
    then ok k
    else if test_bit pending signal_kill
    then ok (modify_pcb k p (λ c. set_state process_zombie (clear_signal signal_kill c)))
    else if test_bit pending signal_stop
    then ok (modify_pcb k p (λ c. set_state process_stopped (clear_signal signal_stop c)))
    else if test_bit pending signal_resume
    then (if (k.mem p).state == process_stopped
        then enqueue_process (modify_pcb resumed p (set_state process_ready)) p
        else ok resumed)
    else ok k

-- `cpu_switch_to_process` of libs/fork_asm.S: saves the registers of one process and loads those of
-- the other. What runs next is the other process, at its saved `pc`.
abbrev pub cpu_switch_to_process : Kernel → (previous next : Ptr) → Kernel
cpu_switch_to_process k previous next =
    let saved = modify_pcb k previous (λ c. record c { cpu_context = k.cpu }) in
    record saved { cpu = (saved.mem next).cpu_context }

-- `set_pgd` of libs/fork_asm.S.
abbrev pub set_pgd : Kernel → ℕ → Kernel
set_pgd k table = record k { pgd = table }

unfoldable pub switch_to_process : Kernel → Ptr → Kernel
switch_to_process k next =
    let k₁ = modify_pcb k next (set_state process_running) in
    let previous = k.current_process in
    let k₂ =
      if (k₁.mem previous).state == process_running
      then modify_pcb k₁ previous (set_state process_ready)
      else k₁ in
    let k₃ = record k₂ { current_process = next } in
    if k.current_process == next
    then k₁
    else cpu_switch_to_process (set_pgd k₃ (k₃.mem next).mm.pgd) previous next
