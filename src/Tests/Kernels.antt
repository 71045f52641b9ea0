-- ===== src/Tests/Kernels.antt =====
-- A kernel with the running process at address 2, the ready processes at 3 and 4, and a stopped one
-- at 6.
use mathlib.Core.Path.{subst}
use demos_os.Base.{
  ℕ, ◌+◌, ◌≡◌, ◌≢◌, inl, inr, true, has, Bool-cases, ◌*◌, refl, false, [], ◌∷◌, arith, ◌==◌,
  if◌then◌else◌,
}
use demos_os.Base.Int.{pos}
use demos_os.Pcb.{
  Ptr, null, init_process, process_running, process_ready, process_stopped, Pcb, Store, initial_pcb,
  zero_context,
}
use demos_os.Queue.{ProcessQueue, empty_queue}
use demos_os.Queue.Chain.{IsQueue}
use demos_os.Sched.{SchedAlgorithm, round_robin, Kernel}
use demos_os.Sched.Invariant.{InTable, Inv}
use demos_os.Sched.Pick.Ready.{CanSchedule}
use demos_os.Memory.{Memory}

abbrev pub process : (state pid pending : ℕ) (next : Ptr) → Pcb
process state pid pending next = record initial_pcb {
  state = state;
  pid = pid;
  pending_signals = pending;
  est_burst = pid * 10;
  tickets = pos (pid + 2);
  next_ready = next;
}

-- Process 3 has a kill pending, process 6 a resume.
abbrev pub sample_store : Store
sample_store a =
    if a == 2
    then process process_running 1 0 null
    else if a == 3
    then process process_ready 2 2 4
    else if a == 4
    then process process_ready 3 0 null
    else if a == 6
    then process process_stopped 4 8 null
    else initial_pcb

abbrev pub sample_queue : ProcessQueue
sample_queue = record { head = 3; tail = 4 }

abbrev pub sample_kernel : SchedAlgorithm → Kernel
sample_kernel a = record {
  mem = sample_store;
  current_process = 2;
  processes = λ i.
      if i == 0
      then 1
      else if i == 1
      then 2
      else if i == 2
      then 3
      else if i == 3
      then 4
      else if i == 4
      then 6
      else null;
  n_processes = 5;
  ready_queue = sample_queue;
  ml_queues = λ _. empty_queue;
  queue_level = λ _. 0;
  active_algorithm = a;
  lottery_rng_state = 1;
  ml_ticks_since_boost = 0;
  cpu = record zero_context { x19 = 7; pc = 4096 };
  pgd = 0;
  irq_enabled = false;
  timer = λ n. n;
  trace = [];
}

pub sample_queue-IsQueue : IsQueue sample_store sample_queue (3 ∷ 4 ∷ [])
sample_queue-IsQueue = record {
  chain = (refl, omega arith, refl, (refl, omega arith, refl, refl));
  last = refl;
}

pub sample_kernel-CanSchedule : (a : SchedAlgorithm) → CanSchedule (sample_kernel a) (3 ∷ 4 ∷ [])
sample_kernel-CanSchedule a = record {
  queue = sample_queue-IsQueue;
  ready_all = (refl, (refl, tt));
  short = omega arith;
  current_out = refl;
  current_ne = omega arith;
}

-- The same kernel between two calls: all but the running process hold the preemption.
abbrev pub resting_kernel : Kernel
resting_kernel = record (sample_kernel round_robin) {
  mem =
      λ a. if a == 2 then sample_store a else record (sample_store a) { preempt_disabled = pos 1 };
}

resting_member :
    (a : Ptr) → has a (3 ∷ 4 ∷ []) ≡ true → InTable resting_kernel.processes a × (a ≢ init_process)
resting_member a h = elim (Bool-cases (a == 3)) [
  | inl e ↦
      let same : 3 ≡ a = ground arith in
      subst (λ z. InTable resting_kernel.processes z × (z ≢ init_process)) same
        ((2, omega arith, refl, omega arith), omega arith)
  | inr e ↦
      let same : 4 ≡ a = ground arith in
      subst (λ z. InTable resting_kernel.processes z × (z ≢ init_process)) same
        ((3, omega arith, refl, omega arith), omega arith)
]

pub resting_kernel-Inv : Inv 0 resting_kernel (3 ∷ 4 ∷ [])
resting_kernel-Inv = record {
  can = record {
    queue = record {
      chain = (refl, omega arith, refl, (refl, omega arith, refl, refl));
      last = refl;
    };
    ready_all = (refl, (refl, tt));
    short = omega arith;
    current_out = refl;
    current_ne = omega arith;
  };
  algorithm = refl;
  member = resting_member;
  current_member = (1, omega arith, refl, omega arith);
  idle_member = (0, omega arith, refl, omega arith);
  suspended = λ a i ne. ground arith;
  running = refl;
  free = λ i h. ground arith;
  filled = λ i h. (omega arith, ground arith);
}

-- Page 0 is in use, the others are free.
abbrev pub sample_memory : Memory
sample_memory = record { memory_pages = λ i. if i == 0 then 1 else 0; words = λ _. 5 }
