-- ===== src/Sched/Invariant/Boot.antt =====
-- The initial values of the variables of libs/scheduler.c against the invariant of the scheduler.
use demos_os.Base.{ℕ, refl, arith, false, [], ◌==◌, if◌then◌else◌}
use demos_os.Pcb.{null, init_process, initial_pcb, zero_context, Store}
use demos_os.Queue.{empty_queue}
use demos_os.Sched.{round_robin, Kernel}
use demos_os.Sched.Invariant.{Inv}

-- `others` is the memory of the pages that are no process yet; the registers are 0.
abbrev pub initial_kernel : (others : Store) (timer : ℕ → ℕ) → Kernel
initial_kernel others timer = record {
  mem = λ a. if a == init_process then initial_pcb else others a;
  current_process = init_process;
  processes = λ i. if i == 0 then init_process else null;
  n_processes = 1;
  ready_queue = empty_queue;
  ml_queues = λ _. empty_queue;
  queue_level = λ _. 0;
  active_algorithm = round_robin;
  lottery_rng_state = 88172645463325252;
  ml_ticks_since_boost = 0;
  cpu = zero_context;
  pgd = 0;
  irq_enabled = false;
  timer = timer;
  trace = [];
}

pub initial_kernel-Inv : (others : Store) (timer : ℕ → ℕ) → Inv 0 (initial_kernel others timer) []
initial_kernel-Inv others timer = record {
  can = record {
    queue = record { chain = refl; last = refl };
    ready_all = tt;
    short = omega arith;
    current_out = refl;
    current_ne = omega arith;
  };
  algorithm = refl;
  member = λ a h. ground arith;
  current_member = (0, omega arith, refl, omega arith);
  idle_member = (0, omega arith, refl, omega arith);
  suspended = λ a (i, few, e, ne) other. ground arith;
  running = refl;
  free = λ i h. ground arith;
  filled = λ i h. (omega arith, ground arith);
}
