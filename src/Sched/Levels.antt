-- ===== src/Sched/Levels.antt =====
-- The queue levels against the array of the multilevel queues.
use demos_os.Base.{ℕ, ◌<◌, ◌≤◌, ◌≡◌, arith}
use demos_os.Base.Int.{ℤ, pos, pos_part}
use demos_os.Pcb.{Ptr}
use demos_os.Sched.{
  SchedAlgorithm, round_robin, fcfs, sjf, lottery, priority_aging, mlq, mlfq, MultilevelPolicy,
  Kernel, level, ml_policy, enqueue_to, enqueue_multilevel, enqueue_process, enqueue_by,
  enqueue_sjf, enqueue_fifo, current, set_queue, ready,
}
use demos_os.Sched.Params.{
  start_level, clamp_to_policy, set_level, sched_set_param, print_if_multilevel,
}
use demos_os.Sched.Tick.{demote}

-- Every tracked level is one of the five queues.
abbrev pub LevelsInRange : Kernel → Type 0
LevelsInRange k = (i : ℕ) → k.queue_level i < 5

-- A new process starts at its own priority, at 0 if that is negative and at the lowest level if
-- there is no such level.
pub start_level-lt : (a : SchedAlgorithm) (q : ℤ) → start_level a q < 5
unfolding start_level
start_level-lt mlq q = ground arith
start_level-lt mlfq q = ground arith
start_level-lt round_robin q = ground arith
start_level-lt _ q = ground arith

pub start_level-eq : (a : SchedAlgorithm) (n : ℕ) → n < 5 → start_level a (pos n) ≡ n
unfolding start_level
start_level-eq mlq n h = ground arith
start_level-eq mlfq n h = ground arith
start_level-eq round_robin n h = ground arith
start_level-eq _ n h = ground arith

clamp_to_policy-lt : (a : SchedAlgorithm) (n : ℕ) → n < 5 → clamp_to_policy a n < 5
clamp_to_policy-lt mlq n h = ground arith
clamp_to_policy-lt mlfq n h = ground arith
clamp_to_policy-lt round_robin n h = h
clamp_to_policy-lt _ n h = h

queue_level-print :
    (k : Kernel) (e : demos_os.Sched.Trace) → (print_if_multilevel k e).queue_level ≡ k.queue_level
queue_level-print k e = ground arith

set_level-lt :
    (k : Kernel) (p : Ptr) (n i : ℕ)
    → n < 5
    → k.queue_level i < 5
    → (set_level k p n).queue_level i < 5
unfolding set_level
set_level-lt k p n i h v = ground arith

-- A change of a parameter keeps every tracked level among the five queues, whatever process,
-- parameter and value the caller passes.
pub sched_set_param-LevelsInRange :
    (k : Kernel) (p : Ptr) (param value : ℤ)
    → LevelsInRange k
    → LevelsInRange (sched_set_param k p param value).1
unfolding sched_set_param
sched_set_param-LevelsInRange k p param value v i =
    let n = clamp_to_policy k.active_algorithm (pos_part value) in
    ground
      (arith, v i, set_level-lt k p n i, clamp_to_policy-lt k.active_algorithm (pos_part value))

-- A demotion keeps every tracked level among the five queues, under any policy of at most five
-- levels.
pub demote-LevelsInRange :
    (policy : MultilevelPolicy) (k : Kernel)
    → policy.n_levels ≤ 5
    → LevelsInRange k
    → LevelsInRange (demote policy k)
unfolding demote
demote-LevelsInRange policy k h v i = ground (arith, v i)
