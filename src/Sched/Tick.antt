-- ===== src/Sched/Tick.antt =====
-- The timer tick, the dispatcher and the exit of a process: the rest of libs/scheduler.c.
pub mod Boost
pub mod Exit
use demos_os.Base.{
  ℕ, zero, suc, ◌+◌, ◌-◌, ◌/◌, Bool, true, false, not, ◌&&◌, ◌||◌, none, some, ◌∷◌, ltb, ◌==◌,
  if◌then◌else◌,
}
use demos_os.Base.Int.{pos, negsuc, ◌-ℤ◌, ltb_ℤ, ◌==ℤ◌}
use demos_os.Base.Run.{Run, ok, fault, out_of_fuel, ◌>>=◌}
use demos_os.Pcb.{
  null, init_process, max_processes, process_running, process_zombie, process_ready,
  process_waiting_another_process, Pcb,
}
use demos_os.Queue.{queue_fuel}
use demos_os.Sched.{
  SchedAlgorithm, round_robin, fcfs, sjf, lottery, priority_aging, mlq, mlfq, MultilevelPolicy,
  Kernel, level, is_preemptive, ml_policy, demoted_to, boost, current, modify_pcb, update,
  dequeue_from, enqueue_to, enqueue_process, preempt_enable, preempt_disable, set_state,
}
use demos_os.Sched.Pick.{schedule_round_robin, schedule_queue_head}
use demos_os.Sched.Pick.Aging.{schedule_priority_aging}
use demos_os.Sched.Pick.Lottery.{schedule_lottery}
use demos_os.Sched.Pick.Multilevel.{schedule_multilevel}

-- `active_algorithm->pick_next`
abbrev pub pick_next : SchedAlgorithm → Kernel → Run Kernel
pick_next round_robin k = schedule_round_robin k
pick_next fcfs k = schedule_queue_head k
pick_next sjf k = schedule_queue_head k
pick_next lottery k = schedule_lottery k
pick_next priority_aging k = schedule_priority_aging k
pick_next mlq k = schedule_multilevel k
pick_next mlfq k = schedule_multilevel k

-- `_schedule`
abbrev pub dispatcher : Kernel → Run Kernel
dispatcher k = pick_next k.active_algorithm k

-- A process that blocks or ends has finished its CPU burst: the estimate is the mean of the old one
-- and of the measured ticks.
abbrev pub end_burst : Pcb → Pcb
end_burst c = record c { est_burst = (c.burst_ticks + c.est_burst) / 2; burst_ticks = 0 }

abbrev pub burst_over : Kernel → Bool
burst_over k =
    not (k.current_process == init_process)
    && not ((current k).state == process_running)
    && not ((current k).state == process_ready)

unfoldable pub schedule : Kernel → Run Kernel
schedule k =
    let p = k.current_process in
    let k₁ = if burst_over k then modify_pcb k p end_burst else k in
    dispatcher (modify_pcb k₁ p (λ c. record c { counter = pos 0 }))

-- Empties one level of the multilevel queues into level 0.
unfoldable pub drain_level : ℕ → ℕ → Kernel → Run Kernel
drain_level zero q k = out_of_fuel
drain_level (suc fuel) q k =
    let (p, k₁) = dequeue_from k (level q) in
    let pid = (k₁.mem p).pid in
    let k₂ = enqueue_to (record k₁ { queue_level = update k₁.queue_level pid 0 }) (level 0) p in
    let rest = drain_level fuel q k₂ in
    if p == null then ok k₁ else if ltb pid max_processes then rest else fault

-- Levels `q` on, `rounds` of them.
pub drain_levels : (rounds q : ℕ) → Kernel → Run Kernel
drain_levels zero q k = ok k
drain_levels (suc rounds) q k = drain_level queue_fuel q k >>= λ k'. drain_levels rounds (q + 1) k'

-- The periodic boost: every process moves to level 0.
unfoldable pub boost_all : MultilevelPolicy → Kernel → Run Kernel
boost_all policy k =
    let ticked = record k { ml_ticks_since_boost = k.ml_ticks_since_boost + 1 } in
    if policy.boost_period == 0
    then ok k
    else if ltb ticked.ml_ticks_since_boost policy.boost_period
    then ok ticked
    else (drain_levels (policy.n_levels - 1) 1 ticked >>= λ k'. ok (record k' {
      queue_level = λ i. if ltb i max_processes then 0 else k'.queue_level i;
      ml_ticks_since_boost = 0;
      trace = boost ∷ k'.trace;
    }))

-- The demotion of a process that used up its quantum.
abbrev pub must_demote : MultilevelPolicy → Kernel → Bool
must_demote policy k =
    policy.demote_on_expiry
    && not (k.current_process == init_process)
    && not (ltb_ℤ (pos 0) (current k).counter)
    && (current k).preempt_disabled ==ℤ pos 0
    && ltb (k.queue_level (current k).pid) (policy.n_levels - 1)

unfoldable pub demote : MultilevelPolicy → Kernel → Kernel
demote policy k =
    let pid = (current k).pid in
    let lower = k.queue_level pid + 1 in
    if must_demote policy k
    then record k {
      queue_level = update k.queue_level pid lower;
      trace = demoted_to pid lower ∷ k.trace;
    }
    else k

unfoldable pub multilevel_on_tick : Kernel → Run Kernel
multilevel_on_tick k = elim (ml_policy k.active_algorithm) [
  | none ↦ fault
  | some policy ↦ boost_all policy k >>= λ k'. ok (demote policy k')
]

-- `if (active_algorithm->on_tick) active_algorithm->on_tick()`
abbrev pub on_tick : SchedAlgorithm → Kernel → Run Kernel
on_tick mlq k = multilevel_on_tick k
on_tick mlfq k = multilevel_on_tick k
on_tick _ k = ok k

abbrev pub count_tick : Pcb → Pcb
count_tick c = record c { counter = c.counter -ℤ pos 1; burst_ticks = c.burst_ticks + 1 }

abbrev pub set_irq : Bool → Kernel → Kernel
set_irq enabled k = record k { irq_enabled = enabled }

-- The part of the tick behind the bookkeeping.
unfoldable pub preempt_if_expired : Kernel → Run Kernel
preempt_if_expired k =
    let c = current k in
    let expired = modify_pcb k k.current_process (λ c. record c { counter = pos 0 }) in
    if ltb_ℤ (pos 0) c.counter || ltb_ℤ (pos 0) c.preempt_disabled
    then ok k
    else if not (is_preemptive k.active_algorithm) && not (k.current_process == init_process)
    then ok expired
    else (dispatcher (set_irq true expired) >>= λ k'. ok (set_irq false k'))

unfoldable pub handle_timer_tick : Kernel → Run Kernel
handle_timer_tick k =
    on_tick k.active_algorithm (modify_pcb k k.current_process count_tick) >>= λ k'.
    preempt_if_expired k'

-- A process that waits for the end of `pid`.
abbrev pub waits_for : ℕ → Pcb → Bool
waits_for pid c = c.state == process_waiting_another_process && c.pid_to_wait ==ℤ pos pid

abbrev pub stop_waiting : Pcb → Pcb
stop_waiting c = record c { state = process_ready; pid_to_wait = negsuc 0 }

-- Slots `i` on, `rounds` of them: wakes the processes that wait for the end of `pid`.
unfoldable pub wake_waiters : (rounds i pid : ℕ) → Kernel → Run Kernel
wake_waiters zero i pid k = ok k
wake_waiters (suc rounds) i pid k =
    let p = k.processes i in
    (if not (p == null) && waits_for pid (k.mem p)
      then enqueue_process (modify_pcb k p stop_waiting) p
      else ok k)
    >>= λ k'. wake_waiters rounds (i + 1) pid k'

-- In the source the pid is read in each round from the current process, whose pid the loop does not
-- change.
unfoldable pub exit_process : Kernel → Run Kernel
exit_process k =
    let k₁ = preempt_disable k in
    let k₂ = modify_pcb k₁ k₁.current_process (set_state process_zombie) in
    wake_waiters max_processes 0 (current k₂).pid k₂ >>= λ k₃. schedule (preempt_enable k₃)
