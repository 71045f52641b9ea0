-- ===== src/Sched/Params.antt =====
-- `add_process_to_scheduler` and `sched_set_param` of libs/scheduler.c.
use demos_os.Base.{ℕ, ◌+◌, ◌-◌, not, ◌||◌, none, some, ◌∷◌, ltb, leb, ◌==◌, if◌then◌else◌}
use demos_os.Base.Int.{ℤ, pos, negsuc, pos_part, ltb_ℤ, ◌==ℤ◌}
use demos_os.Base.Run.{Run, ok, ◌>>=◌}
use demos_os.Pcb.{Ptr, max_processes, process_ready}
use demos_os.Queue.{not_queueable}
use demos_os.Sched.{
  SchedAlgorithm, ml_max_levels, ml_policy, Kernel, Trace, starts_at, moved_to, modify_pcb, update,
  enqueue_process, preempt_enable, preempt_disable,
}

-- Down to the lowest level that the active policy uses, if there is a policy.
abbrev pub clamp_to_policy : SchedAlgorithm → ℕ → ℕ
clamp_to_policy a at = elim (ml_policy a) [
  | none ↦ at
  | some policy ↦ if ltb at policy.n_levels then at else policy.n_levels - 1
]

unfoldable pub start_level : SchedAlgorithm → ℤ → ℕ
start_level a queue_priority =
    let at = pos_part queue_priority in
    clamp_to_policy a (if ltb at ml_max_levels then at else ml_max_levels - 1)

-- With a multilevel algorithm the event is printed.
abbrev pub print_if_multilevel : Kernel → Trace → Kernel
print_if_multilevel k event = elim (ml_policy k.active_algorithm) [
  | none ↦ k
  | some _ ↦ record k { trace = event ∷ k.trace }
]

-- The status and the new state.
unfoldable pub add_process_to_scheduler : Kernel → Ptr → Run (ℤ × Kernel)
unfolding start_level
add_process_to_scheduler k p =
    let pid = (k.mem p).pid in
    let at = start_level k.active_algorithm (k.mem p).queue_priority in
    let k₁ = record k {
      processes = update k.processes pid p;
      queue_level = update k.queue_level pid at;
    } in
    let k₂ = print_if_multilevel k₁ (starts_at pid at) in
    if leb max_processes k.n_processes || leb max_processes pid
    then ok (negsuc 0, k)
    else ((if (k.mem p).state == process_ready then enqueue_process k₂ p else ok k₂) >>= λ k₃.
        ok (pos 0, record k₃ { n_processes = k₃.n_processes + 1 }))

-- `SCHED_PARAM_*`
abbrev pub sched_param_priority : ℤ
sched_param_priority = pos 0

abbrev pub sched_param_tickets : ℤ
sched_param_tickets = pos 1

abbrev pub sched_param_queue_priority : ℤ
sched_param_queue_priority = pos 2

-- The guarded double update of a level.
unfoldable pub set_level : Kernel → Ptr → ℕ → Kernel
set_level k p at =
    let k₁ = modify_pcb (preempt_disable k) p (λ c. record c { queue_priority = pos at }) in
    let k₂ = record k₁ { queue_level = update k₁.queue_level (k₁.mem p).pid at } in
    print_if_multilevel (preempt_enable k₂) (moved_to (k.mem p).pid at)

unfoldable pub sched_set_param : Kernel → Ptr → ℤ → ℤ → ℤ × Kernel
sched_set_param k p param value =
    if not_queueable p
    then (negsuc 0, k)
    else if param ==ℤ sched_param_priority
    then (if ltb_ℤ value (pos 1)
        then (negsuc 0, k)
        else (pos 0, modify_pcb k p (λ c. record c { priority = value })))
    else if param ==ℤ sched_param_tickets
    then (if ltb_ℤ value (pos 1)
        then (negsuc 0, k)
        else (pos 0, modify_pcb k p (λ c. record c { tickets = value })))
    else if param ==ℤ sched_param_queue_priority
    then (if ltb_ℤ value (pos 0) || not (ltb_ℤ value (pos ml_max_levels))
        then (negsuc 0, k)
        else (pos 0, set_level k p (clamp_to_policy k.active_algorithm (pos_part value))))
    else (negsuc 0, k)
