-- ===== src/Fork/Failure.antt =====
-- A failed `copy_process`, and what it leaves behind.
use demos_os.Base.{ℕ, ◌≤◌, ◌≡◌, ◌⊎◌, inl, inr, refl, true, none, ◌||◌, arith, leb, ◌==◌}
use demos_os.Base.Int.{pos, negsuc, ◌+ℤ◌, ◌≤ℤ◌}
use demos_os.Base.Run.{ok, Returns}
use demos_os.Pcb.{null, max_processes}
use demos_os.Sched.{current, ml_policy, preempt_disable}
use demos_os.Sched.Tick.{handle_timer_tick}
use demos_os.Sched.Preemption.{ticked, handle_timer_tick-keeps}
use demos_os.Memory.{allocate_kernel_page}
use demos_os.Fork.{Machine, copy_process}

-- Under an algorithm with no multilevel policy, with a preemption counter that is not negative, and
-- without a free page or with the count of processes at 64: `copy_process` returns -1 and leaves the
-- table of the processes and its count as they were, but the preemption of the caller disabled once more
-- and the allocated page, if there was one, in use; the next tick then only books itself.
pub copy_process-failure :
    (ret_from_fork flags function argument : ℕ) (s : Machine)
    → (allocate_kernel_page s.memory).0 ≡ null ⊎ max_processes ≤ s.kernel.n_processes
    → ml_policy s.kernel.active_algorithm ≡ none
    → pos 0 ≤ℤ (current s.kernel).preempt_disabled
    → Returns
        (λ (status, s').
          (status ≡ negsuc 0)
          × (s'.kernel.processes ≡ s.kernel.processes)
          × (s'.kernel.n_processes ≡ s.kernel.n_processes)
          × (s'.memory ≡ (allocate_kernel_page s.memory).1)
          × ((current s'.kernel).preempt_disabled ≡ (current s.kernel).preempt_disabled +ℤ pos 1)
          × (handle_timer_tick s'.kernel ≡ ok (ticked s'.kernel)))
        (copy_process ret_from_fork flags function argument s)
unfolding copy_process
copy_process-failure ret_from_fork flags function argument s h plain low =
    let k = preempt_disable s.kernel in
    let fails : ((allocate_kernel_page s.memory).0 == null
          || leb max_processes s.kernel.n_processes)
        ≡ true =
      full h in
    rw fails
      (refl, refl, refl, refl, ground arith, handle_timer_tick-keeps k plain (inr (ground arith)))
  where
    full :
        (allocate_kernel_page s.memory).0 ≡ null ⊎ max_processes ≤ s.kernel.n_processes
        → ((allocate_kernel_page s.memory).0 == null || leb max_processes s.kernel.n_processes)
          ≡ true
    full (inl e) = ground arith
    full (inr e) = ground arith
