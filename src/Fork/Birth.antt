-- ===== src/Fork/Birth.antt =====
-- What the creation of a process gives the scheduler.
use mathlib.Core.Path.{subst}
use demos_os.Base.{
  ℕ, ◌<◌, ◌≡◌, ◌≢◌, refl, ap, ◌∙◌, inl, inr, Bool-cases, true, false, ◌||◌, List, ◌++◌, arith, has,
  leb, ◌==◌,
}
use demos_os.Base.Int.{pos, ℤ}
use demos_os.Base.Bits.{test_bit}
use demos_os.Base.Run.{Returns, Returns-bind, Returns-mono}
use demos_os.Pcb.{Ptr, null, init_process, max_processes, CpuContext, MmStruct, Pcb}
use demos_os.Queue.Chain.{Chain-frame}
use demos_os.Sched.{Kernel, current, modify_pcb, preempt_disable}
use demos_os.Sched.Params.{add_process_to_scheduler}
use demos_os.Sched.Pick.Take.{AllReady-frame}
use demos_os.Sched.Invariant.{InTable, Inv}
use demos_os.Sched.Invariant.Keep.{preempt_disable-Inv, preempt_enable-Inv}
use demos_os.Sched.Invariant.Wake.{Stays}
use demos_os.Sched.Invariant.Create.{Newborn, tabled, add_process_to_scheduler-Stays}
use demos_os.Memory.{allocate_kernel_page}
use demos_os.Fork.{
  PtRegs, Machine, pf_kthread_bit, child_pcb, child_context, empty_mm, zero_regs, register_child,
  copy_process,
}

-- What is written on a page that is no process of the table does not touch the scheduler.
overwrite-Inv :
    (hold : ℕ) (k : Kernel) (p : Ptr) (c : Pcb) (xs : List Ptr)
    → (InTable k.processes p → ⊥)
    → Inv hold k xs
    → Inv hold (modify_pcb k p (λ _. c)) xs
overwrite-Inv hold k p c xs fresh v =
    let m' = (modify_pcb k p (λ _. c)).mem in
    let other : (a : Ptr) → InTable k.processes a → m' a ≡ k.mem a = λ a t.
      elim (Bool-cases (a == p)) [
        | inl here ↦
            let e : a ≡ p = ground arith in absurd (fresh (subst (InTable k.processes) e t))
        | inr away ↦ ground arith
      ] in
    let queued : (a : Ptr) → has a xs ≡ true → m' a ≡ k.mem a = λ a i. other a (v.member a i).0 in
    record {
      can = record {
        queue = record {
          chain =
              Chain-frame k.mem m' k.ready_queue.head xs
                (λ a i. ap (λ d. d.next_ready) (queued a i)) v.can.queue.chain;
          last = v.can.queue.last;
        };
        ready_all =
            AllReady-frame k.mem m' xs (λ a i. ap (λ d. d.state) (queued a i)) v.can.ready_all;
        short = v.can.short;
        current_out = v.can.current_out;
        current_ne = v.can.current_ne;
      };
      algorithm = v.algorithm;
      member = v.member;
      current_member = v.current_member;
      idle_member = v.idle_member;
      suspended = λ a t ne. ap (λ d. d.preempt_disabled) (other a t) ∙ v.suspended a t ne;
      running = ap (λ d. d.preempt_disabled) (other k.current_process v.current_member) ∙ v.running;
      free = v.free;
      filled = v.filled;
    }

-- What the creation leaves: the pid, the process in the slot of its pid, and the invariant, with the
-- queue longer at its end.
pub record Born (k : Kernel) (p : Ptr) (xs : List Ptr) (r : ℤ × Machine) : Type 0 where
  pub status : r.0 ≡ pos k.n_processes
  pub slot : r.1.kernel.processes k.n_processes ≡ p
  pub same_current : r.1.kernel.current_process ≡ k.current_process
  pub inv : (ys : List Ptr) × Inv 0 r.1.kernel (xs ++ ys)

register_child-Born :
    (ret_from_fork clone_flags : ℕ) (p : Ptr) (context : CpuContext) (mm : MmStruct) (regs : PtRegs)
    (s : Machine) (xs : List Ptr)
    → Inv 1 s.kernel xs
    → p ≢ null
    → p ≢ init_process
    → (InTable s.kernel.processes p → ⊥)
    → s.kernel.n_processes < max_processes
    → Returns (Born s.kernel p xs) (register_child ret_from_fork clone_flags p context mm regs s)
unfolding register_child
register_child-Born ret_from_fork clone_flags p context mm regs s xs v ne ni fresh room =
    let k = s.kernel in
    let child = child_pcb (current k) clone_flags k.n_processes context mm in
    let k₀ = modify_pcb k p (λ _. child) in
    let v₀ = overwrite-Inv 1 k p child xs fresh v in
    let born : Newborn k₀ p = record {
      ne_null = ne;
      ne_init = ni;
      fresh = fresh;
      pid = ground arith;
      is_ready = ground arith;
      held = ground arith;
    } in
    Returns-bind (λ (status, k'). (status ≡ pos 0) × Stays 1 (tabled k₀ p) xs k') (Born k p xs)
      (add_process_to_scheduler k₀ p) _ (add_process_to_scheduler-Stays 1 k₀ p xs v₀ born room)
      (λ (status, k') (e, t).
        let slot : k'.processes k.n_processes ≡ p =
          ap (λ f. f k.n_processes) t.table ∙ ground arith in
        rw e (record {
          status = refl;
          slot = slot;
          same_current = t.same_current;
          inv = (t.joined, preempt_enable-Inv k' (xs ++ t.joined) t.inv);
        }))

-- Under round robin and the invariant of the scheduler, with a free page that is no process yet and
-- room in the table, the creation of a kernel thread succeeds: it returns the pid, the new process
-- stands in the slot of its pid, the caller goes on as the current process, the processes that were
-- queued keep their places, and the invariant holds again, so that the hold on the preemption is given
-- back.
pub copy_process-Born :
    (ret_from_fork clone_flags function argument : ℕ) (s : Machine) (xs : List Ptr)
    → let p = (allocate_kernel_page s.memory).0 in
      Inv 0 s.kernel xs
      → test_bit clone_flags pf_kthread_bit ≡ true
      → p ≢ null
      → p ≢ init_process
      → (InTable s.kernel.processes p → ⊥)
      → s.kernel.n_processes < max_processes
      → Returns (Born s.kernel p xs) (copy_process ret_from_fork clone_flags function argument s)
unfolding copy_process
copy_process-Born ret_from_fork clone_flags function argument s xs v thread ne ni fresh room =
    let (p, memory) = allocate_kernel_page s.memory in
    let k = preempt_disable s.kernel in
    let s₁ : Machine = record s { kernel = k; memory = memory } in
    let goes : (p == null || leb max_processes k.n_processes) ≡ false = ground arith in
    rw (goes, thread)
      (Returns-mono (Born k p xs) (Born s.kernel p xs)
        (register_child ret_from_fork clone_flags p
          (child_context ret_from_fork p function argument) empty_mm zero_regs s₁)
        (register_child-Born ret_from_fork clone_flags p
          (child_context ret_from_fork p function argument) empty_mm zero_regs s₁ xs
          (preempt_disable-Inv s.kernel xs v) ne ni fresh room)
        (λ r b. record {
          status = b.status;
          slot = b.slot;
          same_current = b.same_current;
          inv = b.inv;
        }))
