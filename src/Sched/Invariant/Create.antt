-- ===== src/Sched/Invariant/Create.antt =====
-- The registration of a new process against the invariant of the scheduler.
use mathlib.Core.Path.{subst}
use demos_os.Base.{
  ℕ, ◌+◌, ◌<◌, ◌≡◌, ◌≢◌, refl, sym, ◌∙◌, inl, inr, Bool-cases, true, false, ◌||◌, List, arith, has,
  leb, ◌==◌,
}
use demos_os.Base.Int.{pos}
use demos_os.Base.Run.{Returns}
use demos_os.Pcb.{Ptr, null, init_process, max_processes, process_ready}
use demos_os.Queue.{not_queueable}
use demos_os.Sched.{Kernel, starts_at, update, enqueue_fifo, enqueue_to, ready}
use demos_os.Sched.Params.{add_process_to_scheduler, start_level}
use demos_os.Sched.Register.{enqueue_process-fifo, no_print}
use demos_os.Sched.Invariant.{InTable, Inv}
use demos_os.Sched.Invariant.Wake.{Stays, enqueue_process-Inv}

-- A process that is filled in but not registered: its pid is the next slot.
pub record Newborn (k : Kernel) (p : Ptr) : Type 0 where
  pub ne_null : p ≢ null
  pub ne_init : p ≢ init_process
  pub fresh : InTable k.processes p → ⊥
  pub pid : (k.mem p).pid ≡ k.n_processes
  pub is_ready : (k.mem p).state ≡ process_ready
  pub held : (k.mem p).preempt_disabled ≡ pos 1

-- The kernel with the process in its slot and counted.
abbrev pub tabled : Kernel → Ptr → Kernel
tabled k p =
    let c = k.mem p in
    record k {
      processes = update k.processes c.pid p;
      queue_level = update k.queue_level c.pid (start_level k.active_algorithm c.queue_priority);
      n_processes = k.n_processes + 1;
    }

module _ (hold : ℕ) (k : Kernel) (p : Ptr) (xs : List Ptr) (v : Inv hold k xs)
    (b : Newborn k p) where
  -- Who stood in the table still does.
  InTable-tabled : (a : Ptr) → InTable k.processes a → InTable (tabled k p).processes a
  InTable-tabled a (i, few, e, ne) =
      let other : i ≢ (k.mem p).pid = λ s. ne (sym e ∙ v.free i (omega (arith, b.pid, s))) in
      (i, few, ground arith, ne)

  -- Who stands in the table stood there, or is the new one.
  InTable-was : (a : Ptr) → a ≢ p → InTable (tabled k p).processes a → InTable k.processes a
  InTable-was a other (i, few, e, ne) = (i, few, ground arith, ne)

  tabled-Inv : k.n_processes < max_processes → Inv hold (tabled k p) xs
  tabled-Inv room = record {
    can = record {
      queue = v.can.queue;
      ready_all = v.can.ready_all;
      short = v.can.short;
      current_out = v.can.current_out;
      current_ne = v.can.current_ne;
    };
    algorithm = v.algorithm;
    member = λ a i. let (t, ne) = v.member a i in (InTable-tabled a t, ne);
    current_member = InTable-tabled k.current_process v.current_member;
    idle_member = InTable-tabled init_process v.idle_member;
    suspended = λ a t ne. elim (Bool-cases (a == p)) [
      | inl here ↦
          let e : p ≡ a = ground arith in subst (λ z. (k.mem z).preempt_disabled ≡ pos 1) e b.held
      | inr other ↦ v.suspended a (InTable-was a (ground arith) t) ne
    ];
    running = v.running;
    free = λ i h. let e = v.free i (omega arith) in let s = b.pid in ground arith;
    filled = λ i h. elim (Bool-cases (i == (k.mem p).pid)) [
      | inl here ↦ let s = b.pid in (omega (arith, room), let ne = b.ne_null in ground arith)
      | inr other ↦
          let s = b.pid in let (few, ne) = v.filled i (ground arith) in (few, ground arith)
    ];
  }

  -- With room in the table the registration returns 0, and the process stands behind the queue.
  pub add_process_to_scheduler-Stays :
      k.n_processes < max_processes
      → Returns
          (λ (status, k'). (status ≡ pos 0) × Stays hold (tabled k p) xs k')
          (add_process_to_scheduler k p)
  unfolding add_process_to_scheduler enqueue_fifo
  add_process_to_scheduler-Stays room =
      let c = k.mem p in
      let at = start_level k.active_algorithm c.queue_priority in
      let k₁ : Kernel = record k {
        processes = update k.processes c.pid p;
        queue_level = update k.queue_level c.pid at;
      } in
      let pid = b.pid in
      let roomy : (leb max_processes k.n_processes || leb max_processes c.pid) ≡ false =
        ground arith in
      let is_ready : (c.state == process_ready) ≡ true = let e = b.is_ready in ground arith in
      let goes : not_queueable p ≡ false = let n = b.ne_null in let i = b.ne_init in ground arith in
      let here : InTable (tabled k p).processes p =
        (c.pid, omega (arith, pid, room), ground arith, b.ne_null) in
      let away : p ≢ k.current_process =
        λ e. b.fresh (subst (InTable k.processes) (sym e) v.current_member) in
      let out : has p xs ≡ false = elim (Bool-cases (has p xs)) [
        | inl i ↦ absurd (b.fresh (v.member p i).0)
        | inr o ↦ o
      ] in
      let joins = enqueue_process-Inv hold (tabled k p) xs p here away out (tabled-Inv room) in
      let joined : Stays hold (tabled k p) xs (enqueue_to (tabled k p) ready p) =
        rw (enqueue_process-fifo (tabled k p) p v.algorithm, goes) at joins in
      rw
        (
          no_print k₁ (starts_at c.pid at) v.algorithm,
          roomy,
          is_ready,
          enqueue_process-fifo k₁ p v.algorithm,
          goes,
        )
        (refl, joined)
