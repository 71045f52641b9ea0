-- ===== src/Sched/Register.antt =====
-- `enqueue_process` and `add_process_to_scheduler` under round robin.
use demos_os.Base.{
  ℕ, ◌+◌, ◌<◌, ◌≡◌, ◌≢◌, refl, ap, true, false, ◌||◌, List, [], ◌∷◌, ◌++◌, arith, has, leb, ◌==◌,
  if◌then◌else◌, none, some,
}
use demos_os.Base.Int.{pos}
use demos_os.Base.Run.{ok, Returns}
use demos_os.Pcb.{Ptr, null, init_process, process_ready, max_processes}
use demos_os.Queue.{not_queueable}
use demos_os.Queue.Chain.{IsQueue}
use demos_os.Queue.Fifo.{enqueue_process_to-append}
use demos_os.Sched.{
  SchedAlgorithm, round_robin, Kernel, Trace, enqueue_process, enqueue_fifo, enqueue_by, update,
  starts_at, ml_policy,
}
use demos_os.Sched.Params.{add_process_to_scheduler, start_level, print_if_multilevel}

-- Under round robin.
pub enqueue_process-fifo :
    (k : Kernel) (p : Ptr)
    → k.active_algorithm ≡ round_robin
    → enqueue_process k p ≡ (if not_queueable p then ok k else enqueue_fifo k p)
unfolding enqueue_process
enqueue_process-fifo k p rr =
    ap (λ (a : SchedAlgorithm). if not_queueable p then ok k else enqueue_by a k p) rr

pub no_print :
    (k : Kernel) (event : Trace)
    → k.active_algorithm ≡ round_robin
    → print_if_multilevel k event ≡ k
no_print k event rr =
    ap
      (λ (a : SchedAlgorithm). elim (ml_policy a) [
        | none ↦ k
        | some _ ↦ record k { trace = event ∷ k.trace }
      ])
      rr

-- Under round robin, with room in the table and a pid in range, the registration of a READY process
-- that is neither NULL nor the idle task nor in the ready queue returns 0; the process then stands in
-- the slot of its pid and at the end of the ready queue, one more process is counted, and no other
-- slot changes.
pub add_process_to_scheduler-registered :
    (k : Kernel) (p : Ptr) (xs : List Ptr)
    → k.active_algorithm ≡ round_robin
    → IsQueue k.mem k.ready_queue xs
    → p ≢ null
    → p ≢ init_process
    → has p xs ≡ false
    → (k.mem p).state ≡ process_ready
    → (k.mem p).pid < max_processes
    → k.n_processes < max_processes
    → Returns
        (λ (status, k').
          (status ≡ pos 0)
          × (k'.processes (k.mem p).pid ≡ p)
          × ((j : ℕ) → j ≢ (k.mem p).pid → k'.processes j ≡ k.processes j)
          × (k'.n_processes ≡ k.n_processes + 1)
          × IsQueue k'.mem k'.ready_queue (xs ++ p ∷ [])
          × (k'.current_process ≡ k.current_process))
        (add_process_to_scheduler k p)
unfolding add_process_to_scheduler enqueue_fifo
add_process_to_scheduler-registered k p xs rr v n i out state pid room =
    let c = k.mem p in
    let at = start_level k.active_algorithm c.queue_priority in
    let k₁ : Kernel = record k {
      processes = update k.processes c.pid p;
      queue_level = update k.queue_level c.pid at;
    } in
    let roomy : (leb max_processes k.n_processes || leb max_processes c.pid) ≡ false =
      ground arith in
    let is_ready : (c.state == process_ready) ≡ true = ground arith in
    let goes : not_queueable p ≡ false = ground arith in
    let self : (c.pid == c.pid) ≡ true = ground arith in
    rw
      (
        no_print k₁ (starts_at c.pid at) rr,
        roomy,
        is_ready,
        enqueue_process-fifo k₁ p rr,
        goes,
        self,
      )
      (
        refl,
        refl,
        λ j ne. ground arith,
        refl,
        enqueue_process_to-append k.mem k.ready_queue p xs v n i out,
        refl,
      )
