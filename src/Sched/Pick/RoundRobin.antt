-- ===== src/Sched/Pick/RoundRobin.antt =====
-- `_schedule_round_robin`, and `_schedule_queue_head` under FCFS, against the list that the ready
-- queue holds. The two differ only in the time slice that the selected process gets.
use mathlib.Core.Path.{subst}
use demos_os.Base.{
  ℕ, ◌<◌, ◌≡◌, ◌≢◌, refl, ap, sym, ◌∙◌, true, false, Option, none, some, List, [], ◌∷◌, arith, has,
  length, length-append,
}
use demos_os.Base.Int.{pos, ◌-ℤ◌}
use demos_os.Base.Run.{Run, ok, ◌>>=◌, Returns, Returns-bind, Returns-mono}
use demos_os.Pcb.{Ptr, null, init_process, process_running}
use demos_os.Queue.{queue_fuel}
use demos_os.Sched.{fcfs, Kernel, ready, current, enqueue_fifo, enqueue_by, preempt_disable}
use demos_os.Sched.Pick.{
  take_ready, requeue_current, or_init, dispatch, schedule_round_robin, schedule_queue_head,
}
use demos_os.Sched.Pick.Ready.{
  CanSchedule, candidates, Kept, Frame, Requeued, requeue_current-Requeued,
  preempt_disable-CanSchedule,
}
use demos_os.Sched.Pick.First.{first_eligible, after_eligible, first_eligible-frame}
use demos_os.Sched.Pick.Select.{charge, prepare, Picked, take-Picked}

-- The outcome of a selection among the processes `ys`, from the kernel `k` as the selection finds it:
-- which process runs, with which counter, and that its hold on the preemption, which was taken when it
-- gave up the CPU, is given back; the queue that is left, and what the processes in it keep; and what
-- the others keep.
pub record Scheduled (slice : Option ℕ) (k : Kernel) (ys : List Ptr) (k' : Kernel) : Type 0 where
  pub current_is : k'.current_process ≡ or_init (first_eligible k.mem ys)
  pub runs : (current k').state ≡ process_running
  pub next : CanSchedule k' (after_eligible k.mem ys)
  pub charged :
      first_eligible k.mem ys ≢ null
      → (current k').counter ≡ charge slice (k.mem k'.current_process).counter
  pub hold :
      (current k').preempt_disabled
      ≡ ((preempt_disable k).mem k'.current_process).preempt_disabled -ℤ pos 1
  pub kept :
      (a : Ptr)
      → has a (after_eligible k.mem ys) ≡ true
      → Kept ((preempt_disable k).mem a) (k'.mem a)
  pub held :
      (a : Ptr)
      → a ≢ k'.current_process
      → (k'.mem a).preempt_disabled ≡ ((preempt_disable k).mem a).preempt_disabled
  pub pids : (a : Ptr) → (k'.mem a).pid ≡ (k.mem a).pid
  pub frame : Frame k k'
  pub away :
      (a : Ptr)
      → has a ys ≡ false
      → a ≢ k.current_process
      → a ≢ init_process
      → ((k'.mem a).state ≡ (k.mem a).state)
        × ((k'.mem a).pending_signals ≡ (k.mem a).pending_signals)

Picked-Scheduled :
    (slice : Option ℕ) (k : Kernel) (ys : List Ptr) (k' : Kernel)
    → Picked slice (preempt_disable k) ys k'
    → Scheduled slice k ys k'
Picked-Scheduled slice k ys k' s =
    let k₀ = preempt_disable k in
    let (e, f) = first_eligible-frame k.mem k₀.mem ys (λ a i. ground arith) in
    record {
      current_is = s.current_is ∙ ap or_init e;
      runs = s.runs;
      next = subst (CanSchedule k') f s.next;
      charged = λ ne. s.charged (λ z. ne (sym e ∙ z)) ∙ ap (charge slice) (ground arith);
      hold = s.hold;
      kept = λ a i. let (p, q, r, c) = s.kept a (rw f i) in (p, q, r);
      held = s.held;
      pids = λ a. s.pids a ∙ ground arith;
      frame = s.frame;
      away = λ a o ne ni. ground (arith, s.away a o ne ni);
    }

candidates-preempt_disable :
    (k : Kernel) (xs : List Ptr) → candidates (preempt_disable k) xs ≡ candidates k xs
candidates-preempt_disable k xs = ground arith

length-candidates :
    (k : Kernel) (xs : List Ptr) → length xs < 64 → length (candidates k xs) < queue_fuel
length-candidates k xs short = ground (arith, length-append xs (k.current_process ∷ []))

-- A selection on the ready queue whose first step puts the current process behind it.
select-Scheduled :
    (slice : Option ℕ) (enqueue : Kernel → Ptr → Run Kernel) (k : Kernel) (xs : List Ptr)
    → enqueue ≡ enqueue_fifo
    → CanSchedule k xs
    → Returns (Scheduled slice k (candidates k xs)) (
        requeue_current enqueue (preempt_disable k) >>= λ k₁.
        take_ready queue_fuel ready k₁ >>= λ (p, k₂). ok (dispatch p (prepare slice p k₂)))
select-Scheduled slice enqueue k xs fifo v =
    let k₀ = preempt_disable k in
    let ys = candidates k xs in
    let first =
      subst (λ zs. Returns (Requeued k₀ zs) (requeue_current enqueue_fifo k₀))
        (candidates-preempt_disable k xs)
        (requeue_current-Requeued k₀ xs (preempt_disable-CanSchedule k xs v)) in
    let first' = subst (λ f. Returns (Requeued k₀ ys) (requeue_current f k₀)) (sym fifo) first in
    Returns-mono (Picked slice k₀ ys) (Scheduled slice k ys) _
      (Returns-bind (Requeued k₀ ys) (Picked slice k₀ ys) (requeue_current enqueue k₀)
        (λ k₁. take_ready queue_fuel ready k₁ >>= λ (p, k₂). ok (dispatch p (prepare slice p k₂)))
        first' (λ k₁ r. take-Picked slice k₀ k₁ ys (length-candidates k xs v.short) r))
      (λ k' s. Picked-Scheduled slice k ys k' s)

-- If the ready queue holds the READY processes `xs`, fewer than 64, without the current one, the
-- selection of round robin ends: a current process that still runs joins the queue at its end; the
-- first process that has neither a kill nor a stop pending gets the CPU and ten ticks, and gives back
-- its hold on the preemption, or the idle task gets the CPU if there is none; the queue is left with
-- those behind it, still READY and fit for the next selection; and every process that did not compete
-- keeps its state and its pending signals.
pub schedule_round_robin_lem :
    (k : Kernel) (xs : List Ptr)
    → CanSchedule k xs
    → Returns (Scheduled (some 10) k (candidates k xs)) (schedule_round_robin k)
unfolding schedule_round_robin
schedule_round_robin_lem k xs v = select-Scheduled (some 10) enqueue_fifo k xs refl v

-- Under FCFS the selection does the same, but the process that gets the CPU keeps its counter.
pub schedule_queue_head-fcfs :
    (k : Kernel) (xs : List Ptr)
    → k.active_algorithm ≡ fcfs
    → CanSchedule k xs
    → Returns (Scheduled none k (candidates k xs)) (schedule_queue_head k)
unfolding schedule_queue_head
schedule_queue_head-fcfs k xs e v =
    select-Scheduled none (enqueue_by k.active_algorithm) k xs (ap enqueue_by e) v
