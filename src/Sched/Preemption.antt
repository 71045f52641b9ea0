-- ===== src/Sched/Preemption.antt =====
-- When the timer tick takes the CPU away, and when it does not.
use demos_os.Base.{
  ap, Bool, ◌+◌, ◌≡◌, ◌≢◌, ◌⊎◌, ◌∙◌, inl, inr, Bool-cases, refl, sym, true, false, not, ◌||◌, ◌&&◌,
  arith, none, some, List, ◌==◌,
}
use mathlib.Core.Path.{subst}
use demos_os.Base.Int.{pos, ltb_ℤ, ◌<ℤ◌, ◌≤ℤ◌}
use demos_os.Base.Run.{ok, ◌>>=◌, Returns, Returns-bind}
use demos_os.Pcb.{Ptr, init_process}
use demos_os.Queue.Chain.{Chain-frame}
use demos_os.Sched.{
  SchedAlgorithm, round_robin, fcfs, sjf, mlq, mlfq, Kernel, ml_policy, is_preemptive, current,
  modify_pcb,
}
use demos_os.Sched.Tick.{
  on_tick, pick_next, count_tick, preempt_if_expired, handle_timer_tick, set_irq,
}
use demos_os.Sched.Pick.{or_init, schedule_round_robin}
use demos_os.Sched.Pick.Take.{AllReady-frame}
use demos_os.Sched.Pick.First.{first_eligible-frame}
use demos_os.Sched.Pick.Ready.{CanSchedule, candidates}
use demos_os.Sched.Pick.RoundRobin.{Scheduled, schedule_round_robin_lem}

-- The tick as it is booked on the current process.
abbrev pub ticked : Kernel → Kernel
ticked k = modify_pcb k k.current_process count_tick

no_on_tick : (a : SchedAlgorithm) (k : Kernel) → ml_policy a ≡ none → on_tick a k ≡ ok k
no_on_tick mlq k e = cc
no_on_tick mlfq k e = cc
no_on_tick round_robin k e = refl
no_on_tick _ k e = refl

-- Without a multilevel policy, a process with ticks left behind this one, or with the preemption
-- disabled, keeps the CPU: the tick is only booked.
pub handle_timer_tick-keeps :
    (k : Kernel)
    → ml_policy k.active_algorithm ≡ none
    → (pos 1 <ℤ (current k).counter) ⊎ (pos 0 <ℤ (current k).preempt_disabled)
    → handle_timer_tick k ≡ ok (ticked k)
unfolding handle_timer_tick preempt_if_expired
handle_timer_tick-keeps k plain (inl h) =
    let more : ltb_ℤ (pos 0) (current (ticked k)).counter ≡ true = ground arith in
    rw (no_on_tick k.active_algorithm (ticked k) plain, more)
handle_timer_tick-keeps k plain (inr h) =
    let guarded : (ltb_ℤ (pos 0) (current (ticked k)).counter
          || ltb_ℤ (pos 0) (current (ticked k)).preempt_disabled)
        ≡ true =
      ground arith in
    rw (no_on_tick k.active_algorithm (ticked k) plain, guarded)

not_preemptive-plain : (a : SchedAlgorithm) → is_preemptive a ≡ false → ml_policy a ≡ none
not_preemptive-plain fcfs e = refl
not_preemptive-plain sjf e = refl
not_preemptive-plain round_robin e = cc
not_preemptive-plain _ e = cc

-- Under an algorithm that is not preemptive (FCFS and SJF) a tick never takes the CPU from a process
-- other than the idle task: it stays the current process and keeps its state, one more burst tick is
-- booked on it, and no other PCB is written.
pub handle_timer_tick-non_preemptive :
    (k : Kernel)
    → is_preemptive k.active_algorithm ≡ false
    → k.current_process ≢ init_process
    → Returns
        (λ k'.
          (k'.current_process ≡ k.current_process)
          × ((current k').state ≡ (current k).state)
          × ((current k').burst_ticks ≡ (current k).burst_ticks + 1)
          × ((a : Ptr) → a ≢ k.current_process → k'.mem a ≡ k.mem a))
        (handle_timer_tick k)
unfolding handle_timer_tick preempt_if_expired
handle_timer_tick-non_preemptive k np user =
    let a = k.active_algorithm in
    let stays : (not (is_preemptive a) && not (k.current_process == init_process)) ≡ true =
      ground arith in
    let c = current (ticked k) in
    elim (Bool-cases (ltb_ℤ (pos 0) c.counter || ltb_ℤ (pos 0) c.preempt_disabled)) [
      | inl more ↦
          rw (no_on_tick a (ticked k) (not_preemptive-plain a np), more)
            (refl, ground arith, ground arith, λ a ne. ground arith)
      | inr over ↦
          rw (no_on_tick a (ticked k) (not_preemptive-plain a np), over, stays)
            (refl, ground arith, ground arith, λ a ne. ground arith)
    ]

-- The kernel in which the selection starts when the time slice is over.
abbrev expired : Kernel → Kernel
expired k =
    set_irq true (modify_pcb (ticked k) k.current_process (λ c. record c { counter = pos 0 }))

expired-CanSchedule : (k : Kernel) (xs : List Ptr) → CanSchedule k xs → CanSchedule (expired k) xs
expired-CanSchedule k xs v =
    let m' = (expired k).mem in
    record {
      queue = record {
        chain = Chain-frame k.mem m' k.ready_queue.head xs (λ a i. ground arith) v.queue.chain;
        last = v.queue.last;
      };
      ready_all = AllReady-frame k.mem m' xs (λ a i. ground arith) v.ready_all;
      short = v.short;
      current_out = v.current_out;
      current_ne = v.current_ne;
    }

candidates-expired : (k : Kernel) (xs : List Ptr) → candidates (expired k) xs ≡ candidates k xs
candidates-expired k xs = ground arith

set_irq-CanSchedule :
    (k : Kernel) (enabled : Bool) (xs : List Ptr)
    → CanSchedule k xs
    → CanSchedule (set_irq enabled k) xs
set_irq-CanSchedule k enabled xs v = record {
  queue = v.queue;
  ready_all = v.ready_all;
  short = v.short;
  current_out = v.current_out;
  current_ne = v.current_ne;
}

expired-Scheduled :
    (k : Kernel) (ys : List Ptr) (k' : Kernel)
    → Scheduled (some 10) (expired k) ys k'
    → Scheduled (some 10) k ys (set_irq false k')
expired-Scheduled k ys k' s =
    let (e, f) = first_eligible-frame k.mem (expired k).mem ys (λ a i. ground arith) in
    record {
      current_is = s.current_is ∙ ap or_init e;
      runs = s.runs;
      next = set_irq-CanSchedule k' false _ (subst (CanSchedule k') f s.next);
      charged = λ ne. s.charged (λ z. ne (sym e ∙ z));
      hold = s.hold ∙ ground arith;
      kept = λ a i.
          let (p, q, r) = s.kept a (rw f i) in
          (p ∙ ground arith, q ∙ ground arith, r ∙ ground arith);
      held = λ a ne. s.held a ne ∙ ground arith;
      pids = λ a. s.pids a ∙ ground arith;
      frame = s.frame;
      away = λ a o ne ni. ground (arith, s.away a o ne ni);
    }

-- With the time slice over and the preemption enabled, a preemptive algorithm makes its choice.
tick_over :
    (k : Kernel) {a : SchedAlgorithm}
    → k.active_algorithm ≡ a
    → ml_policy a ≡ none
    → is_preemptive a ≡ true
    → (current k).counter ≤ℤ pos 1
    → (current k).preempt_disabled ≤ℤ pos 0
    → handle_timer_tick k ≡ (pick_next a (expired k) >>= λ k'. ok (set_irq false k'))
unfolding handle_timer_tick preempt_if_expired
tick_over k e =
    subst
      (λ a.
        ml_policy a ≡ none
        → is_preemptive a ≡ true
        → (current k).counter ≤ℤ pos 1
        → (current k).preempt_disabled ≤ℤ pos 0
        → handle_timer_tick k ≡ (pick_next a (expired k) >>= λ k'. ok (set_irq false k')))
      e
      (λ plain pre over free.
        let c = current (ticked k) in
        let now : (ltb_ℤ (pos 0) c.counter || ltb_ℤ (pos 0) c.preempt_disabled) ≡ false =
          ground arith in
        let goes : (not (is_preemptive k.active_algorithm)
              && not (k.current_process == init_process))
            ≡ false =
          ground arith in
        rw (no_on_tick k.active_algorithm (ticked k) plain, now, goes))

-- Under round robin, if the ready queue holds the READY processes `xs`, fewer than 64, without the
-- current one, the tick that ends the time slice (with the preemption enabled) returns: a current
-- process that still runs joins the queue at its end; the first process that has neither a kill nor a
-- stop pending gets the CPU and ten ticks, or the idle task gets the CPU if there is none; the queue
-- is left with those behind it.
pub handle_timer_tick-round_robin :
    (k : Kernel) (xs : List Ptr)
    → k.active_algorithm ≡ round_robin
    → CanSchedule k xs
    → (current k).counter ≤ℤ pos 1
    → (current k).preempt_disabled ≤ℤ pos 0
    → Returns (Scheduled (some 10) k (candidates k xs)) (handle_timer_tick k)
handle_timer_tick-round_robin k xs rr v over free =
    let ys = candidates k xs in
    let chosen =
      subst (λ zs. Returns (Scheduled (some 10) (expired k) zs) (schedule_round_robin (expired k)))
        (candidates-expired k xs)
        (schedule_round_robin_lem (expired k) xs (expired-CanSchedule k xs v)) in
    rw (tick_over k rr refl refl over free) (
      Returns-bind (Scheduled (some 10) (expired k) ys) (Scheduled (some 10) k ys)
        (schedule_round_robin (expired k)) (λ k'. ok (set_irq false k')) chosen
        (λ k' s. expired-Scheduled k ys k' s))
