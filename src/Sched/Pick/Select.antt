-- ===== src/Sched/Pick/Select.antt =====
-- The end of the selections on the ready queue: the search for a process, its time slice and the switch.
use mathlib.Core.Path.{subst}
use demos_os.Base.{
  ℕ, ◌-◌, ◌<◌, ◌≤◌, ◌≡◌, ◌≢◌, refl, ap, sym, ◌∙◌, inl, inr, Bool-cases, true, false, Option, none,
  some, List, [], arith, has, ◌==◌, ne_of_has, length,
}
use demos_os.Base.Int.{ℤ, pos, ◌-ℤ◌}
use demos_os.Base.Run.{ok, ◌>>=◌, Returns}
use demos_os.Pcb.{Ptr, null, init_process, process_running, process_ready, Store}
use demos_os.Queue.{queue_fuel}
use demos_os.Queue.Chain.{IsQueue, Chain-frame, Chain-ne_null}
use demos_os.Sched.{Kernel, ready, set_queue, current}
use demos_os.Sched.Pick.{take_ready, or_init, recharge, dispatch}
use demos_os.Sched.Pick.Dispatch.{
  current_process-dispatch, state-dispatch, counter-dispatch, preempt_disabled-dispatch,
  dispatch-IsQueue, dispatch-away, dispatch-unselected, pid-dispatch, held-dispatch, Frame-dispatch,
}
use demos_os.Sched.Pick.Ready.{CanSchedule, Same, Same-trans, Frame, Frame-trans, Requeued}
use demos_os.Sched.Pick.Take.{first_ready, AllReady-has, AllReady-all, take_ready-first_ready}
use demos_os.Sched.Pick.First.{
  first_eligible, after_eligible, first_eligible-frame, first_ready-first_eligible, Chain-Distinct,
  has-first_eligible, first_ready-away, has-after_eligible, first_eligible-out, after_eligible-nil,
  length-after_eligible, first_ready-rest, first_ready-holds,
}

-- The counter of the selected process: a new time slice, or what it had.
abbrev pub charge : Option ℕ → ℤ → ℤ
charge none c = c
charge (some n) c = pos n

abbrev pub prepare : Option ℕ → Ptr → Kernel → Kernel
prepare none p k = k
prepare (some n) p k = recharge n p k

-- The outcome of a selection among the processes `ys`, from a kernel `k` in which the preemption is
-- already disabled.
pub record Picked (slice : Option ℕ) (k : Kernel) (ys : List Ptr) (k' : Kernel) : Type 0 where
  pub current_is : k'.current_process ≡ or_init (first_eligible k.mem ys)
  pub runs : (current k').state ≡ process_running
  pub next : CanSchedule k' (after_eligible k.mem ys)
  pub charged :
      first_eligible k.mem ys ≢ null
      → (current k').counter ≡ charge slice (k.mem k'.current_process).counter
  pub hold : (current k').preempt_disabled ≡ (k.mem k'.current_process).preempt_disabled -ℤ pos 1
  pub kept : (a : Ptr) → has a (after_eligible k.mem ys) ≡ true → Same (k.mem a) (k'.mem a)
  pub held :
      (a : Ptr) → a ≢ k'.current_process → (k'.mem a).preempt_disabled ≡ (k.mem a).preempt_disabled
  pub pids : (a : Ptr) → (k'.mem a).pid ≡ (k.mem a).pid
  pub frame : Frame k k'
  pub away :
      (a : Ptr)
      → has a ys ≡ false
      → a ≢ k.current_process
      → a ≢ init_process
      → ((k'.mem a).state ≡ (k.mem a).state)
        × ((k'.mem a).pending_signals ≡ (k.mem a).pending_signals)

module _ (slice : Option ℕ) (p : Ptr) (k : Kernel) where
  mem-prepare : (a : Ptr) → a ≢ or_init p → (prepare slice p k).mem a ≡ k.mem a
  mem-prepare a ne = ground arith

  next_ready-prepare : (a : Ptr) → ((prepare slice p k).mem a).next_ready ≡ (k.mem a).next_ready
  next_ready-prepare a = ground arith

  ready_queue-prepare : (prepare slice p k).ready_queue ≡ k.ready_queue
  ready_queue-prepare = ground arith

  current_process-prepare : (prepare slice p k).current_process ≡ k.current_process
  current_process-prepare = ground arith

  holds-prepare :
      (a : Ptr)
      → (((prepare slice p k).mem a).preempt_disabled ≡ (k.mem a).preempt_disabled)
        × (((prepare slice p k).mem a).pid ≡ (k.mem a).pid)
  holds-prepare a = (ground arith, ground arith)

  counter-prepare :
      p ≢ null
      → ((prepare slice p k).mem (or_init p)).counter ≡ charge slice (k.mem (or_init p)).counter
  counter-prepare ne = ground arith

  Frame-prepare : Frame k (prepare slice p k)
  Frame-prepare = (ground arith, ground arith, ground arith)

  prepare-IsQueue :
      (rest : List Ptr)
      → IsQueue k.mem k.ready_queue rest
      → IsQueue (prepare slice p k).mem (prepare slice p k).ready_queue rest
  prepare-IsQueue rest v = rw ready_queue-prepare (record {
    chain =
        Chain-frame k.mem (prepare slice p k).mem k.ready_queue.head rest
          (λ a i. next_ready-prepare a) v.chain;
    last = v.last;
  })

or_init-ne :
    (m : Store) (ys : List Ptr) (a : Ptr)
    → has a ys ≡ false
    → a ≢ init_process
    → a ≢ or_init (first_eligible m ys)
or_init-ne m ys a o ni e = elim (Bool-cases (first_eligible m ys == null)) [
  | inl none_found ↦ ground arith
  | inr found ↦
      ground (arith, has-first_eligible m ys (ground arith), ne_of_has (first_eligible m ys) a ys)
]

-- What the search finds, read off the kernel `k` with the preemption disabled, and its rest.
record Taken (k k₁ : Kernel) (ys : List Ptr) (m' : Store) : Type 0 where
  rest_ready : (a : Ptr) → has a (after_eligible k.mem ys) ≡ true → m' a ≡ k₁.mem a
  holds :
      (a : Ptr)
      → ((m' a).preempt_disabled ≡ (k.mem a).preempt_disabled)
        × ((m' a).pid ≡ (k.mem a).pid)
        × ((m' a).counter ≡ (k.mem a).counter)
  not_rest :
      (a : Ptr) → has a (after_eligible k.mem ys) ≡ true → a ≢ or_init (first_eligible k.mem ys)
  few : length (after_eligible k.mem ys) ≤ length ys - 1

Requeued-Taken :
    (k k₁ : Kernel) (ys : List Ptr) → Requeued k ys k₁ → Taken k k₁ ys (first_ready k₁.mem ys).2
Requeued-Taken k k₁ ys v =
    let d = Chain-Distinct k₁.mem k₁.ready_queue.head ys v.queue.chain in
    let (f₁, f₂) = first_eligible-frame k.mem k₁.mem ys (λ a i. (v.same a).0) in
    record {
      rest_ready = λ a i. first_ready-rest k₁.mem ys a d v.ready_all (rw f₂ i);
      holds = λ a.
          let (s₀, s₁, s₂, s₃) = v.same a in
          let (h₁, h₂, h₃) = first_ready-holds k₁.mem ys a in (h₁ ∙ s₁, h₂ ∙ s₂, h₃ ∙ s₃);
      not_rest = λ a i e. elim (Bool-cases (first_eligible k.mem ys == null)) [
        | inl none_found ↦
            let gone =
              after_eligible-nil k.mem ys
                (λ b j. Chain-ne_null k₁.mem k₁.ready_queue.head b ys v.queue.chain j)
                (ground arith) in
            let out : has a [] ≡ true = rw gone at i in ground arith
        | inr found ↦
            let out = first_eligible-out k.mem ys d (ground arith) in
            let here : a ≡ first_eligible k.mem ys = ground arith in ground (arith, rw here at i)
      ];
      few = length-after_eligible k.mem ys;
    }

-- A process of the rest stays READY through the end of the selection, and keeps what the queues keep.
rest_kept :
    (slice : Option ℕ) (k k₁ k₂ : Kernel) (ys : List Ptr) (a : Ptr)
    → Requeued k ys k₁
    → Taken k k₁ ys k₂.mem
    → has a (after_eligible k.mem ys) ≡ true
    → let p = first_eligible k.mem ys in
      let k' = dispatch p (prepare slice p k₂) in
      ((k'.mem a).state ≡ process_ready) × Same (k.mem a) (k'.mem a)
rest_kept slice k k₁ k₂ ys a v t i =
    let p = first_eligible k.mem ys in
    let k₃ = prepare slice p k₂ in
    let ne = t.not_rest a i in
    let e : k₃.mem a ≡ k₁.mem a = mem-prepare slice p k₂ a ne ∙ t.rest_ready a i in
    let r : (k₃.mem a).state ≡ process_ready =
      ap (λ c. c.state) e
      ∙ AllReady-has k₁.mem ys a v.ready_all (has-after_eligible k.mem ys a i) in
    let (s, same) = dispatch-unselected p k₃ a ne r in
    let from : Same (k.mem a) (k₃.mem a) = subst (Same (k.mem a)) (sym e) (v.same a) in
    (s, Same-trans (k.mem a) (k₃.mem a) ((dispatch p k₃).mem a) from same)

-- The end of the selection, once the search has found `p`.
dispatch-Picked :
    (slice : Option ℕ) (k k₁ k₂ : Kernel) (ys : List Ptr)
    → length ys < queue_fuel
    → Requeued k ys k₁
    → Taken k k₁ ys k₂.mem
    → Frame k k₂
    → k₂.current_process ≡ k.current_process
    → IsQueue k₂.mem k₂.ready_queue (after_eligible k.mem ys)
    → ((a : Ptr) → has a ys ≡ false → a ≢ k.current_process → k₂.mem a ≡ k.mem a)
    → let p = first_eligible k.mem ys in Picked slice k ys (dispatch p (prepare slice p k₂))
dispatch-Picked slice k k₁ k₂ ys short v t frame same_current queue away =
    let p = first_eligible k.mem ys in
    let k₃ = prepare slice p k₂ in
    let k' = dispatch p k₃ in
    let now = current_process-dispatch p k₃ in
    let (h₁, h₂) = holds-prepare slice p k₂ (or_init p) in
    record {
      current_is = now;
      runs = state-dispatch p k₃;
      next = record {
        queue = dispatch-IsQueue p k₃ _ (prepare-IsQueue slice p k₂ _ queue);
        ready_all =
            AllReady-all k'.mem (after_eligible k.mem ys)
              (λ a i. (rest_kept slice k k₁ k₂ ys a v t i).0);
        short = omega (arith, t.few);
        current_out = rw now (elim (Bool-cases (has (or_init p) (after_eligible k.mem ys))) [
          | inl i ↦ absurd (t.not_rest (or_init p) i refl)
          | inr o ↦ o
        ]);
        current_ne = rw now (ground arith);
      };
      charged = λ ne.
          counter-dispatch p k₃
          ∙ counter-prepare slice p k₂ ne
          ∙ ap (charge slice) ((t.holds (or_init p)).2 ∙ ap (λ a. (k.mem a).counter) (sym now));
      hold =
          preempt_disabled-dispatch p k₃
          ∙ ap (λ z. z -ℤ pos 1)
              (h₁ ∙ (t.holds (or_init p)).0 ∙ ap (λ a. (k.mem a).preempt_disabled) (sym now));
      kept = λ a i. (rest_kept slice k k₁ k₂ ys a v t i).1;
      held = λ a ne.
          held-dispatch p k₃ a (rw (sym now) ne) ∙ (holds-prepare slice p k₂ a).0 ∙ (t.holds a).0;
      pids = λ a. pid-dispatch p k₃ a ∙ (holds-prepare slice p k₂ a).1 ∙ (t.holds a).1;
      frame =
          Frame-trans k k₂ k' frame
            (Frame-trans k₂ k₃ k' (Frame-prepare slice p k₂) (Frame-dispatch p k₃));
      away = λ a o ne ni.
          let out = or_init-ne k.mem ys a o ni in
          let nc : a ≢ k₃.current_process =
            rw (current_process-prepare slice p k₂, same_current) ne in
          let e = dispatch-away p k₃ a out nc ∙ mem-prepare slice p k₂ a out ∙ away a o ne in
          (ap (λ c. c.state) e, ap (λ c. c.pending_signals) e);
    }

-- The end of the selection, from what the first step left.
pub take-Picked :
    (slice : Option ℕ) (k k₁ : Kernel) (ys : List Ptr)
    → length ys < queue_fuel
    → Requeued k ys k₁
    → Returns
        (Picked slice k ys)
        (take_ready queue_fuel ready k₁ >>= λ (p, k₂). ok (dispatch p (prepare slice p k₂)))
take-Picked slice k k₁ ys short v =
    let (q', v', e) = take_ready-first_ready queue_fuel ready k₁ ys v.queue v.ready_all short in
    let m' = (first_ready k₁.mem ys).2 in
    let p = (first_ready k₁.mem ys).0 in
    let d = Chain-Distinct k₁.mem k₁.ready_queue.head ys v.queue.chain in
    let (e₁, e₂) = first_ready-first_eligible k₁.mem ys d v.ready_all in
    let (f₁, f₂) = first_eligible-frame k.mem k₁.mem ys (λ a i. (v.same a).0) in
    let first : p ≡ first_eligible k.mem ys = e₁ ∙ f₁ in
    let rest : (first_ready k₁.mem ys).1 ≡ after_eligible k.mem ys = e₂ ∙ f₂ in
    let k₂ = set_queue k₁ ready (m', q') in
    rw (e, first)
      (dispatch-Picked slice k k₁ k₂ ys short v (Requeued-Taken k k₁ ys v) v.frame v.same_current
        (subst (λ r. IsQueue m' q' r) rest v')
        (λ a o ne. first_ready-away k₁.mem a ys o ∙ v.away a o ne))
