-- ===== src/Sched/Invariant/Turn.antt =====
-- The calls that give the CPU away: what each of them leaves of the queue.
use mathlib.Core.Path.{subst}
use demos_os.Base.{
  ◌≡◌, ◌≢◌, ◌⊎◌, refl, ap, sym, ◌∙◌, inl, inr, Bool-cases, true, List, [], ◌∷◌, ◌++◌, append_assoc,
  append-nil, arith, has, some,
}
use demos_os.Base.Int.{pos, ltb_ℤ, ◌<ℤ◌, ◌≤ℤ◌}
use demos_os.Base.Run.{ok, Returns, Returns-bind, Returns-mono}
use demos_os.Pcb.{Ptr, null, max_processes, process_running, process_zombie, Pcb}
use demos_os.Sched.{
  ml_policy, Kernel, current, modify_pcb, set_state, preempt_enable, preempt_disable,
}
use demos_os.Sched.Tick.{
  pick_next, end_burst, burst_over, schedule, handle_timer_tick, count_tick, wake_waiters,
  exit_process,
}
use demos_os.Sched.Preemption.{ticked, handle_timer_tick-keeps, handle_timer_tick-round_robin}
use demos_os.Sched.Pick.{or_init, schedule_round_robin}
use demos_os.Sched.Pick.First.{first_eligible, after_eligible, first_eligible-frame}
use demos_os.Sched.Pick.Ready.{goes_back, candidates}
use demos_os.Sched.Pick.RoundRobin.{Scheduled, schedule_round_robin_lem}
use demos_os.Sched.Invariant.Keep.{modify-Inv, preempt_disable-Inv, preempt_enable-Inv}
use demos_os.Sched.Invariant.Wake.{Calm, Calm-trans, Stays, wake_waiters-Stays}
use demos_os.Sched.Invariant.{Inv, Scheduled-Inv}

-- One choice of the scheduler, from a queue that holds the processes `xs` and, when the choice is
-- made, others behind them.
pub record Turn (k : Kernel) (xs : List Ptr) (k' : Kernel) : Type 0 where
  pub behind : List Ptr
  pub inv : Inv 0 k' (after_eligible k.mem (xs ++ behind))
  pub current_is : k'.current_process ≡ or_init (first_eligible k.mem (xs ++ behind))
  pub runs : (current k').state ≡ process_running
  pub slice : first_eligible k.mem (xs ++ behind) ≢ null → (current k').counter ≡ pos 10
  pub kept :
      (a : Ptr)
      → has a (after_eligible k.mem (xs ++ behind)) ≡ true
      → (k'.mem a).pending_signals ≡ (k.mem a).pending_signals
  pub pids : (a : Ptr) → (k'.mem a).pid ≡ (k.mem a).pid

candidates-append : (k : Kernel) (xs : List Ptr) → (zs : List Ptr) × (candidates k xs ≡ xs ++ zs)
candidates-append k xs = elim (Bool-cases (goes_back k)) [
  | inl back ↦ (k.current_process ∷ [], rw back refl)
  | inr stays ↦ ([], rw stays (sym (append-nil xs)))
]

Scheduled-kept :
    (k : Kernel) (ys : List Ptr) (k' : Kernel) (a : Ptr)
    → Scheduled (some 10) k ys k'
    → has a (after_eligible k.mem ys) ≡ true
    → (k'.mem a).pending_signals ≡ (k.mem a).pending_signals
Scheduled-kept k ys k' a s i = let (p, q, r) = s.kept a i in p ∙ ground arith

-- A choice after steps that moved nobody in the queue.
Scheduled-Turn :
    (k k₁ : Kernel) (xs zs : List Ptr) (k' : Kernel)
    → Calm k k₁
    → Inv 0 k₁ (xs ++ zs)
    → Scheduled (some 10) k₁ (candidates k₁ (xs ++ zs)) k'
    → Turn k xs k'
Scheduled-Turn k k₁ xs zs k' calm v s =
    let (ts, e) = candidates-append k₁ (xs ++ zs) in
    let ys = xs ++ (zs ++ ts) in
    let whole : candidates k₁ (xs ++ zs) ≡ ys = e ∙ append_assoc xs zs ts in
    let v' = Scheduled-Inv (some 10) k₁ (xs ++ zs) k' v s in
    let s' = subst (λ l. Scheduled (some 10) k₁ l k') whole s in
    let (f, g) = first_eligible-frame k.mem k₁.mem ys (λ a i. (calm a).0) in
    record {
      behind = zs ++ ts;
      inv = subst (Inv 0 k') (ap (after_eligible k₁.mem) whole ∙ g) v';
      current_is = s'.current_is ∙ ap or_init f;
      runs = s.runs;
      slice = λ ne. s'.charged (λ z. ne (sym f ∙ z));
      kept = λ a i. Scheduled-kept k₁ ys k' a s' (rw g i) ∙ (calm a).0;
      pids = λ a. s.pids a ∙ (calm a).1;
    }

schedule_round_robin-Turn :
    (k k₁ : Kernel) (xs zs : List Ptr)
    → Calm k k₁
    → Inv 0 k₁ (xs ++ zs)
    → Returns (Turn k xs) (pick_next k₁.active_algorithm k₁)
schedule_round_robin-Turn k k₁ xs zs calm v =
    let ys = xs ++ zs in
    subst (λ a. Returns (Turn k xs) (pick_next a k₁)) (sym v.algorithm)
      (Returns-mono (Scheduled (some 10) k₁ (candidates k₁ ys)) (Turn k xs)
        (schedule_round_robin k₁) (schedule_round_robin_lem k₁ ys v.can)
        (λ k' s. Scheduled-Turn k k₁ xs zs k' calm v s))

-- Under the invariant `schedule` ends with a choice, whatever state the process that gives up the CPU
-- has taken.
schedule-Turn_behind :
    (k k₁ : Kernel) (xs zs : List Ptr)
    → Calm k k₁
    → Inv 0 k₁ (xs ++ zs)
    → Returns (Turn k xs) (schedule k₁)
unfolding schedule
schedule-Turn_behind k k₁ xs zs calm v =
    let p = k₁.current_process in
    let ys = xs ++ zs in
    let out : (f : Pcb → Pcb) → has p ys ≡ true → (f (k₁.mem p)).state ≡ (k₁.mem p).state =
      λ f i. absurd (let o = v.can.current_out in ground arith) in
    let stop = λ (c : Pcb). record c { counter = pos 0 } in
    let finish : (k₂ : Kernel)
        → Calm k k₂
        → Inv 0 k₂ ys
        → Returns (Turn k xs) (pick_next k₂.active_algorithm (modify_pcb k₂ p stop)) =
      λ k₂ calm₂ v₂.
        let k₃ = modify_pcb k₂ p stop in
        schedule_round_robin-Turn k k₃ xs zs
          (Calm-trans k k₂ k₃ calm₂ (λ a. (ground arith, ground arith)))
          (modify-Inv 0 k₂ ys p stop (λ c. (refl, refl)) (λ _. refl) v₂) in
    elim (Bool-cases (burst_over k₁)) [
      | inl over ↦
          let k₂ = modify_pcb k₁ p end_burst in
          let v₂ = modify-Inv 0 k₁ ys p end_burst (λ c. (refl, refl)) (λ _. refl) v in
          rw over (finish k₂ (Calm-trans k k₁ k₂ calm (λ a. (ground arith, ground arith))) v₂)
      | inr still ↦ rw still (finish k₁ calm v)
    ]

-- Under the invariant the exit of a process ends with a choice.
pub exit_process-Turn :
    (k : Kernel) (xs : List Ptr) → Inv 0 k xs → Returns (Turn k xs) (exit_process k)
unfolding exit_process
exit_process-Turn k xs v =
    let k₁ = preempt_disable k in
    let k₂ = modify_pcb k₁ k₁.current_process (set_state process_zombie) in
    let v₂ =
      modify-Inv 1 k₁ xs k.current_process (set_state process_zombie) (λ c. (refl, refl))
        (λ h. absurd (let o = v.can.current_out in ground arith)) (preempt_disable-Inv k xs v) in
    let pid = (current k₂).pid in
    Returns-bind (Stays 1 k₂ xs) (Turn k xs) (wake_waiters max_processes 0 pid k₂)
      (λ k₃. schedule (preempt_enable k₃))
      (wake_waiters-Stays max_processes 0 pid 1 k₂ xs (omega arith) (ground arith) v₂)
      (λ k₃ s.
        let k₄ = preempt_enable k₃ in
        let calm =
          Calm-trans k k₃ k₄ (Calm-trans k k₂ k₃ (λ a. (ground arith, ground arith)) s.calm)
            (λ a. (ground arith, ground arith)) in
        schedule-Turn_behind k k₄ xs s.joined calm (preempt_enable-Inv k₃ (xs ++ s.joined) s.inv))

-- What a process that gives up the CPU by `schedule` writes on itself first.
pub schedule-Turn :
    (k : Kernel) (xs : List Ptr) (f : Pcb → Pcb)
    → ((c : Pcb)
        → ((f c).next_ready ≡ c.next_ready) × ((f c).preempt_disabled ≡ c.preempt_disabled))
    → ((c : Pcb) → ((f c).pending_signals ≡ c.pending_signals) × ((f c).pid ≡ c.pid))
    → Inv 0 k xs
    → Returns (Turn k xs) (schedule (modify_pcb k k.current_process f))
schedule-Turn k xs f same quiet v =
    let p = k.current_process in
    let k₁ = modify_pcb k p f in
    let v₁ =
      modify-Inv 0 k xs p f same (λ h. absurd (let o = v.can.current_out in ground arith)) v in
    schedule-Turn_behind k k₁ xs []
      (λ a. let (e, g) = quiet (k.mem a) in (ground arith, ground arith))
      (subst (Inv 0 k₁) (sym (append-nil xs)) v₁)

-- A tick of a process with ticks left books it; another one ends with a choice.
pub handle_timer_tick-Turn :
    (k : Kernel) (xs : List Ptr)
    → Inv 0 k xs
    → (pos 1 <ℤ (current k).counter) × (handle_timer_tick k ≡ ok (ticked k)) × Inv 0 (ticked k) xs
      ⊎ ((current k).counter ≤ℤ pos 1) × Returns (Turn k xs) (handle_timer_tick k)
handle_timer_tick-Turn k xs v = elim (Bool-cases (ltb_ℤ (pos 1) (current k).counter)) [
  | inl more ↦ inl (
    ground arith,
    handle_timer_tick-keeps k (ap ml_policy v.algorithm) (inl (ground arith)),
    modify-Inv 0 k xs k.current_process count_tick (λ c. (refl, refl)) (λ _. refl) v,
  )
  | inr over ↦
      let free : (current k).preempt_disabled ≤ℤ pos 0 = let e = v.running in ground arith in
      inr (
        ground arith,
        Returns-mono (Scheduled (some 10) k (candidates k xs)) (Turn k xs) (handle_timer_tick k)
            (handle_timer_tick-round_robin k xs v.algorithm v.can (ground arith) free)
            (λ k' s.
              Scheduled-Turn k k xs [] k' (λ a. (refl, refl))
                (subst (Inv 0 k) (sym (append-nil xs)) v)
                (subst (λ l. Scheduled (some 10) k (candidates k l) k') (sym (append-nil xs)) s)),
      )
]
