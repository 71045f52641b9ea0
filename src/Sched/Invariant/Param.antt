-- ===== src/Sched/Invariant/Param.antt =====
-- The setting of a scheduling parameter against the invariant of the scheduler.
use demos_os.Base.{ℕ, ◌≡◌, refl, inl, inr, Bool-cases, not, ◌||◌, List, arith}
use demos_os.Base.Int.{ℤ, pos, ltb_ℤ, ◌==ℤ◌, pos_part}
use demos_os.Pcb.{Ptr, Pcb}
use demos_os.Queue.{not_queueable}
use demos_os.Sched.{
  Kernel, current, modify_pcb, preempt_enable, preempt_disable, update, moved_to, ml_max_levels,
}
use demos_os.Sched.Params.{
  sched_set_param, sched_param_priority, sched_param_tickets, sched_param_queue_priority, set_level,
  clamp_to_policy,
}
use demos_os.Sched.Register.{no_print}
use demos_os.Sched.Invariant.{Inv}
use demos_os.Sched.Invariant.Keep.{modify-Inv, preempt_disable-Inv, preempt_enable-Inv}

-- The invariant, and the state of the current process, are as before.
abbrev pub Same : (k : Kernel) → List Ptr → Kernel → Type 0
Same k xs k' = Inv 0 k' xs × ((current k').state ≡ (current k).state)

levels-Inv :
    (hold : ℕ) (k : Kernel) (xs : List Ptr) (levels : ℕ → ℕ)
    → Inv hold k xs
    → Inv hold (record k { queue_level = levels }) xs
levels-Inv hold k xs levels v = record {
  can = record {
    queue = v.can.queue;
    ready_all = v.can.ready_all;
    short = v.can.short;
    current_out = v.can.current_out;
    current_ne = v.can.current_ne;
  };
  algorithm = v.algorithm;
  member = v.member;
  current_member = v.current_member;
  idle_member = v.idle_member;
  suspended = v.suspended;
  running = v.running;
  free = v.free;
  filled = v.filled;
}

set_level-Same :
    (k : Kernel) (xs : List Ptr) (p : Ptr) (at : ℕ) → Inv 0 k xs → Same k xs (set_level k p at)
unfolding set_level
set_level-Same k xs p at v =
    let f = λ (c : Pcb). record c { queue_priority = pos at } in
    let k₁ = modify_pcb (preempt_disable k) p f in
    let levels = update k₁.queue_level (k₁.mem p).pid at in
    let k₂ : Kernel = record k₁ { queue_level = levels } in
    let v₁ =
      modify-Inv 1 (preempt_disable k) xs p f (λ c. (refl, refl)) (λ _. refl)
        (preempt_disable-Inv k xs v) in
    let v₂ = preempt_enable-Inv k₂ xs (levels-Inv 1 k₁ xs levels v₁) in
    rw (no_print (preempt_enable k₂) (moved_to (k.mem p).pid at) v.algorithm) (v₂, ground arith)

write-Same :
    (k : Kernel) (xs : List Ptr) (p : Ptr) (f : Pcb → Pcb)
    → ((c : Pcb)
        → ((f c).next_ready ≡ c.next_ready) × ((f c).preempt_disabled ≡ c.preempt_disabled))
    → ((c : Pcb) → (f c).state ≡ c.state)
    → Inv 0 k xs
    → Same k xs (modify_pcb k p f)
write-Same k xs p f same state v = (
  modify-Inv 0 k xs p f same (λ _. state (k.mem p)) v,
  let e = state (k.mem k.current_process) in ground arith,
)

-- On every branch, those that refuse the value included.
pub sched_set_param-Same :
    (k : Kernel) (xs : List Ptr) (p : Ptr) (param value : ℤ)
    → Inv 0 k xs
    → Same k xs (sched_set_param k p param value).1
unfolding sched_set_param
sched_set_param-Same k xs p param value v =
    let keep : Same k xs k = (v, refl) in
    let priority =
      write-Same k xs p (λ c. record c { priority = value }) (λ c. (refl, refl)) (λ c. refl) v in
    let tickets =
      write-Same k xs p (λ c. record c { tickets = value }) (λ c. (refl, refl)) (λ c. refl) v in
    let level = set_level-Same k xs p (clamp_to_policy k.active_algorithm (pos_part value)) v in
    elim (Bool-cases (not_queueable p)) [
      | inl refused ↦ rw refused keep
      | inr known ↦ elim (Bool-cases (param ==ℤ sched_param_priority)) [
        | inl is_priority ↦ elim (Bool-cases (ltb_ℤ value (pos 1))) [
          | inl low ↦ rw (known, is_priority, low) keep
          | inr good ↦ rw (known, is_priority, good) priority
        ]
        | inr other ↦ elim (Bool-cases (param ==ℤ sched_param_tickets)) [
          | inl is_tickets ↦ elim (Bool-cases (ltb_ℤ value (pos 1))) [
            | inl low ↦ rw (known, other, is_tickets, low) keep
            | inr good ↦ rw (known, other, is_tickets, good) tickets
          ]
          | inr third ↦ elim (Bool-cases (param ==ℤ sched_param_queue_priority)) [
            | inl is_level ↦
                elim (Bool-cases (ltb_ℤ value (pos 0) || not (ltb_ℤ value (pos ml_max_levels)))) [
                  | inl out ↦ rw (known, other, third, is_level, out) keep
                  | inr inside ↦ rw (known, other, third, is_level, inside) level
                ]
            | inr unknown ↦ rw (known, other, third, unknown) keep
          ]
        ]
      ]
    ]
