-- ===== src/Programs/Spawn.antt =====
-- The parameters that `spawn_process` gives to a process, in the kernel.
use demos_os.Base.{
  ℕ, suc, ◌≡◌, refl, ◌∙◌, ap, arith, true, false, not, ◌||◌, Bool-cases, inl, inr, List, ◌==◌,
  if◌then◌else◌,
}
use demos_os.Base.Int.{ℤ, pos, ltb_ℤ, ◌==ℤ◌, pos_part}
use demos_os.Pcb.{Ptr, null, Pcb}
use demos_os.Queue.{not_queueable}
use demos_os.Sched.{SchedAlgorithm, Kernel, modify_pcb, ml_max_levels}
use demos_os.Sched.Params.{
  sched_set_param, sched_param_priority, sched_param_tickets, sched_param_queue_priority, set_level,
  clamp_to_policy,
}
use demos_os.Syscalls.{search_process, syscall_set_sched_param}
use demos_os.Syscalls.Wait.{SameIds, search_process-same}
use demos_os.Programs.{ProcessCalls, in_parent, configure, spawn_process}

-- What is done to the parameters of the process.
abbrev pub Parameters : Type 0
Parameters = ℤ × ℤ × ℤ

abbrev pub parameters : Kernel → Ptr → Parameters
parameters k p = ((k.mem p).priority, (k.mem p).tickets, (k.mem p).queue_priority)

-- A value below 1 is refused.
abbrev pub positive_or : (old value : ℤ) → ℤ
positive_or old value = if ltb_ℤ value (pos 1) then old else value

-- A level that no multilevel algorithm has is refused; one that the active algorithm lacks is taken
-- for its last.
abbrev pub level_or : SchedAlgorithm → (old value : ℤ) → ℤ
level_or a old value =
    if ltb_ℤ value (pos 0) || not (ltb_ℤ value (pos ml_max_levels))
    then old
    else pos (clamp_to_policy a (pos_part value))

refused : (old value : ℤ) → ltb_ℤ value (pos 0) ≡ true → old ≡ positive_or old value
refused old value n = let low : ltb_ℤ value (pos 1) ≡ true = ground arith in rw low refl

level_refused :
    (a : SchedAlgorithm) (old value : ℤ) → ltb_ℤ value (pos 0) ≡ true → old ≡ level_or a old value
level_refused a old value n = rw n refl

record Became (k : Kernel) (p : Ptr) (t : Parameters) (k' : Kernel) : Type 0 where
  ids : SameIds k k'
  algorithm : k'.active_algorithm ≡ k.active_algorithm
  now : parameters k' p ≡ t

set_level-Became :
    (k : Kernel) (p : Ptr) (at : ℕ)
    → Became k p ((k.mem p).priority, (k.mem p).tickets, pos at) (set_level k p at)
unfolding set_level
set_level-Became k p at = record {
  ids = (ground arith, λ a. ground arith);
  algorithm = ground arith;
  now =
      let k' = set_level k p at in
      let e₁ : (k'.mem p).priority ≡ (k.mem p).priority = ground arith in
      let e₂ : (k'.mem p).tickets ≡ (k.mem p).tickets = ground arith in
      let e₃ : (k'.mem p).queue_priority ≡ pos at = ground arith in cc (e₁, e₂, e₃);
}

write_one :
    (k : Kernel) (p : Ptr) (f : Pcb → Pcb)
    → ((c : Pcb) → (f c).pid ≡ c.pid)
    → let c = f (k.mem p) in Became k p (c.priority, c.tickets, c.queue_priority) (modify_pcb k p f)
write_one k p f same = record {
  ids = (refl, λ a. let e = same (k.mem a) in ground arith);
  algorithm = refl;
  now =
      let e : (modify_pcb k p f).mem p ≡ f (k.mem p) = ground arith in
      ap (λ (c : Pcb). (c.priority, c.tickets, c.queue_priority)) e;
}

Became-none : (k : Kernel) (p : Ptr) (t : Parameters) → parameters k p ≡ t → Became k p t k
Became-none k p t e = record { ids = (refl, λ a. refl); algorithm = refl; now = e }

-- Each of the parameters, for a process that may be queued.
set_priority-Became :
    (k : Kernel) (p : Ptr) (value : ℤ)
    → not_queueable p ≡ false
    → let (priority, tickets, queue_priority) = parameters k p in
      Became k p
        (positive_or priority value, tickets, queue_priority)
        (sched_set_param k p sched_param_priority value).1
unfolding sched_set_param
set_priority-Became k p value known = elim (Bool-cases (ltb_ℤ value (pos 1))) [
  | inl low ↦ rw (known, low) (Became-none k p (parameters k p) refl)
  | inr good ↦ rw (known, good) (write_one k p (λ c. record c { priority = value }) (λ c. refl))
]

set_tickets-Became :
    (k : Kernel) (p : Ptr) (value : ℤ)
    → not_queueable p ≡ false
    → let (priority, tickets, queue_priority) = parameters k p in
      Became k p
        (priority, positive_or tickets value, queue_priority)
        (sched_set_param k p sched_param_tickets value).1
unfolding sched_set_param
set_tickets-Became k p value known = elim (Bool-cases (ltb_ℤ value (pos 1))) [
  | inl low ↦ rw (known, low) (Became-none k p (parameters k p) refl)
  | inr good ↦ rw (known, good) (write_one k p (λ c. record c { tickets = value }) (λ c. refl))
]

set_queue_priority-Became :
    (k : Kernel) (p : Ptr) (value : ℤ)
    → not_queueable p ≡ false
    → let (priority, tickets, queue_priority) = parameters k p in
      Became k p
        (priority, tickets, level_or k.active_algorithm queue_priority value)
        (sched_set_param k p sched_param_queue_priority value).1
unfolding sched_set_param
set_queue_priority-Became k p value known =
    elim (Bool-cases (ltb_ℤ value (pos 0) || not (ltb_ℤ value (pos ml_max_levels)))) [
      | inl out ↦ rw (known, out) (Became-none k p (parameters k p) refl)
      | inr inside ↦
          rw (known, inside)
            (set_level-Became k p (clamp_to_policy k.active_algorithm (pos_part value)))
    ]

-- The calls, with the parameters set in the kernel.
abbrev pub kernel_calls : ProcessCalls Kernel → ProcessCalls Kernel
kernel_calls calls = record calls {
  call_syscall_set_sched_param = λ pid param value k.
      let (status, k') = syscall_set_sched_param k pid param value in (status, k');
}

module _ (calls : ProcessCalls Kernel) (pid : ℤ) (p : Ptr) (known : not_queueable p ≡ false) where
  abbrev Found : Kernel → Type 0
  Found k = search_process k pid ≡ p

  Became-Found : (k k' : Kernel) (t : Parameters) → Found k → Became k p t k' → Found k'
  Became-Found k k' t e b = search_process-same k k' pid b.ids ∙ e

  configure-Became :
      (k : Kernel) (param value : ℤ) (t : Parameters)
      → Found k
      → (ltb_ℤ value (pos 0) ≡ true → parameters k p ≡ t)
      → Became k p t (sched_set_param k p param value).1
      → Became k p t (configure (kernel_calls calls) pid param value k)
  unfolding configure syscall_set_sched_param
  configure-Became k param value t found kept b =
      let present : (p == null) ≡ false = ground arith in
      elim (Bool-cases (ltb_ℤ value (pos 0))) [
        | inl negative ↦ rw negative (Became-none k p t (kept negative))
        | inr given ↦ rw (given, found, present) b
      ]

  -- The three parameters one after the other.
  abbrev configured : (priority tickets queue_priority : ℤ) → Kernel → Kernel
  configured priority tickets queue_priority k =
      let c = configure (kernel_calls calls) pid in
      c sched_param_queue_priority queue_priority
        (c sched_param_tickets tickets (c sched_param_priority priority k))

  configured-parameters :
      (k : Kernel) (priority tickets queue_priority : ℤ)
      → Found k
      → parameters (configured priority tickets queue_priority k) p ≡ (
        positive_or (k.mem p).priority priority,
        positive_or (k.mem p).tickets tickets,
        level_or k.active_algorithm (k.mem p).queue_priority queue_priority,
      )
  configured-parameters k priority tickets queue_priority found =
      let c = configure (kernel_calls calls) pid in
      let k₁ = c sched_param_priority priority k in
      let t₁ : Parameters =
        (positive_or (k.mem p).priority priority, (k.mem p).tickets, (k.mem p).queue_priority) in
      let b₁ : Became k p t₁ k₁ =
        configure-Became k sched_param_priority priority t₁ found
          (λ n.
            ap (λ (z : ℤ). (z, (k.mem p).tickets, (k.mem p).queue_priority))
              (refused (k.mem p).priority priority n))
          (set_priority-Became k p priority known) in
      let k₂ = c sched_param_tickets tickets k₁ in
      let t₂ : Parameters =
        ((k₁.mem p).priority, positive_or (k₁.mem p).tickets tickets, (k₁.mem p).queue_priority) in
      let b₂ : Became k₁ p t₂ k₂ =
        configure-Became k₁ sched_param_tickets tickets t₂ (Became-Found k k₁ t₁ found b₁)
          (λ n.
            ap (λ (z : ℤ). ((k₁.mem p).priority, z, (k₁.mem p).queue_priority))
              (refused (k₁.mem p).tickets tickets n))
          (set_tickets-Became k₁ p tickets known) in
      let k₃ = c sched_param_queue_priority queue_priority k₂ in
      let t₃ : Parameters = (
        (k₂.mem p).priority,
        (k₂.mem p).tickets,
        level_or k₂.active_algorithm (k₂.mem p).queue_priority queue_priority,
      ) in
      let b₃ : Became k₂ p t₃ k₃ =
        configure-Became k₂ sched_param_queue_priority queue_priority t₃
          (Became-Found k₁ k₂ t₂ (Became-Found k k₁ t₁ found b₁) b₂)
          (λ n.
            ap (λ (z : ℤ). ((k₂.mem p).priority, (k₂.mem p).tickets, z))
              (level_refused k₂.active_algorithm (k₂.mem p).queue_priority queue_priority n))
          (set_queue_priority-Became k₂ p queue_priority known) in
      let a₂ = k₂.active_algorithm in
      let level : (a : SchedAlgorithm) (z : ℤ) → ℤ = λ a z. level_or a z queue_priority in
      b₃.now
      ∙ ap (λ (t : Parameters). (t.0, t.1, level a₂ t.2)) b₂.now
      ∙ ap (λ (t : Parameters). (t.0, positive_or t.1 tickets, level a₂ t.2)) b₁.now
      ∙ ap
          (λ (a : SchedAlgorithm). (
            positive_or (k.mem p).priority priority,
            positive_or (k.mem p).tickets tickets,
            level a (k.mem p).queue_priority,
          ))
          (b₂.algorithm ∙ b₁.algorithm)

-- If the fork returns a pid above 0, which names a process that may be queued in the kernel behind the
-- fork: `spawn_process` goes on as the parent with that pid, and the process has the priority and the
-- tickets that are given, or those that it had behind the fork where they are below 1; and the level
-- that is given, or the one that it had behind the fork where it is none of the five, or the last level
-- of the active algorithm where that has fewer.
pub spawn_process-parameters :
    (calls : ProcessCalls Kernel) (path : List ℕ) (priority tickets queue_priority : ℤ) (n : ℕ)
    (k₀ k : Kernel)
    → let p = search_process k (pos (suc n)) in
      calls.call_syscall_fork k₀ ≡ (pos (suc n), k)
      → not_queueable p ≡ false
      → (k' : Kernel) × (spawn_process (kernel_calls calls) path priority tickets queue_priority k₀
          ≡ in_parent (pos (suc n)) k')
        × (parameters k' p ≡ (
          positive_or (k.mem p).priority priority,
          positive_or (k.mem p).tickets tickets,
          level_or k.active_algorithm (k.mem p).queue_priority queue_priority,
        ))
unfolding spawn_process
spawn_process-parameters calls path priority tickets queue_priority n k₀ k forked known =
    let pid = pos (suc n) in
    let p = search_process k pid in
    let forks : ltb_ℤ pid (pos 0) ≡ false = ground arith in
    let parent : (pid ==ℤ pos 0) ≡ false = ground arith in
    (
      configured calls pid p known priority tickets queue_priority k,
      rw (forked, forks, parent) refl,
      configured-parameters calls pid p known k priority tickets queue_priority refl,
    )
