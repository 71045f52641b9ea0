-- ===== src/Sched/Invariant.antt =====
-- The invariant of the scheduler under round robin: what every call of it finds and leaves.
pub mod Keep
pub mod Wake
pub mod Turn
pub mod Create
pub mod Param
pub mod Boot
use demos_os.Base.{
  ℕ, ◌+◌, ◌<◌, ◌≤◌, ◌≡◌, ◌≢◌, refl, ap, sym, ◌∙◌, inl, inr, Bool-cases, true, false, not, ◌&&◌,
  Bool, Option, List, [], ◌∷◌, ◌++◌, arith, has, has-append, ◌==◌, if◌then◌else◌, length,
  length-append, ne_of_has,
}
use mathlib.Core.Path.{subst}
use demos_os.Base.Int.{ℤ, pos, ◌+ℤ◌, ◌-ℤ◌}
use demos_os.Base.Pigeonhole.{Distinct, length-le_table}
use demos_os.Pcb.{Ptr, null, init_process, max_processes, Pcb, Store}
use demos_os.Sched.{round_robin, Kernel, current, preempt_disable}
use demos_os.Sched.Pick.{or_init}
use demos_os.Sched.Pick.First.{
  first_eligible, after_eligible, has-first_eligible, has-after_eligible, Chain-Distinct,
}
use demos_os.Sched.Pick.Ready.{CanSchedule, goes_back, candidates}
use demos_os.Sched.Pick.RoundRobin.{Scheduled}

-- The process stands in the table.
abbrev pub InTable : (ℕ → Ptr) → Ptr → Type 0
InTable processes a = (i : ℕ) × (i < max_processes) × (processes i ≡ a) × (a ≢ null)

-- The ready queue holds the READY processes `xs`; these, the current process and the idle task stand
-- in the table; every process but the current one holds the preemption once, from the moment in which
-- it gave up the CPU or was born, and the current one holds it `hold` times; the counted
-- slots of the table are filled and those behind them are empty.
pub record Inv (hold : ℕ) (k : Kernel) (xs : List Ptr) : Type 0 where
  pub can : CanSchedule k xs
  pub algorithm : k.active_algorithm ≡ round_robin
  pub member : (a : Ptr) → has a xs ≡ true → InTable k.processes a × (a ≢ init_process)
  pub current_member : InTable k.processes k.current_process
  pub idle_member : InTable k.processes init_process
  pub suspended :
      (a : Ptr) → InTable k.processes a → a ≢ k.current_process → (k.mem a).preempt_disabled ≡ pos 1
  pub running : (current k).preempt_disabled ≡ pos hold
  pub free : (i : ℕ) → k.n_processes ≤ i → k.processes i ≡ null
  pub filled : (i : ℕ) → i < k.n_processes → (i < max_processes) × (k.processes i ≢ null)

candidates-member :
    (k : Kernel) (xs : List Ptr)
    → Inv 0 k xs
    → (a : Ptr) → has a (candidates k xs) ≡ true
    → InTable k.processes a × (a ≢ init_process)
candidates-member k xs v a h = elim (Bool-cases (goes_back k)) [
  | inl back ↦
      let h' : has a (xs ++ k.current_process ∷ []) ≡ true = rw back at h in
      elim (Bool-cases (has a xs)) [
        | inl i ↦ v.member a i
        | inr o ↦
            let same : k.current_process ≡ a =
              ground (arith, has-append a xs (k.current_process ∷ [])) in
            let user : k.current_process ≢ init_process = ground arith in
            subst (λ z. InTable k.processes z × (z ≢ init_process)) same (v.current_member, user)
      ]
  | inr stays ↦ v.member a (rw stays at h)
]

-- The hold on the preemption of a process of the table when a selection begins.
hold-preempt_disable :
    (k : Kernel) (xs : List Ptr)
    → Inv 0 k xs
    → (a : Ptr) → InTable k.processes a
    → ((preempt_disable k).mem a).preempt_disabled ≡ pos 1
hold-preempt_disable k xs v a i = elim (Bool-cases (a == k.current_process)) [
  | inl here ↦
      let same : k.current_process ≡ a = ground arith in
      subst (λ z. ((preempt_disable k).mem z).preempt_disabled ≡ pos 1) same
        (let e = v.running in ground arith)
  | inr other ↦ let e = v.suspended a i (ground arith) in ground arith
]

or_init-member :
    (k : Kernel) (xs : List Ptr)
    → Inv 0 k xs
    → InTable k.processes (or_init (first_eligible k.mem (candidates k xs)))
or_init-member k xs v =
    let ys = candidates k xs in
    elim (Bool-cases (first_eligible k.mem ys == null)) [
      | inl none_found ↦ rw none_found v.idle_member
      | inr found ↦
          let i = has-first_eligible k.mem ys (ground arith) in
          rw found (candidates-member k xs v (first_eligible k.mem ys) i).0
    ]

-- A selection among the candidates keeps the invariant.
pub Scheduled-Inv :
    (slice : Option ℕ) (k : Kernel) (xs : List Ptr) (k' : Kernel)
    → Inv 0 k xs
    → Scheduled slice k (candidates k xs) k'
    → Inv 0 k' (after_eligible k.mem (candidates k xs))
Scheduled-Inv slice k xs k' v s =
    let ys = candidates k xs in
    let (table, count, alg) = s.frame in
    let chosen : InTable k.processes k'.current_process = rw s.current_is (or_init-member k xs v) in
    record {
      can = s.next;
      algorithm = alg ∙ v.algorithm;
      member = λ a i. rw table (candidates-member k xs v a (has-after_eligible k.mem ys a i));
      current_member = rw table chosen;
      idle_member = rw table v.idle_member;
      suspended = λ a i ne. s.held a ne ∙ hold-preempt_disable k xs v a (rw table at i);
      running =
          s.hold ∙ ap (λ z. z -ℤ pos 1) (hold-preempt_disable k xs v k'.current_process chosen);
      free = λ i h. ap (λ t. t i) table ∙ v.free i (subst (λ z. z ≤ i) count h);
      filled = λ i h. let (few, ne) = v.filled i (subst (λ z. i < z) count h) in (few, rw table ne);
    }

slot :
    (processes : ℕ → Ptr) (a : Ptr)
    → InTable processes a
    → (i : ℕ) × (i < max_processes) × (processes i ≡ a)
slot processes a (i, few, e, ne) = (i, few, e)

-- There is room in the queue for one more process of the table.
pub Inv-room :
    (hold : ℕ) (k : Kernel) (xs : List Ptr) (p : Ptr)
    → InTable k.processes p
    → p ≢ init_process
    → has p xs ≡ false
    → Inv hold k xs
    → length (xs ++ p ∷ []) < 64
Inv-room hold k xs p there ne out v =
    let d = Chain-Distinct k.mem k.ready_queue.head xs v.can.queue.chain in
    let idle_out : has init_process xs ≡ false = elim (Bool-cases (has init_process xs)) [
      | inl i ↦ absurd ((v.member init_process i).1 refl)
      | inr o ↦ o
    ] in
    let few =
      length-le_table max_processes k.processes (init_process ∷ p ∷ xs) (ground arith, (out, d))
        (λ a h. slot k.processes a (elim (Bool-cases (init_process == a)) [
          | inl e ↦
              let same : init_process ≡ a = ground arith in
              subst (InTable k.processes) same v.idle_member
          | inr e ↦ elim (Bool-cases (p == a)) [
            | inl f ↦ let same : p ≡ a = ground arith in subst (InTable k.processes) same there
            | inr f ↦ (v.member a (ground arith)).0
          ]
        ])) in
    omega (arith, few, length-append xs (p ∷ []))
