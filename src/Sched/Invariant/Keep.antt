-- ===== src/Sched/Invariant/Keep.antt =====
-- What is written on one process, and the hold on the preemption, against the invariant.
use mathlib.Core.Path.{subst}
use demos_os.Base.{Bool, ℕ, ◌≡◌, sym, ◌∙◌, inl, inr, Bool-cases, true, List, arith, has, ◌==◌}
use demos_os.Pcb.{Ptr, Pcb}
use demos_os.Queue.Chain.{Chain-frame}
use demos_os.Sched.{Kernel, modify_pcb, preempt_enable, preempt_disable}
use demos_os.Sched.Pick.Take.{AllReady-frame}
use demos_os.Sched.Pick.Ready.{preempt_disable-CanSchedule}
use demos_os.Sched.Tick.{set_irq}
use demos_os.Sched.Invariant.{Inv}

state-modify_pcb :
    (k : Kernel) (p a : Ptr) (f : Pcb → Pcb)
    → (a ≡ p → (f (k.mem p)).state ≡ (k.mem p).state)
    → ((modify_pcb k p f).mem a).state ≡ (k.mem a).state
state-modify_pcb k p a f keeps = elim (Bool-cases (a == p)) [
  | inl here ↦
      let e : a ≡ p = ground arith in
      let w = keeps e in
      subst (λ z. ((modify_pcb k p f).mem z).state ≡ (k.mem z).state) (sym e) (ground arith)
  | inr other ↦ ground arith
]

-- What is written on a process that does not stand in the queue leaves the invariant, if it writes
-- neither the link nor the hold on the preemption; on one in the queue also if it keeps the state.
pub modify-Inv :
    (hold : ℕ) (k : Kernel) (xs : List Ptr) (p : Ptr) (f : Pcb → Pcb)
    → ((c : Pcb)
        → ((f c).next_ready ≡ c.next_ready) × ((f c).preempt_disabled ≡ c.preempt_disabled))
    → (has p xs ≡ true → (f (k.mem p)).state ≡ (k.mem p).state)
    → Inv hold k xs
    → Inv hold (modify_pcb k p f) xs
modify-Inv hold k xs p f same keeps v =
    let m' = (modify_pcb k p f).mem in
    let held : (a : Ptr) → (m' a).preempt_disabled ≡ (k.mem a).preempt_disabled =
      λ a. let e = (same (k.mem a)).1 in ground arith in
    record {
      can = record {
        queue = record {
          chain =
              Chain-frame k.mem m' k.ready_queue.head xs
                (λ a i. let e = (same (k.mem a)).0 in ground arith) v.can.queue.chain;
          last = v.can.queue.last;
        };
        ready_all =
            AllReady-frame k.mem m' xs
              (λ a i. state-modify_pcb k p a f (λ e. keeps (subst (λ z. has z xs ≡ true) e i)))
              v.can.ready_all;
        short = v.can.short;
        current_out = v.can.current_out;
        current_ne = v.can.current_ne;
      };
      algorithm = v.algorithm;
      member = v.member;
      current_member = v.current_member;
      idle_member = v.idle_member;
      free = v.free;
      filled = v.filled;
      suspended = λ a i ne. held a ∙ v.suspended a i ne;
      running = held k.current_process ∙ v.running;
    }

-- A process that takes or gives back the preemption.
pub preempt_disable-Inv : (k : Kernel) (xs : List Ptr) → Inv 0 k xs → Inv 1 (preempt_disable k) xs
preempt_disable-Inv k xs v = record {
  can = preempt_disable-CanSchedule k xs v.can;
  algorithm = v.algorithm;
  member = v.member;
  current_member = v.current_member;
  idle_member = v.idle_member;
  free = v.free;
  filled = v.filled;
  suspended = λ a i ne. let e = v.suspended a i ne in ground arith;
  running = let e = v.running in ground arith;
}

pub preempt_enable-Inv : (k : Kernel) (xs : List Ptr) → Inv 1 k xs → Inv 0 (preempt_enable k) xs
preempt_enable-Inv k xs v =
    let m' = (preempt_enable k).mem in
    record {
      can = record {
        queue = record {
          chain =
              Chain-frame k.mem m' k.ready_queue.head xs (λ a i. ground arith) v.can.queue.chain;
          last = v.can.queue.last;
        };
        ready_all = AllReady-frame k.mem m' xs (λ a i. ground arith) v.can.ready_all;
        short = v.can.short;
        current_out = v.can.current_out;
        current_ne = v.can.current_ne;
      };
      algorithm = v.algorithm;
      member = v.member;
      current_member = v.current_member;
      idle_member = v.idle_member;
      free = v.free;
      filled = v.filled;
      suspended = λ a i ne. let e = v.suspended a i ne in ground arith;
      running = let e = v.running in ground arith;
    }

-- The interrupts are switched on or off.
pub set_irq-Inv :
    (enabled : Bool) (k : Kernel) (xs : List Ptr) → Inv 0 k xs → Inv 0 (set_irq enabled k) xs
set_irq-Inv enabled k xs v = record {
  can = record {
    queue = v.can.queue;
    ready_all = v.can.ready_all;
    short = v.can.short;
    current_out = v.can.current_out;
    current_ne = v.can.current_ne;
  };
  algorithm = v.algorithm;
  member = v.member;
  current_member = v.current_member;
  idle_member = v.idle_member;
  suspended = v.suspended;
  running = v.running;
  free = v.free;
  filled = v.filled;
}
