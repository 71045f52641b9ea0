-- ===== src/Sched/Tick/Exit.antt =====
-- The exit of a process and those that wait for it.
use demos_os.Base.{
  ℕ, zero, suc, ◌+◌, ◌<◌, ◌≤◌, ◌≡◌, ◌≢◌, refl, ◌∙◌, false, Bool-cases, not, ◌&&◌, inl, inr, arith,
  ◌==◌, if◌then◌else◌,
}
use mathlib.Core.Path.{subst}
use demos_os.Base.Run.{ok, Returns, Returns-bind, Returns-mono}
use demos_os.Pcb.{Ptr, null, Store}
use demos_os.Queue.{ProcessQueue, enqueue_process_to, not_queueable}
use demos_os.Sched.{round_robin, Kernel, modify_pcb, enqueue_process, enqueue_fifo}
use demos_os.Sched.Register.{enqueue_process-fifo}
use demos_os.Sched.Tick.{waits_for, stop_waiting, wake_waiters}

-- An insertion into a queue makes nobody wait.
waits_for-enqueue_process_to :
    (pid : ℕ) (m : Store) (q : ProcessQueue) (p a : Ptr)
    → waits_for pid (m a) ≡ false
    → waits_for pid ((enqueue_process_to m q p).0 a) ≡ false
unfolding enqueue_process_to
waits_for-enqueue_process_to pid m q p a h = ground arith

-- What one round of the loop keeps and reaches.
record Woken (pid : ℕ) (k : Kernel) (p : Ptr) (k' : Kernel) : Type 0 where
  algorithm : k'.active_algorithm ≡ k.active_algorithm
  table : k'.processes ≡ k.processes
  quiet : (a : Ptr) → waits_for pid (k.mem a) ≡ false → waits_for pid (k'.mem a) ≡ false
  done : p ≢ null → waits_for pid (k'.mem p) ≡ false

stop_waiting-Woken :
    (pid : ℕ) (k : Kernel) (p : Ptr)
    → k.active_algorithm ≡ round_robin
    → Returns (Woken pid k p) (enqueue_process (modify_pcb k p stop_waiting) p)
unfolding enqueue_fifo
stop_waiting-Woken pid k p rr =
    let k₁ = modify_pcb k p stop_waiting in
    let self : waits_for pid (k₁.mem p) ≡ false = ground arith in
    let others : (a : Ptr) → waits_for pid (k.mem a) ≡ false → waits_for pid (k₁.mem a) ≡ false =
      λ a h. ground arith in
    elim (Bool-cases (not_queueable p)) [
      | inl out ↦
          rw (enqueue_process-fifo k₁ p rr, out)
            (record { algorithm = refl; table = refl; quiet = others; done = λ _. self })
      | inr goes ↦
          rw (enqueue_process-fifo k₁ p rr, goes)
            (record {
              algorithm = refl;
              table = refl;
              quiet =
                  λ a h. waits_for-enqueue_process_to pid k₁.mem k₁.ready_queue p a (others a h);
              done = λ _. waits_for-enqueue_process_to pid k₁.mem k₁.ready_queue p p self;
            })
    ]

-- One round.
round-Woken :
    (pid : ℕ) (k : Kernel) (p : Ptr)
    → k.active_algorithm ≡ round_robin
    → Returns (Woken pid k p) (
        if not (p == null) && waits_for pid (k.mem p)
        then enqueue_process (modify_pcb k p stop_waiting) p
        else ok k)
round-Woken pid k p rr = elim (Bool-cases (not (p == null) && waits_for pid (k.mem p))) [
  | inl waits ↦ rw waits (stop_waiting-Woken pid k p rr)
  | inr not_waits ↦
      rw not_waits
        (record { algorithm = refl; table = refl; quiet = λ a h. h; done = λ ne. ground arith })
]

-- The outcome of the rounds `i` on.
record AllWoken (rounds i pid : ℕ) (k k' : Kernel) : Type 0 where
  table : k'.processes ≡ k.processes
  quiet : (a : Ptr) → waits_for pid (k.mem a) ≡ false → waits_for pid (k'.mem a) ≡ false
  done :
      (j : ℕ)
      → i ≤ j
      → j < i + rounds
      → k.processes j ≢ null
      → waits_for pid (k'.mem (k.processes j)) ≡ false

wake_waiters-AllWoken :
    (rounds i pid : ℕ) (k : Kernel)
    → k.active_algorithm ≡ round_robin
    → Returns (AllWoken rounds i pid k) (wake_waiters rounds i pid k)
unfolding wake_waiters
wake_waiters-AllWoken zero i pid k rr = record {
  table = refl;
  quiet = λ a h. h;
  done = λ j lo hi ne. absurd (omega arith);
}
wake_waiters-AllWoken (suc rounds) i pid k rr =
    let p = k.processes i in
    Returns-bind (Woken pid k p) (AllWoken (suc rounds) i pid k)
      (if not (p == null) && waits_for pid (k.mem p)
        then enqueue_process (modify_pcb k p stop_waiting) p
        else ok k)
      (λ k'. wake_waiters rounds (i + 1) pid k') (round-Woken pid k p rr)
      (λ k₁ w.
        Returns-mono (AllWoken rounds (i + 1) pid k₁) (AllWoken (suc rounds) i pid k)
          (wake_waiters rounds (i + 1) pid k₁)
          (wake_waiters-AllWoken rounds (i + 1) pid k₁ (w.algorithm ∙ rr))
          (λ k' v. record {
            table = v.table ∙ w.table;
            quiet = λ a h. v.quiet a (w.quiet a h);
            done = λ j lo hi. elim (Bool-cases (i == j)) [
              | inl here ↦
                  let same : i ≡ j = ground arith in
                  subst (λ z. k.processes z ≢ null → waits_for pid (k'.mem (k.processes z)) ≡ false)
                    same (λ ne. v.quiet (k.processes i) (w.done ne))
              | inr later ↦
                  subst (λ t. t j ≢ null → waits_for pid (k'.mem (t j)) ≡ false) w.table
                    (v.done j (ground arith) (ground arith))
            ];
          }))

-- Under round robin the loop of the exit over the first `n` slots ends, and behind it no process of
-- these slots waits for the end of `pid`; no other process has begun to wait for it.
pub wake_waiters-done :
    (n pid : ℕ) (k : Kernel)
    → k.active_algorithm ≡ round_robin
    → Returns
        (λ k'.
          ((j : ℕ) → j < n → k.processes j ≢ null → waits_for pid (k'.mem (k.processes j)) ≡ false)
          × ((a : Ptr) → waits_for pid (k.mem a) ≡ false → waits_for pid (k'.mem a) ≡ false))
        (wake_waiters n 0 pid k)
wake_waiters-done n pid k rr =
    Returns-mono (AllWoken n 0 pid k) _ (wake_waiters n 0 pid k)
      (wake_waiters-AllWoken n 0 pid k rr)
      (λ k' v. (λ j hi. v.done j (omega arith) (omega arith), v.quiet))
