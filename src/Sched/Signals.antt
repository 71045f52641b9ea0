-- ===== src/Sched/Signals.antt =====
-- What `handle_process_signals` does to a process that is not stopped, and the laws of the queue
-- names.
use demos_os.Base.{
  ◌≡◌, ◌≢◌, refl, fun_ext, ap, sym, ◌∙◌, inl, inr, Bool-cases, false, arith, ◌==◌, if◌then◌else◌,
}
use demos_os.Base.Run.{ok}
use demos_os.Base.Bits.{test_bit}
use demos_os.Pcb.{
  Ptr, process_stopped, process_zombie, signal_kill, signal_stop, signal_resume, Pcb, Store, modify,
}
use demos_os.Queue.{ProcessQueue, dequeue_process_from}
use demos_os.Sched.{
  Kernel, QueueName, ready, level, queue_at, set_queue, modify_pcb, set_state, clear_signal,
  handle_process_signals, dequeue_from,
}

-- The signals of a process that is not stopped: a kill ends it, a stop suspends it, a resume is
-- only cleared.
abbrev pub settle : Pcb → Pcb
settle c =
    if c.pending_signals == 0
    then c
    else if test_bit c.pending_signals signal_kill
    then set_state process_zombie (clear_signal signal_kill c)
    else if test_bit c.pending_signals signal_stop
    then set_state process_stopped (clear_signal signal_stop c)
    else if test_bit c.pending_signals signal_resume
    then clear_signal signal_resume c
    else c

pub modify-same : (m : Store) (p : Ptr) (f : Pcb → Pcb) → f (m p) ≡ m p → modify m p f ≡ m
modify-same m p f e = fun_ext λ a. ground arith

pub modify_ext :
    (m : Store) (p : Ptr) (f g : Pcb → Pcb) → f (m p) ≡ g (m p) → modify m p f ≡ modify m p g
modify_ext m p f g e = fun_ext λ a. ground arith

settled_by :
    (k : Kernel) (p : Ptr) (f : Pcb → Pcb)
    → f (k.mem p) ≡ settle (k.mem p)
    → ok (modify_pcb k p f) ≡ ok (modify_pcb k p settle)
settled_by k p f e = ap (λ m. ok (record k { mem = m })) (modify_ext k.mem p f settle e)

-- A process that is not stopped is settled, and nothing else changes.
pub handle_process_signals-settle :
    (k : Kernel) (p : Ptr)
    → (k.mem p).state ≢ process_stopped
    → handle_process_signals k p ≡ ok (modify_pcb k p settle)
unfolding handle_process_signals
handle_process_signals-settle k p h =
    let pending = (k.mem p).pending_signals in
    let moving : ((k.mem p).state == process_stopped) ≡ false = ground arith in
    let none_pending : ok k ≡ ok (modify_pcb k p (λ c. c)) =
      ap (λ m. ok (record k { mem = m })) (sym (modify-same k.mem p (λ c. c) refl)) in
    elim (Bool-cases (pending == 0)) [
      | inl e₀ ↦ rw e₀ (none_pending ∙ settled_by k p (λ c. c) (rw e₀))
      | inr e₀ ↦ elim (Bool-cases (test_bit pending signal_kill)) [
        | inl e₁ ↦
            rw (e₀, e₁)
              (settled_by k p (λ c. set_state process_zombie (clear_signal signal_kill c))
                (rw (e₀, e₁)))
        | inr e₁ ↦ elim (Bool-cases (test_bit pending signal_stop)) [
          | inl e₂ ↦
              rw (e₀, e₁, e₂)
                (settled_by k p (λ c. set_state process_stopped (clear_signal signal_stop c))
                  (rw (e₀, e₁, e₂)))
          | inr e₂ ↦ elim (Bool-cases (test_bit pending signal_resume)) [
            | inl e₃ ↦
                rw (e₀, e₁, e₂, e₃, moving)
                  (settled_by k p (clear_signal signal_resume) (rw (e₀, e₁, e₂, e₃)))
            | inr e₃ ↦
                rw (e₀, e₁, e₂, e₃) (none_pending ∙ settled_by k p (λ c. c) (rw (e₀, e₁, e₂, e₃)))
          ]
        ]
      ]
    ]

module _ (k : Kernel) where
  pub queue_at-set_queue :
      (n : QueueName) (m : Store) (q : ProcessQueue) → queue_at (set_queue k n (m, q)) n ≡ q
  queue_at-set_queue ready m q = refl
  queue_at-set_queue (level i) m q = ground arith

  pub mem-set_queue :
      (n : QueueName) (m : Store) (q : ProcessQueue) → (set_queue k n (m, q)).mem ≡ m
  mem-set_queue ready m q = refl
  mem-set_queue (level i) m q = refl

  pub set_queue-set_queue :
      (n : QueueName) (m m' : Store) (q q' : ProcessQueue)
      → set_queue (set_queue k n (m, q)) n (m', q') ≡ set_queue k n (m', q')
  set_queue-set_queue ready m m' q q' = refl
  set_queue-set_queue (level i) m m' q q' =
      ap (λ f. record k { mem = m'; ml_queues = f }) (fun_ext λ j. ground arith)

  pub modify_pcb-set_queue :
      (n : QueueName) (m : Store) (q : ProcessQueue) (p : Ptr) (f : Pcb → Pcb)
      → modify_pcb (set_queue k n (m, q)) p f ≡ set_queue k n (modify m p f, q)
  modify_pcb-set_queue ready m q p f = refl
  modify_pcb-set_queue (level i) m q p f = refl

  -- A dequeue from a queue that was just written.
  pub dequeue_from-set_queue :
      (n : QueueName) (m : Store) (q : ProcessQueue)
      → let t = dequeue_process_from m q in
        dequeue_from (set_queue k n (m, q)) n ≡ (t.0, set_queue k n (t.1, t.2))
  dequeue_from-set_queue ready m q = refl
  dequeue_from-set_queue (level i) m q =
      let t = dequeue_process_from m q in
      let k₀ = set_queue k (level i) (m, q) in
      ap (λ q₀. let t₀ = dequeue_process_from m q₀ in (t₀.0, set_queue k₀ (level i) (t₀.1, t₀.2)))
        (queue_at-set_queue (level i) m q)
      ∙ ap (λ k'. (t.0, k')) (set_queue-set_queue (level i) m t.1 q t.2)

  pub set_queue_same : (n : QueueName) → set_queue k n (k.mem, queue_at k n) ≡ k
  set_queue_same ready = refl
  set_queue_same (level i) = ap (λ f. record k { ml_queues = f }) (fun_ext λ j. ground arith)
