-- ===== src/Sched/Pick/Ready.antt =====
-- The first step of the selections on the ready queue, against the list that it holds.
use demos_os.Base.{
  ◌<◌, ◌≡◌, ◌≢◌, refl, ◌∙◌, inl, inr, Bool-cases, false, not, ◌&&◌, Bool, List, [], ◌∷◌, ◌++◌,
  arith, has, ◌==◌, if◌then◌else◌, length, has-append,
}
use demos_os.Base.Run.{Returns}
use demos_os.Pcb.{Ptr, null, init_process, process_running, Pcb, Store}
use demos_os.Queue.{ProcessQueue, enqueue_process_to}
use demos_os.Queue.Chain.{IsQueue, Chain-frame}
use demos_os.Queue.Fifo.{enqueue_process_to-append, enqueue-away}
use demos_os.Sched.{Kernel, current, enqueue_fifo, preempt_disable}
use demos_os.Sched.Pick.{requeue_current}
use demos_os.Sched.Pick.Take.{AllReady, AllReady-frame}

-- The ready queue holds the READY processes `xs`, fewer than 64, and the current process is not among
-- them.
pub record CanSchedule (k : Kernel) (xs : List Ptr) : Type 0 where
  pub queue : IsQueue k.mem k.ready_queue xs
  pub ready_all : AllReady k.mem xs
  pub short : length xs < 64
  pub current_out : has k.current_process xs ≡ false
  pub current_ne : k.current_process ≢ null

abbrev pub goes_back : Kernel → Bool
goes_back k = not (k.current_process == init_process) && (current k).state == process_running

-- The processes that compete: those of the queue, and behind them the current one if it still runs.
abbrev pub candidates : Kernel → List Ptr → List Ptr
candidates k xs = if goes_back k then xs ++ k.current_process ∷ [] else xs

pub preempt_disable-CanSchedule :
    (k : Kernel) (xs : List Ptr) → CanSchedule k xs → CanSchedule (preempt_disable k) xs
preempt_disable-CanSchedule k xs v =
    let m' = (preempt_disable k).mem in
    record {
      queue = record {
        chain = Chain-frame k.mem m' k.ready_queue.head xs (λ a i. ground arith) v.queue.chain;
        last = v.queue.last;
      };
      ready_all = AllReady-frame k.mem m' xs (λ a i. ground arith) v.ready_all;
      short = v.short;
      current_out = v.current_out;
      current_ne = v.current_ne;
    }

-- An insertion writes only links and the state of the new process.
pub enqueue-AllReady :
    (m : Store) (q : ProcessQueue) (p : Ptr) (xs : List Ptr)
    → AllReady m xs
    → p ≢ null
    → p ≢ init_process
    → AllReady (enqueue_process_to m q p).0 (xs ++ p ∷ [])
unfolding enqueue_process_to
enqueue-AllReady m q p [] r n i = (ground arith, tt)
enqueue-AllReady m q p (x ∷ xs) (e, r) n i = (ground arith, enqueue-AllReady m q p xs r n i)

-- What the queues and the switch leave alone in a PCB.
abbrev pub Same : Pcb → Pcb → Type 0
Same c d =
    (d.pending_signals ≡ c.pending_signals)
    × (d.preempt_disabled ≡ c.preempt_disabled)
    × (d.pid ≡ c.pid)
    × (d.counter ≡ c.counter)

pub Same-refl : (c : Pcb) → Same c c
Same-refl c = (refl, refl, refl, refl)

pub Same-trans : (c d e : Pcb) → Same c d → Same d e → Same c e
Same-trans c d e (p, q, r, s) (p', q', r', s') = (p' ∙ p, q' ∙ q, r' ∙ r, s' ∙ s)

-- The same without the counter, which a tick writes.
abbrev pub Kept : Pcb → Pcb → Type 0
Kept c d =
    (d.pending_signals ≡ c.pending_signals)
    × (d.preempt_disabled ≡ c.preempt_disabled)
    × (d.pid ≡ c.pid)

-- What they leave alone in the kernel.
abbrev pub Frame : Kernel → Kernel → Type 0
Frame k k' =
    (k'.processes ≡ k.processes)
    × (k'.n_processes ≡ k.n_processes)
    × (k'.active_algorithm ≡ k.active_algorithm)

pub Frame-trans : (k₁ k₂ k₃ : Kernel) → Frame k₁ k₂ → Frame k₂ k₃ → Frame k₁ k₃
Frame-trans k₁ k₂ k₃ (p, q, r) (p', q', r') = (p' ∙ p, q' ∙ q, r' ∙ r)

pub enqueue_process_to-Same :
    (m : Store) (q : ProcessQueue) (p a : Ptr) → Same (m a) ((enqueue_process_to m q p).0 a)
unfolding enqueue_process_to
enqueue_process_to-Same m q p a = (ground arith, ground arith, ground arith, ground arith)

-- What the first step of the selection leaves.
pub record Requeued (k : Kernel) (ys : List Ptr) (k' : Kernel) : Type 0 where
  pub queue : IsQueue k'.mem k'.ready_queue ys
  pub ready_all : AllReady k'.mem ys
  pub same : (a : Ptr) → Same (k.mem a) (k'.mem a)
  pub frame : Frame k k'
  pub away : (a : Ptr) → has a ys ≡ false → a ≢ k.current_process → k'.mem a ≡ k.mem a
  pub same_current : k'.current_process ≡ k.current_process

-- The first step of the selection.
pub requeue_current-Requeued :
    (k : Kernel) (xs : List Ptr)
    → CanSchedule k xs
    → Returns (Requeued k (candidates k xs)) (requeue_current enqueue_fifo k)
unfolding enqueue_fifo
requeue_current-Requeued k xs v = elim (Bool-cases (goes_back k)) [
  | inl back ↦
      let p = k.current_process in
      let idle : p ≢ init_process = ground arith in
      rw back (record {
        queue =
            enqueue_process_to-append k.mem k.ready_queue p xs v.queue v.current_ne idle
              v.current_out;
        ready_all = enqueue-AllReady k.mem k.ready_queue p xs v.ready_all v.current_ne idle;
        same = enqueue_process_to-Same k.mem k.ready_queue p;
        frame = (refl, refl, refl);
        away = λ a o ne.
            enqueue-away k.mem k.ready_queue p a xs v.queue
              (ground (arith, has-append a xs (p ∷ []))) ne;
        same_current = refl;
      })
  | inr stays ↦ rw stays (record {
    queue = v.queue;
    ready_all = v.ready_all;
    same = λ a. Same-refl (k.mem a);
    frame = (refl, refl, refl);
    away = λ a o ne. refl;
    same_current = refl;
  })
]
