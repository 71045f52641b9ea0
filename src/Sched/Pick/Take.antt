-- ===== src/Sched/Pick/Take.antt =====
-- `take_ready` against the list that the queue holds.
use demos_os.Base.{
  ℕ, zero, suc, ◌<◌, ◌≡◌, ◌≢◌, ap, ◌∙◌, inl, inr, Bool-cases, true, false, List, [], ◌∷◌, arith,
  has, length, ◌==◌, if◌then◌else◌, ne_of_has,
}
use mathlib.Core.Path.{subst, ap₂}
use demos_os.Base.Run.{Run, ok, ◌>>=◌}
use demos_os.Pcb.{Ptr, null, process_ready, process_stopped, Pcb, Store, modify}
use demos_os.Queue.{ProcessQueue, set_next, dequeue_process_from}
use demos_os.Queue.Chain.{IsQueue, Chain-frame}
use demos_os.Queue.Fifo.{dequeue_process_from-cons, dequeue_process_from-nil}
use demos_os.Sched.{Kernel, QueueName, ready, level, queue_at, set_queue, handle_process_signals}
use demos_os.Sched.Signals.{
  settle, handle_process_signals-settle, dequeue_from-set_queue, set_queue_same,
}
use demos_os.Sched.Pick.{take_ready}

-- Taken from the queue, and its signals handled.
abbrev pub settle_one : Store → Ptr → Store
settle_one m x = modify (set_next m x null) x settle

-- The first process of the list that is READY once its signals are handled (or NULL), the processes
-- behind it, and the PCBs.
unfoldable pub first_ready : Store → List Ptr → Ptr × List Ptr × Store
first_ready m [] = (null, [], m)
first_ready m (x ∷ xs) =
    let m' = settle_one m x in
    let rest = first_ready m' xs in if (m' x).state == process_ready then (x, xs, m') else rest

-- Every process of the list is READY.
abbrev pub AllReady : Store → List Ptr → Type 0
AllReady m [] = Unit
AllReady m (x ∷ xs) = ((m x).state ≡ process_ready) × AllReady m xs

pub AllReady-frame :
    (m m' : Store) (xs : List Ptr)
    → ((a : Ptr) → has a xs ≡ true → (m' a).state ≡ (m a).state)
    → AllReady m xs
    → AllReady m' xs
AllReady-frame m m' [] same h = tt
AllReady-frame m m' (x ∷ xs) same (e, h) =
    (same x (ground arith) ∙ e, AllReady-frame m m' xs (λ a i. same a (ground arith)) h)

pub AllReady-has :
    (m : Store) (xs : List Ptr) (a : Ptr)
    → AllReady m xs
    → has a xs ≡ true
    → (m a).state ≡ process_ready
AllReady-has m [] a r h = ground arith
AllReady-has m (x ∷ xs) a (e, r) h = ground (arith, AllReady-has m xs a r)

pub AllReady-all :
    (m : Store) (xs : List Ptr)
    → ((a : Ptr) → has a xs ≡ true → (m a).state ≡ process_ready)
    → AllReady m xs
AllReady-all m [] h = tt
AllReady-all m (x ∷ xs) h = (h x (ground arith), AllReady-all m xs (λ a i. h a (ground arith)))

next_ready-settle : (c : Pcb) → (settle c).next_ready ≡ c.next_ready
next_ready-settle c = ground arith

-- The round of the loop on what the dequeue hands out.
abbrev take_with : ℕ → QueueName → Ptr × Kernel → Run (Ptr × Kernel)
take_with fuel n (p, k₁) =
    if p == null
    then ok (null, k₁)
    else (handle_process_signals k₁ p >>= λ k₂.
        if (k₂.mem p).state == process_ready then ok (p, k₂) else take_ready fuel n k₂)

take_ready_round :
    (fuel : ℕ) (n : QueueName) (k : Kernel) (m : Store) (q : ProcessQueue)
    → let t = dequeue_process_from m q in
      take_ready (suc fuel) n (set_queue k n (m, q))
      ≡ take_with fuel n (t.0, set_queue k n (t.1, t.2))
unfolding take_ready
take_ready_round fuel n k m q = ap (take_with fuel n) (dequeue_from-set_queue k n m q)

take_body :
    (fuel : ℕ) (n : QueueName) (k : Kernel) (p : Ptr) (m : Store) (q : ProcessQueue)
    → p ≢ null
    → (m p).state ≡ process_ready
    → let m' = modify m p settle in
      let k' = set_queue k n (m', q) in
      take_with fuel n (p, set_queue k n (m, q))
      ≡ (if (m' p).state == process_ready then ok (p, k') else take_ready fuel n k')
take_body fuel ready k p m q ne e =
    let go : (p == null) ≡ false = ground arith in
    let moving : (m p).state ≢ process_stopped = ground arith in
    rw (go, handle_process_signals-settle (set_queue k ready (m, q)) p moving)
take_body fuel (level i) k p m q ne e =
    let go : (p == null) ≡ false = ground arith in
    let moving : (m p).state ≢ process_stopped = ground arith in
    rw (go, handle_process_signals-settle (set_queue k (level i) (m, q)) p moving)

-- One round of the loop, from a queue that holds `x ∷ xs`.
take_one :
    (fuel : ℕ) (n : QueueName) (k : Kernel) (m : Store) (q : ProcessQueue) (x : Ptr) (xs : List Ptr)
    → IsQueue m q (x ∷ xs)
    → AllReady m (x ∷ xs)
    → let m' = settle_one m x in
      (q' : ProcessQueue) × IsQueue m' q' xs
      × AllReady m' xs
      × (take_ready (suc fuel) n (set_queue k n (m, q)) ≡ (
          if (m' x).state == process_ready
          then ok (x, set_queue k n (m', q'))
          else take_ready fuel n (set_queue k n (m', q'))))
take_one fuel n k m q x xs v (r, rs) =
    let t = dequeue_process_from m q in
    let (e, w, em) = dequeue_process_from-cons m q x xs v in
    let m' = settle_one m x in
    let c' =
      Chain-frame t.1 m' t.2.head xs (λ a i. ground (arith, next_ready-settle (t.1 a))) w.chain in
    (
      t.2,
      record { chain = c'; last = w.last },
      AllReady-frame m m' xs (λ a i. ground (arith, ne_of_has a x xs)) rs,
      take_ready_round fuel n k m q
          ∙ ap₂ (λ p m₁. take_with fuel n (p, set_queue k n (m₁, t.2))) e em
          ∙ take_body fuel n k x (set_next m x null) t.2 v.chain.1 (ground arith),
    )

take_nil :
    (fuel : ℕ) (n : QueueName) (k : Kernel) (m : Store) (q : ProcessQueue)
    → IsQueue m q []
    → take_ready (suc fuel) n (set_queue k n (m, q)) ≡ ok (null, set_queue k n (m, q))
unfolding take_ready
take_nil fuel n k m q v =
    take_ready_round fuel n k m q
    ∙ ap (λ t. take_with fuel n (t.0, set_queue k n (t.1, t.2))) (dequeue_process_from-nil m q v)

-- The loop on a queue of READY processes that is shorter than the fuel ends, and does to the queue
-- and to the PCBs what `first_ready` does to the list.
pub take_ready-set_queue :
    (fuel : ℕ) (n : QueueName) (k : Kernel) (m : Store) (q : ProcessQueue) (xs : List Ptr)
    → IsQueue m q xs
    → AllReady m xs
    → length xs < fuel
    → let (p, rest, m') = first_ready m xs in
      (q' : ProcessQueue) × IsQueue m' q' rest
      × (take_ready fuel n (set_queue k n (m, q)) ≡ ok (p, set_queue k n (m', q')))
unfolding first_ready
take_ready-set_queue zero n k m q xs v r f = absurd (omega arith)
take_ready-set_queue (suc fuel) n k m q [] v r f = (q, v, take_nil fuel n k m q v)
take_ready-set_queue (suc fuel) n k m q (x ∷ xs) v r f =
    let (q₁, v₁, r₁, e) = take_one fuel n k m q x xs v r in
    let m₁ = settle_one m x in
    elim (Bool-cases ((m₁ x).state == process_ready)) [
      | inl good ↦ rw (good, first_ready) (q₁, v₁, e ∙ rw good)
      | inr bad ↦
          let (q₂, v₂, e₂) = take_ready-set_queue fuel n k m₁ q₁ xs v₁ r₁ (omega arith) in
          rw (bad, first_ready) (q₂, v₂, e ∙ rw bad e₂)
    ]

pub take_ready-first_ready :
    (fuel : ℕ) (n : QueueName) (k : Kernel) (xs : List Ptr)
    → IsQueue k.mem (queue_at k n) xs
    → AllReady k.mem xs
    → length xs < fuel
    → let (p, rest, m') = first_ready k.mem xs in
      (q' : ProcessQueue) × IsQueue m' q' rest
      × (take_ready fuel n k ≡ ok (p, set_queue k n (m', q')))
take_ready-first_ready fuel n k xs v r f =
    subst
      (λ k₀.
        let (p, rest, m') = first_ready k.mem xs in
        (q' : ProcessQueue) × IsQueue m' q' rest
        × (take_ready fuel n k₀ ≡ ok (p, set_queue k n (m', q'))))
      (set_queue_same k n) (take_ready-set_queue fuel n k k.mem (queue_at k n) xs v r f)
