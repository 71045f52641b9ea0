-- ===== src/Queue/Fifo.antt =====
-- `enqueue_process_to` and `dequeue_process_from` against a first-in first-out list.
use demos_os.Base.{
  ◌≡◌, ◌≢◌, false, List, [], ◌∷◌, ◌++◌, arith, has, last_or, last_or-append, has-last_or, ne_of_has,
  has-append,
}
use demos_os.Pcb.{Ptr, null, init_process, Store}
use demos_os.Queue.{ProcessQueue, set_next, mark_ready, enqueue_process_to, dequeue_process_from}
use demos_os.Queue.Chain.{Chain, IsQueue, Chain-frame, Chain-ne_null}

-- Linking a terminated node behind the last one appends it.
Chain-append :
    (m : Store) (h p x : Ptr) (xs : List Ptr)
    → Chain m h (x ∷ xs)
    → has p (x ∷ xs) ≡ false
    → p ≢ null
    → (m p).next_ready ≡ null
    → Chain (set_next m (last_or x xs) p) h (x ∷ xs ++ p ∷ [])
Chain-append m h p x [] c out ne end = ground arith
Chain-append m h p x (y ∷ ys) (e, n, o, c) out ne end =
    let o' : has x (y ∷ ys ++ p ∷ []) ≡ false =
      rw (has-append x (y ∷ ys) (p ∷ [])) (ground arith) in
    let apart = ne_of_has (last_or y ys) x (y ∷ ys) (has-last_or y ys) o in
    let rest = Chain-append m (m x).next_ready p y ys c (ground arith) ne end in
    (e, n, o', ground arith)

-- A queue that holds `xs` holds `xs` and then the new process after the enqueue, provided that the
-- process is neither NULL nor the idle task and is not in the queue.
pub enqueue_process_to-append :
    (m : Store) (q : ProcessQueue) (p : Ptr) (xs : List Ptr)
    → IsQueue m q xs
    → p ≢ null
    → p ≢ init_process
    → has p xs ≡ false
    → let (m', q') = enqueue_process_to m q p in IsQueue m' q' (xs ++ p ∷ [])
unfolding enqueue_process_to
enqueue_process_to-append m q p [] v n i out = ground arith
enqueue_process_to-append m q p (x ∷ xs) v n i out =
    let ne = Chain-ne_null m q.head (last_or x xs) (x ∷ xs) v.chain (has-last_or x xs) in
    let c =
      Chain-frame m (mark_ready m p) q.head (x ∷ xs) (λ a h. ground (arith, ne_of_has a p (x ∷ xs)))
        v.chain in
    let c' = Chain-append (mark_ready m p) q.head p x xs c out n (ground arith) in
    ground (arith, last_or-append x p xs)

-- No PCB but that of the process and of the last one of the queue is written.
pub enqueue-away :
    (m : Store) (q : ProcessQueue) (p a : Ptr) (xs : List Ptr)
    → IsQueue m q xs
    → has a xs ≡ false
    → a ≢ p
    → (enqueue_process_to m q p).0 a ≡ m a
unfolding enqueue_process_to
enqueue-away m q p a [] v o ne = ground arith
enqueue-away m q p a (x ∷ xs) v o ne =
    ground (arith, ne_of_has (last_or x xs) a (x ∷ xs), has-last_or x xs)

-- From a queue that holds `x ∷ xs` the dequeue hands out `x`, leaves `xs`, and writes nothing but
-- the link of `x`, which it clears.
pub dequeue_process_from-cons :
    (m : Store) (q : ProcessQueue) (x : Ptr) (xs : List Ptr)
    → IsQueue m q (x ∷ xs)
    → let (p, m', q') = dequeue_process_from m q in
      (p ≡ x) × IsQueue m' q' xs × (m' ≡ set_next m x null)
unfolding dequeue_process_from
dequeue_process_from-cons m q x [] v = (ground arith, ground arith, ground arith)
dequeue_process_from-cons m q x (y ∷ ys) v =
    let (e, n, o, c) = v.chain in
    let c' =
      Chain-frame m (set_next m x null) (m x).next_ready (y ∷ ys)
        (λ a h. ground (arith, ne_of_has a x (y ∷ ys))) c in
    (ground arith, ground arith, ground arith)

-- An empty queue hands out NULL and stays as it is.
pub dequeue_process_from-nil :
    (m : Store) (q : ProcessQueue) → IsQueue m q [] → dequeue_process_from m q ≡ (null, m, q)
unfolding dequeue_process_from
dequeue_process_from-nil m q v = ground arith
