-- ===== src/Sched/Tick/Boost.antt =====
-- The periodic boost: the drain of one level of the multilevel queues.
use demos_os.Base.{
  ℕ, zero, suc, ◌<◌, ◌≡◌, ◌≢◌, refl, ap, sym, ◌∙◌, true, false, List, [], ◌∷◌, ◌++◌, arith, has,
  has-append, append_assoc, append-nil, length, ltb, ◌==◌, ne_of_has,
}
use demos_os.Base.Run.{Returns}
use demos_os.Pcb.{Ptr, null, init_process, max_processes, Store}
use demos_os.Queue.{ProcessQueue, set_next, enqueue_process_to, dequeue_process_from}
use demos_os.Queue.Chain.{IsQueue, Chain-frame}
use demos_os.Queue.Fifo.{
  enqueue_process_to-append, enqueue-away, dequeue_process_from-cons, dequeue_process_from-nil,
}
use demos_os.Sched.{Kernel, level, update, enqueue_to}
use demos_os.Sched.Tick.{drain_level}

-- The processes `xs` can move behind `ys`: none of them is the idle task or in `ys`, and their pids
-- are in range.
abbrev pub Movable : Store → (ys xs : List Ptr) → Type 0
Movable m ys [] = Unit
Movable m ys (x ∷ xs) =
    (has x ys ≡ false) × (x ≢ init_process) × ((m x).pid < max_processes) × Movable m ys xs

Movable-step :
    (m m' : Store) (x : Ptr) (ys xs : List Ptr)
    → has x xs ≡ false
    → ((a : Ptr) → (m' a).pid ≡ (m a).pid)
    → Movable m ys xs
    → Movable m' (ys ++ x ∷ []) xs
Movable-step m m' x ys [] o same v = tt
Movable-step m m' x ys (z ∷ xs) o same (h, ni, lt, v) =
    let e = has-append z ys (x ∷ []) in
    (ground (arith, e), ni, ground (arith, same z), Movable-step m m' x ys xs (ground arith) same v)

IsQueue-frame :
    (m m' : Store) (q : ProcessQueue) (xs : List Ptr)
    → ((a : Ptr) → has a xs ≡ true → (m' a).next_ready ≡ (m a).next_ready)
    → IsQueue m q xs
    → IsQueue m' q xs
IsQueue-frame m m' q xs same v = record {
  chain = Chain-frame m m' q.head xs same v.chain;
  last = v.last;
}

pid-enqueue_process_to :
    (m : Store) (q : ProcessQueue) (p a : Ptr) → ((enqueue_process_to m q p).0 a).pid ≡ (m a).pid
unfolding enqueue_process_to
pid-enqueue_process_to m q p a = ground arith

Movable-out :
    (m : Store) (ys xs : List Ptr) (a : Ptr) → Movable m ys xs → has a xs ≡ true → has a ys ≡ false
Movable-out m ys [] a v i = cc
Movable-out m ys (x ∷ xs) a (o, ni, lt, v) i = ground (arith, Movable-out m ys xs a v)

-- Two queues of one store.
record TwoQueues (m : Store) (q q₀ : ProcessQueue) (xs ys : List Ptr) : Type 0 where
  from : IsQueue m q xs
  to : IsQueue m q₀ ys
  movable : Movable m ys xs

-- A process that was taken out of the one queue goes behind the other one.
move_behind :
    (m : Store) (q₁ q₀ : ProcessQueue) (x : Ptr) (xs ys : List Ptr)
    → IsQueue (set_next m x null) q₁ xs
    → IsQueue m q₀ ys
    → x ≢ null
    → has x xs ≡ false
    → has x ys ≡ false
    → x ≢ init_process
    → Movable m ys xs
    → let (m₂, q₂) = enqueue_process_to (set_next m x null) q₀ x in
      TwoQueues m₂ q₁ q₂ xs (ys ++ x ∷ [])
move_behind m q₁ q₀ x xs ys v w n o out ni mv =
    let m₁ = set_next m x null in
    let m₂ = (enqueue_process_to m₁ q₀ x).0 in
    let w₁ = IsQueue-frame m m₁ q₀ ys (λ a i. ground (arith, ne_of_has a x ys)) w in
    record {
      from =
          IsQueue-frame m₁ m₂ q₁ xs
            (λ a i.
              ap (λ c. c.next_ready)
                (enqueue-away m₁ q₀ x a ys w₁ (Movable-out m ys xs a mv i) (ne_of_has a x xs i o)))
            v;
      to = enqueue_process_to-append m₁ q₀ x ys w₁ n ni out;
      movable =
          Movable-step m m₂ x ys xs o (λ a. pid-enqueue_process_to m₁ q₀ x a ∙ ground arith) mv;
    }

-- The drain of a level other than 0, which holds `xs`, with fuel for each of its processes, ends: the
-- level is empty, and level 0 holds its own processes and behind them `xs` in their order. No process
-- may stand in both queues or be the idle task, and the pids must be in range.
pub drain_level-moved :
    (fuel q : ℕ) (k : Kernel) (xs ys : List Ptr)
    → q ≢ 0
    → length xs < fuel
    → IsQueue k.mem (k.ml_queues q) xs
    → IsQueue k.mem (k.ml_queues 0) ys
    → Movable k.mem ys xs
    → Returns
        (λ k'.
          IsQueue k'.mem (k'.ml_queues q) []
          × IsQueue k'.mem (k'.ml_queues 0) (ys ++ xs)
          × (k'.current_process ≡ k.current_process)
          × (k'.n_processes ≡ k.n_processes))
        (drain_level fuel q k)
unfolding drain_level
drain_level-moved zero q k xs ys nz f v w mv = absurd (omega arith)
drain_level-moved (suc fuel) q k [] ys nz f v w mv =
    let other : (0 == q) ≡ false = ground arith in
    let here : (q == q) ≡ true = ground arith in
    rw (dequeue_process_from-nil k.mem (k.ml_queues q) v, append-nil ys, other, here)
      (v, w, refl, refl)
drain_level-moved (suc fuel) q k (x ∷ xs) ys nz f v w mv =
    let (e, n, o, _) = v.chain in
    let (out, ni, lt, mv') = mv in
    let (p, v₁, s) = dequeue_process_from-cons k.mem (k.ml_queues q) x xs v in
    let q₁ = (dequeue_process_from k.mem (k.ml_queues q)).2 in
    let two = move_behind k.mem q₁ (k.ml_queues 0) x xs ys (rw (sym s) v₁) w n o out ni mv' in
    let m₁ = set_next k.mem x null in
    let pid = (m₁ x).pid in
    let k₁ : Kernel = record k {
      mem = m₁;
      ml_queues = update k.ml_queues q q₁;
      queue_level = update k.queue_level pid 0;
    } in
    let other : (0 == q) ≡ false = ground arith in
    let other' : (q == 0) ≡ false = ground arith in
    let here : (q == q) ≡ true = ground arith in
    let found : (x == null) ≡ false = ground arith in
    let in_range : ltb pid max_processes ≡ true = ground arith in
    let assoc : ys ++ x ∷ xs ≡ (ys ++ x ∷ []) ++ xs = sym (append_assoc ys (x ∷ []) xs) in
    rw (p, s, found, in_range, assoc)
      (drain_level-moved fuel q (enqueue_to k₁ (level 0) x) xs (ys ++ x ∷ []) nz (omega arith)
        (rw (other, other', here) two.from) (rw other two.to) (rw other two.movable))
