-- ===== src/Queue/Sorted.antt =====
-- `enqueue_sorted_to` against insertion into a list that is sorted by the estimated burst.
use demos_os.Base.{
  ℕ, ◌≡◌, refl, ◌≢◌, false, List, [], ◌∷◌, ◌++◌, arith, has, last_or, last_or-append, has-append,
  ◌==◌, ltb, if◌then◌else◌, has-last_or, last_or-append_list, ne_of_has, ◌<◌, zero, suc, length, ap,
  sym, fun_ext, ◌≤◌, inl, inr, Bool-cases,
}
use mathlib.Core.Path.{subst}
use demos_os.Base.Run.{ok, ◌>>=◌, Returns, Returns-mono}
use demos_os.Pcb.{Ptr, null, Store, init_process}
use demos_os.Queue.{
  ProcessQueue, set_next, insertion_point, insert_after, queue_fuel, mark_ready, not_queueable,
  enqueue_sorted_to,
}
use demos_os.Queue.Chain.{Chain, IsQueue, Chain-frame, Chain-next}

-- Where a process goes: before the first one with a longer estimate.
unfoldable pub insert : (Ptr → ℕ) → Ptr → List Ptr → List Ptr
insert est p [] = p ∷ []
insert est p (x ∷ xs) = if ltb (est p) (est x) then p ∷ x ∷ xs else x ∷ insert est p xs

abbrev pub est_burst_of : Store → Ptr → ℕ
est_burst_of m a = (m a).est_burst

-- The walk stops at the last process that the new one goes behind.
insertion_point-insert :
    (fuel : ℕ) (m : Store) (p h x : Ptr) (ys : List Ptr)
    → Chain m h (x ∷ ys)
    → length ys < fuel
    → (pre post : List Ptr) × (ys ≡ pre ++ post)
      × (insert (est_burst_of m) p ys ≡ pre ++ p ∷ post)
      × (insertion_point fuel m p x ≡ ok (last_or x pre))
unfolding insertion_point insert
insertion_point-insert zero m p h x ys c f = absurd (omega arith)
insertion_point-insert (suc fuel) m p h x [] c f = ([], [], refl, refl, ground arith)
insertion_point-insert (suc fuel) m p h x (y ∷ ys) (e, n, o, (e', n', o', c)) f =
    elim (Bool-cases (ltb (m p).est_burst (m y).est_burst)) [
      | inl lt ↦ ([], y ∷ ys, refl, rw lt refl, ground arith)
      | inr ge ↦
          let (pre, post, s, i, w) =
            insertion_point-insert fuel m p (m x).next_ready y ys (e', n', o', c) (omega arith) in
          (y ∷ pre, post, ap (λ t. y ∷ t) s, rw ge (ap (λ t. y ∷ t) i), ground arith)
    ]

-- Linking a process behind the processes `x ∷ pre`.
Chain-insert :
    (m : Store) (h p x : Ptr) (pre post : List Ptr)
    → Chain m h (x ∷ pre ++ post)
    → has p (x ∷ pre ++ post) ≡ false
    → p ≢ null
    → let current = last_or x pre in
      Chain (set_next (set_next m p (m current).next_ready) current p) h (x ∷ pre ++ p ∷ post)
Chain-insert m h p x [] post (e, n, o, c) out ne =
    let c' =
      Chain-frame m (set_next (set_next m p (m x).next_ready) x p) (m x).next_ready post
        (λ a i. ground (arith, ne_of_has a p post, ne_of_has a x post)) c in
    ground arith
Chain-insert m h p x (y ∷ pre) post (e, n, o, c) out ne =
    let rest = Chain-insert m (m x).next_ready p y pre post c (ground arith) ne in
    let o₁ : has x (y ∷ pre ++ p ∷ post) ≡ false =
      ground (arith, has-append x (y ∷ pre) (p ∷ post), has-append x (y ∷ pre) post) in
    let apart : x ≢ last_or y pre = ground (
      arith,
      has-last_or y pre,
      has-append x (y ∷ pre) post,
      ne_of_has (last_or y pre) x (y ∷ pre),
    ) in
    (e, n, o₁, ground arith)

-- An insertion changes no estimate.
est_burst-set_next : (m : Store) (a r : Ptr) → est_burst_of (set_next m a r) ≡ est_burst_of m
est_burst-set_next m a r = fun_ext λ b. ground arith

insert_after-append :
    (m : Store) (q : ProcessQueue) (p x : Ptr) (pre post : List Ptr)
    → IsQueue m q (x ∷ pre ++ post)
    → has p (x ∷ pre ++ post) ≡ false
    → p ≢ null
    → let (m', q') = insert_after m q p (last_or x pre) in IsQueue m' q' (x ∷ pre ++ p ∷ post)
unfolding insert_after
insert_after-append m q p x pre [] v out n = ground (
  arith,
  Chain-insert m q.head p x pre [] v.chain out n,
  Chain-next m q.head x pre [] v.chain,
  last_or-append x p pre,
)
insert_after-append m q p x pre (y ∷ post) v out n = ground (
  arith,
  Chain-insert m q.head p x pre (y ∷ post) v.chain out n,
  Chain-next m q.head x pre (y ∷ post) v.chain,
  last_or-append_list x pre (y ∷ post),
  last_or-append_list x pre (p ∷ y ∷ post),
)

mark_ready-IsQueue :
    (m : Store) (q : ProcessQueue) (p : Ptr) (xs : List Ptr)
    → IsQueue m q xs
    → has p xs ≡ false
    → IsQueue (mark_ready m p) q xs
mark_ready-IsQueue m q p xs v out = record {
  chain =
      Chain-frame m (mark_ready m p) q.head xs (λ a h. ground (arith, ne_of_has a p xs)) v.chain;
  last = v.last;
}

-- The walk and the link behind the point that it finds.
insert_behind :
    (m : Store) (q : ProcessQueue) (p x : Ptr) (xs : List Ptr) (fuel : ℕ)
    → IsQueue m q (x ∷ xs)
    → has p (x ∷ xs) ≡ false
    → p ≢ null
    → length xs < fuel
    → Returns
        (λ (m', q'). IsQueue m' q' (x ∷ insert (est_burst_of m) p xs))
        (insertion_point fuel m p x >>= λ current. ok (insert_after m q p current))
insert_behind m q p x xs fuel v out n f =
    let (pre, post, s, i, w) = insertion_point-insert fuel m p q.head x xs v.chain f in
    rw (w, i)
      (insert_after-append m q p x pre post (subst (λ t. IsQueue m q (x ∷ t)) s v) (rw (← s) out) n)

-- What `enqueue_sorted_to` does with a queue that is not empty, once the process is marked.
sorted_ready :
    (m : Store) (q : ProcessQueue) (p x : Ptr) (xs : List Ptr) (fuel : ℕ)
    → IsQueue m q (x ∷ xs)
    → has p (x ∷ xs) ≡ false
    → p ≢ null
    → length xs < fuel
    → Returns
        (λ (m', q'). IsQueue m' q' (insert (est_burst_of m) p (x ∷ xs)))
        (if ltb (m p).est_burst (m q.head).est_burst
          then ok (set_next m p q.head, record q { head = p })
          else (insertion_point fuel m p q.head >>= λ current. ok (insert_after m q p current)))
unfolding insert
sorted_ready m q p x xs fuel v out n f =
    let e : x ≡ q.head = sym v.chain.0 in
    elim (Bool-cases (ltb (m p).est_burst (m q.head).est_burst)) [
      | inl lt ↦
          let c =
            Chain-frame m (set_next m p q.head) q.head (x ∷ xs)
              (λ a i. ground (arith, ne_of_has a p (x ∷ xs))) v.chain in
          let spec : insert (est_burst_of m) p (x ∷ xs) ≡ p ∷ x ∷ xs = ground arith in
          rw (lt, spec) (ground arith)
      | inr ge ↦
          let spec : insert (est_burst_of m) p (x ∷ xs) ≡ x ∷ insert (est_burst_of m) p xs =
            ground arith in
          let behind = insert_behind m q p x xs fuel v out n f in
          rw (ge, spec)
            (subst
              (λ t.
                Returns (λ (m', q'). IsQueue m' q' (x ∷ insert (est_burst_of m) p xs))
                  (insertion_point fuel m p t >>= λ current. ok (insert_after m q p current)))
              e behind)
    ]

-- On a queue no longer than the fuel the walk ends, and the process stands before the first one
-- with a longer estimate.
pub enqueue_sorted_to-insert :
    (m : Store) (q : ProcessQueue) (p : Ptr) (xs : List Ptr)
    → IsQueue m q xs
    → p ≢ null
    → p ≢ init_process
    → has p xs ≡ false
    → length xs ≤ queue_fuel
    → Returns (λ (m', q'). IsQueue m' q' (insert (est_burst_of m) p xs)) (enqueue_sorted_to m q p)
unfolding enqueue_sorted_to
enqueue_sorted_to-insert m q p [] v n i out f = unfold insert in (ground arith)
enqueue_sorted_to-insert m q p (x ∷ xs) v n i out f =
    let m' = mark_ready m p in
    let v' = mark_ready-IsQueue m q p (x ∷ xs) v out in
    let go : not_queueable p ≡ false = ground arith in
    let full : (q.head == null) ≡ false = ground arith in
    let same : est_burst_of m' ≡ est_burst_of m = fun_ext λ b. ground arith in
    rw (go, full, ← same) (sorted_ready m' q p x xs queue_fuel v' out n f)

abbrev pub IsSortedFrom : (Ptr → ℕ) → Ptr → List Ptr → Type 0
IsSortedFrom est x [] = Unit
IsSortedFrom est x (y ∷ ys) = (est x ≤ est y) × IsSortedFrom est y ys

-- In ascending order of the estimate.
abbrev pub IsSorted : (Ptr → ℕ) → List Ptr → Type 0
IsSorted est [] = Unit
IsSorted est (x ∷ xs) = IsSortedFrom est x xs

insert-IsSortedFrom :
    (est : Ptr → ℕ) (p x : Ptr) (xs : List Ptr)
    → est x ≤ est p
    → IsSortedFrom est x xs
    → IsSortedFrom est x (insert est p xs)
unfolding insert
insert-IsSortedFrom est p x [] h s = (h, tt)
insert-IsSortedFrom est p x (y ∷ ys) h (k, s) = elim (Bool-cases (ltb (est p) (est y))) [
  | inl lt ↦ rw (lt, insert) (h, (ground arith, s))
  | inr ge ↦ rw (ge, insert) (k, insert-IsSortedFrom est p y ys (ground arith) s)
]

pub insert-IsSorted :
    (est : Ptr → ℕ) (p : Ptr) (xs : List Ptr) → IsSorted est xs → IsSorted est (insert est p xs)
unfolding insert
insert-IsSorted est p [] s = tt
insert-IsSorted est p (x ∷ xs) s = elim (Bool-cases (ltb (est p) (est x))) [
  | inl lt ↦ rw (lt, insert) (ground arith, s)
  | inr ge ↦ rw (ge, insert) (insert-IsSortedFrom est p x xs (ground arith) s)
]

-- On a queue no longer than the fuel, in ascending order of the estimated burst, the insertion ends;
-- the queue then holds the process before the first one with a longer estimate, the others in their
-- order, and is in ascending order again.
pub enqueue_sorted_to-IsSorted :
    (m : Store) (q : ProcessQueue) (p : Ptr) (xs : List Ptr)
    → IsQueue m q xs
    → IsSorted (est_burst_of m) xs
    → p ≢ null
    → p ≢ init_process
    → has p xs ≡ false
    → length xs ≤ queue_fuel
    → Returns
        (λ (m', q').
          IsQueue m' q' (insert (est_burst_of m) p xs)
          × IsSorted (est_burst_of m) (insert (est_burst_of m) p xs))
        (enqueue_sorted_to m q p)
enqueue_sorted_to-IsSorted m q p xs v s n i out f =
    Returns-mono (λ (m', q'). IsQueue m' q' (insert (est_burst_of m) p xs)) _
      (enqueue_sorted_to m q p) (enqueue_sorted_to-insert m q p xs v n i out f)
      (λ (m', q') w. (w, insert-IsSorted (est_burst_of m) p xs s))
