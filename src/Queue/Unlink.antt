-- ===== src/Queue/Unlink.antt =====
-- `remove_process_from`: a process leaves the middle of a queue.
use demos_os.Base.{
  ◌≡◌, ◌≢◌, false, List, [], ◌∷◌, ◌++◌, arith, has, last_or, has-append, ◌==◌, has-last_or,
  ne_of_has, last_or-append_list, if◌then◌else◌,
}
use demos_os.Pcb.{Ptr, null, Store}
use demos_os.Queue.{ProcessQueue, set_next, remove_process_from}
use demos_os.Queue.Chain.{Chain, IsQueue, Chain-frame, Chain-ne_null, Chain-suffix}

-- Bypassing `p`, which `x ∷ xs` leads to.
Chain-bypass :
    (m : Store) (h p x : Ptr) (xs ys : List Ptr)
    → Chain m h (x ∷ xs ++ p ∷ ys)
    → Chain (set_next (set_next m (last_or x xs) (m p).next_ready) p null) h (x ∷ xs ++ ys)
Chain-bypass m h p x [] ys (e, n, o, (e', n', o', c)) =
    let c' =
      Chain-frame m (set_next (set_next m x (m p).next_ready) p null) (m p).next_ready ys
        (λ a i. ground (arith, ne_of_has a p ys, ne_of_has a x ys)) c in
    ground arith
Chain-bypass m h p x (y ∷ xs) ys (e, n, o, c) =
    let m' = set_next (set_next m (last_or y xs) (m p).next_ready) p null in
    let o₁ : has x (y ∷ xs ++ ys) ≡ false =
      ground (arith, has-append x (y ∷ xs) (p ∷ ys), has-append x (y ∷ xs) ys) in
    let apart : x ≢ last_or y xs = ground (
      arith,
      has-last_or y xs,
      has-append x (y ∷ xs) (p ∷ ys),
      ne_of_has (last_or y xs) x (y ∷ xs),
    ) in
    let apart' : x ≢ p = ground (arith, has-append x (y ∷ xs) (p ∷ ys)) in
    let rest = Chain-bypass m (m x).next_ready p y xs ys c in (e, n, o₁, ground arith)

-- The last of `p ∷ ys` is `p` exactly when `ys` is empty; else it is the last of `ys`, whatever
-- stands before.
last_bypass :
    (p : Ptr) (ys : List Ptr)
    → has p ys ≡ false
    → (d : Ptr) → (last_or d ys ≡ (if last_or p ys == p then d else last_or p ys))
last_bypass p [] o d = ground arith
last_bypass p (y ∷ ys) o d = ground (arith, ne_of_has (last_or y ys) p (y ∷ ys), has-last_or y ys)

-- Given the process before it, or NULL at the head, a process leaves the queue from any place, and
-- the others keep their order.
pub remove_process_from-append :
    (m : Store) (q : ProcessQueue) (p : Ptr) (xs ys : List Ptr)
    → IsQueue m q (xs ++ p ∷ ys)
    → let (m', q') = remove_process_from m q (last_or null xs) p in IsQueue m' q' (xs ++ ys)
unfolding remove_process_from
remove_process_from-append m q p [] [] v = ground arith
remove_process_from-append m q p [] (y ∷ ys) v =
    let (e, n, o, c) = v.chain in
    let c' =
      Chain-frame m (set_next m p null) (m p).next_ready (y ∷ ys)
        (λ a h. ground (arith, ne_of_has a p (y ∷ ys))) c in
    ground (arith, ne_of_has (last_or y ys) p (y ∷ ys), has-last_or y ys)
remove_process_from-append m q p (x ∷ xs) ys v =
    let ne =
      Chain-ne_null m q.head (last_or x xs) (x ∷ xs ++ p ∷ ys) v.chain
        (ground (arith, has-append (last_or x xs) (x ∷ xs) (p ∷ ys), has-last_or x xs)) in
    let (h', c') = Chain-suffix m q.head (x ∷ xs) (p ∷ ys) v.chain in
    let c = Chain-bypass m q.head p x xs ys v.chain in
    ground (
      arith,
      last_or-append_list x xs (p ∷ ys),
      last_or-append_list x xs ys,
      last_bypass p ys c'.2 (last_or x xs),
    )
