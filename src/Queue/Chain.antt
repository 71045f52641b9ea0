-- ===== src/Queue/Chain.antt =====
-- When the pointers of a queue stand for a list of processes, and when a change of the store keeps
-- that.
use demos_os.Base.{◌≡◌, ◌≢◌, true, false, List, [], ◌∷◌, ◌++◌, arith, has, last_or}
use demos_os.Pcb.{Ptr, null, Store}
use demos_os.Queue.{ProcessQueue}

-- From `p` the `next_ready` pointers lead through the distinct processes `xs` to `null`.
abbrev pub Chain : Store → Ptr → List Ptr → Type 0
Chain m p [] = p ≡ null
Chain m p (x ∷ xs) = (p ≡ x) × (x ≢ null) × (has x xs ≡ false) × Chain m (m x).next_ready xs

pub record IsQueue (m : Store) (q : ProcessQueue) (xs : List Ptr) : Type 0 where
  pub chain : Chain m q.head xs
  pub last : q.tail ≡ last_or null xs

-- A chain reads only the links of its own processes.
pub Chain-frame :
    (m m' : Store) (p : Ptr) (xs : List Ptr)
    → ((a : Ptr) → has a xs ≡ true → (m' a).next_ready ≡ (m a).next_ready)
    → Chain m p xs
    → Chain m' p xs
Chain-frame m m' p [] same h = h
Chain-frame m m' p (x ∷ xs) same (e, n, out, h) = (
  e,
  n,
  out,
  Chain-frame m m' (m' x).next_ready xs (λ a i. same a (ground arith)) (ground (arith, same x)),
)

-- No process of a chain is NULL.
pub Chain-ne_null :
    (m : Store) (p a : Ptr) (xs : List Ptr) → Chain m p xs → has a xs ≡ true → a ≢ null
Chain-ne_null m p a [] c i = cc
Chain-ne_null m p a (x ∷ xs) (e, n, o, c) i =
    ground (arith, Chain-ne_null m (m x).next_ready a xs c)

-- The end of a chain is a chain.
pub Chain-suffix :
    (m : Store) (h : Ptr) (xs ys : List Ptr) → Chain m h (xs ++ ys) → (h' : Ptr) × Chain m h' ys
Chain-suffix m h [] ys c = (h, c)
Chain-suffix m h (x ∷ xs) ys (e, n, o, c) = Chain-suffix m (m x).next_ready xs ys c

-- Behind the processes `x ∷ xs` the chain goes on with the rest.
pub Chain-next :
    (m : Store) (h x : Ptr) (xs ys : List Ptr)
    → Chain m h (x ∷ xs ++ ys)
    → Chain m (m (last_or x xs)).next_ready ys
Chain-next m h x [] ys (e, n, o, c) = c
Chain-next m h x (y ∷ xs) ys (e, n, o, c) = Chain-next m (m x).next_ready y xs ys c
