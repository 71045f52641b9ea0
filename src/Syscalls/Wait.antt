-- ===== src/Syscalls/Wait.antt =====
-- The search by pid, and the calls that rest on it.
use mathlib.Core.Path.{subst}
use demos_os.Base.{
  ℕ, zero, suc, ◌+◌, ◌<◌, ◌≤◌, ◌≡◌, ◌≢◌, refl, true, false, Bool, Bool-cases, not, ◌&&◌, ◌⊎◌, inl,
  inr, arith, ap, ◌==◌,
}
use demos_os.Base.Int.{ℤ, pos, negsuc, ◌==ℤ◌}
use demos_os.Pcb.{Ptr, null, max_processes}
use demos_os.Sched.{Kernel}
use demos_os.Syscalls.{search_from, search_process}

-- Slot `i` holds a process with this pid.
abbrev pub Holds : Kernel → ℤ → ℕ → Type 0
Holds k pid i = (k.processes i ≢ null) × (pos (k.mem (k.processes i)).pid ≡ pid)

-- What a search over the slots from `lo` to `hi` finds: the first process with the pid, or that
-- there is none.
abbrev pub SearchResult : (lo hi : ℕ) → Kernel → ℤ → Ptr → Type 0
SearchResult lo hi k pid p =
    (p ≡ null) × ((i : ℕ) → lo ≤ i → i < hi → Holds k pid i → ⊥)
    ⊎ ((i : ℕ) × (lo ≤ i)
        × (i < hi)
        × (k.processes i ≡ p)
        × (p ≢ null)
        × (pos (k.mem p).pid ≡ pid)
        × ((j : ℕ) → lo ≤ j → j < i → Holds k pid j → ⊥))

==ℤ-eq : (a b : ℤ) → (a ==ℤ b) ≡ true → a ≡ b
==ℤ-eq (pos m) (pos n) h = ap pos (ground arith)
==ℤ-eq (pos m) (negsuc n) h = ground arith
==ℤ-eq (negsuc m) (pos n) h = ground arith
==ℤ-eq (negsuc m) (negsuc n) h = ap negsuc (ground arith)

==ℤ-refl : (n : ℕ) → (pos n ==ℤ pos n) ≡ true
==ℤ-refl n = ground arith

-- The test of the loop.
abbrev matches : Kernel → ℤ → ℕ → Bool
matches k pid i = not (k.processes i == null) && (pos (k.mem (k.processes i)).pid ==ℤ pid)

matches-Holds : (k : Kernel) (pid : ℤ) (i : ℕ) → matches k pid i ≡ true → Holds k pid i
matches-Holds k pid i e =
    (ground arith, ==ℤ-eq (pos (k.mem (k.processes i)).pid) pid (ground arith))

Holds-matches : (k : Kernel) (pid : ℤ) (i : ℕ) → matches k pid i ≡ false → Holds k pid i → ⊥
Holds-matches k pid i e (ne, h) =
    let same : (pos (k.mem (k.processes i)).pid ==ℤ pid) ≡ true =
      subst (λ z. (pos (k.mem (k.processes i)).pid ==ℤ z) ≡ true) h
        (==ℤ-refl (k.mem (k.processes i)).pid) in
    ground arith

SearchResult-widen :
    (rounds i : ℕ) (k : Kernel) (pid : ℤ) (p : Ptr)
    → matches k pid i ≡ false
    → SearchResult (i + 1) (i + 1 + rounds) k pid p
    → SearchResult i (i + suc rounds) k pid p
SearchResult-widen rounds i k pid p e (inl (n, f)) = inl (
  n,
  λ j lo hi. elim (Bool-cases (i == j)) [
    | inl s ↦
        let same : i ≡ j = ground arith in
        subst (λ y. Holds k pid y → ⊥) same (Holds-matches k pid i e)
    | inr s ↦ f j (ground arith) (ground arith)
  ],
)
SearchResult-widen rounds i k pid p e (inr (x, lo, hi, at, ne, h, f)) = inr (
  x,
  omega arith,
  omega arith,
  at,
  ne,
  h,
  λ j lo' hi'. elim (Bool-cases (i == j)) [
    | inl s ↦
        let same : i ≡ j = ground arith in
        subst (λ y. Holds k pid y → ⊥) same (Holds-matches k pid i e)
    | inr s ↦ f j (ground arith) (ground arith)
  ],
)

search_from-SearchResult :
    (rounds i : ℕ) (k : Kernel) (pid : ℤ)
    → SearchResult i (i + rounds) k pid (search_from rounds i k pid)
unfolding search_from
search_from-SearchResult zero i k pid = inl (refl, λ j lo hi _. absurd (omega arith))
search_from-SearchResult (suc rounds) i k pid = elim (Bool-cases (matches k pid i)) [
  | inl e ↦
      let (ne, h) = matches-Holds k pid i e in
      rw (e, search_from)
        (inr (i, omega arith, omega arith, refl, ne, h, λ j lo hi _. absurd (omega arith)))
  | inr e ↦
      rw (e, search_from)
        (SearchResult-widen rounds i k pid (search_from rounds (i + 1) k pid) e
          (search_from-SearchResult rounds (i + 1) k pid))
]

-- `search_process` returns the process of the first slot with the pid; NULL if no slot has it.
pub search_process-SearchResult :
    (k : Kernel) (pid : ℤ) → SearchResult 0 max_processes k pid (search_process k pid)
unfolding search_process
search_process-SearchResult k pid = search_from-SearchResult max_processes 0 k pid

-- The table and the pids are the same.
abbrev pub SameIds : Kernel → Kernel → Type 0
SameIds k k' = (k'.processes ≡ k.processes) × ((a : Ptr) → (k'.mem a).pid ≡ (k.mem a).pid)

search_from-same :
    (rounds i : ℕ) (k k' : Kernel) (pid : ℤ)
    → SameIds k k'
    → search_from rounds i k' pid ≡ search_from rounds i k pid
unfolding search_from
search_from-same zero i k k' pid s = refl
search_from-same (suc rounds) i k k' pid (table, pids) =
    let slot : k'.processes i ≡ k.processes i = ap (λ f. f i) table in
    rw
      (
        slot,
        pids (k.processes i),
        search_from-same rounds (i + 1) k k' pid (table, pids),
        search_from,
      )
      refl

pub search_process-same :
    (k k' : Kernel) (pid : ℤ) → SameIds k k' → search_process k' pid ≡ search_process k pid
unfolding search_process
search_process-same k k' pid s = search_from-same max_processes 0 k k' pid s
