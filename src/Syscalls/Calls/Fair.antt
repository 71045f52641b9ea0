-- ===== src/Syscalls/Calls/Fair.antt =====
-- How long a process of the ready queue waits for the CPU under round robin.
use mathlib.Core.Path.{subst}
use demos_os.Base.{
  ℕ, ◌+◌, ◌-◌, ◌*◌, ◌<◌, ◌≤◌, ◌≡◌, ◌≢◌, ◌⊎◌, refl, ap, sym, ◌∙◌, inl, inr, Bool-cases, true, List,
  [], ◌∷◌, ◌++◌, append_assoc, arith, has, has-append, length,
}
use demos_os.Base.Int.{pos, ◌≤ℤ◌}
use demos_os.Base.Run.{ok, ◌>>=◌, Returns, Returns-value}
use demos_os.Pcb.{Ptr, null, Store}
use demos_os.Queue.Chain.{Chain-ne_null}
use demos_os.Sched.{Kernel, current}
use demos_os.Sched.Pick.{or_init}
use demos_os.Sched.Pick.First.{eligible, first_eligible, after_eligible}
use demos_os.Sched.Invariant.{Inv}
use demos_os.Sched.Invariant.Turn.{Turn}
use demos_os.Syscalls.Calls.{Call, tick, yield_cpu, wait, exit, signal, run_call, run_calls}
use demos_os.Syscalls.Calls.Turns.{Spares, Counted, Stayed, Outcome, run_call-Outcome}

-- The ticks of a sequence.
abbrev cost : Call → ℕ
cost tick = 1
cost _ = 0

abbrev pub count_ticks : List Call → ℕ
count_ticks [] = 0
count_ticks (c ∷ cs) = cost c + count_ticks cs

abbrev pub AllSpare : ℕ → List Call → Type 0
AllSpare pid [] = Unit
AllSpare pid (c ∷ cs) = Spares pid c × AllSpare pid cs

-- The choice takes `x`, or one ahead of it.
eligible-ahead :
    (m : Store) (x : Ptr) (ahead behind : List Ptr)
    → eligible (m x) ≡ true
    → ((a : Ptr) → has a ahead ≡ true → a ≢ null)
    → let xs = ahead ++ x ∷ behind in
      (first_eligible m xs ≡ x)
      ⊎ ((ahead' : List Ptr) × (after_eligible m xs ≡ ahead' ++ x ∷ behind)
          × (length ahead' < length ahead)
          × (first_eligible m xs ≢ null))
unfolding first_eligible after_eligible
eligible-ahead m x [] behind e ne = inl (rw e refl)
eligible-ahead m x (y ∷ ys) behind e ne = elim (Bool-cases (eligible (m y))) [
  | inl good ↦ inr (ys, rw good refl, omega arith, rw good (ne y (ground arith)))
  | inr bad ↦ rw bad (elim (eligible-ahead m x ys behind e (λ a i. ne a (ground arith))) [
    | inl here ↦ inl here
    | inr (zs, after, less, found) ↦ inr (zs, after, omega (arith, less), found)
  ])
]

-- `x` stands in the queue, fit to run, and gets the CPU within `budget` ticks.
record Waits (x : Ptr) (pid budget : ℕ) (k : Kernel) : Type 0 where
  ahead : List Ptr
  behind : List Ptr
  inv : Inv 0 k (ahead ++ x ∷ behind)
  fit : eligible (k.mem x) ≡ true
  has_pid : (k.mem x).pid ≡ pid
  slice : ℕ
  left : (current k).counter ≤ℤ pos slice
  positive : 1 ≤ slice
  bound : 10 * length ahead + slice ≤ budget

-- What the queue of a waiting process holds.
queued-ne_null : (k : Kernel) (xs : List Ptr) (a : Ptr) → Inv 0 k xs → has a xs ≡ true → a ≢ null
queued-ne_null k xs a v i = Chain-ne_null k.mem k.ready_queue.head a xs v.can.queue.chain i

Turn-Waits :
    (x : Ptr) (pid budget : ℕ) (k : Kernel) (w : Waits x pid budget k) (k' : Kernel)
    → Turn k (w.ahead ++ x ∷ w.behind) k'
    → (k'.current_process ≡ x) ⊎ Waits x pid (budget - 1) k'
Turn-Waits x pid budget k w k' t =
    let xs = w.ahead ++ x ∷ w.behind in
    let rest = w.behind ++ t.behind in
    let whole : xs ++ t.behind ≡ w.ahead ++ x ∷ rest =
      append_assoc w.ahead (x ∷ w.behind) t.behind in
    let here : has x xs ≡ true = rw (has-append x w.ahead (x ∷ w.behind)) (ground arith) in
    let x_ne = queued-ne_null k xs x w.inv here in
    let ne : (a : Ptr) → has a w.ahead ≡ true → a ≢ null =
      λ a i. queued-ne_null k xs a w.inv (ground (arith, has-append a w.ahead (x ∷ w.behind))) in
    elim (eligible-ahead k.mem x w.ahead rest w.fit ne) [
      | inl chosen ↦
          let e : first_eligible k.mem (xs ++ t.behind) ≡ x =
            ap (first_eligible k.mem) whole ∙ chosen in
          inl (t.current_is ∙ ap or_init e ∙ ground arith)
      | inr (zs, after, less, found) ↦
          let after' = ap (after_eligible k.mem) whole ∙ after in
          let found' = subst (λ l. first_eligible k.mem l ≢ null) (sym whole) found in
          let still : has x (zs ++ x ∷ rest) ≡ true =
            rw (has-append x zs (x ∷ rest)) (ground arith) in
          let keeps = t.kept x (rw after' still) in
          inr (record {
            ahead = zs;
            behind = rest;
            inv = subst (Inv 0 k') after' t.inv;
            fit = rw keeps w.fit;
            has_pid = t.pids x ∙ w.has_pid;
            slice = 10;
            left = rw (t.slice found') (omega arith);
            positive = omega arith;
            bound = omega (arith, w.bound, w.positive, less);
          })
    ]

Counted-left :
    (c : Call) (k k' : Kernel) (slice : ℕ)
    → (current k).counter ≤ℤ pos slice
    → 1 ≤ slice
    → Counted c k k'
    → ((current k').counter ≤ℤ pos (slice - cost c)) × (1 ≤ slice - cost c)
Counted-left tick k k' slice left positive (more, e) = (ground arith, ground arith)
Counted-left yield_cpu k k' slice left positive e = (ground arith, omega arith)
Counted-left (wait pid) k k' slice left positive e = (ground arith, omega arith)
Counted-left exit k k' slice left positive e = (ground arith, omega arith)
Counted-left (signal pid signal_flag) k k' slice left positive e = (ground arith, omega arith)

Stayed-Waits :
    (c : Call) (x : Ptr) (pid budget : ℕ) (k : Kernel) (w : Waits x pid budget k) (k' : Kernel)
    → Spares pid c
    → Stayed c k (w.ahead ++ x ∷ w.behind) k'
    → Waits x pid (budget - cost c) k'
Stayed-Waits c x pid budget k w k' spares s =
    let here : has x (w.ahead ++ x ∷ w.behind) ≡ true =
      rw (has-append x w.ahead (x ∷ w.behind)) (ground arith) in
    let x_ne = queued-ne_null k (w.ahead ++ x ∷ w.behind) x w.inv here in
    let keeps = s.kept x x_ne (rw w.has_pid spares) in
    let counts = Counted-left c k k' w.slice w.left w.positive s.counted in
    record {
      ahead = w.ahead;
      behind = w.behind;
      inv = s.inv;
      fit = rw keeps w.fit;
      has_pid = s.pids x ∙ w.has_pid;
      slice = w.slice - cost c;
      left = counts.0;
      positive = counts.1;
      bound = omega (arith, w.bound, counts.1);
    }

-- One call of the sequence.
run_call-Waits :
    (c : Call) (x : Ptr) (pid budget : ℕ) (k : Kernel) (w : Waits x pid budget k) (k' : Kernel)
    → Spares pid c
    → Outcome c k (w.ahead ++ x ∷ w.behind) k'
    → (k'.current_process ≡ x) ⊎ ((b : ℕ) × (b ≤ budget - cost c) × Waits x pid b k')
run_call-Waits c x pid budget k w k' spares (inl s) =
    inr (budget - cost c, omega arith, Stayed-Waits c x pid budget k w k' spares s)
run_call-Waits c x pid budget k w k' spares (inr t) = elim (Turn-Waits x pid budget k w k' t) [
  | inl served ↦ inl served
  | inr v ↦ inr (budget - 1, ground arith, v)
]

-- Within some prefix of the sequence `x` becomes the current process.
abbrev pub Served : Ptr → List Call → Kernel → Type 0
Served x cs k =
    (before : List Call) × (after : List Call) × (cs ≡ before ++ after)
    × Returns (λ k'. k'.current_process ≡ x) (run_calls before k)

Waits-Served :
    (cs : List Call) (x : Ptr) (pid budget : ℕ) (k : Kernel)
    → Waits x pid budget k
    → budget ≤ count_ticks cs
    → AllSpare pid cs
    → Served x cs k
Waits-Served [] x pid budget k w enough spares = absurd (omega (arith, w.bound, w.positive, enough))
Waits-Served (c ∷ cs) x pid budget k w enough (s, ss) =
    let xs = w.ahead ++ x ∷ w.behind in
    let (k', e, o) =
      Returns-value (Outcome c k xs) (run_call c k) (run_call-Outcome c k xs w.inv) in
    elim (run_call-Waits c x pid budget k w k' s o) [
      | inl served ↦ (
        c ∷ [],
        cs,
        refl,
        subst (λ q. Returns (λ k₁. k₁.current_process ≡ x) (q >>= λ k₁. ok k₁)) (sym e) served,
      )
      | inr (b, less, w') ↦
          let (before, after, split, r) =
            Waits-Served cs x pid b k' w' (omega (arith, less, enough)) ss in
          (
            c ∷ before,
            after,
            ap (λ l. c ∷ l) split,
            subst (λ q. Returns (λ k₁. k₁.current_process ≡ x) (q >>= λ k₁. run_calls before k₁))
                (sym e) r,
          )
    ]

-- Under round robin a process of the ready queue that has neither a kill nor a stop pending gets the
-- CPU: if `ahead` stand before it in the queue, the invariant of the scheduler holds, and the current
-- process has at most ten ticks left, then in every sequence of timer ticks and of the calls yield,
-- wait, exit and send signal that has at least ten ticks for each process ahead and for the current
-- one, and that sends the process itself no signal, it is the current process after some prefix.
pub run_calls-fair :
    (cs : List Call) (x : Ptr) (k : Kernel) (ahead behind : List Ptr)
    → Inv 0 k (ahead ++ x ∷ behind)
    → eligible (k.mem x) ≡ true
    → (current k).counter ≤ℤ pos 10
    → 10 * (length ahead + 1) ≤ count_ticks cs
    → AllSpare (k.mem x).pid cs
    → Served x cs k
run_calls-fair cs x k ahead behind v fit left enough spares =
    let w : Waits x (k.mem x).pid (10 * (length ahead + 1)) k = record {
      ahead = ahead;
      behind = behind;
      inv = v;
      fit = fit;
      has_pid = refl;
      slice = 10;
      left = left;
      positive = omega arith;
      bound = omega arith;
    } in
    Waits-Served cs x (k.mem x).pid (10 * (length ahead + 1)) k w enough spares
