-- ===== src/Syscalls/Calls/Turns.antt =====
-- Each call of the sequence: it leaves the queue and the current process, or ends with a choice.
use mathlib.Core.Path.{subst}
use demos_os.Base.{
  ℕ, ◌≡◌, ◌≢◌, ◌⊎◌, refl, sym, ◌∙◌, inl, inr, Bool-cases, List, [], ◌∷◌, ◌++◌, arith, ◌==◌,
}
use demos_os.Base.Int.{ℤ, pos, ◌<ℤ◌, ◌-ℤ◌}
use demos_os.Base.Run.{ok, ◌>>=◌, Returns, Returns-bind, Returns-mono}
use demos_os.Pcb.{Ptr, null, process_running, process_zombie, process_waiting_another_process, Pcb}
use demos_os.Sched.{Kernel, current, modify_pcb}
use demos_os.Sched.Tick.{handle_timer_tick, schedule}
use demos_os.Sched.Pick.First.{after_eligible}
use demos_os.Sched.Invariant.{Inv}
use demos_os.Sched.Invariant.Keep.{modify-Inv}
use demos_os.Sched.Invariant.Turn.{Turn, schedule-Turn, exit_process-Turn, handle_timer_tick-Turn}
use demos_os.Base.Bits.{set_bit}
use demos_os.Ipc.{send_signal}
use demos_os.Syscalls.{
  search_process, syscall_yield, syscall_wait, syscall_exit, syscall_send_signal,
}
use demos_os.Syscalls.Wait.{search_process-SearchResult}
use demos_os.Syscalls.Calls.{Call, tick, yield_cpu, wait, exit, signal, run_call, run_calls, Safe}

-- The call sends no signal to the process with this pid.
abbrev pub Spares : ℕ → Call → Type 0
Spares pid (signal target signal_flag) = target ≢ pos pid
Spares pid _ = Unit

-- What is left of the time slice after a call that gives nobody the CPU.
abbrev pub Counted : Call → Kernel → Kernel → Type 0
Counted tick k k' =
    (pos 1 <ℤ (current k).counter) × ((current k').counter ≡ (current k).counter -ℤ pos 1)
Counted _ k k' = (current k').counter ≡ (current k).counter

-- A call that gives nobody the CPU.
pub record Stayed (c : Call) (k : Kernel) (xs : List Ptr) (k' : Kernel) : Type 0 where
  pub inv : Inv 0 k' xs
  pub state : (current k').state ≡ (current k).state
  pub pids : (a : Ptr) → (k'.mem a).pid ≡ (k.mem a).pid
  pub kept :
      (a : Ptr)
      → a ≢ null
      → Spares (k.mem a).pid c
      → (k'.mem a).pending_signals ≡ (k.mem a).pending_signals
  pub counted : Counted c k k'

abbrev pub Outcome : Call → Kernel → List Ptr → Kernel → Type 0
Outcome c k xs k' = Stayed c k xs k' ⊎ Turn k xs k'

-- A call that refuses leaves everything.
unchanged : (pid : ℤ) (k : Kernel) (xs : List Ptr) → Inv 0 k xs → Stayed (wait pid) k xs k
unchanged pid k xs v = record {
  inv = v;
  state = refl;
  pids = λ a. refl;
  kept = λ a n s. refl;
  counted = refl;
}

tick-Outcome :
    (k : Kernel) (xs : List Ptr) → Inv 0 k xs → Returns (Outcome tick k xs) (handle_timer_tick k)
tick-Outcome k xs v = elim (handle_timer_tick-Turn k xs v) [
  | inl (more, e, w) ↦ rw e (
      inl (record {
        inv = w;
        state = ground arith;
        pids = λ a. ground arith;
        kept = λ a n s. ground arith;
        counted = (more, ground arith);
      }))
  | inr (over, r) ↦
      Returns-mono (Turn k xs) (Outcome tick k xs) (handle_timer_tick k) r (λ k' t. inr t)
]

yield-Outcome :
    (k : Kernel) (xs : List Ptr) → Inv 0 k xs → Returns (Outcome yield_cpu k xs) (syscall_yield k)
unfolding syscall_yield
yield-Outcome k xs v =
    let f = λ (c : Pcb). record c { counter = pos 0 } in
    Returns-mono (Turn k xs) (Outcome yield_cpu k xs) (schedule (modify_pcb k k.current_process f))
      (schedule-Turn k xs f (λ c. (refl, refl)) (λ c. (refl, refl)) v) (λ k' t. inr t)

wait-Outcome :
    (pid : ℤ) (k : Kernel) (xs : List Ptr)
    → Inv 0 k xs
    → Returns (Outcome (wait pid) k xs) (run_call (wait pid) k)
unfolding syscall_wait
wait-Outcome pid k xs v =
    let p = search_process k pid in
    let f = λ (c : Pcb). record c { state = process_waiting_another_process; pid_to_wait = pid } in
    let k₁ = modify_pcb k k.current_process f in
    let same : Outcome (wait pid) k xs k = inl (unchanged pid k xs v) in
    elim (Bool-cases (p == null)) [
      | inl absent ↦ rw absent same
      | inr present ↦ elim (Bool-cases ((k.mem p).state == process_zombie)) [
        | inl ended ↦ rw (present, ended) same
        | inr lives ↦
            rw (present, lives)
              (Returns-bind (λ r. Turn k xs r.1) (Outcome (wait pid) k xs)
                (schedule k₁ >>= λ k'. ok (pos 0, k')) (λ (_, k'). ok k')
                (Returns-bind (Turn k xs) (λ r. Turn k xs r.1) (schedule k₁) (λ k'. ok (pos 0, k'))
                  (schedule-Turn k xs f (λ c. (refl, refl)) (λ c. (refl, refl)) v) (λ k' t. t))
                (λ (_, k') t. inr t))
      ]
    ]

-- What the search finds has the pid.
search_process-pid :
    (k : Kernel) (pid : ℤ)
    → search_process k pid ≢ null
    → pos (k.mem (search_process k pid)).pid ≡ pid
search_process-pid k pid ne = elim (search_process-SearchResult k pid) [
  | inl (absent, _) ↦ absurd (ne absent)
  | inr (i, _, _, _, _, e, _) ↦ e
]

signal-Stayed :
    (pid : ℤ) (signal_flag : ℕ) (k : Kernel) (xs : List Ptr)
    → Inv 0 k xs
    → Stayed (signal pid signal_flag) k xs (syscall_send_signal k pid signal_flag).1
unfolding syscall_send_signal send_signal
signal-Stayed pid signal_flag k xs v =
    let p = search_process k pid in
    let f = λ (c : Pcb). record c { pending_signals = set_bit c.pending_signals signal_flag } in
    let w = modify-Inv 0 k xs p f (λ c. (refl, refl)) (λ _. refl) v in
    elim (Bool-cases (p == null)) [
      | inl absent ↦
          rw absent (record {
            inv = v;
            state = refl;
            pids = λ a. refl;
            kept = λ a n s. refl;
            counted = refl;
          })
      | inr present ↦ rw present (record {
        inv = w;
        state = ground arith;
        pids = λ a. ground arith;
        kept = λ a n s. elim (Bool-cases (a == p)) [
          | inl here ↦
              let e : p ≡ a = ground arith in
              let h = search_process-pid k pid (ground arith) in
              absurd (s (subst (λ z. pid ≡ pos (k.mem z).pid) e (sym h)))
          | inr other ↦ ground arith
        ];
        counted = ground arith;
      })
    ]

-- Under the invariant every tick and every call returns.
pub run_call-Outcome :
    (c : Call) (k : Kernel) (xs : List Ptr) → Inv 0 k xs → Returns (Outcome c k xs) (run_call c k)
run_call-Outcome tick k xs v = tick-Outcome k xs v
run_call-Outcome yield_cpu k xs v = yield-Outcome k xs v
run_call-Outcome (wait pid) k xs v = wait-Outcome pid k xs v
run_call-Outcome exit k xs v =
    Returns-mono (Turn k xs) (Outcome exit k xs) (syscall_exit k) (exit_process-Turn k xs v)
      (λ k' t. inr t)
run_call-Outcome (signal pid signal_flag) k xs v = inl (signal-Stayed pid signal_flag k xs v)

Outcome-Safe :
    (c : Call) (k : Kernel) (xs : List Ptr) (k' : Kernel)
    → (current k).state ≡ process_running
    → Outcome c k xs k'
    → Safe k'
Outcome-Safe c k xs k' r (inl s) = ((xs, s.inv), s.state ∙ r)
Outcome-Safe c k xs k' r (inr t) = ((after_eligible k.mem (xs ++ t.behind), t.inv), t.runs)

pub run_call-Safe : (c : Call) (k : Kernel) → Safe k → Returns Safe (run_call c k)
run_call-Safe c k ((xs, v), r) =
    Returns-mono (Outcome c k xs) Safe (run_call c k) (run_call-Outcome c k xs v)
      (λ k' o. Outcome-Safe c k xs k' r o)

-- From a kernel in which, under round robin, the invariant holds and the current process runs, every
-- sequence of timer ticks and of the calls yield, wait, exit and send signal returns: none of them
-- dereferences NULL, leaves an array or loops. In the kernel that it leaves the invariant holds and
-- the current process runs.
pub run_calls-Safe : (cs : List Call) (k : Kernel) → Safe k → Returns Safe (run_calls cs k)
run_calls-Safe [] k s = s
run_calls-Safe (c ∷ cs) k s =
    Returns-bind Safe Safe (run_call c k) (λ k'. run_calls cs k') (run_call-Safe c k s)
      (λ k' s'. run_calls-Safe cs k' s')
