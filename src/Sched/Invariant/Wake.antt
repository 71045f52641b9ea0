-- ===== src/Sched/Invariant/Wake.antt =====
-- The wake-up of blocked processes against the invariant of the scheduler.
use mathlib.Core.Path.{subst}
use demos_os.Base.{
  ℕ, zero, suc, ◌+◌, ◌≤◌, ◌≡◌, ◌≢◌, ◌⊎◌, refl, sym, ◌∙◌, inl, inr, Bool-cases, false, not, ◌&&◌,
  List, [], ◌∷◌, ◌++◌, append_assoc, append-nil, arith, has, has-append, ◌==◌, if◌then◌else◌,
}
use demos_os.Base.Run.{ok, Returns, Returns-bind, Returns-mono}
use demos_os.Pcb.{
  Ptr, null, init_process, max_processes, process_ready, process_running, process_zombie, Pcb,
  Store,
}
use demos_os.Queue.{ProcessQueue, enqueue_process_to, not_queueable}
use demos_os.Queue.Fifo.{enqueue_process_to-append}
use demos_os.Sched.{Kernel, current, modify_pcb, set_state, enqueue_fifo, enqueue_process}
use demos_os.Sched.Register.{enqueue_process-fifo}
use demos_os.Sched.Tick.{waits_for, stop_waiting, wake_waiters}
use demos_os.Sched.Pick.Take.{AllReady-has}
use demos_os.Sched.Pick.Ready.{Same, enqueue-AllReady, enqueue_process_to-Same}
use demos_os.Sched.Invariant.Keep.{modify-Inv}
use demos_os.Sched.Invariant.{InTable, Inv, Inv-room}

-- The signals and the pids stay.
abbrev pub Calm : Kernel → Kernel → Type 0
Calm k k' =
    (a : Ptr)
    → ((k'.mem a).pending_signals ≡ (k.mem a).pending_signals) × ((k'.mem a).pid ≡ (k.mem a).pid)

pub Calm-trans : (k₁ k₂ k₃ : Kernel) → Calm k₁ k₂ → Calm k₂ k₃ → Calm k₁ k₃
Calm-trans k₁ k₂ k₃ c d a = let (p, q) = c a in let (p', q') = d a in (p' ∙ p, q' ∙ q)

-- What insertions leave: the queue grew at its end, and the current process is as it was.
pub record Stays (hold : ℕ) (k : Kernel) (xs : List Ptr) (k' : Kernel) : Type 0 where
  pub joined : List Ptr
  pub inv : Inv hold k' (xs ++ joined)
  pub same_current : k'.current_process ≡ k.current_process
  pub table : k'.processes ≡ k.processes
  pub count : k'.n_processes ≡ k.n_processes
  pub state : (current k').state ≡ (current k).state
  pub calm : Calm k k'
  pub mail : (a : Ptr) → (k'.mem a).messages_buffer ≡ (k.mem a).messages_buffer

-- `Stays`, and nobody but `p` joined the queue.
abbrev pub Woken : (hold : ℕ) → Kernel → List Ptr → (p : Ptr) → Kernel → Type 0
Woken hold k xs p k' = (s : Stays hold k xs k') × (s.joined ≡ [] ⊎ s.joined ≡ p ∷ [])

Woken-refl : (hold : ℕ) (k : Kernel) (xs : List Ptr) (p : Ptr) → Inv hold k xs → Woken hold k xs p k
Woken-refl hold k xs p v = (
  record {
    joined = [];
    inv = subst (Inv hold k) (sym (append-nil xs)) v;
    same_current = refl;
    table = refl;
    count = refl;
    state = refl;
    calm = λ a. (refl, refl);
    mail = λ a. refl;
  },
  inl refl,
)

pub Stays-refl : (hold : ℕ) (k : Kernel) (xs : List Ptr) → Inv hold k xs → Stays hold k xs k
Stays-refl hold k xs v = (Woken-refl hold k xs null v).0

pub Stays-trans :
    (hold : ℕ) (k₁ k₂ k₃ : Kernel) (xs : List Ptr) (s : Stays hold k₁ xs k₂)
    → Stays hold k₂ (xs ++ s.joined) k₃
    → Stays hold k₁ xs k₃
Stays-trans hold k₁ k₂ k₃ xs s t = record {
  joined = s.joined ++ t.joined;
  inv = subst (Inv hold k₃) (append_assoc xs s.joined t.joined) t.inv;
  same_current = t.same_current ∙ s.same_current;
  table = t.table ∙ s.table;
  count = t.count ∙ s.count;
  state = t.state ∙ s.state;
  calm = Calm-trans k₁ k₂ k₃ s.calm t.calm;
  mail = λ a. t.mail a ∙ s.mail a;
}

state-enqueue_process_to :
    (m : Store) (q : ProcessQueue) (p a : Ptr)
    → a ≢ p
    → ((enqueue_process_to m q p).0 a).state ≡ (m a).state
unfolding enqueue_process_to
state-enqueue_process_to m q p a ne = ground arith

messages_buffer-enqueue_process_to :
    (m : Store) (q : ProcessQueue) (p a : Ptr)
    → ((enqueue_process_to m q p).0 a).messages_buffer ≡ (m a).messages_buffer
unfolding enqueue_process_to
messages_buffer-enqueue_process_to m q p a = ground arith

-- A process of the table that is neither queued nor the current one joins the queue.
enqueue_process-Woken :
    (hold : ℕ) (k : Kernel) (xs : List Ptr) (p : Ptr)
    → InTable k.processes p
    → p ≢ k.current_process
    → has p xs ≡ false
    → Inv hold k xs
    → Returns (Woken hold k xs p) (enqueue_process k p)
unfolding enqueue_fifo
enqueue_process-Woken hold k xs p i nc o v = elim (Bool-cases (not_queueable p)) [
  | inl out ↦ rw (enqueue_process-fifo k p v.algorithm, out) (Woken-refl hold k xs p v)
  | inr goes ↦
      let ne : p ≢ null = ground arith in
      let ni : p ≢ init_process = ground arith in
      let m' = (enqueue_process_to k.mem k.ready_queue p).0 in
      let same : (a : Ptr) → Same (k.mem a) (m' a) =
        enqueue_process_to-Same k.mem k.ready_queue p in
      let v' : Inv hold
          (record k { mem = m'; ready_queue = (enqueue_process_to k.mem k.ready_queue p).1 })
          (xs ++ p ∷ []) =
        record {
          can = record {
            queue = enqueue_process_to-append k.mem k.ready_queue p xs v.can.queue ne ni o;
            ready_all = enqueue-AllReady k.mem k.ready_queue p xs v.can.ready_all ne ni;
            short = Inv-room hold k xs p i ni o v;
            current_out =
                ground (arith, v.can.current_out, has-append k.current_process xs (p ∷ []));
            current_ne = v.can.current_ne;
          };
          algorithm = v.algorithm;
          member = λ a j. elim (Bool-cases (has a xs)) [
            | inl h ↦ v.member a h
            | inr h ↦
                let e : p ≡ a = ground (arith, has-append a xs (p ∷ [])) in
                subst (λ z. InTable k.processes z × (z ≢ init_process)) e (i, ni)
          ];
          current_member = v.current_member;
          idle_member = v.idle_member;
          free = v.free;
          filled = v.filled;
          suspended = λ a j n. (same a).1 ∙ v.suspended a j n;
          running = (same k.current_process).1 ∙ v.running;
        } in
      let cur : (m' k.current_process).state ≡ (current k).state =
        state-enqueue_process_to k.mem k.ready_queue p k.current_process (λ e. nc (sym e)) in
      rw (enqueue_process-fifo k p v.algorithm, goes)
        (
          record {
            joined = p ∷ [];
            inv = v';
            same_current = refl;
            table = refl;
            count = refl;
            state = cur;
            calm = λ a. ((same a).0, (same a).2);
            mail = messages_buffer-enqueue_process_to k.mem k.ready_queue p;
          },
          inr refl,
        )
]

pub enqueue_process-Inv :
    (hold : ℕ) (k : Kernel) (xs : List Ptr) (p : Ptr)
    → InTable k.processes p
    → p ≢ k.current_process
    → has p xs ≡ false
    → Inv hold k xs
    → Returns (Stays hold k xs) (enqueue_process k p)
enqueue_process-Inv hold k xs p i nc o v =
    Returns-mono (Woken hold k xs p) (Stays hold k xs) (enqueue_process k p)
      (enqueue_process-Woken hold k xs p i nc o v) (λ k' w. w.0)

-- The wake-up of a process that blocks on something: it becomes READY and joins the queue.
wake-Woken :
    (hold : ℕ) (k : Kernel) (xs : List Ptr) (p : Ptr) (f : Pcb → Pcb)
    → ((c : Pcb)
        → ((f c).next_ready ≡ c.next_ready) × ((f c).preempt_disabled ≡ c.preempt_disabled))
    → ((c : Pcb) → ((f c).pending_signals ≡ c.pending_signals) × ((f c).pid ≡ c.pid))
    → ((c : Pcb) → (f c).messages_buffer ≡ c.messages_buffer)
    → InTable k.processes p
    → p ≢ k.current_process
    → (k.mem p).state ≢ process_ready
    → Inv hold k xs
    → Returns (Woken hold k xs p) (enqueue_process (modify_pcb k p f) p)
wake-Woken hold k xs p f same quiet post i nc blocked v =
    let k₁ = modify_pcb k p f in
    let out : has p xs ≡ false = elim (Bool-cases (has p xs)) [
      | inl h ↦ absurd (blocked (AllReady-has k.mem xs p v.can.ready_all h))
      | inr h ↦ h
    ] in
    let v₁ = modify-Inv hold k xs p f same (λ h. absurd (ground arith)) v in
    let cur : (current k₁).state ≡ (current k).state = ground arith in
    Returns-mono (Woken hold k₁ xs p) (Woken hold k xs p) (enqueue_process k₁ p)
      (enqueue_process-Woken hold k₁ xs p i nc out v₁)
      (λ k' (s, e). (
        record {
          joined = s.joined;
          inv = s.inv;
          same_current = s.same_current;
          table = s.table;
          count = s.count;
          state = s.state ∙ cur;
          calm =
              Calm-trans k k₁ k' (λ a. let (e, g) = quiet (k.mem a) in (ground arith, ground arith))
                s.calm;
          mail = λ a. s.mail a ∙ (let g = post (k.mem a) in ground arith);
        },
        e,
      ))

-- A process of the table is woken if it blocks on what the state `waiting` names; the current one
-- runs.
pub wake_blocked-Woken :
    (waiting hold : ℕ) (k : Kernel) (xs : List Ptr) (p : Ptr)
    → waiting ≢ process_ready
    → waiting ≢ process_running
    → InTable k.processes p
    → (current k).state ≡ process_running
    → Inv hold k xs
    → Returns (Woken hold k xs p) (
        if (k.mem p).state == waiting
        then enqueue_process (modify_pcb k p (set_state process_ready)) p
        else ok k)
wake_blocked-Woken waiting hold k xs p blocks rests i runs v =
    elim (Bool-cases ((k.mem p).state == waiting)) [
      | inl waits ↦
          let nc : p ≢ k.current_process = λ e.
            let r = subst (λ a. (k.mem a).state ≡ process_running) (sym e) runs in
            rests (ground arith) in
          let blocked : (k.mem p).state ≢ process_ready = λ e. blocks (ground arith) in
          rw waits (
            wake-Woken hold k xs p (set_state process_ready) (λ c. (refl, refl)) (λ c. (refl, refl))
              (λ c. refl) i nc blocked v)
      | inr quiet ↦ rw quiet (Woken-refl hold k xs p v)
    ]

pub wake_blocked-Stays :
    (waiting hold : ℕ) (k : Kernel) (xs : List Ptr) (p : Ptr)
    → waiting ≢ process_ready
    → waiting ≢ process_running
    → InTable k.processes p
    → (current k).state ≡ process_running
    → Inv hold k xs
    → Returns (Stays hold k xs) (
        if (k.mem p).state == waiting
        then enqueue_process (modify_pcb k p (set_state process_ready)) p
        else ok k)
wake_blocked-Stays waiting hold k xs p blocks rests i runs v =
    Returns-mono (Woken hold k xs p) (Stays hold k xs) _
      (wake_blocked-Woken waiting hold k xs p blocks rests i runs v) (λ k' w. w.0)

-- The loop of the exit wakes only processes that wait, which the current one does not.
pub wake_waiters-Stays :
    (rounds i pid hold : ℕ) (k : Kernel) (xs : List Ptr)
    → i + rounds ≤ max_processes
    → (current k).state ≡ process_zombie
    → Inv hold k xs
    → Returns (Stays hold k xs) (wake_waiters rounds i pid k)
unfolding wake_waiters
wake_waiters-Stays zero i pid hold k xs few z v = Stays-refl hold k xs v
wake_waiters-Stays (suc rounds) i pid hold k xs few z v =
    let p = k.processes i in
    let woken =
      if not (p == null) && waits_for pid (k.mem p)
      then enqueue_process (modify_pcb k p stop_waiting) p
      else ok k in
    let round : Returns (Stays hold k xs) woken =
      elim (Bool-cases (not (p == null) && waits_for pid (k.mem p))) [
        | inl waits ↦
            let nc : p ≢ k.current_process = λ e.
              let z' = subst (λ a. (k.mem a).state ≡ process_zombie) (sym e) z in ground arith in
            rw waits (
              Returns-mono (Woken hold k xs p) (Stays hold k xs) _
                (wake-Woken hold k xs p stop_waiting (λ c. (refl, refl)) (λ c. (refl, refl))
                  (λ c. refl) (i, omega arith, refl, ground arith) nc (ground arith) v)
                (λ k' w. w.0))
        | inr quiet ↦ rw quiet (Stays-refl hold k xs v)
      ] in
    Returns-bind (Stays hold k xs) (Stays hold k xs) woken
      (λ k'. wake_waiters rounds (i + 1) pid k') round
      (λ k₁ s.
        let ys = xs ++ s.joined in
        Returns-mono (Stays hold k₁ ys) (Stays hold k xs) (wake_waiters rounds (i + 1) pid k₁)
          (wake_waiters-Stays rounds (i + 1) pid hold k₁ ys (omega arith) (s.state ∙ z) s.inv)
          (λ k' t. Stays-trans hold k k₁ k' xs s t))
