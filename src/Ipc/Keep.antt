-- ===== src/Ipc/Keep.antt =====
-- Messages against the invariant of the scheduler.
use mathlib.Core.Path.{subst}
use demos_os.Base.{
  ℕ, zero, suc, ◌+◌, ◌≤◌, ◌<◌, ◌≡◌, ◌≢◌, ◌∙◌, ◌⊎◌, ap, sym, append-nil, inl, inr, Bool-cases, true,
  false, List, [], ◌∷◌, ◌++◌, arith, ltb, ◌==◌, if◌then◌else◌, refl, length,
}
use demos_os.Base.Int.{ℤ, pos}
use demos_os.Base.Run.{ok, fault, Returns, Returns-bind, Returns-value}
use demos_os.Pcb.{
  Ptr, null, max_processes, max_messages_per_process, process_ready, process_running,
  process_waiting_to_send_message, process_waiting_to_receive_message, Message,
  MessagesCircularBuffer,
}
use demos_os.Sched.{Kernel, current, modify_pcb, set_state, enqueue_process}
use demos_os.Sched.Tick.{schedule}
use demos_os.Sched.Invariant.{Inv, InTable}
use demos_os.Sched.Invariant.Keep.{modify-Inv}
use demos_os.Sched.Invariant.Turn.{Turn, schedule-Turn}
use demos_os.Sched.Invariant.Wake.{Stays, Woken, wake_blocked-Stays, wake_blocked-Woken}
use demos_os.Ipc.{
  Attempt, done, blocked, is_full, push_buffer, set_buffer, wake_receiver, push_message, pop_buffer,
  send_message, wake_senders, receive_message, next_index, max_messages_body_size,
}

-- While the table has an empty slot, the loop of `receive_message` reads through it.
wake_senders-fault :
    (rounds i : ℕ) (k : Kernel) (xs : List Ptr)
    → i ≤ k.n_processes
    → k.n_processes < i + rounds
    → (current k).state ≡ process_running
    → Inv 0 k xs
    → wake_senders rounds i k ≡ fault
unfolding wake_senders
wake_senders-fault zero i k xs low more runs v = absurd (omega arith)
wake_senders-fault (suc rounds) i k xs low more runs v = elim (Bool-cases (ltb i k.n_processes)) [
  | inl counted ↦
      let p = k.processes i in
      let (few, ne) = v.filled i (ground arith) in
      let present : (p == null) ≡ false = ground arith in
      let woken =
        if (k.mem p).state == process_waiting_to_send_message
        then enqueue_process (modify_pcb k p (set_state process_ready)) p
        else ok k in
      let (k₁, e, s) = Returns-value (Stays 0 k xs) woken (
        wake_blocked-Stays process_waiting_to_send_message 0 k xs p (omega arith) (omega arith)
          (i, few, refl, ne) runs v) in
      let n = s.count in
      rw (present, e, wake_senders)
        (wake_senders-fault rounds (i + 1) k₁ (xs ++ s.joined) (ground arith) (ground arith)
          (s.state ∙ runs) s.inv)
  | inr free ↦
      let absent : k.processes i ≡ null = v.free i (ground arith) in
      let here : (k.processes i == null) ≡ true = ground arith in rw (here, wake_senders) refl
]

-- Under round robin and the invariant of the scheduler, while the table of the processes is not full:
-- the process that receives a message that waits for it makes the kernel read through an empty slot.
pub receive_message-fault :
    (k : Kernel) (xs : List Ptr)
    → let b = (current k).messages_buffer in
      Inv 0 k xs
      → (current k).state ≡ process_running
      → k.n_processes < max_processes
      → b.head ≢ b.tail
      → b.tail < max_messages_per_process
      → receive_message k k.current_process ≡ fault
unfolding receive_message pop_buffer
receive_message-fault k xs v runs room waits inside =
    let b = (current k).messages_buffer in
    let b' : MessagesCircularBuffer = record b { tail = next_index b.tail } in
    let k₁ = modify_pcb k k.current_process (set_buffer b') in
    let v₁ =
      modify-Inv 0 k xs k.current_process (set_buffer b') (λ c. (refl, refl)) (λ _. refl) v in
    let filled : (b.head == b.tail) ≡ false = ground arith in
    let in_array : ltb b.tail max_messages_per_process ≡ true = ground arith in
    let through : wake_senders max_processes 0 k₁ ≡ fault =
      wake_senders-fault max_processes 0 k₁ xs (omega arith) (omega arith) (ground arith) v₁ in
    rw (filled, in_array, through) refl

-- The message is stored at the place of the head, which moves on; the other places and the tail are
-- as they were.
abbrev pub Stored : MessagesCircularBuffer → Message → MessagesCircularBuffer → Type 0
Stored b m b' =
    (b'.buffer b.head ≡ m)
    × ((i : ℕ) → i ≢ b.head → b'.buffer i ≡ b.buffer i)
    × (b'.head ≡ next_index b.head)
    × (b'.tail ≡ b.tail)

-- What a send of `body` to `p` leaves: the message is in the buffer of the receiver alone, and behind
-- the queue stands the receiver or nobody; or the sender waits.
abbrev pub Sent : Kernel → List Ptr → Ptr → List ℕ → Attempt ℤ → Type 0
Sent k xs p body (done status k') =
    let m : Message = record {
      source_process = k.current_process;
      destination_process = p;
      body = body;
    } in
    (status ≡ pos 0)
    × (is_full (k.mem p).messages_buffer ≡ false)
    × Stored (k.mem p).messages_buffer m (k'.mem p).messages_buffer
    × ((a : Ptr) → a ≢ p → (k'.mem a).messages_buffer ≡ (k.mem a).messages_buffer)
    × (k'.current_process ≡ k.current_process)
    × ((current k').state ≡ process_running)
    × (Inv 0 k' xs ⊎ Inv 0 k' (xs ++ p ∷ []))
Sent k xs p body (blocked k') = (is_full (k.mem p).messages_buffer ≡ true) × Turn k xs k'

queue_joined :
    (k : Kernel) (xs : List Ptr) (p : Ptr) (joined : List Ptr)
    → joined ≡ [] ⊎ joined ≡ p ∷ []
    → Inv 0 k (xs ++ joined)
    → Inv 0 k xs ⊎ Inv 0 k (xs ++ p ∷ [])
queue_joined k xs p joined (inl none) v =
    inl (subst (Inv 0 k) (ap (λ l. xs ++ l) none ∙ append-nil xs) v)
queue_joined k xs p joined (inr one) v = inr (subst (Inv 0 k) (ap (λ l. xs ++ l) one) v)

-- Under round robin and the invariant of the scheduler, for a body that fits, a receiver of the table
-- and a place inside the array: a send returns. If the buffer has room it is done: the message stands
-- at the head of the receiver's buffer, which moves on, no other place and no other buffer is
-- written, the sender runs on, and behind the queue stands the receiver or nobody. If not, the sender
-- waits and the first process of the queue that may run gets the CPU. The invariant holds.
pub send_message-Sent :
    (k : Kernel) (xs : List Ptr) (p : Ptr) (body : List ℕ)
    → Inv 0 k xs
    → (current k).state ≡ process_running
    → InTable k.processes p
    → length body < max_messages_body_size
    → (k.mem p).messages_buffer.head < max_messages_per_process
    → Returns (Sent k xs p body) (send_message k k.current_process p body)
unfolding send_message push_message push_buffer
send_message-Sent k xs p body v runs there fits inside =
    let b = (k.mem p).messages_buffer in
    let m : Message = record {
      source_process = k.current_process;
      destination_process = p;
      body = body;
    } in
    let b' : MessagesCircularBuffer = record b {
      buffer = λ i. if i == b.head then m else b.buffer i;
      head = next_index b.head;
    } in
    let short : ltb (length body) max_messages_body_size ≡ true = ground arith in
    let in_array : ltb b.head max_messages_per_process ≡ true = ground arith in
    let k₁ = modify_pcb k p (set_buffer b') in
    let v₁ = modify-Inv 0 k xs p (set_buffer b') (λ c. (refl, refl)) (λ _. refl) v in
    let f = set_state process_waiting_to_send_message in
    elim (Bool-cases (is_full b)) [
      | inl full ↦
          rw (short, full)
            (Returns-bind (Turn k xs) (Sent k xs p body)
              (schedule (modify_pcb k k.current_process f)) (λ k'. ok (blocked k'))
              (schedule-Turn k xs f (λ c. (refl, refl)) (λ c. (refl, refl)) v) (λ k' t. (full, t)))
      | inr room ↦
          let runs₁ : (current k₁).state ≡ process_running = ground arith in
          let (k₂, e, (s, came)) = Returns-value (Woken 0 k₁ xs p) (wake_receiver k₁ p) (
            wake_blocked-Woken process_waiting_to_receive_message 0 k₁ xs p (omega arith)
              (omega arith) there runs₁ v₁) in
          let state : (current k₂).state ≡ process_running = s.state ∙ runs₁ in
          let mail : (k₂.mem p).messages_buffer ≡ b' = s.mail p ∙ ground arith in
          rw (short, room, in_array, e)
            (
              refl,
              room,
              subst (Stored b m) (sym mail) (ground arith, λ i ne. ground arith, refl, refl),
              λ a ne. s.mail a ∙ ground arith,
              s.same_current,
              state,
              queue_joined k₂ xs p s.joined came s.inv,
            )
    ]
