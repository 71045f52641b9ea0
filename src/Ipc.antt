-- ===== src/Ipc.antt =====
-- libs/ipc.c: messages through a circular buffer in each PCB, and signals.
-- `Ipc.Ring` is about the buffer, `Ipc.Keep` about the scheduler behind a message, `Ipc.Signals` about
-- the pending bits.
pub mod Ring
pub mod Signals
pub mod Keep
pub mod Print
use demos_os.Base.{ℕ, zero, suc, ◌+◌, Bool, true, false, List, ltb, ◌==◌, if◌then◌else◌, length}
use demos_os.Base.Int.{ℤ, pos, negsuc, ◌==ℤ◌}
use demos_os.Base.Run.{Run, ok, fault, ◌>>=◌}
use demos_os.Base.Bits.{set_bit}
use demos_os.Pcb.{
  Ptr, null, max_processes, max_messages_per_process, process_ready,
  process_waiting_to_send_message, process_waiting_to_receive_message, Message,
  MessagesCircularBuffer, Pcb,
}
use demos_os.Sched.{Kernel, modify_pcb, set_state, enqueue_process}
use demos_os.Sched.Tick.{schedule}

-- `MAX_MESSAGES_BODY_SIZE`
abbrev pub max_messages_body_size : ℕ
max_messages_body_size = 256

-- The index after `i`, in a push and in a pop.
abbrev pub next_index : ℕ → ℕ
next_index i = if ltb max_messages_per_process (i + 1) then 0 else i + 1

abbrev pub is_full : MessagesCircularBuffer → Bool
is_full b = next_index b.head == b.tail

-- The buffer after a push. A write past the array is a fault.
unfoldable pub push_buffer : MessagesCircularBuffer → Message → Run MessagesCircularBuffer
push_buffer b message =
    if ltb b.head max_messages_per_process
    then ok (record b {
      buffer = λ i. if i == b.head then message else b.buffer i;
      head = next_index b.head;
    })
    else fault

abbrev pub set_buffer : MessagesCircularBuffer → Pcb → Pcb
set_buffer b c = record c { messages_buffer = b }

-- A process that waits for a message becomes ready.
abbrev pub wake_receiver : Kernel → Ptr → Run Kernel
wake_receiver k p =
    if (k.mem p).state == process_waiting_to_receive_message
    then enqueue_process (modify_pcb k p (set_state process_ready)) p
    else ok k

-- `owner` is the process whose buffer it is. -1 is a full buffer.
unfoldable pub push_message : Kernel → (owner : Ptr) → Message → Run (ℤ × Kernel)
push_message k owner message =
    let b = (k.mem owner).messages_buffer in
    if is_full b
    then ok (negsuc 0, k)
    else (push_buffer b message >>= λ b'.
        wake_receiver (modify_pcb k owner (set_buffer b')) message.destination_process >>= λ k'.
        ok (pos 0, k'))

-- The message and the buffer after a pop. A read past the array is a fault.
unfoldable pub pop_buffer : MessagesCircularBuffer → Run (Message × MessagesCircularBuffer)
pop_buffer b =
    if ltb b.tail max_messages_per_process
    then ok (b.buffer b.tail, record b { tail = next_index b.tail })
    else fault

-- What an attempt leaves: it is done, or the process gave up the CPU and tries again when it runs.
pub data Attempt (A : Type 0) : Type 0 where
  done : A → Kernel → Attempt A
  blocked : Kernel → Attempt A

-- One round of the loop of `send_message`. The copy of a body that does not fit is a fault.
unfoldable pub send_message : Kernel → (source destination : Ptr) → List ℕ → Run (Attempt ℤ)
send_message k source destination body =
    let message : Message = record {
      source_process = k.current_process;
      destination_process = destination;
      body = body;
    } in
    let sent = push_message k destination message >>= λ (status, k').
    let wait = modify_pcb k' source (set_state process_waiting_to_send_message) in
    if status ==ℤ negsuc 0
    then (schedule wait >>= λ k''. ok (blocked k''))
    else ok (done (pos 0) k') in
    if ltb (length body) max_messages_body_size then sent else fault

-- Slots `i` on, `rounds` of them: wakes the processes that wait to send. The code reads the state
-- through every slot, an empty one included.
pub wake_senders : (rounds i : ℕ) → Kernel → Run Kernel
wake_senders zero i k = ok k
wake_senders (suc rounds) i k =
    let p = k.processes i in
    let woken =
      if (k.mem p).state == process_waiting_to_send_message
      then enqueue_process (modify_pcb k p (set_state process_ready)) p
      else ok k in
    if p == null then fault else (woken >>= λ k'. wake_senders rounds (i + 1) k')

-- One round of the loop of `receive_message`, and what follows it: the body.
unfoldable pub receive_message : Kernel → (destination : Ptr) → Run (Attempt (List ℕ))
receive_message k destination =
    let b = (k.mem destination).messages_buffer in
    let wait = modify_pcb k k.current_process (set_state process_waiting_to_receive_message) in
    if b.head == b.tail
    then (schedule wait >>= λ k'. ok (blocked k'))
    else (pop_buffer b >>= λ (message, b').
        wake_senders max_processes 0 (modify_pcb k destination (set_buffer b')) >>= λ k'.
        ok (done message.body k'))

-- `signal_flag` comes from the caller unchecked; the shift is one of C's for flags below 31.
unfoldable pub send_signal : Kernel → Ptr → (signal_flag : ℕ) → ℤ × Kernel
send_signal k p signal_flag = (
  pos 0,
  modify_pcb k p (λ c. record c { pending_signals = set_bit c.pending_signals signal_flag }),
)
