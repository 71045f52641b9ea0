-- ===== src/Uart.antt =====
-- The receive buffer of drivers/uart/uart.c, what a received byte does, and the line input of
-- `syscall_input` in libs/syscalls.c. `Uart.Line` and `Uart.Prompt` are about the line input,
-- `Uart.Wake` about what a received byte does to the scheduler.
pub mod Line
pub mod Prompt
pub mod Wake
use demos_os.Base.{
  ℕ, zero, suc, ◌+◌, ◌-◌, ◌/◌, ◌%◌, Bool, true, false, not, ◌&&◌, ◌||◌, List, [], ◌∷◌, ltb, ◌==◌,
  if◌then◌else◌,
}
use demos_os.Base.Run.{Run, ok, fault, out_of_fuel, ◌>>=◌}
use demos_os.Pcb.{Ptr, null, process_ready, process_waiting_uart_input, Pcb}
use demos_os.Sched.{Kernel, modify_pcb, set_state, enqueue_process}
use demos_os.Sched.Tick.{schedule}

-- `UART_BUFFER_SIZE`
abbrev pub uart_buffer_size : ℕ
uart_buffer_size = 64

-- `uart_buffer`, its indices and `uart_owner`.
pub record Uart : Type 0 where
  pub buffer : ℕ → ℕ
  pub head : ℕ
  pub tail : ℕ
  pub owner : Ptr

-- A received byte is dropped if the buffer is full.
unfoldable pub push_char : Uart → ℕ → Uart
push_char u c =
    let next_head = (u.head + 1) % uart_buffer_size in
    if next_head == u.tail
    then u
    else record u { buffer = λ i. if i == u.head then c else u.buffer i; head = next_head }

-- Slots `i` on, `rounds` of them: wakes the processes that wait for input. The code reads the state
-- through every slot below `n_processes`.
pub wake_readers : (rounds i : ℕ) → Kernel → Run Kernel
wake_readers zero i k = ok k
wake_readers (suc rounds) i k =
    let p = k.processes i in
    let woken =
      if (k.mem p).state == process_waiting_uart_input
      then enqueue_process (modify_pcb k p (set_state process_ready)) p
      else ok k in
    if p == null then fault else (woken >>= λ k'. wake_readers rounds (i + 1) k')

-- The receive interrupt for one byte that came without an error.
unfoldable pub receive_char : ℕ → Uart → Kernel → Run (Uart × Kernel)
receive_char c u k = wake_readers k.n_processes 0 k >>= λ k'. ok (push_char u c, k')

-- The caller's buffer and the characters in it.
pub record LineBuffer : Type 0 where
  pub chars : ℕ → ℕ
  pub current_len : ℕ

abbrev pub put_char : LineBuffer → ℕ → ℕ → LineBuffer
put_char b i c = record b { chars = λ j. if j == i then c else b.chars j }

-- One character of the line: carriage return and line feed end it, 0x7F deletes, any other one is
-- kept if there is room.
pub data Edit : Type 0 where
  complete : LineBuffer → Edit
  more : LineBuffer → Edit

unfoldable pub edit_line : (max_len : ℕ) → LineBuffer → ℕ → Edit
edit_line max_len b c =
    let n = b.current_len in
    let shorter : LineBuffer = record b { current_len = n - 1 } in
    let longer : LineBuffer = record (put_char b n c) { current_len = n + 1 } in
    if c == 13 || c == 10
    then complete (put_char b n 0)
    else if c == 127
    then (if n == 0 then more b else more (put_char shorter (n - 1) 0))
    else if ltb n max_len
    then more (put_char longer (n + 1) 0)
    else more b

-- What the inner loop leaves: the line is complete, or the receive buffer is empty.
pub data Input : Type 0 where
  line : LineBuffer → Uart → Input
  wait : LineBuffer → Uart → Input

-- `while (uart_tail != uart_head)`
unfoldable pub drain_chars : ℕ → (max_len : ℕ) → LineBuffer → Uart → Run Input
drain_chars zero max_len b u = out_of_fuel
drain_chars (suc fuel) max_len b u =
    let u' : Uart = record u { tail = (u.tail + 1) % uart_buffer_size } in
    let released : Uart = record u' { owner = null } in
    let next : Run Input = elim (edit_line max_len b (u.buffer u.tail)) [
      | complete b' ↦ ok (line b' released)
      | more b' ↦ drain_chars fuel max_len b' u'
    ] in
    if u.tail == u.head then ok (wait b u) else next

-- `(len > 0) ? len - 1 : 0`. For a length of 0 the terminator goes to place 0 all the same, which is
-- outside the caller's buffer.
abbrev pub max_line : ℕ → ℕ
max_line len = len - 1

-- What one attempt of `syscall_input` leaves: the line and its length, or the process gave up the CPU
-- and tries again when it runs, with what it has so far.
pub data Typed : Type 0 where
  typed : (current_len : ℕ) → LineBuffer → Uart → Kernel → Typed
  blocked : LineBuffer → Uart → Kernel → Typed

-- `while (uart_owner != NULL && uart_owner != current_process) schedule()`: one round, and the take-over.
unfoldable pub claim_uart : Uart → Kernel → Run (Bool × Uart × Kernel)
claim_uart u k =
    let taken : Uart = record u { owner = k.current_process } in
    let wait = schedule k >>= λ k'. ok (false, u, k') in
    if not (u.owner == null) && not (u.owner == k.current_process)
    then wait
    else ok (true, taken, k)

-- One round of the outer loop of `syscall_input`, for the owner of the UART. The bytes that are typed
-- back are not modelled.
unfoldable pub input_round : (len : ℕ) → LineBuffer → Uart → Kernel → Run Typed
input_round len b u k =
    let waiting = modify_pcb k k.current_process (set_state process_waiting_uart_input) in
    let sleep = λ (b₁ : LineBuffer) (u₁ : Uart). schedule waiting >>= λ k'. ok (blocked b₁ u₁ k') in
    let drained = drain_chars uart_buffer_size (max_line len) b u >>= λ input. elim input [
      | line b' u' ↦ ok (typed b'.current_len b' u' k)
      | wait b' u' ↦ sleep b' u'
    ] in
    if u.head == u.tail then sleep b u else drained

-- What the loop over the receive FIFO does to the buffer and the kernel when it finds the words
-- `fifo`: one with an error bit is dropped.
unfoldable pub receive_all : (fifo : List ℕ) → Uart → Kernel → Run (Uart × Kernel)
receive_all [] u k = ok (u, k)
receive_all (dr ∷ fifo) u k =
    let err = (dr / 256) % 16 in
    let received = receive_char (dr % 256) u k >>= λ (u', k'). receive_all fifo u' k' in
    let dropped = receive_all fifo u k in if err == 0 then received else dropped
