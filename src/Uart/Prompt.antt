-- ===== src/Uart/Prompt.antt =====
-- One round of `syscall_input` of libs/syscalls.c under the invariant of the scheduler.
use demos_os.Base.{ℕ, ◌<◌, ◌≤◌, ◌≡◌, refl, Bool-cases, inl, inr, List, arith, ◌==◌}
use demos_os.Base.Run.{ok, ◌>>=◌, Returns, Returns-bind}
use demos_os.Pcb.{Ptr, process_waiting_uart_input}
use demos_os.Sched.{Kernel, modify_pcb, set_state}
use demos_os.Sched.Tick.{schedule}
use demos_os.Sched.Invariant.{Inv}
use demos_os.Sched.Invariant.Turn.{Turn, schedule-Turn}
use demos_os.Uart.{
  uart_buffer_size, Uart, LineBuffer, Input, line, wait, drain_chars, max_line, Typed, typed,
  blocked, input_round,
}
use demos_os.Uart.Line.{Fits, InBuffer, Drained, drain_chars-Drained}

-- From `b` to `b'` no place outside the caller's `len` bytes is written, and the text fits, with a place
-- for the terminator.
abbrev pub Within : (len : ℕ) → (b b' : LineBuffer) → Type 0
Within len b b' = (b'.current_len < len) × ((i : ℕ) → len ≤ i → b'.chars i ≡ b.chars i)

Fits-Within : (len : ℕ) (b b' : LineBuffer) → 0 < len → Fits (max_line len) b b' → Within len b b'
Fits-Within len b b' some_room (short, same) = (omega arith, λ i out. same i (omega arith))

-- What a round leaves: the finished line, with its terminator and the kernel as it was; or a text
-- that fits so far, an empty receive buffer, and another choice of the scheduler.
abbrev pub Rounded : (len : ℕ) → LineBuffer → Uart → Kernel → List Ptr → Typed → Type 0
Rounded len b u k xs (typed n b' u' k') =
    Within len b b' × (n ≡ b'.current_len) × (b'.chars n ≡ 0) × (k' ≡ k)
Rounded len b u k xs (blocked b' u' k') = Within len b b' × (u'.tail ≡ u'.head) × Turn k xs k'

-- Behind the loop over the received characters.
Drained-Rounded :
    (len : ℕ) (b : LineBuffer) (u : Uart) (k : Kernel) (xs : List Ptr) (o : Input)
    → 0 < len
    → Drained (max_line len) b u o
    → ((b' : LineBuffer) (u' : Uart)
        → Fits (max_line len) b b'
        → u'.tail ≡ u'.head
        → Returns (Rounded len b u k xs) (
            schedule (modify_pcb k k.current_process (set_state process_waiting_uart_input))
            >>= λ k'. ok (blocked b' u' k')))
    → Returns (Rounded len b u k xs) (elim o [
      | line b' u' ↦ ok (typed b'.current_len b' u' k)
      | wait b' u' ↦
          (schedule (modify_pcb k k.current_process (set_state process_waiting_uart_input))
            >>= λ k'. ok (blocked b' u' k'))
    ])
Drained-Rounded len b u k xs (line b' u') room (fits, z, less) sleep =
    (Fits-Within len b b' room fits, refl, z, refl)
Drained-Rounded len b u k xs (wait b' u') room (fits, e) sleep = sleep b' u' fits e

-- Under round robin and the invariant of the scheduler, for a caller's buffer of `len` bytes, at least
-- one, with the indices inside the receive buffer and a text so far that leaves room for its
-- terminator, one round of the input ends and writes nothing outside the `len` bytes: either it hands
-- out the line with its terminator, or the receive buffer is empty and the scheduler gives the CPU to
-- a process that runs, with its invariant.
pub input_round-Rounded :
    (len : ℕ) (b : LineBuffer) (u : Uart) (k : Kernel) (xs : List Ptr)
    → 0 < len
    → InBuffer u
    → b.current_len ≤ max_line len
    → Inv 0 k xs
    → Returns (Rounded len b u k xs) (input_round len b u k)
unfolding input_round
input_round-Rounded len b u k xs room v small inv =
    let f = set_state process_waiting_uart_input in
    let k₁ = modify_pcb k k.current_process f in
    let sleep : (b' : LineBuffer) (u' : Uart)
        → Fits (max_line len) b b'
        → u'.tail ≡ u'.head
        → Returns (Rounded len b u k xs) (schedule k₁ >>= λ k'. ok (blocked b' u' k')) =
      λ b' u' fits e.
        Returns-bind (Turn k xs) (Rounded len b u k xs) (schedule k₁) (λ k'. ok (blocked b' u' k'))
          (schedule-Turn k xs f (λ c. (refl, refl)) (λ c. (refl, refl)) inv)
          (λ k' t. (Fits-Within len b b' room fits, e, t)) in
    elim (Bool-cases (u.head == u.tail)) [
      | inl empty ↦ rw empty (sleep b u (small, λ i out. refl) (ground arith))
      | inr filled ↦ rw filled (
          Returns-bind (Drained (max_line len) b u) (Rounded len b u k xs)
            (drain_chars uart_buffer_size (max_line len) b u) _
            (drain_chars-Drained uart_buffer_size (max_line len) b u v (ground arith) small)
            (λ o d. Drained-Rounded len b u k xs o room d sleep))
    ]
