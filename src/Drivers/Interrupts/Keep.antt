-- ===== src/Drivers/Interrupts/Keep.antt =====
-- Every interrupt against the invariant of the scheduler.
use demos_os.Base.{ℕ, ◌+◌, ◌*◌, ◌^◌, ◌<◌, ◌≡◌, ◌∙◌, arith, Bool-cases, inl, inr, length}
use demos_os.Base.Bits.{test_bit}
use demos_os.Base.Run.{ok, ◌>>=◌, Returns, Returns-bind}
use demos_os.Sched.{Kernel}
use demos_os.Sched.Tick.{handle_timer_tick}
use demos_os.Syscalls.Calls.{Safe, tick}
use demos_os.Syscalls.Calls.Turns.{run_call-Safe}
use demos_os.Uart.{Uart}
use demos_os.Drivers.{Bus, mmio_read, mmio_write}
use demos_os.Drivers.Serial.{text, uart_puts, uart_hex}
use demos_os.Drivers.Serial.Output.{Transmitter}
use demos_os.Drivers.Serial.Receive.{line_end}
use demos_os.Drivers.Serial.Receive.Fifo.{Receiver, Kept, Kept-bind, uart_puts-Kept, uart_hex-Kept}
use demos_os.Drivers.Serial.Receive.Keep.{handle_uart_irq-Safe}
use demos_os.Drivers.Timer.{arm_timer, handle_timer_irq, timer_cs, timer_cs_m1}
use demos_os.Drivers.Interrupts.{
  irq_pending_1, irq_pending_2, system_timer_irq_bit, uart0_irq_bit, show_unknown, handle_irq,
}

module _ {D : Type 0} (bus : Bus D) (polls : ℕ) (t : Transmitter bus polls) (r : Receiver bus) where
  show_unknown-Kept :
      (p1 p2 : ℕ) (d : D) → Returns (Kept bus polls t r d) (show_unknown bus polls p1 p2 d)
  unfolding show_unknown
  show_unknown-Kept p1 p2 d =
      let words = text "Unknown pending irq: " in
      let num = p1 * 2 ^ 32 + p2 in
      Kept-bind bus polls t r (uart_puts bus polls words d >>= λ d'. uart_hex bus polls num d')
        (λ d'. uart_puts bus polls line_end d') d
        (Kept-bind bus polls t r (uart_puts bus polls words d) (λ d'. uart_hex bus polls num d') d
          (uart_puts-Kept bus polls t r words d) (λ d₁. uart_hex-Kept bus polls t r num d₁))
        (λ d₁. uart_puts-Kept bus polls t r line_end d₁)

  -- Over a UART that is full for fewer than `polls` reads of FR at a time and holds fewer than `rounds`
  -- received words: from a kernel in which, under round robin, the invariant of the scheduler holds and
  -- the current process runs, every interrupt returns and leaves such a kernel, that of the timer, that
  -- of the UART, with or without errors on the line, and an unknown one.
  pub handle_irq-Safe :
      (rounds : ℕ) (d : D) (u : Uart) (k : Kernel)
      → length (r.found d) < rounds
      → Safe k
      → Returns (λ (_, _, k'). Safe k') (handle_irq bus polls rounds d u k)
  unfolding handle_irq handle_timer_irq
  handle_irq-Safe rounds d u k few safe =
      let (p1, d₁) = mmio_read bus irq_pending_1 d in
      let (p2, d₂) = mmio_read bus irq_pending_2 d₁ in
      let kept : r.found d₂ ≡ r.found d =
        r.read_keeps irq_pending_2 d₁ (omega arith) ∙ r.read_keeps irq_pending_1 d (omega arith) in
      let armed = arm_timer bus (mmio_write bus timer_cs timer_cs_m1 d₂) in
      elim (Bool-cases (test_bit p1 system_timer_irq_bit)) [
        | inl timer ↦ rw timer (
            Returns-bind (λ (_, _, k'). Safe k') (λ (_, _, k'). Safe k')
              (handle_timer_tick k >>= λ k'. ok (armed.0, armed.1, k'))
              (λ (_, d', k'). ok (d', u, k'))
              (Returns-bind Safe (λ (_, _, k'). Safe k') (handle_timer_tick k)
                (λ k'. ok (armed.0, armed.1, k')) (run_call-Safe tick k safe) (λ k' s. s))
              (λ (_, d', k') s. s))
        | inr none ↦ elim (Bool-cases (test_bit p2 uart0_irq_bit)) [
          | inl uart ↦
              rw (none, uart) (handle_uart_irq-Safe bus polls t r rounds d₂ u k (rw kept few, safe))
          | inr other ↦
              rw (none, other)
                (Returns-bind (Kept bus polls t r d₂) (λ (_, _, k'). Safe k')
                  (show_unknown bus polls p1 p2 d₂) (λ d'. ok (d', u, k))
                  (show_unknown-Kept p1 p2 d₂) (λ d' _. safe))
        ]
      ]
