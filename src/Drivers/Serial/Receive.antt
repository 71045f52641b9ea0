-- ===== src/Drivers/Serial/Receive.antt =====
-- `handle_uart_irq` of drivers/uart/uart.c over the registers. `Receive.Fifo` compares its loop
-- with `receive_all` of `Uart` on the words that the receiver holds.
pub mod Fifo
pub mod Keep
use demos_os.Base.{ℕ, zero, suc, ◌+◌, ◌/◌, ◌%◌, ◌^◌, Bool, List, [], ◌∷◌, ◌==◌, if◌then◌else◌}
use demos_os.Base.Bits.{test_bit, clear_bit}
use demos_os.Base.Run.{Run, ok, out_of_fuel, ◌>>=◌}
use demos_os.Sched.{Kernel}
use demos_os.Uart.{Uart, receive_char}
use demos_os.Drivers.{Bus, mmio_read, mmio_write}
use demos_os.Drivers.Serial.{
  uart0_dr, uart0_fr, receive_empty_bit, text, uart_putc, uart_puts, uart_hex,
}
use demos_os.Drivers.Serial.Setup.{uart0_imsc, uart0_icr}

abbrev pub uart0_mis : ℕ
uart0_mis = 0x20_1040

-- The error flags of a word from DR.
abbrev pub error_flags : ℕ → ℕ
error_flags dr = (dr / 2 ^ 8) % 16

-- `\r\n`
abbrev pub line_end : List ℕ
line_end = 13 ∷ 10 ∷ []

module _ {D : Type 0} (bus : Bus D) (polls : ℕ) where
  unfoldable pub report_error : (err : ℕ) → D → Run D
  report_error err d = uart_puts bus polls (text "UART RX error ") d >>= λ d₁.
      uart_hex bus polls err d₁ >>= λ d₂. uart_puts bus polls line_end d₂

  -- The loop of the receive interrupt, over `rounds` words at most.
  unfoldable pub receive_fifo : (rounds : ℕ) → D → Uart → Kernel → Run (D × Uart × Kernel)
  receive_fifo zero d u k = out_of_fuel
  receive_fifo (suc rounds) d u k =
      let (flags, d₁) = mmio_read bus uart0_fr d in
      let (dr, d₂) = mmio_read bus uart0_dr d₁ in
      let received = receive_char (dr % 256) u k >>= λ (u', k'). receive_fifo rounds d₂ u' k' in
      let dropped = report_error (error_flags dr) d₂ >>= λ d₃. receive_fifo rounds d₃ u k in
      if test_bit flags receive_empty_bit
      then ok (d₁, u, k)
      else if error_flags dr == 0
      then received
      else dropped

  -- The loop of the receive timeout: the characters are typed back, and no process gets them.
  unfoldable pub echo_fifo : (rounds : ℕ) → D → Run D
  echo_fifo zero d = out_of_fuel
  echo_fifo (suc rounds) d =
      let (flags, d₁) = mmio_read bus uart0_fr d in
      let (dr, d₂) = mmio_read bus uart0_dr d₁ in
      let typed = uart_putc bus polls (dr % 256) d₂ >>= λ d₃.
      uart_puts bus polls (text "\n") d₃ >>= λ d₄. echo_fifo rounds d₄ in
      if test_bit flags receive_empty_bit then ok d₁ else typed

  -- The parts of the handler: a byte came, there is room to send, a byte waits for too long.
  unfoldable pub receive_part : (mis : ℕ) (rounds : ℕ) → D → Uart → Kernel → Run (D × Uart × Kernel)
  receive_part mis rounds d u k =
      let all = receive_fifo rounds d u k >>= λ (d', u', k').
      ok (mmio_write bus uart0_icr (2 ^ 4) d', u', k') in
      if test_bit mis 4 then all else ok (d, u, k)

  unfoldable pub transmit_part : (mis : ℕ) → D → D
  transmit_part mis d =
      let (imsc, d') = mmio_read bus uart0_imsc d in
      let masked =
        mmio_write bus uart0_icr (2 ^ 5) (mmio_write bus uart0_imsc (clear_bit imsc 5) d') in
      if test_bit mis 5 then masked else d

  unfoldable pub timeout_part : (mis : ℕ) (rounds : ℕ) → D → Run D
  timeout_part mis rounds d =
      let all = uart_puts bus polls (text ": timeout\r\n") d >>= λ d₁.
      echo_fifo rounds d₁ >>= λ d₂. ok (mmio_write bus uart0_icr (2 ^ 6) d₂) in
      if test_bit mis 6 then all else ok d

  unfoldable pub handle_uart_irq : (rounds : ℕ) → D → Uart → Kernel → Run (D × Uart × Kernel)
  handle_uart_irq rounds d u k =
      let (mis, d₁) = mmio_read bus uart0_mis d in
      receive_part mis rounds d₁ u k >>= λ (d₂, u', k').
      timeout_part mis rounds (transmit_part mis d₂) >>= λ d₃. ok (d₃, u', k')
