-- ===== src/Drivers/Serial/Receive/Keep.antt =====
-- The interrupt handler of the UART against the invariant of the scheduler.
use mathlib.Core.Path.{subst}
use demos_os.Base.{
  ℕ, zero, suc, ◌%◌, ◌^◌, ◌<◌, ◌≡◌, refl, ◌∙◌, List, [], ◌∷◌, arith, ◌==◌, Bool-cases, List-cases,
  inl, inr, length,
}
use demos_os.Base.Bits.{test_bit, clear_bit}
use demos_os.Base.Run.{ok, ◌>>=◌, Returns, Returns-bind}
use demos_os.Sched.{Kernel}
use demos_os.Syscalls.Calls.{Safe}
use demos_os.Uart.{Uart, receive_char}
use demos_os.Uart.Wake.{receive_char-Safe}
use demos_os.Drivers.{Bus, mmio_read, mmio_write}
use demos_os.Drivers.Serial.{uart0_dr, uart0_fr, text, uart_putc, uart_puts}
use demos_os.Drivers.Serial.Setup.{uart0_imsc, uart0_icr}
use demos_os.Drivers.Serial.Output.{Transmitter}
use demos_os.Drivers.Serial.Receive.{
  uart0_mis, error_flags, report_error, receive_fifo, echo_fifo, receive_part, transmit_part,
  timeout_part, handle_uart_irq,
}
use demos_os.Drivers.Serial.Receive.Fifo.{
  Receiver, Kept, uart_putc-Kept, uart_puts-Kept, report_error-Kept,
}

module _ {D : Type 0} (bus : Bus D) (polls : ℕ) (t : Transmitter bus polls) (r : Receiver bus) where
  -- The receiver has no more words than `rounds` allows, and the kernel is safe.
  abbrev pub Few : (rounds : ℕ) → D × Uart × Kernel → Type 0
  Few rounds (d, u, k) = (length (r.found d) < rounds) × Safe k

  -- What a loop finds behind its first two accesses.
  taken :
      (rounds : ℕ) (d : D) (w : ℕ) (ws : List ℕ)
      → r.found d ≡ w ∷ ws
      → length (r.found d) < suc rounds
      → let d₁ = (mmio_read bus uart0_fr d).1 in
        ((mmio_read bus uart0_dr d₁).0 ≡ w)
        × (length (r.found (mmio_read bus uart0_dr d₁).1) < rounds)
  taken rounds d w ws e few =
      let d₁ = (mmio_read bus uart0_fr d).1 in
      let (first, left) = r.gives d₁ w ws (r.read_keeps uart0_fr d (omega arith) ∙ e) in
      let count : length (w ∷ ws) < suc rounds = subst (λ l. length l < suc rounds) e few in
      (first, rw left (omega (arith, count)))

  still_few :
      (rounds : ℕ) (d d' : D)
      → Kept bus polls t r d d'
      → length (r.found d) < rounds
      → length (r.found d') < rounds
  still_few rounds d d' kept few = rw kept few

  receive_fifo-Few :
      (rounds : ℕ) (d : D) (u : Uart) (k : Kernel)
      → Few rounds (d, u, k)
      → Returns (Few 1) (receive_fifo bus polls rounds d u k)
  unfolding receive_fifo
  receive_fifo-Few zero d u k (few, safe) = absurd (omega arith)
  receive_fifo-Few (suc rounds) d u k (few, safe) =
      let d₁ = (mmio_read bus uart0_fr d).1 in
      let d₂ = (mmio_read bus uart0_dr d₁).1 in
      let kept : r.found d₁ ≡ r.found d = r.read_keeps uart0_fr d (omega arith) in
      elim (List-cases (r.found d)) [
        | inl none ↦
            let end : r.found d₁ ≡ [] = kept ∙ none in
            rw (r.shows_empty d, none, receive_fifo) (rw end (omega arith), safe)
        | inr (w, ws, e) ↦
            let (first, fewer) = taken rounds d w ws e few in
            elim (Bool-cases (error_flags w == 0)) [
              | inl clean ↦
                  rw (r.shows_empty d, e, first, clean, receive_fifo)
                    (Returns-bind (λ (_, k'). Safe k') (Few 1) (receive_char (w % 256) u k)
                      (λ (u', k'). receive_fifo bus polls rounds d₂ u' k')
                      (receive_char-Safe (w % 256) u k safe)
                      (λ (u', k') safe'. receive_fifo-Few rounds d₂ u' k' (fewer, safe')))
              | inr broken ↦
                  rw (r.shows_empty d, e, first, broken, receive_fifo)
                    (Returns-bind (Kept bus polls t r d₂) (Few 1)
                      (report_error bus polls (error_flags w) d₂)
                      (λ d₃. receive_fifo bus polls rounds d₃ u k)
                      (report_error-Kept bus polls t r (error_flags w) d₂)
                      (λ d₃ same.
                        receive_fifo-Few rounds d₃ u k (still_few rounds d₂ d₃ same fewer, safe)))
            ]
      ]

  echo_fifo-Returns :
      (rounds : ℕ) (d : D)
      → length (r.found d) < rounds
      → Returns (λ _. Unit) (echo_fifo bus polls rounds d)
  unfolding echo_fifo
  echo_fifo-Returns zero d few = absurd (omega arith)
  echo_fifo-Returns (suc rounds) d few =
      let d₁ = (mmio_read bus uart0_fr d).1 in
      let d₂ = (mmio_read bus uart0_dr d₁).1 in
      elim (List-cases (r.found d)) [
        | inl none ↦ rw (r.shows_empty d, none, echo_fifo) tt
        | inr (w, ws, e) ↦
            let (first, fewer) = taken rounds d w ws e few in
            rw (r.shows_empty d, e, first, echo_fifo)
              (Returns-bind (Kept bus polls t r d₂) (λ _. Unit) (uart_putc bus polls (w % 256) d₂)
                (λ d₃. uart_puts bus polls (text "\n") d₃ >>= λ d₄. echo_fifo bus polls rounds d₄)
                (uart_putc-Kept bus polls t r (w % 256) d₂)
                (λ d₃ same.
                  Returns-bind (Kept bus polls t r d₃) (λ _. Unit)
                    (uart_puts bus polls (text "\n") d₃) (λ d₄. echo_fifo bus polls rounds d₄)
                    (uart_puts-Kept bus polls t r (text "\n") d₃)
                    (λ d₄ same'.
                      echo_fifo-Returns rounds d₄
                        (still_few rounds d₃ d₄ same' (still_few rounds d₂ d₃ same fewer)))))
      ]

  receive_part-Few :
      (mis rounds : ℕ) (d : D) (u : Uart) (k : Kernel)
      → 0 < rounds
      → Few rounds (d, u, k)
      → Returns (Few rounds) (receive_part bus polls mis rounds d u k)
  unfolding receive_part
  receive_part-Few mis rounds d u k some_round h = elim (Bool-cases (test_bit mis 4)) [
    | inl came ↦ rw came (
        Returns-bind (Few 1) (Few rounds) (receive_fifo bus polls rounds d u k)
          (λ (d', u', k'). ok (mmio_write bus uart0_icr (2 ^ 4) d', u', k'))
          (receive_fifo-Few rounds d u k h)
          (λ (d', u', k') (few, safe).
            let same = r.write_keeps uart0_icr (2 ^ 4) d' (omega arith) (omega arith) in
            (rw same (omega arith), safe)))
    | inr quiet ↦ rw quiet h
  ]

  transmit_part-Kept : (mis : ℕ) (d : D) → Kept bus polls t r d (transmit_part bus polls mis d)
  unfolding transmit_part
  transmit_part-Kept mis d =
      let d₁ = (mmio_read bus uart0_imsc d).1 in
      let cleared = clear_bit (mmio_read bus uart0_imsc d).0 5 in
      let d₂ = mmio_write bus uart0_imsc cleared d₁ in
      let e₁ = r.read_keeps uart0_imsc d (omega arith) in
      let e₂ = r.write_keeps uart0_imsc cleared d₁ (omega arith) (omega arith) in
      let e₃ = r.write_keeps uart0_icr (2 ^ 5) d₂ (omega arith) (omega arith) in
      elim (Bool-cases (test_bit mis 5)) [
        | inl sends ↦ rw sends (e₃ ∙ e₂ ∙ e₁)
        | inr quiet ↦ rw quiet refl
      ]

  timeout_part-Returns :
      (mis rounds : ℕ) (d : D)
      → length (r.found d) < rounds
      → Returns (λ _. Unit) (timeout_part bus polls mis rounds d)
  unfolding timeout_part
  timeout_part-Returns mis rounds d few = elim (Bool-cases (test_bit mis 6)) [
    | inl late ↦ rw late (
        Returns-bind (Kept bus polls t r d) (λ _. Unit)
          (uart_puts bus polls (text ": timeout\r\n") d)
          (λ d₁. echo_fifo bus polls rounds d₁ >>= λ d₂. ok (mmio_write bus uart0_icr (2 ^ 6) d₂))
          (uart_puts-Kept bus polls t r (text ": timeout\r\n") d)
          (λ d₁ same.
            Returns-bind (λ _. Unit) (λ _. Unit) (echo_fifo bus polls rounds d₁)
              (λ d₂. ok (mmio_write bus uart0_icr (2 ^ 6) d₂))
              (echo_fifo-Returns rounds d₁ (still_few rounds d d₁ same few)) (λ d₂ _. tt)))
    | inr quiet ↦ rw quiet tt
  ]

  -- The interrupt of the UART returns: its loops end within a round for each word and one more.
  pub handle_uart_irq-Safe :
      (rounds : ℕ) (d : D) (u : Uart) (k : Kernel)
      → Few rounds (d, u, k)
      → Returns (λ (_, _, k'). Safe k') (handle_uart_irq bus polls rounds d u k)
  unfolding handle_uart_irq
  handle_uart_irq-Safe rounds d u k (few, safe) =
      let mis = (mmio_read bus uart0_mis d).0 in
      let d₁ = (mmio_read bus uart0_mis d).1 in
      let same : r.found d₁ ≡ r.found d = r.read_keeps uart0_mis d (omega arith) in
      Returns-bind (Few rounds) (λ (_, _, k'). Safe k') (receive_part bus polls mis rounds d₁ u k)
        (λ (d₂, u', k').
          timeout_part bus polls mis rounds (transmit_part bus polls mis d₂) >>= λ d₃.
          ok (d₃, u', k'))
        (receive_part-Few mis rounds d₁ u k (omega arith) (still_few rounds d d₁ same few, safe))
        (λ (d₂, u', k') (few₂, safe').
          let d₂' = transmit_part bus polls mis d₂ in
          Returns-bind (λ _. Unit) (λ (_, _, k'). Safe k') (timeout_part bus polls mis rounds d₂')
            (λ d₃. ok (d₃, u', k'))
            (timeout_part-Returns mis rounds d₂'
              (still_few rounds d₂ d₂' (transmit_part-Kept mis d₂) few₂))
            (λ d₃ _. safe'))
