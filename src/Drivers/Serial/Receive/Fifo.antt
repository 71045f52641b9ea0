-- ===== src/Drivers/Serial/Receive/Fifo.antt =====
-- The loop over the receive FIFO, for a receiver that gives its words one by one.
use mathlib.Core.Path.{subst}
use demos_os.Base.{
  ℕ, zero, suc, ◌-◌, ◌%◌, ◌<◌, ◌≡◌, ◌≢◌, refl, ap, ◌∙◌, List, [], ◌∷◌, arith, ltb, ◌==◌, Bool, true,
  false, Bool-cases, List-cases, inl, inr, length,
}
use demos_os.Base.Bits.{test_bit}
use demos_os.Base.Run.{
  Run, ok, ◌>>=◌, Returns, Returns-bind, Returns-mono, Returns-value, bind_assoc, bind_cong,
}
use demos_os.Sched.{Kernel}
use demos_os.Uart.{Uart, receive_char, receive_all}
use demos_os.Drivers.{Bus, mmio_read, mmio_write}
use demos_os.Drivers.Serial.{
  uart0_dr, uart0_fr, receive_empty_bit, transmit_full_bit, wait_while_set, text, uart_putc,
  uart_puts, uart_hex, hex_digits,
}
use demos_os.Drivers.Serial.Setup.{uart0_cr, uart0_lcrh}
use demos_os.Drivers.Serial.Output.{Transmitter}
use demos_os.Drivers.Serial.Receive.{receive_fifo, report_error, error_flags, line_end}

abbrev pub is_empty : List ℕ → Bool
is_empty [] = true
is_empty (w ∷ ws) = false

-- A receiver: the words that the handler will find in it. FR shows whether there is one, a read of DR
-- takes the first, and no other access takes one, the set-up of the line by LCRH and CR apart.
pub record Receiver {D : Type 0} (bus : Bus D) : Type 0 where
  pub found : D → List ℕ
  pub shows_empty :
      (d : D) → test_bit (mmio_read bus uart0_fr d).0 receive_empty_bit ≡ is_empty (found d)
  pub read_keeps : (reg : ℕ) (d : D) → reg ≢ uart0_dr → found (mmio_read bus reg d).1 ≡ found d
  pub write_keeps :
      (reg value : ℕ) (d : D)
      → reg ≢ uart0_lcrh
      → reg ≢ uart0_cr
      → found (mmio_write bus reg value d) ≡ found d
  pub gives :
      (d : D) (w : ℕ) (ws : List ℕ)
      → found d ≡ w ∷ ws
      → ((mmio_read bus uart0_dr d).0 ≡ w) × (found (mmio_read bus uart0_dr d).1 ≡ ws)

module _ {D : Type 0} (bus : Bus D) (polls : ℕ) (t : Transmitter bus polls) (r : Receiver bus) where
  -- The words stay.
  abbrev pub Kept : D → D → Type 0
  Kept d d' = r.found d' ≡ r.found d

  pub Kept-bind :
      (run : Run D) (f : D → Run D) (d : D)
      → Returns (Kept d) run
      → ((d₁ : D) → Returns (Kept d₁) (f d₁))
      → Returns (Kept d) (run >>= f)
  Kept-bind run f d h next =
      Returns-bind (Kept d) (Kept d) run f h
        (λ d₁ e. Returns-mono (Kept d₁) (Kept d) (f d₁) (next d₁) (λ d' e'. e' ∙ e))

  wait_while_set-Kept :
      (rounds : ℕ) (d : D)
      → t.busy d < rounds
      → Returns (Kept d) (wait_while_set bus polls rounds transmit_full_bit d)
  unfolding wait_while_set
  wait_while_set-Kept zero d h = absurd (omega arith)
  wait_while_set-Kept (suc rounds) d h =
      let d₁ = (mmio_read bus uart0_fr d).1 in
      let fewer : t.busy d₁ ≡ t.busy d - 1 = t.counts_down d in
      let same : r.found d₁ ≡ r.found d = r.read_keeps uart0_fr d (omega arith) in
      elim (Bool-cases (ltb 0 (t.busy d))) [
        | inl full ↦
            rw (t.shows_full d, full, wait_while_set)
              (Returns-mono (Kept d₁) (Kept d)
                (wait_while_set bus polls rounds transmit_full_bit d₁)
                (wait_while_set-Kept rounds d₁ (ground arith)) (λ d' e. e ∙ same))
        | inr room ↦ rw (t.shows_full d, room, wait_while_set) same
      ]

  pub uart_putc-Kept : (c : ℕ) (d : D) → Returns (Kept d) (uart_putc bus polls c d)
  unfolding uart_putc
  uart_putc-Kept c d =
      Kept-bind (wait_while_set bus polls polls transmit_full_bit d)
        (λ d'. ok (mmio_write bus uart0_dr (c % 256) d')) d
        (wait_while_set-Kept polls d (t.patient d))
        (λ d₁. r.write_keeps uart0_dr (c % 256) d₁ (omega arith) (omega arith))

  pub uart_puts-Kept : (str : List ℕ) (d : D) → Returns (Kept d) (uart_puts bus polls str d)
  unfolding uart_puts
  uart_puts-Kept [] d = refl
  uart_puts-Kept (c ∷ str) d =
      Kept-bind (uart_putc bus polls c d) (λ d'. uart_puts bus polls str d') d (uart_putc-Kept c d)
        (λ d₁. uart_puts-Kept str d₁)

  pub uart_hex-Kept : (num : ℕ) (d : D) → Returns (Kept d) (uart_hex bus polls num d)
  unfolding uart_hex
  uart_hex-Kept num d =
      Kept-bind (uart_puts bus polls (text "0x") d)
        (λ d'. uart_puts bus polls (hex_digits 16 num) d') d (uart_puts-Kept (text "0x") d)
        (λ d₁. uart_puts-Kept (hex_digits 16 num) d₁)

  pub report_error-Kept : (err : ℕ) (d : D) → Returns (Kept d) (report_error bus polls err d)
  unfolding report_error
  report_error-Kept err d =
      Kept-bind (uart_puts bus polls (text "UART RX error ") d)
        (λ d₁. uart_hex bus polls err d₁ >>= λ d₂. uart_puts bus polls line_end d₂) d
        (uart_puts-Kept (text "UART RX error ") d)
        (λ d₁.
          Kept-bind (uart_hex bus polls err d₁) (λ d₂. uart_puts bus polls line_end d₂) d₁
            (uart_hex-Kept err d₁) (λ d₂. uart_puts-Kept line_end d₂))

  -- What the loop does to the driver's state and the kernel.
  abbrev pub without_device : D × Uart × Kernel → Run (Uart × Kernel)
  without_device (d, u, k) = ok (u, k)

  -- With a round for each word and one more, the loop over the registers does to the receive buffer
  -- and the kernel what the loop over the list of the words does, also where that faults.
  pub receive_fifo-receive_all :
      (rounds : ℕ) (d : D) (u : Uart) (k : Kernel)
      → length (r.found d) < rounds
      → (receive_fifo bus polls rounds d u k >>= without_device) ≡ receive_all (r.found d) u k
  unfolding receive_fifo receive_all
  receive_fifo-receive_all zero d u k few = absurd (omega arith)
  receive_fifo-receive_all (suc rounds) d u k few =
      let d₁ = (mmio_read bus uart0_fr d).1 in
      let d₂ = (mmio_read bus uart0_dr d₁).1 in
      let kept : r.found d₁ ≡ r.found d = r.read_keeps uart0_fr d (omega arith) in
      elim (List-cases (r.found d)) [
        | inl none ↦ rw (r.shows_empty d, none, receive_fifo) refl
        | inr (w, ws, e) ↦
            let (first, left) = r.gives d₁ w ws (kept ∙ e) in
            let count : length (w ∷ ws) < suc rounds = subst (λ l. length l < suc rounds) e few in
            let fewer : length (r.found d₂) < rounds = rw left (omega (arith, count)) in
            let again : (u' : Uart) (k' : Kernel)
                → (receive_fifo bus polls rounds d₂ u' k' >>= without_device)
                  ≡ receive_all ws u' k' =
              λ u' k'.
                receive_fifo-receive_all rounds d₂ u' k' fewer
                ∙ ap (λ l. receive_all l u' k') left in
            elim (Bool-cases (error_flags w == 0)) [
              | inl clean ↦
                  rw (r.shows_empty d, e, first, clean, receive_fifo)
                    (bind_assoc (receive_char (w % 256) u k)
                        (λ (u', k'). receive_fifo bus polls rounds d₂ u' k') without_device
                      ∙ bind_cong (receive_char (w % 256) u k)
                          (λ (u', k'). receive_fifo bus polls rounds d₂ u' k' >>= without_device)
                          (λ (u', k'). receive_all ws u' k') (λ (u', k'). again u' k'))
              | inr broken ↦
                  let (d₃, done, kept₃) =
                    Returns-value (Kept d₂) (report_error bus polls (error_flags w) d₂)
                      (report_error-Kept (error_flags w) d₂) in
                  let fewer₃ : length (r.found d₃) < rounds =
                    rw (kept₃, left) (omega (arith, count)) in
                  rw (r.shows_empty d, e, first, broken, done, receive_fifo)
                    (receive_fifo-receive_all rounds d₃ u k fewer₃
                      ∙ ap (λ l. receive_all l u k) (kept₃ ∙ left))
            ]
      ]
