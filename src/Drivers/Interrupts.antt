-- ===== src/Drivers/Interrupts.antt =====
-- drivers/irq/controller.c: which interrupts reach the processor, and what one of them does.
-- `Interrupts.Keep` shows it against the invariant of the scheduler.
pub mod Keep
use demos_os.Base.{ℕ, ◌+◌, ◌*◌, ◌^◌, List, [], ◌∷◌, if◌then◌else◌, ltb, get_or}
use demos_os.Base.Bits.{test_bit, set_bit}
use demos_os.Base.Run.{Run, ok, fault, ◌>>=◌}
use demos_os.Sched.{Kernel, current}
use demos_os.Uart.{Uart}
use demos_os.Drivers.{Bus, mmio_read, mmio_write}
use demos_os.Drivers.Serial.{text, uart_puts, uart_hex}
use demos_os.Drivers.Serial.Receive.{handle_uart_irq, line_end}
use demos_os.Drivers.Timer.{handle_timer_irq}

abbrev pub irq_pending_1 : ℕ
irq_pending_1 = 0xb204

abbrev pub irq_pending_2 : ℕ
irq_pending_2 = 0xb208

abbrev pub enable_irqs_1 : ℕ
enable_irqs_1 = 0xb210

abbrev pub enable_irqs_2 : ℕ
enable_irqs_2 = 0xb214

-- `SYSTEM_TIMER_IRQ_1` and `UART0_IRQ_BIT`.
abbrev pub system_timer_irq_bit : ℕ
system_timer_irq_bit = 1

abbrev pub uart0_irq_bit : ℕ
uart0_irq_bit = 25

abbrev pub entry_error_messages : List (List ℕ)
entry_error_messages =
    text "SYNC_INVALID_EL1t"
    ∷ text "IRQ_INVALID_EL1t"
    ∷ text "FIQ_INVALID_EL1t"
    ∷ text "ERROR_INVALID_EL1T"
    ∷ text "SYNC_INVALID_EL1h"
    ∷ text "IRQ_INVALID_EL1h"
    ∷ text "FIQ_INVALID_EL1h"
    ∷ text "ERROR_INVALID_EL1h"
    ∷ text "SYNC_INVALID_EL0_64"
    ∷ text "IRQ_INVALID_EL0_64"
    ∷ text "FIQ_INVALID_EL0_64"
    ∷ text "ERROR_INVALID_EL0_64"
    ∷ text "SYNC_INVALID_EL0_32"
    ∷ text "IRQ_INVALID_EL0_32"
    ∷ text "FIQ_INVALID_EL0_32"
    ∷ text "ERROR_INVALID_EL0_32"
    ∷ []

module _ {D : Type 0} (bus : Bus D) (polls : ℕ) where
  unfoldable pub enable_interrupt_controller : D → D
  enable_interrupt_controller d =
      let (v1, d₁) = mmio_read bus enable_irqs_1 d in
      let (v2, d₂) =
        mmio_read bus enable_irqs_2
          (mmio_write bus enable_irqs_1 (set_bit v1 system_timer_irq_bit) d₁) in
      mmio_write bus enable_irqs_2 (set_bit v2 uart0_irq_bit) d₂

  -- The texts and the numbers one after the other.
  abbrev pub label : List ℕ → (num : ℕ) → D → Run D
  label str num d = uart_puts bus polls str d >>= λ d'. uart_hex bus polls num d'

  -- A type that has no message is a read behind the array.
  unfoldable pub show_invalid_entry_message : (type esr address : ℕ) → Kernel → D → Run D
  show_invalid_entry_message type esr address k d =
      let shown = uart_puts bus polls (text "[KERNEL PANIC] ") d >>= λ d₁.
      uart_puts bus polls (get_or entry_error_messages type []) d₁ >>= λ d₂.
      label (text ", ESR: ") esr d₂ >>= λ d₃. label (text ", address: ") address d₃ >>= λ d₄.
      label (text ", process: ") (current k).pid d₄ >>= λ d₅. uart_puts bus polls line_end d₅ in
      if ltb type 16 then shown else fault

  unfoldable pub show_unknown : (p1 p2 : ℕ) → D → Run D
  show_unknown p1 p2 d = label (text "Unknown pending irq: ") (p1 * 2 ^ 32 + p2) d >>= λ d'.
      uart_puts bus polls line_end d'

  -- The timer comes before the UART, whose interrupt stays pending until the next one. `rounds` is the
  -- fuel of the loops over the receive FIFO.
  unfoldable pub handle_irq : (rounds : ℕ) → D → Uart → Kernel → Run (D × Uart × Kernel)
  handle_irq rounds d u k =
      let (p1, d₁) = mmio_read bus irq_pending_1 d in
      let (p2, d₂) = mmio_read bus irq_pending_2 d₁ in
      let tick = handle_timer_irq bus d₂ k >>= λ (_, d', k'). ok (d', u, k') in
      let unknown = show_unknown p1 p2 d₂ >>= λ d'. ok (d', u, k) in
      if test_bit p1 system_timer_irq_bit
      then tick
      else if test_bit p2 uart0_irq_bit
      then handle_uart_irq bus polls rounds d₂ u k
      else unknown
