-- ===== src/Ipc/Print.antt =====
-- `print_circular_buffer` of libs/ipc.c.
use demos_os.Base.{ℕ, zero, suc, ◌+◌}
use demos_os.Base.Run.{Run, ok, ◌>>=◌}
use demos_os.Pcb.{MessagesCircularBuffer, max_messages_per_process}
use demos_os.Drivers.{Bus}
use demos_os.Drivers.Serial.{text, uart_puts, uart_hex}

module _ {D : Type 0} (bus : Bus D) (polls : ℕ) where
  -- The places from the `i`-th on, `rounds` of them, each with its body.
  unfoldable pub print_messages : (rounds i : ℕ) → MessagesCircularBuffer → D → Run D
  print_messages zero i buffer d = ok d
  print_messages (suc rounds) i buffer d = uart_hex bus polls i d >>= λ d₁.
      uart_puts bus polls (text "\t") d₁ >>= λ d₂.
      uart_puts bus polls (buffer.buffer i).body d₂ >>= λ d₃.
      uart_puts bus polls (text "\n") d₃ >>= λ d₄. print_messages rounds (i + 1) buffer d₄

  unfoldable pub print_circular_buffer : MessagesCircularBuffer → D → Run D
  print_circular_buffer buffer d = uart_puts bus polls (text "[BUFFER] Head: ") d >>= λ d₁.
      uart_hex bus polls buffer.head d₁ >>= λ d₂.
      uart_puts bus polls (text " | Tail: ") d₂ >>= λ d₃.
      uart_hex bus polls buffer.tail d₃ >>= λ d₄. uart_puts bus polls (text "\n") d₄ >>= λ d₅.
      print_messages max_messages_per_process 0 buffer d₅
