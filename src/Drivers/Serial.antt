-- ===== src/Drivers/Serial.antt =====
-- The output and the blocking input of drivers/uart/uart.c. A string is the list of its characters in
-- front of the terminator. `Serial.Output` proves what is sent, `Serial.Hex` what a number looks like,
-- `Serial.Receive` holds the interrupt handler, `Serial.Setup` the initialisation.
pub mod Output
pub mod Hex
pub mod Receive
pub mod Setup
use Prim.Native.Char.{code}
use Prim.Native.String.{String}
use demos_os.Base.{ℕ, zero, suc, ◌+◌, ◌-◌, ◌*◌, ◌/◌, ◌%◌, ◌^◌, List, [], ◌∷◌, ltb, if◌then◌else◌}
use demos_os.Base.Bits.{test_bit}
use demos_os.Base.Run.{Run, ok, out_of_fuel, ◌>>=◌}
use demos_os.Drivers.{Bus, mmio_read, mmio_write}

-- The registers of UART0.
abbrev pub uart0_dr : ℕ
uart0_dr = 0x20_1000

abbrev pub uart0_fr : ℕ
uart0_fr = 0x20_1018

-- The flags of the register FR: nothing was received, and there is no room to send.
abbrev pub receive_empty_bit : ℕ
receive_empty_bit = 4

abbrev pub transmit_full_bit : ℕ
transmit_full_bit = 5

-- The characters of a fixed text.
abbrev pub text : String → List ℕ
text String.[] = []
text (String.◌∷◌ c s) = code c ∷ text s

-- The character that stands at an index below 16 of "0123456789ABCDEF".
abbrev pub hex_digit : ℕ → ℕ
hex_digit nibble = if ltb nibble 10 then b'0' + nibble else b'A' + nibble - 10

-- The digits that are left when `rounds` of them are: the shifts `4 * rounds - 4`, ..., 4, 0.
unfoldable pub hex_digits : (rounds : ℕ) → (num : ℕ) → List ℕ
hex_digits zero num = []
hex_digits (suc rounds) num = hex_digit (num / 2 ^ (4 * rounds) % 16) ∷ hex_digits rounds num

module _ {D : Type 0} (bus : Bus D) (polls : ℕ) where
  -- Reads FR until the bit is clear, at most `rounds` times.
  unfoldable pub wait_while_set : (rounds bit : ℕ) → D → Run D
  wait_while_set zero bit d = out_of_fuel
  wait_while_set (suc rounds) bit d =
      let (flags, d') = mmio_read bus uart0_fr d in
      let rest = wait_while_set rounds bit d' in if test_bit flags bit then rest else ok d'

  unfoldable pub uart_putc : (c : ℕ) → D → Run D
  uart_putc c d =
      wait_while_set polls transmit_full_bit d >>= λ d'. ok (mmio_write bus uart0_dr (c % 256) d')

  unfoldable pub uart_getc : D → Run (ℕ × D)
  uart_getc d = wait_while_set polls receive_empty_bit d >>= λ d'.
      let (value, d'') = mmio_read bus uart0_dr d' in ok (value % 256, d'')

  unfoldable pub uart_puts : List ℕ → D → Run D
  uart_puts [] d = ok d
  uart_puts (c ∷ str) d = uart_putc c d >>= λ d'. uart_puts str d'

  -- `putc`
  abbrev pub putc : (c : ℕ) → D → Run D
  putc c d = uart_putc c d

  -- An `unsigned long` is printed with all its sixteen digits.
  unfoldable pub uart_hex : (num : ℕ) → D → Run D
  uart_hex num d = uart_puts (text "0x") d >>= λ d'. uart_puts (hex_digits 16 num) d'
