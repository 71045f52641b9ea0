-- ===== src/Drivers/Serial/Setup.antt =====
-- `uart_init` of drivers/uart/uart.c.
use demos_os.Base.{ℕ, ◌+◌, ◌*◌, ◌^◌, List, [], ◌∷◌}
use demos_os.Base.Run.{Run, ok, ◌>>=◌}
use demos_os.Drivers.{Bus, mmio_read, mmio_write}
use demos_os.Drivers.Mailbox.{Mailbox, mbox_call, mbox_ch_prop, set_words}

abbrev pub uart0_ibrd : ℕ
uart0_ibrd = 0x20_1024

abbrev pub uart0_fbrd : ℕ
uart0_fbrd = 0x20_1028

abbrev pub uart0_lcrh : ℕ
uart0_lcrh = 0x20_102c

abbrev pub uart0_cr : ℕ
uart0_cr = 0x20_1030

abbrev pub uart0_imsc : ℕ
uart0_imsc = 0x20_1038

abbrev pub uart0_icr : ℕ
uart0_icr = 0x20_1044

-- The macros `GPPUD` and `GPPUDCLK0` of arch/mmio.h point to these registers.
abbrev pub gppud : ℕ
gppud = 0x20_0094

abbrev pub gppudclk0 : ℕ
gppudclk0 = 0x20_0098

-- `MBOX_TAG_SETCLKRATE`, with the request that sets the rate of the UART's clock.
abbrev pub clock_request : List ℕ
clock_request = 9 * 4 ∷ 0 ∷ 0x3_8002 ∷ 12 ∷ 8 ∷ 2 ∷ 30000000 ∷ 0 ∷ 0 ∷ []

-- `delay` is assembly that changes no state but the time: it is a parameter.
module _ {D : Type 0} (bus : Bus D) (mbox : Mailbox D) (polls : ℕ)
    (delay : (cycles : ℕ) → D → D) where
  -- `mmio_write(*REG, value)`: the register is read, and what it holds is the offset that is written.
  unfoldable pub write_through : (reg value : ℕ) → D → D
  write_through reg value d =
      let (offset, d') = mmio_read bus reg d in mmio_write bus offset value d'

  unfoldable pub uart_init : D → Run D
  uart_init d =
      let d₁ = delay 150 (write_through gppud 0 (mmio_write bus uart0_cr 0 d)) in
      let d₂ = delay 150 (write_through gppudclk0 (2 ^ 14 + 2 ^ 15) d₁) in
      let d₃ = mmio_write bus uart0_icr 0x7ff (write_through gppudclk0 0 d₂) in
      mbox_call bus mbox polls mbox_ch_prop (set_words bus mbox polls 0 clock_request d₃)
      >>= λ (_, d₄).
          let d₅ = mmio_write bus uart0_fbrd 40 (mmio_write bus uart0_ibrd 1 d₄) in
          let d₆ = mmio_write bus uart0_lcrh (2 ^ 4 + 2 ^ 5 + 2 ^ 6) d₅ in
          let mask = 2 ^ 1 + 2 ^ 4 + 2 ^ 5 + 2 ^ 6 + 2 ^ 7 + 2 ^ 8 + 2 ^ 9 + 2 ^ 10 in
          ok (mmio_write bus uart0_cr (2 ^ 0 + 2 ^ 8 + 2 ^ 9) (mmio_write bus uart0_imsc mask d₆))
