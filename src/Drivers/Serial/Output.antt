-- ===== src/Drivers/Serial/Output.antt =====
-- What the output functions send, for a transmitter that has room again after some reads of FR.
use demos_os.Base.{
  ℕ, zero, suc, ◌-◌, ◌<◌, ◌%◌, ◌^◌, ◌≡◌, sym, ◌∙◌, List, [], ◌∷◌, ◌++◌, append_assoc, arith, ltb,
  Bool-cases, inl, inr, append-nil,
}
use demos_os.Base.Bits.{test_bit}
use demos_os.Base.Run.{ok, Returns, Returns-bind, Returns-mono}
use demos_os.Drivers.{Bus, mmio_read, mmio_write}
use demos_os.Drivers.Serial.{
  uart0_dr, uart0_fr, transmit_full_bit, wait_while_set, uart_putc, uart_puts,
}

-- A transmitter: the bytes it has taken, and how many reads of FR will still find it full. FR shows
-- whether it is, a read of FR takes no byte, and a byte written to DR while it has room is taken.
pub record Transmitter {D : Type 0} (bus : Bus D) (polls : ℕ) : Type 0 where
  pub sent : D → List ℕ
  pub busy : D → ℕ
  pub patient : (d : D) → busy d < polls
  pub shows_full :
      (d : D) → test_bit (mmio_read bus uart0_fr d).0 transmit_full_bit ≡ ltb 0 (busy d)
  pub counts_down : (d : D) → busy (mmio_read bus uart0_fr d).1 ≡ busy d - 1
  pub read_sends_nothing : (d : D) → sent (mmio_read bus uart0_fr d).1 ≡ sent d
  pub takes :
      (d : D) (c : ℕ)
      → busy d ≡ 0
      → sent (mmio_write bus uart0_dr c d) ≡ sent d ++ (c % 2 ^ 32) ∷ []

-- The bytes of a string: the characters as `unsigned char`.
abbrev pub as_bytes : List ℕ → List ℕ
as_bytes [] = []
as_bytes (c ∷ str) = c % 256 ∷ as_bytes str

module _ {D : Type 0} (bus : Bus D) (polls : ℕ) (t : Transmitter bus polls) where
  abbrev Free : D → D → Type 0
  Free d d' = (t.busy d' ≡ 0) × (t.sent d' ≡ t.sent d)

  wait_while_set-Free :
      (rounds : ℕ) (d : D)
      → t.busy d < rounds
      → Returns (Free d) (wait_while_set bus polls rounds transmit_full_bit d)
  unfolding wait_while_set
  wait_while_set-Free zero d h = absurd (omega arith)
  wait_while_set-Free (suc rounds) d h =
      let d₁ = (mmio_read bus uart0_fr d).1 in
      let fewer : t.busy d₁ ≡ t.busy d - 1 = t.counts_down d in
      let same : t.sent d₁ ≡ t.sent d = t.read_sends_nothing d in
      elim (Bool-cases (ltb 0 (t.busy d))) [
        | inl full ↦
            rw (t.shows_full d, full, wait_while_set)
              (Returns-mono (Free d₁) (Free d)
                (wait_while_set bus polls rounds transmit_full_bit d₁)
                (wait_while_set-Free rounds d₁ (ground arith)) (λ d' (e, s). (e, s ∙ same)))
        | inr room ↦ rw (t.shows_full d, room, wait_while_set) (ground arith, same)
      ]

  uart_putc-sent :
      (c : ℕ) (d : D)
      → Returns (λ d'. t.sent d' ≡ t.sent d ++ (c % 256) ∷ []) (uart_putc bus polls c d)
  unfolding uart_putc
  uart_putc-sent c d =
      Returns-bind (Free d) (λ d'. t.sent d' ≡ t.sent d ++ (c % 256) ∷ [])
        (wait_while_set bus polls polls transmit_full_bit d)
        (λ d'. ok (mmio_write bus uart0_dr (c % 256) d'))
        (wait_while_set-Free polls d (t.patient d))
        (λ d' (e, s).
          let small : (c % 256) % 2 ^ 32 ≡ c % 256 = omega arith in
          let taken : t.sent (mmio_write bus uart0_dr (c % 256) d')
              ≡ t.sent d' ++ ((c % 256) % 2 ^ 32) ∷ [] =
            t.takes d' (c % 256) e in
          cc)

  -- Over a transmitter that is full for fewer than `polls` reads of FR at a time, `uart_puts`
  -- returns, and it has sent the bytes of the string, in order, and nothing else.
  pub uart_puts-sent :
      (str : List ℕ) (d : D)
      → Returns (λ d'. t.sent d' ≡ t.sent d ++ as_bytes str) (uart_puts bus polls str d)
  unfolding uart_puts
  uart_puts-sent [] d = sym (append-nil (t.sent d))
  uart_puts-sent (c ∷ str) d =
      Returns-bind (λ d'. t.sent d' ≡ t.sent d ++ (c % 256) ∷ [])
        (λ d'. t.sent d' ≡ t.sent d ++ as_bytes (c ∷ str)) (uart_putc bus polls c d)
        (λ d'. uart_puts bus polls str d') (uart_putc-sent c d)
        (λ d₁ e.
          Returns-mono (λ d'. t.sent d' ≡ t.sent d₁ ++ as_bytes str)
            (λ d'. t.sent d' ≡ t.sent d ++ as_bytes (c ∷ str)) (uart_puts bus polls str d₁)
            (uart_puts-sent str d₁)
            (λ d' s. cc (s, e, append_assoc (t.sent d) ((c % 256) ∷ []) (as_bytes str))))
