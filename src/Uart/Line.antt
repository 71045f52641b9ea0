-- ===== src/Uart/Line.antt =====
-- The line input of `syscall_input` of libs/syscalls.c: its end, and the places that it writes.
use demos_os.Base.{
  ℕ, zero, suc, ◌+◌, ◌-◌, ◌%◌, ◌<◌, ◌≤◌, ◌≡◌, refl, false, Bool-cases, inl, inr, arith, ◌==◌, ◌∙◌,
}
use demos_os.Base.Run.{ok, Returns, Returns-mono}
use demos_os.Pcb.{null}
use demos_os.Uart.{
  uart_buffer_size, Uart, LineBuffer, Edit, complete, more, edit_line, Input, line, wait,
  drain_chars,
}

-- From `b` to `b'` nothing behind place `max_len` is written, and the text fits.
abbrev pub Fits : (max_len : ℕ) → (b b' : LineBuffer) → Type 0
Fits max_len b b' = (b'.current_len ≤ max_len) × ((i : ℕ) → max_len < i → b'.chars i ≡ b.chars i)

-- A complete line has its terminator.
abbrev pub Edited : (max_len : ℕ) → LineBuffer → Edit → Type 0
Edited max_len b (complete b') = Fits max_len b b' × (b'.chars b'.current_len ≡ 0)
Edited max_len b (more b') = Fits max_len b b'

pub edit_line-Edited :
    (max_len : ℕ) (b : LineBuffer) (c : ℕ)
    → b.current_len ≤ max_len
    → Edited max_len b (edit_line max_len b c)
unfolding edit_line
edit_line-Edited max_len b c h = ground arith

-- How many characters wait in the receive buffer.
abbrev pub pending : Uart → ℕ
pending u = (u.head + uart_buffer_size - u.tail) % uart_buffer_size

abbrev pub InBuffer : Uart → Type 0
InBuffer u = (u.head < uart_buffer_size) × (u.tail < uart_buffer_size)

abbrev pub Drained : (max_len : ℕ) → LineBuffer → Uart → Input → Type 0
Drained max_len b u (line b' u') =
    Fits max_len b b' × (b'.chars b'.current_len ≡ 0) × (pending u' < pending u)
Drained max_len b u (wait b' u') = Fits max_len b b' × (u'.tail ≡ u'.head)

-- The receive buffer behind one character that is read.
abbrev advanced : Uart → Uart
advanced u = record u { tail = (u.tail + 1) % uart_buffer_size }

pending-advanced :
    (u : Uart) → InBuffer u → (u.tail == u.head) ≡ false → pending (advanced u) < pending u
pending-advanced u v ne = ground arith

Drained-trans :
    (max_len : ℕ) (b b₁ : LineBuffer) (u : Uart) (o : Input)
    → pending (advanced u) < pending u
    → Fits max_len b b₁
    → Drained max_len b₁ (advanced u) o
    → Drained max_len b u o
Drained-trans max_len b b₁ u (line b' u') less (s, f) ((s', f'), z, p) =
    ((s', λ i out. f' i out ∙ f i out), z, omega arith)
Drained-trans max_len b b₁ u (wait b' u') less (s, f) ((s', f'), e) =
    ((s', λ i out. f' i out ∙ f i out), e)

-- The body of the loop, for what the character makes of the line.
drain_rest :
    (fuel max_len : ℕ) (b : LineBuffer) (u : Uart) (o : Edit)
    → pending (advanced u) < pending u
    → Edited max_len b o
    → ((b' : LineBuffer)
        → b'.current_len ≤ max_len
        → Returns (Drained max_len b' (advanced u)) (drain_chars fuel max_len b' (advanced u)))
    → Returns (Drained max_len b u) (elim o [
      | complete b' ↦ ok (line b' (record (advanced u) { owner = null }))
      | more b' ↦ drain_chars fuel max_len b' (advanced u)
    ])
drain_rest fuel max_len b u (complete b') less (f, z) rest = (f, z, less)
drain_rest fuel max_len b u (more b') less f rest =
    Returns-mono (Drained max_len b' (advanced u)) (Drained max_len b u)
      (drain_chars fuel max_len b' (advanced u)) (rest b' f.0)
      (λ o d. Drained-trans max_len b b' u o less f d)

-- If the indices of the receive buffer are inside it and the text so far fits, the loop that reads the
-- pending characters ends when there is more fuel than characters. Either the
-- line is complete, with its terminator, or the receive buffer is empty; in both cases the text fits
-- and nothing behind place `max_len` is written.
pub drain_chars-Drained :
    (fuel max_len : ℕ) (b : LineBuffer) (u : Uart)
    → InBuffer u
    → pending u < fuel
    → b.current_len ≤ max_len
    → Returns (Drained max_len b u) (drain_chars fuel max_len b u)
unfolding drain_chars
drain_chars-Drained zero max_len b u v h small = absurd (omega arith)
drain_chars-Drained (suc fuel) max_len b u v h small = elim (Bool-cases (u.tail == u.head)) [
  | inl e ↦ rw (e, drain_chars) ((small, λ i out. refl), ground arith)
  | inr e ↦
      rw (e, drain_chars)
        (drain_rest fuel max_len b u (edit_line max_len b (u.buffer u.tail))
          (pending-advanced u v e) (edit_line-Edited max_len b (u.buffer u.tail) small)
          (λ b' small'.
            drain_chars-Drained fuel max_len b' (advanced u) (omega arith, omega arith)
              (ground (arith, pending-advanced u v e)) small'))
]
