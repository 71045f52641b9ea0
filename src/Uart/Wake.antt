-- ===== src/Uart/Wake.antt =====
-- A received byte, and the processes that it wakes, against the invariant of the scheduler.
use mathlib.Core.Path.{subst}
use demos_os.Base.{
  ℕ, zero, suc, ◌+◌, ◌≤◌, ◌≡◌, sym, ◌∙◌, List, ◌++◌, arith, ◌==◌, if◌then◌else◌, refl, false,
}
use demos_os.Base.Run.{ok, Returns, Returns-bind, Returns-mono}
use demos_os.Pcb.{Ptr, null, process_ready, process_running, process_waiting_uart_input}
use demos_os.Sched.{Kernel, current, modify_pcb, set_state, enqueue_process}
use demos_os.Sched.Invariant.{Inv}
use demos_os.Sched.Invariant.Wake.{Stays, Stays-refl, Stays-trans, wake_blocked-Stays}
use demos_os.Syscalls.Calls.{Safe}
use demos_os.Uart.{Uart, wake_readers, receive_char, push_char}

-- The slots that the loop reads are filled, and the current process waits for nothing.
pub wake_readers-Stays :
    (rounds i hold : ℕ) (k : Kernel) (xs : List Ptr)
    → i + rounds ≤ k.n_processes
    → (current k).state ≡ process_running
    → Inv hold k xs
    → Returns (Stays hold k xs) (wake_readers rounds i k)
unfolding wake_readers
wake_readers-Stays zero i hold k xs few runs v = Stays-refl hold k xs v
wake_readers-Stays (suc rounds) i hold k xs few runs v =
    let p = k.processes i in
    let (low, ne) = v.filled i (omega arith) in
    let present : (p == null) ≡ false = ground arith in
    let woken =
      if (k.mem p).state == process_waiting_uart_input
      then enqueue_process (modify_pcb k p (set_state process_ready)) p
      else ok k in
    let round : Returns (Stays hold k xs) woken =
      wake_blocked-Stays process_waiting_uart_input hold k xs p (omega arith) (omega arith)
        (i, low, refl, ne) runs v in
    rw present (
      Returns-bind (Stays hold k xs) (Stays hold k xs) woken (λ k'. wake_readers rounds (i + 1) k')
        round
        (λ k₁ s.
          let ys = xs ++ s.joined in
          let few' : i + 1 + rounds ≤ k₁.n_processes =
            subst (λ n. i + 1 + rounds ≤ n) (sym s.count) (omega arith) in
          Returns-mono (Stays hold k₁ ys) (Stays hold k xs) (wake_readers rounds (i + 1) k₁)
            (wake_readers-Stays rounds (i + 1) hold k₁ ys few' (s.state ∙ runs) s.inv)
            (λ k' t. Stays-trans hold k k₁ k' xs s t)))

Stays-Safe :
    (k : Kernel) (xs : List Ptr) (k' : Kernel)
    → (current k).state ≡ process_running
    → Stays 0 k xs k'
    → Safe k'
Stays-Safe k xs k' runs s = ((xs ++ s.joined, s.inv), s.state ∙ runs)

pub receive_char-Safe :
    (c : ℕ) (u : Uart) (k : Kernel) → Safe k → Returns (λ (_, k'). Safe k') (receive_char c u k)
unfolding receive_char
receive_char-Safe c u k ((xs, v), runs) =
    Returns-bind (Stays 0 k xs) (λ (_, k'). Safe k') (wake_readers k.n_processes 0 k)
      (λ k'. ok (push_char u c, k'))
      (wake_readers-Stays k.n_processes 0 0 k xs (omega arith) runs v)
      (λ k' s. Stays-Safe k xs k' runs s)
