-- ===== src/Ipc/Signals.antt =====
-- `send_signal` of libs/ipc.c and `handle_process_signals` of libs/scheduler.c: the pending bits.
use demos_os.Base.{ℕ, ◌+◌, ◌≡◌, ◌≢◌, true, arith, if◌then◌else◌}
use demos_os.Base.Int.{ℤ}
use demos_os.Base.Run.{Returns}
use demos_os.Base.Bits.{test_bit}
use demos_os.Pcb.{
  Ptr, process_stopped, process_zombie, signal_kill, signal_stop, signal_resume, Pcb,
}
use demos_os.Sched.{Kernel, handle_process_signals}
use demos_os.Sched.Signals.{handle_process_signals-settle}
use demos_os.Ipc.{send_signal}

-- The three signals: sending one sets its bit, and keeps the other two.
pub send_signal-bits :
    (k : Kernel) (p : Ptr)
    → let pending = λ (s : ℤ × Kernel). (s.1.mem p).pending_signals in
      (test_bit (pending (send_signal k p signal_kill)) signal_kill ≡ true)
      × (test_bit (pending (send_signal k p signal_stop)) signal_stop ≡ true)
      × (test_bit (pending (send_signal k p signal_resume)) signal_resume ≡ true)
      × (test_bit (pending (send_signal k p signal_stop)) signal_kill
          ≡ test_bit (k.mem p).pending_signals signal_kill)
      × (test_bit (pending (send_signal k p signal_resume)) signal_kill
          ≡ test_bit (k.mem p).pending_signals signal_kill)
unfolding send_signal
send_signal-bits k p = (ground arith, ground arith, ground arith, ground arith, ground arith)

-- The state that one handling leads to, and the mask of the signal that it takes.
abbrev pub state_after : Pcb → ℕ
state_after c =
    if test_bit c.pending_signals signal_kill
    then process_zombie
    else if test_bit c.pending_signals signal_stop
    then process_stopped
    else c.state

abbrev pub taken : ℕ → ℕ
taken pending =
    if test_bit pending signal_kill
    then 2
    else if test_bit pending signal_stop
    then 4
    else if test_bit pending signal_resume
    then 8
    else 0

-- Of a process that is not stopped, one handling takes at most one pending signal: a kill goes before
-- a stop and a stop before a resume. A kill makes it a zombie, a stop suspends it, a resume leaves
-- its state. The other pending signals stay, and so does every other PCB.
pub handle_process_signals-order :
    (k : Kernel) (p : Ptr)
    → (k.mem p).state ≢ process_stopped
    → Returns
        (λ k'.
          ((k'.mem p).state ≡ state_after (k.mem p))
          × ((k'.mem p).pending_signals + taken (k.mem p).pending_signals
              ≡ (k.mem p).pending_signals)
          × ((a : Ptr) → a ≢ p → k'.mem a ≡ k.mem a))
        (handle_process_signals k p)
handle_process_signals-order k p h =
    rw (handle_process_signals-settle k p h) (ground arith, ground arith, λ a ne. ground arith)
