-- ===== src/Events.antt =====
-- What enters the kernel: interrupts and system calls, one after the other, with the hardware in
-- whatever state it is by then.
use demos_os.Base.{Bool, true, false, ℕ, ◌<◌, List, [], ◌∷◌, length}
use demos_os.Base.Run.{
  Run, ok, ◌>>=◌, Returns, Returns-bind, Whenever, Whenever-all, Returns-Whenever,
}
use demos_os.Sched.Tick.{set_irq}
use demos_os.Sched.Invariant.Keep.{set_irq-Inv}
use demos_os.Syscalls.Calls.{Safe}
use demos_os.Drivers.Interrupts.{handle_irq}
use demos_os.Drivers.Interrupts.Keep.{handle_irq-Safe}
use demos_os.Drivers.Serial.Output.{Transmitter}
use demos_os.Drivers.Serial.Receive.Fifo.{Receiver}
use demos_os.Dispatch.{Outside, Served, returned, waiting, syscall_dispatcher, with_kernel}
use demos_os.Dispatch.Numbers.{call_of}
use demos_os.Dispatch.State.{System, Registers}
use demos_os.Dispatch.Keep.{SafeServed, SoundNumber, syscall_dispatcher-Safe}

-- The vectors of drivers/irq/entry.S lead to `handle_irq` and `syscall_dispatcher`. An event comes with
-- the state of the hardware, and a call with the saved registers of its process. An interrupt in the
-- middle of a call, which the entry of a call allows, is not modelled.
pub data Event (D : Type 0) : Type 0 where
  interrupt : D → Event D
  call : Registers → D → Event D

module _ {D Fat : Type 0} (out : Outside D Fat) (rounds : ℕ) where
  -- The state behind a call, whether it is over or not.
  abbrev pub left_by : Served D Fat → System D Fat
  left_by (returned regs s) = s
  left_by (waiting s) = s

  abbrev pub switched : (enabled : Bool) → System D Fat → System D Fat
  switched enabled s = with_kernel out s (set_irq enabled s.files.kernel)

  -- A call runs with the interrupts on.
  unfoldable pub run_event : Event D → System D Fat → Run (System D Fat)
  run_event (interrupt d) s =
      handle_irq out.bus out.polls rounds d s.uart s.files.kernel >>= λ (d', u, k).
      ok (record (with_kernel out s k) { device = d'; uart = u })
  run_event (call regs d) s =
      syscall_dispatcher out regs (switched true (record s { device = d })) >>= λ served.
      ok (switched false (left_by served))

  abbrev pub run_events : List (Event D) → System D Fat → Run (System D Fat)
  run_events [] s = ok s
  run_events (e ∷ es) s = run_event e s >>= λ s'. run_events es s'

  module _ (t : Transmitter out.bus out.polls) (r : Receiver out.bus) where
    -- The UART holds fewer received words than the fuel, and a call is one of those on processes, with
    -- sound arguments.
    abbrev pub SoundEvent : Event D → System D Fat → Type 0
    SoundEvent (interrupt d) s = length (r.found d) < rounds
    SoundEvent (call regs d) s =
        SoundNumber out t r (call_of (regs 8)) regs (switched true (record s { device = d }))

    -- Every event is sound in the state that it finds.
    abbrev pub SoundEvents : List (Event D) → System D Fat → Type 0
    SoundEvents [] s = Unit
    SoundEvents (e ∷ es) s = SoundEvent e s × Whenever (λ s'. SoundEvents es s') (run_event e s)

    -- An event that is sound in every state, in front of events that are.
    pub SoundEvents-cons :
        (e : Event D) (es : List (Event D))
        → ((s : System D Fat) → SoundEvent e s)
        → ((s : System D Fat) → SoundEvents es s)
        → (s : System D Fat) → SoundEvents (e ∷ es) s
    SoundEvents-cons e es now later s =
        (now s, Whenever-all (λ s'. SoundEvents es s') (run_event e s) later)

    abbrev pub SafeSystem : System D Fat → Type 0
    SafeSystem s = Safe s.files.kernel

    switched-Safe :
        (enabled : Bool) (s : System D Fat) → SafeSystem s → SafeSystem (switched enabled s)
    switched-Safe enabled s ((xs, v), runs) = ((xs, set_irq-Inv enabled s.files.kernel xs v), runs)

    run_event-Safe :
        (e : Event D) (s : System D Fat)
        → SoundEvent e s
        → SafeSystem s
        → Returns SafeSystem (run_event e s)
    unfolding run_event
    run_event-Safe (interrupt d) s few safe =
        Returns-bind (λ (_, _, k). Safe k) SafeSystem
          (handle_irq out.bus out.polls rounds d s.uart s.files.kernel)
          (λ (d', u, k). ok (record (with_kernel out s k) { device = d'; uart = u }))
          (handle_irq-Safe out.bus out.polls t r rounds d s.uart s.files.kernel few safe)
          (λ (d', u, k) safe'. safe')
    run_event-Safe (call regs d) s h safe =
        let s' : System D Fat = switched true (record s { device = d }) in
        Returns-bind SafeServed SafeSystem (syscall_dispatcher out regs s')
          (λ served. ok (switched false (left_by served)))
          (syscall_dispatcher-Safe out t r regs s' h
            (switched-Safe true (record s { device = d }) safe))
          (λ served. elim served as (λ z. SafeServed z → SafeSystem (switched false (left_by z))) [
            | returned regs' s'' ↦ λ safe'. switched-Safe false s'' safe'
            | waiting s'' ↦ λ safe'. switched-Safe false s'' safe'
          ])

    -- From a state in which, under round robin, the invariant of the scheduler holds and the current
    -- process runs, every sequence of interrupts and of system calls returns and leaves such a state.
    -- The interrupts are those of the timer and the UART, with any words received, and unknown ones; the
    -- calls, by the numbers in the saved registers, are those for output, time, memory, exit, yield,
    -- wait, signals, parameters and the pid, a text having a terminator and a flag of a signal no sign,
    -- and all numbers that are no call.
    pub run_events-Safe :
        (es : List (Event D)) (s : System D Fat)
        → SoundEvents es s
        → SafeSystem s
        → Returns SafeSystem (run_events es s)
    run_events-Safe [] s sound safe = safe
    run_events-Safe (e ∷ es) s (sound, later) safe =
        Returns-bind (λ s'. SafeSystem s' × SoundEvents es s') SafeSystem (run_event e s)
          (λ s'. run_events es s')
          (Returns-Whenever SafeSystem (λ s'. SoundEvents es s') (run_event e s)
            (run_event-Safe e s sound safe) later)
          (λ s' (safe', sound'). run_events-Safe es s' sound' safe')
