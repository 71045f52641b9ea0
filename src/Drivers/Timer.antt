-- ===== src/Drivers/Timer.antt =====
-- drivers/timer/timer.c: the tick of the system timer.
use demos_os.Base.{ℕ, ◌+◌, ◌%◌, ◌^◌, ◌<◌, ◌≡◌, ◌≢◌, arith}
use demos_os.Base.Run.{Run, ok, ◌>>=◌, Returns, Returns-bind}
use demos_os.Sched.{Kernel}
use demos_os.Sched.Tick.{handle_timer_tick}
use demos_os.Syscalls.Calls.{Safe, tick}
use demos_os.Syscalls.Calls.Turns.{run_call-Safe}
use demos_os.Drivers.{Bus, mmio_read, mmio_write}

abbrev pub timer_cs : ℕ
timer_cs = 0x3000

abbrev pub timer_clo : ℕ
timer_clo = 0x3004

abbrev pub timer_c1 : ℕ
timer_c1 = 0x3010

-- `TIMER_CS_M1`
abbrev pub timer_cs_m1 : ℕ
timer_cs_m1 = 2

-- `TIMER_PERIOD`, in microseconds.
abbrev pub timer_period : ℕ
timer_period = 10000

-- The deadline one period behind the counter, as an `unsigned int`.
abbrev pub deadline : (now : ℕ) → ℕ
deadline now = (now + timer_period) % 2 ^ 32

module _ {D : Type 0} (bus : Bus D) where
  -- Reads the counter and arms the timer: `curVal` and the hardware.
  unfoldable pub arm_timer : D → ℕ × D
  arm_timer d =
      let (now, d') = mmio_read bus timer_clo d in
      let cur_val = deadline now in (cur_val, mmio_write bus timer_c1 cur_val d')

  abbrev pub timer_init : D → ℕ × D
  timer_init d = arm_timer d

  -- The interrupt is acknowledged before the timer is armed, and the tick comes last.
  unfoldable pub handle_timer_irq : D → Kernel → Run (ℕ × D × Kernel)
  handle_timer_irq d k =
      let (cur_val, d') = arm_timer (mmio_write bus timer_cs timer_cs_m1 d) in
      handle_timer_tick k >>= λ k'. ok (cur_val, d', k')

-- The counter, and the compare register, which keeps what is written to it.
pub record SystemTimer {D : Type 0} (bus : Bus D) : Type 0 where
  pub clock : D → ℕ
  pub compare : D → ℕ
  pub reads_clock : (d : D) → (mmio_read bus timer_clo d).0 ≡ clock d % 2 ^ 32
  pub takes : (value : ℕ) (d : D) → compare (mmio_write bus timer_c1 value d) ≡ value % 2 ^ 32

-- A counter of 32 bits that is at `now` meets `c` after a period, and not before.
abbrev pub FirstMatch : (now c : ℕ) → Type 0
FirstMatch now c =
    ((now + timer_period) % 2 ^ 32 ≡ c) × ((n : ℕ) → n < timer_period → (now + n) % 2 ^ 32 ≢ c)

deadline-FirstMatch : (now : ℕ) → FirstMatch now (deadline (now % 2 ^ 32) % 2 ^ 32)
deadline-FirstMatch now = (omega arith, λ n few e. omega arith)

module _ {D : Type 0} (bus : Bus D) (t : SystemTimer bus) where
  pub arm_timer-FirstMatch : (d : D) → FirstMatch (t.clock d) (t.compare (arm_timer bus d).1)
  unfolding arm_timer
  arm_timer-FirstMatch d =
      let d' = (mmio_read bus timer_clo d).1 in
      let now = (mmio_read bus timer_clo d).0 in
      rw (t.takes (deadline now) d', t.reads_clock d) (deadline-FirstMatch (t.clock d))

  -- From a kernel in which the invariant of the scheduler holds and the current process runs, the timer
  -- interrupt returns and leaves such a kernel, and the counter, which may wrap around, meets the
  -- compare register one period after the value that it had behind the acknowledgement, and not before.
  pub handle_timer_irq-armed :
      (d : D) (k : Kernel)
      → Safe k
      → Returns
          (λ (_, d', k').
            FirstMatch (t.clock (mmio_write bus timer_cs timer_cs_m1 d)) (t.compare d') × Safe k')
          (handle_timer_irq bus d k)
  unfolding handle_timer_irq
  handle_timer_irq-armed d k safe =
      let d₁ = mmio_write bus timer_cs timer_cs_m1 d in
      let armed = arm_timer bus d₁ in
      Returns-bind Safe (λ (_, d', k'). FirstMatch (t.clock d₁) (t.compare d') × Safe k')
        (handle_timer_tick k) (λ k'. ok (armed.0, armed.1, k')) (run_call-Safe tick k safe)
        (λ k' safe'. (arm_timer-FirstMatch d₁, safe'))
