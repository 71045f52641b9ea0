-- ===== src/Boot/Start.antt =====
-- The boot against the invariant of the scheduler, over hardware that answers.
use mathlib.Core.Path.{subst}
use demos_os.Base.{
  ℕ, zero, suc, ◌-◌, ◌<◌, ◌≡◌, ◌≢◌, refl, arith, true, Bool-cases, inl, inr, ltb, ◌==◌, List, [],
  ◌++◌,
}
use demos_os.Base.Bits.{test_bit}
use demos_os.Base.Int.{pos, ◌==ℤ◌}
use demos_os.Base.Run.{Run, ◌>>=◌, Returns, Returns-bind, Returns-mono}
use demos_os.Pcb.{Ptr, Store, null, init_process}
use demos_os.Sched.Tick.{set_irq}
use demos_os.Sched.Invariant.Keep.{set_irq-Inv}
use demos_os.Sched.Invariant.Boot.{initial_kernel, initial_kernel-Inv}
use demos_os.Memory.{Memory, allocate_kernel_page}
use demos_os.Fork.{Machine, PtRegs, copy_process}
use demos_os.Fork.Birth.{Born, copy_process-Born}
use demos_os.Syscalls.Files.Mount.{sd_filesystem_init, sd_filesystem_init_ok}
use demos_os.Drivers.Interrupts.{enable_interrupt_controller}
use demos_os.Drivers.Timer.{timer_init}
use demos_os.Drivers.{Bus, mmio_read, mmio_write}
use demos_os.Drivers.Serial.{text, uart_puts}
use demos_os.Drivers.Serial.Output.{Transmitter, uart_puts-sent, as_bytes}
use demos_os.Drivers.Serial.Setup.{uart_init}
use demos_os.Drivers.Mailbox.{
  mail, mbox_status, mbox_read, mbox_write, mbox_full_bit, mbox_empty_bit, wait_not_full,
  wait_answer, mbox_call, mbox_ch_prop, Mailbox,
}
use demos_os.Boot.{Environment, announce, init_drivers, init_filesystem, kernel_main, pf_kthread}

-- A mailbox: how many reads of STATUS still find it full, and how many rounds the answer takes. A read
-- of STATUS counts down; behind it the answer `r`, once it is there, is what READ gives.
pub record Postbox {D : Type 0} (bus : Bus D) (polls : ℕ) (r : ℕ) : Type 0 where
  pub full : D → ℕ
  pub full_ends : (d : D) → full d < polls
  pub shows_full : (d : D) → test_bit (mmio_read bus mbox_status d).0 mbox_full_bit ≡ ltb 0 (full d)
  pub full_counts : (d : D) → full (mmio_read bus mbox_status d).1 ≡ full d - 1
  pub due : D → ℕ
  pub due_ends : (d : D) → due d < polls
  pub shows_empty :
      (d : D) → test_bit (mmio_read bus mbox_status d).0 mbox_empty_bit ≡ ltb 0 (due d)
  pub due_counts : (d : D) → due (mmio_read bus mbox_status d).1 ≡ due d - 1
  pub answers :
      (d : D) → due d ≡ 0 → (mmio_read bus mbox_read (mmio_read bus mbox_status d).1).0 ≡ r

module _ {D : Type 0} (bus : Bus D) (mbox : Mailbox D) (polls : ℕ)
    (box : Postbox bus polls (mail bus mbox polls mbox_ch_prop)) where
  wait_not_full-Returns :
      (rounds : ℕ) (d : D)
      → box.full d < rounds
      → Returns (λ _. Unit) (wait_not_full bus mbox polls rounds d)
  unfolding wait_not_full
  wait_not_full-Returns zero d h = absurd (omega arith)
  wait_not_full-Returns (suc rounds) d h =
      let d₁ = (mmio_read bus mbox_status d).1 in
      let fewer : box.full d₁ ≡ box.full d - 1 = box.full_counts d in
      elim (Bool-cases (ltb 0 (box.full d))) [
        | inl full ↦
            rw (box.shows_full d, full, wait_not_full)
              (wait_not_full-Returns rounds d₁ (ground arith))
        | inr room ↦ rw (box.shows_full d, room, wait_not_full) tt
      ]

  wait_answer-Returns :
      (rounds : ℕ) (d : D)
      → box.due d < rounds
      → Returns (λ _. Unit) (wait_answer bus mbox polls rounds (mail bus mbox polls mbox_ch_prop) d)
  unfolding wait_answer
  wait_answer-Returns zero d h = absurd (omega arith)
  wait_answer-Returns (suc rounds) d h =
      let r = mail bus mbox polls mbox_ch_prop in
      let d₁ = (mmio_read bus mbox_status d).1 in
      let fewer : box.due d₁ ≡ box.due d - 1 = box.due_counts d in
      elim (Bool-cases (ltb 0 (box.due d))) [
        | inl empty ↦
            rw (box.shows_empty d, empty, wait_answer)
              (wait_answer-Returns rounds d₁ (ground arith))
        | inr there ↦
            let here = box.answers d (ground arith) in
            let same : ((mmio_read bus mbox_read d₁).0 == r) ≡ true = rw here (ground arith) in
            rw (box.shows_empty d, there, same, wait_answer) tt
      ]

  mbox_call-Returns : (d : D) → Returns (λ _. Unit) (mbox_call bus mbox polls mbox_ch_prop d)
  unfolding mbox_call
  mbox_call-Returns d =
      let r = mail bus mbox polls mbox_ch_prop in
      Returns-bind (λ _. Unit) (λ _. Unit) (wait_not_full bus mbox polls polls d) _
        (wait_not_full-Returns polls d (box.full_ends d))
        (λ d₁ _.
          let d₂ = mmio_write bus mbox_write r d₁ in
          Returns-bind (λ _. Unit) (λ _. Unit) (wait_answer bus mbox polls polls r d₂) _
            (wait_answer-Returns polls d₂ (box.due_ends d₂)) (λ d₃ _. tt))

  uart_init-Returns :
      (delay : (cycles : ℕ) → D → D) (d : D)
      → Returns (λ _. Unit) (uart_init bus mbox polls delay d)
  unfolding uart_init
  uart_init-Returns delay d =
      Returns-bind (λ _. Unit) (λ _. Unit) (mbox_call bus mbox polls mbox_ch_prop _) _
        (mbox_call-Returns _) (λ (_, d') _. tt)

module _ {D : Type 0} (env : Environment D) (t : Transmitter env.bus env.polls)
    (box : Postbox env.bus env.polls (mail env.bus env.mbox env.polls mbox_ch_prop)) where
  -- Whatever the drivers do to the hardware, they return.
  abbrev Done : Run D → Type 0
  Done x = Returns (λ _. Unit) x

  announce-Done : (str : List ℕ) (d : D) → Done (announce env str d)
  announce-Done str d =
      Returns-mono (λ d'. t.sent d' ≡ t.sent d ++ as_bytes str) (λ _. Unit)
        (uart_puts env.bus env.polls str d) (uart_puts-sent env.bus env.polls t str d) (λ d' e. tt)

  Done-bind : (x : Run D) (f : D → Run D) → Done x → ((d : D) → Done (f d)) → Done (x >>= f)
  Done-bind x f h next = Returns-bind (λ _. Unit) (λ _. Unit) x f h (λ d u. next d)

  init_drivers-Done : (d : D) → Done (init_drivers env d)
  unfolding init_drivers
  init_drivers-Done d =
      Done-bind (uart_init env.bus env.mbox env.polls env.delay d) _
        (uart_init-Returns env.bus env.mbox env.polls box env.delay d)
        (λ d₁. Done-bind (announce env (text "demoOS v.0.0.1\n") d₁) _ (announce-Done _ d₁) (λ d₂.
          Done-bind (announce env (text "[DONE] irq vector init\n") (env.irq_vector_init d₂)) _
            (announce-Done _ (env.irq_vector_init d₂))
            (λ d₃.
              let d₃' = enable_interrupt_controller env.bus env.polls d₃ in
              Done-bind (announce env (text "[DONE] enable interrupt controller\n") d₃') _
                (announce-Done _ d₃') (λ d₄. announce-Done _ d₄))))

  init_filesystem-Done : (d : D) → Done (init_filesystem env d)
  unfolding init_filesystem
  init_filesystem-Done d =
      let (fs_ok, d') = sd_filesystem_init env.sd env.fat_probe env.fat_mount d in
      elim (Bool-cases (fs_ok ==ℤ sd_filesystem_init_ok)) [
        | inl mounted ↦ rw mounted (announce-Done _ d')
        | inr failed ↦ rw failed (announce-Done _ d')
      ]

  -- From the initial values of the variables, over hardware that answers, with a free page that is
  -- neither NULL nor the idle task: `kernel_main` reaches its last loop, whether or not the card is
  -- mounted. The kernel's first thread has the pid 1, the idle task is still the current process, and
  -- the invariant of the scheduler holds.
  pub kernel_main-Born :
      (others : Store) (timer : ℕ → ℕ) (memory : Memory) (pt_regs : Ptr → PtRegs) (d : D)
      → let p = (allocate_kernel_page memory).0 in
        let k = initial_kernel others timer in
        p ≢ null
        → p ≢ init_process
        → Returns
            (λ (s', d'). Born (set_irq true k) p [] (pos 1, s'))
            (kernel_main env (record { kernel = k; memory = memory; pt_regs = pt_regs }) d)
  unfolding kernel_main
  kernel_main-Born others timer memory pt_regs d ne ni =
      let k = set_irq true (initial_kernel others timer) in
      let p = (allocate_kernel_page memory).0 in
      let s₀ : Machine = record { kernel = k; memory = memory; pt_regs = pt_regs } in
      let End : Machine × D → Type 0 = λ (s', d'). Born k p [] (pos 1, s') in
      let thread = copy_process env.ret_from_fork pf_kthread env.kernel_process_address 0 s₀ in
      let born : Returns (Born k p []) thread =
        copy_process-Born env.ret_from_fork pf_kthread env.kernel_process_address 0 s₀ []
          (set_irq-Inv true (initial_kernel others timer) [] (initial_kernel-Inv others timer)) refl
          ne ni (λ (i, few, e, there). ground arith) (omega arith) in
      Returns-bind (λ _. Unit) End (init_drivers env d) _ (init_drivers-Done d)
        (λ d₁ _.
          Returns-bind (λ _. Unit) End (init_filesystem env d₁) _ (init_filesystem-Done d₁)
            (λ d₂ _. Returns-bind (Born k p []) End thread _ born (λ (res, s') b.
              let made : res ≡ pos 1 = b.status in
              rw made (
                Returns-bind (λ _. Unit) End
                  (announce env (text "[DONE] timer init\n") (timer_init env.bus d₂).1) _
                  (announce-Done _ (timer_init env.bus d₂).1)
                  (λ d₄ _. subst (λ z. Born k p [] (z, s')) made b)))))
