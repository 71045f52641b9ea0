-- ===== src/Boot.antt =====
-- kernel/kernel.c: the initialisation of the drivers, and the first process. `Boot.Start` shows where it
-- leads. The loop behind the initialisation does nothing, and interrupts during it are not modelled.
pub mod Start
use demos_os.Base.{ℕ, ◌+◌, ◌-◌, true, List, [], if◌then◌else◌}
use demos_os.Base.Int.{ℤ, pos, ltb_ℤ, ◌==ℤ◌}
use demos_os.Base.Run.{Run, ok, ◌>>=◌}
use demos_os.Sched.{Kernel}
use demos_os.Sched.Tick.{set_irq}
use demos_os.Memory.{Memory}
use demos_os.Fork.{Machine, copy_process, move_to_user_mode}
use demos_os.Syscalls.Files.Mount.{DiskOps, SdDriver, sd_filesystem_init, sd_filesystem_init_ok}
use demos_os.Drivers.{Bus}
use demos_os.Drivers.Serial.{text, uart_puts}
use demos_os.Drivers.Serial.Setup.{uart_init}
use demos_os.Drivers.Mailbox.{Mailbox}
use demos_os.Drivers.Timer.{timer_init}
use demos_os.Drivers.Interrupts.{enable_interrupt_controller}

-- `PF_KTHREAD`
abbrev pub pf_kthread : ℕ
pf_kthread = 2

-- The hardware, the card's driver and the FAT library over it, the assembly, the addresses that the
-- linker gives, and the copy of bytes into pages.
pub record Environment (D : Type 0) : Type 0 where
  pub bus : Bus D
  pub polls : ℕ
  pub mbox : Mailbox D
  pub delay : (cycles : ℕ) → D → D
  pub irq_vector_init : D → D
  pub sd : SdDriver D
  pub fat_probe : DiskOps D → (partition : ℕ) → D → ℤ × D
  pub fat_mount : DiskOps D → (partition : ℕ) → (path : List ℕ) → D → ℤ × D
  pub fill : (to offset bytes : ℕ) → Memory → Memory
  pub ret_from_fork : ℕ
  pub kernel_process_address : ℕ
  pub init_process_main : ℕ
  pub user_begin : ℕ
  pub user_end : ℕ

module _ {D : Type 0} (env : Environment D) where
  abbrev pub announce : List ℕ → D → Run D
  announce str d = uart_puts env.bus env.polls str d

  -- The UART, the interrupts and the card.
  unfoldable pub init_drivers : D → Run D
  init_drivers d = uart_init env.bus env.mbox env.polls env.delay d >>= λ d₁.
      announce (text "demoOS v.0.0.1\n") d₁ >>= λ d₂.
      announce (text "[DONE] irq vector init\n") (env.irq_vector_init d₂) >>= λ d₃.
      announce (text "[DONE] enable interrupt controller\n")
        (enable_interrupt_controller env.bus env.polls d₃)
      >>= λ d₄. announce (text "[DONE] enable irq\n") d₄

  unfoldable pub init_filesystem : D → Run D
  init_filesystem d =
      let (fs_ok, d') = sd_filesystem_init env.sd env.fat_probe env.fat_mount d in
      if fs_ok ==ℤ sd_filesystem_init_ok
      then announce (text "[DONE] SD filesystem init success\n") d'
      else announce (text "[ERROR] SD filesystem init error\n") d'

  unfoldable pub kernel_main : Machine → D → Run (Machine × D)
  kernel_main s d = init_drivers d >>= λ d₁. init_filesystem d₁ >>= λ d₂.
      copy_process env.ret_from_fork pf_kthread env.kernel_process_address 0
        (record s { kernel = set_irq true s.kernel })
      >>= λ (res, s').
          (if ltb_ℤ res (pos 0)
            then announce (text "[ERROR] Cannot create kernel process.\n") d₂
            else ok d₂)
          >>= λ d₃.
              announce (text "[DONE] timer init\n") (timer_init env.bus d₃).1 >>= λ d₄. ok (s', d₄)

  -- The thread that `kernel_main` creates becomes the first program of the user mode.
  unfoldable pub kernel_process : Machine → D → Run (Machine × D)
  kernel_process s d = announce (text "[DEBUG] Kernel process started.\n") d >>= λ d₁.
      move_to_user_mode env.fill (env.user_end - env.user_begin)
        (env.init_process_main - env.user_begin) s
      >>= λ (error, s').
          (if ltb_ℤ error (pos 0)
            then announce (text "[ERROR] Cannot move process from kernel mode to user mode\n") d₁
            else ok d₁)
          >>= λ d₂. ok (s', d₂)
