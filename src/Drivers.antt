-- ===== src/Drivers.antt =====
-- The drivers: arch/mmio.h and the folders of drivers/ but the card's. The hardware is a parameter: a
-- state `D` and a `Bus`, which reads and writes its registers. A read may change the state. A loop
-- that polls a register runs on fuel, the number of reads it makes at most.
pub mod Serial
pub mod Mailbox
pub mod Timer
pub mod Interrupts
pub mod Framebuffer
use demos_os.Base.{ℕ, ◌+◌, ◌%◌, ◌^◌}
use demos_os.Memory.{va_start}

pub record Bus (D : Type 0) : Type 0 where
  pub read : (address : ℕ) → D → ℕ × D
  pub write : (address value : ℕ) → D → D

-- `MMIO_BASE`
abbrev pub mmio_base : ℕ
mmio_base = va_start + 0x3f00_0000

module _ {D : Type 0} (bus : Bus D) where
  -- A register is read and written as 32 bits; `reg` is its offset.
  abbrev pub mmio_read : (reg : ℕ) → D → ℕ × D
  mmio_read reg d = let (value, d') = bus.read (mmio_base + reg) d in (value % 2 ^ 32, d')

  abbrev pub mmio_write : (reg value : ℕ) → D → D
  mmio_write reg value d = bus.write (mmio_base + reg) (value % 2 ^ 32) d
