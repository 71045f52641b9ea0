-- ===== src/Dispatch/State.antt =====
-- What `syscall_dispatcher` of libs/syscalls.c works on: the whole state of the kernel, and the caller's memory as bytes.
use demos_os.Base.{ℕ, zero, suc, ◌+◌, ◌-◌, ◌/◌, ◌%◌, ◌^◌, ltb, ◌==◌, if◌then◌else◌, List, [], ◌∷◌}
use demos_os.Base.Int.{ℤ, pos, negsuc}
use demos_os.Base.Run.{Run, ok, fault, out_of_fuel, ◌>>=◌}
use demos_os.Pcb.{Ptr}
use demos_os.Memory.{Memory, va_start}
use demos_os.Fork.{PtRegs}
use demos_os.Syscalls.Files.{Files}
use demos_os.Uart.{Uart}

-- The files with the kernel and the memory, the saved registers, the UART's buffer, the hardware.
pub record System (D Fat : Type 0) : Type 0 where
  pub files : Files Fat
  pub pt_regs : Ptr → PtRegs
  pub uart : Uart
  pub device : D

-- `unsigned long* registers`: the saved registers of the caller.
abbrev pub Registers : Type 0
Registers = ℕ → ℕ

-- `(int)registers[i]`
abbrev pub as_int : ℕ → ℤ
as_int x = let low = x % 2 ^ 32 in if ltb low (2 ^ 31) then pos low else negsuc (2 ^ 32 - 1 - low)

-- An `int` that is stored as an `unsigned long`.
abbrev pub as_register : ℤ → ℕ
as_register (pos n) = n % 2 ^ 64
as_register (negsuc n) = 2 ^ 64 - 1 - n

-- The access to the caller's bytes through the page tables that `pgd` names, which the hardware
-- translates.
pub record UserAccess : Type 0 where
  pub load : (pgd : ℕ) → Memory → (address : ℕ) → ℕ
  pub store : (pgd : ℕ) → (address byte : ℕ) → Memory → Memory

-- The bytes from an address on, up to a terminator.
unfoldable pub text_at : (fuel : ℕ) → (byte : ℕ → ℕ) → (address : ℕ) → Run (List ℕ)
text_at zero byte address = out_of_fuel
text_at (suc fuel) byte address =
    let rest = text_at fuel byte (address + 1) >>= λ cs. ok (byte address ∷ cs) in
    if byte address == 0 then ok [] else rest

-- `len` bytes from an address on.
abbrev pub bytes_at : (len : ℕ) → (byte : ℕ → ℕ) → (address : ℕ) → List ℕ
bytes_at zero byte address = []
bytes_at (suc len) byte address = byte address ∷ bytes_at len byte (address + 1)

-- The bytes of a number, the lowest one first: four for an `int`.
abbrev pub number_bytes : (count n : ℕ) → List ℕ
number_bytes zero n = []
number_bytes (suc count) n = n % 256 ∷ number_bytes count (n / 256)

module _ {D Fat : Type 0} (user : UserAccess) where
  -- The byte at an address of the caller.
  abbrev pub user_byte : System D Fat → ℕ → ℕ
  user_byte s address = user.load s.files.kernel.pgd s.files.memory address

  -- The calls do not test the pointers that they write through. Below `va_start` an address is one of
  -- the caller's pages; one from there on is memory of the kernel, the saved registers included, and
  -- a write there is a fault.
  abbrev pub put_byte : (address byte : ℕ) → System D Fat → Run (System D Fat)
  put_byte address byte s =
      let memory = user.store s.files.kernel.pgd address byte s.files.memory in
      if ltb address va_start
      then ok (record s { files = record s.files { memory = memory } })
      else fault

  unfoldable pub put_bytes : (address : ℕ) → List ℕ → System D Fat → Run (System D Fat)
  put_bytes address [] s = ok s
  put_bytes address (c ∷ cs) s = put_byte address c s >>= λ s'. put_bytes (address + 1) cs s'

  abbrev pub put_int : (address n : ℕ) → System D Fat → Run (System D Fat)
  put_int address n s = put_bytes address (number_bytes 4 n) s
