-- ===== src/Syscalls/Files/Exec.antt =====
-- `syscall_exec` of libs/syscalls.c.
pub mod Arguments
use demos_os.Base.{ℕ, zero, suc, ◌+◌, ◌-◌, ◌*◌, ◌==◌, List, ltb, if◌then◌else◌, length}
use demos_os.Base.Int.{ℤ, pos, negsuc, ◌==ℤ◌}
use demos_os.Base.Run.{Run, ok, fault, ◌>>=◌}
use demos_os.Pcb.{Ptr, MmStruct, UserPage, Pcb}
use demos_os.Sched.{current, modify_pcb, update}
use demos_os.Memory.{Memory, allocate_kernel_page, free_page, page_size, va_start}
use demos_os.Fork.{copy_code}
use demos_os.Text.{Chars}
use demos_os.Syscalls.Files.{
  Files, Opener, syscall_open, syscall_read_file, syscall_close_file, resource_type_file,
}

-- `SYSCALL_EXEC_ARGUMENT_DIMENSION`
abbrev pub syscall_exec_argument_dimension : ℕ
syscall_exec_argument_dimension = 64

abbrev pub no_page : UserPage
no_page = record { physical_address = 0; virtual_address = 0 }

-- The pages of the old program from the `i`-th on, `rounds` of them, are freed.
unfoldable pub release_pages : (rounds i : ℕ) → MmStruct → Memory → Run (MmStruct × Memory)
release_pages zero i mm m = ok (mm, m)
release_pages (suc rounds) i mm m =
    free_page ((mm.user_pages i).physical_address + va_start) m >>= λ (_, m').
    let mm' : MmStruct = record mm {
      n_user_pages = mm.n_user_pages - 1;
      user_pages = update mm.user_pages i no_page;
    } in
    release_pages rounds (i + 1) mm' m'

-- `unsigned long* trap_frame`: the 34 saved words of drivers/irq/entry.S.
abbrev pub trap_frame_words : ℕ
trap_frame_words = 34

-- The copy of an argument from its `i`-th byte on, which goes through the 64 bytes of
-- `safe_arguments` to a user address: a text with no terminator in them is a fault. `store_byte` stands
-- for the store through the page tables.
unfoldable pub copy_argument :
    (store_byte : (address byte : ℕ) → Memory → Memory)
    → (rounds : ℕ) (address : ℕ) (argument : Chars) (i : ℕ) → Memory
    → Run Memory
copy_argument store_byte zero address argument i m = fault
copy_argument store_byte (suc rounds) address argument i m =
    let m' = store_byte (address + i) (argument i) m in
    let rest = copy_argument store_byte rounds address argument (i + 1) m' in
    if argument i == 0 then ok m' else rest

-- The arguments from the `i`-th on, `rounds` of them, go to the stack of the new program, and their
-- addresses to the saved registers. A write behind the saved words is a fault.
unfoldable pub place_arguments :
    (store_byte : (address byte : ℕ) → Memory → Memory)
    → (rounds i : ℕ) (arguments : ℕ → Chars) (stack_pointer : ℕ) (trap_frame : ℕ → ℕ) → Memory
    → Run (ℕ × (ℕ → ℕ) × Memory)
place_arguments store_byte zero i arguments stack_pointer trap_frame m =
    ok (stack_pointer, trap_frame, m)
place_arguments store_byte (suc rounds) i arguments stack_pointer trap_frame m =
    let lower = stack_pointer - syscall_exec_argument_dimension in
    let rest =
      copy_argument store_byte syscall_exec_argument_dimension lower (arguments i) 0 m >>= λ m'.
      place_arguments store_byte rounds (i + 1) arguments lower (update trap_frame (i + 1) lower)
        m' in
    if ltb (i + 1) trap_frame_words then rest else fault

-- The library's operations, and the copies of bytes, which the memory by words leaves open.
pub record ExecEnv (Fat : Type 0) : Type 0 where
  pub fat_file_open : Opener Fat
  pub fat_file_close : Ptr → Fat → ℤ × Fat
  pub fat_file_seek : Ptr → Fat → Fat
  pub fat_file_read : Ptr → ℕ → Fat → ℤ × List ℕ × Fat
  pub fill : (buffer : List ℕ) (to offset bytes : ℕ) → Memory → Memory
  pub store_byte : (address byte : ℕ) → Memory → Memory

module _ {Fat : Type 0} (env : ExecEnv Fat) where
  -- Behind the test of the size: the old program is replaced. The stack starts at the end of page 15.
  unfoldable pub replace_program :
      (code : List ℕ) (n_arguments : ℕ) (arguments : ℕ → Chars) (trap_frame : ℕ → ℕ)
      → Files Fat
      → Run (ℤ × (ℕ → ℕ) × Files Fat)
  replace_program code n_arguments arguments trap_frame s =
      let p = s.kernel.current_process in
      let mm = (current s.kernel).mm in
      release_pages mm.n_user_pages 0 mm s.memory >>= λ (mm₁, m₁).
      copy_code (env.fill code) mm₁ (length code) m₁ >>= λ (mm₂, m₂).
      place_arguments env.store_byte n_arguments 0 arguments (16 * page_size)
        (update trap_frame 0 n_arguments) m₂
      >>= λ (sp, frame, m₃).
          let context = λ (c : Pcb). record c.cpu_context { pc = 0; sp = sp } in
          ok (
            pos 0,
            update (update frame 31 sp) 32 0,
            record s {
              kernel = modify_pcb s.kernel p (λ c. record c { mm = mm₂; cpu_context = context c });
              memory = m₃;
            },
          )

  -- The page for the code is not tested and not freed, and sixteen pages of the file are read into
  -- that one page: more bytes than it has are a fault.
  unfoldable pub syscall_exec :
      (path : List ℕ) (trap_frame : ℕ → ℕ) (n_arguments : ℕ) (arguments : ℕ → Chars)
      → Files Fat
      → Run (ℤ × (ℕ → ℕ) × Files Fat)
  syscall_exec path trap_frame n_arguments arguments s =
      syscall_open (λ _. negsuc 0) env.fat_file_open resource_type_file path s >>= λ (fd, s₁).
      let (_, memory) = allocate_kernel_page s₁.memory in
      let load =
        syscall_read_file env.fat_file_seek env.fat_file_read fd (page_size * 16)
          (record s₁ { memory = memory })
        >>= λ (_, code, s₂).
            let closed = syscall_close_file env.fat_file_close fd s₂ >>= λ (_, s₃).
            if ltb (page_size * 15) (length code)
            then ok (negsuc 0, trap_frame, s₃)
            else replace_program code n_arguments arguments trap_frame s₃ in
            if ltb page_size (length code) then fault else closed in
      if fd ==ℤ negsuc 0 then ok (negsuc 0, trap_frame, s₁) else load
