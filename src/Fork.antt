-- ===== src/Fork.antt =====
-- libs/fork.c: the creation of a process. The kernel's state is joined with the page allocator's.
-- A new PCB stands at the kernel address of its page, and its saved registers in the same page.
pub mod Failure
pub mod Birth
use demos_os.Base.{
  ℕ, zero, suc, ◌+◌, ◌-◌, ◌*◌, Bool, true, false, ◌||◌, ◌&&◌, leb, ltb, ◌==◌, if◌then◌else◌,
}
use demos_os.Base.Int.{ℤ, pos, negsuc, ltb_ℤ}
use demos_os.Base.Run.{Run, ok, fault, ◌>>=◌}
use demos_os.Base.Bits.{test_bit}
use demos_os.Pcb.{
  Ptr, null, max_processes, process_ready, CpuContext, zero_context, UserPage, MmStruct, Pcb,
  initial_pcb,
}
use demos_os.Sched.{Kernel, current, modify_pcb, preempt_enable, preempt_disable, set_pgd}
use demos_os.Sched.Params.{add_process_to_scheduler}
use demos_os.Memory.{Memory, page_size, allocate_kernel_page, va_start, zero_page}
use demos_os.Memory.Tables.{allocate_user_page}

-- `struct pt_regs`
pub record PtRegs : Type 0 where
  pub registers : ℕ → ℕ
  pub sp : ℕ
  pub pc : ℕ
  pub pstate : ℕ

-- The scheduler's state, the memory, and the registers that `task_pt_regs` finds for each process.
pub record Machine : Type 0 where
  pub kernel : Kernel
  pub memory : Memory
  pub pt_regs : Ptr → PtRegs

-- `PF_KTHREAD` is bit 1 of the flags.
abbrev pub pf_kthread_bit : ℕ
pf_kthread_bit = 1

-- The address that `task_pt_regs` computes: a `struct pt_regs` has 34 words of 8 bytes.
abbrev pub task_pt_regs : Ptr → ℕ
task_pt_regs p = p + page_size - 34 * 8

abbrev pub zero_regs : PtRegs
zero_regs = record { registers = λ _. 0; sp = 0; pc = 0; pstate = 0 }

-- The pages of the current process from the `i`-th on, `rounds` of them, each copied to a new page
-- of the other process. The words of the page are copied at once.
pub copy_pages :
    (rounds i : ℕ) → (source : MmStruct) → MmStruct → Memory → Run (ℤ × MmStruct × Memory)
copy_pages zero i source s m = ok (pos 0, s, m)
copy_pages (suc rounds) i source s m =
    let page = source.user_pages i in
    allocate_user_page s page.virtual_address m >>= λ (address, s', m').
    let to = address - va_start in
    let copied : Memory = record m' {
      words = λ a.
          if leb to a && ltb a (to + page_size)
          then m'.words (page.physical_address + (a - to))
          else m'.words a;
    } in
    if address == 0 then ok (negsuc 0, s', m') else copy_pages rounds (i + 1) source s' copied

-- `copy_virtual_memory`
abbrev pub copy_virtual_memory :
    (source destination : MmStruct) → Memory → Run (ℤ × MmStruct × Memory)
copy_virtual_memory source destination m = copy_pages source.n_user_pages 0 source destination m

abbrev pub empty_mm : MmStruct
empty_mm = record {
  pgd = 0;
  n_user_pages = 0;
  user_pages = λ _. record { physical_address = 0; virtual_address = 0 };
  n_kernel_pages = 0;
  kernel_pages = λ _. 0;
}

-- The PCB of the child as `copy_process` fills it in. The allocator zeroed its page, so the fields
-- that the code leaves alone are 0, `pid_to_wait` among them.
abbrev pub child_pcb : (parent : Pcb) (clone_flags pid : ℕ) → CpuContext → MmStruct → Pcb
child_pcb parent clone_flags pid context mm = record initial_pcb {
  cpu_context = context;
  state = process_ready;
  counter = pos 10;
  priority = parent.priority;
  est_burst = parent.est_burst;
  burst_ticks = 0;
  queue_priority = parent.queue_priority;
  tickets = parent.tickets;
  preempt_disabled = pos 1;
  pid = pid;
  flags = clone_flags;
  files = λ _. null;
  mm = mm;
  pid_to_wait = pos 0;
}

-- The registers of the child: those of the parent, with the return value 0 in the first one.
abbrev pub child_regs : PtRegs → PtRegs
child_regs r = record r { registers = λ i. if i == 0 then 0 else r.registers i }

-- `ret_from_fork` is the address of an assembly label.
module _ (ret_from_fork : ℕ) where
  abbrev pub child_context : Ptr → (x19 x20 : ℕ) → CpuContext
  child_context p x19 x20 = record zero_context {
    x19 = x19;
    x20 = x20;
    pc = ret_from_fork;
    sp = task_pt_regs p;
  }

  -- The end of `copy_process`: fills in the PCB and registers it. A failure leaves the preemption
  -- disabled, as in the source.
  unfoldable pub register_child :
      (clone_flags : ℕ) (p : Ptr) → CpuContext → MmStruct → PtRegs → Machine → Run (ℤ × Machine)
  register_child clone_flags p context mm regs s =
      let k = s.kernel in
      let pid = k.n_processes in
      let child = child_pcb (current k) clone_flags pid context mm in
      add_process_to_scheduler (modify_pcb k p (λ _. child)) p >>= λ (status, k').
      let s' : Machine = record s {
        kernel = k';
        pt_regs = λ a. if a == p then regs else s.pt_regs a;
      } in
      if ltb_ℤ status (pos 0)
      then ok (negsuc 0, s')
      else ok (pos pid, record s' { kernel = preempt_enable k' })

  -- `copy_process`
  unfoldable pub copy_process : (clone_flags function argument : ℕ) → Machine → Run (ℤ × Machine)
  copy_process clone_flags function argument s =
      let k = preempt_disable s.kernel in
      let (p, memory) = allocate_kernel_page s.memory in
      let s₁ : Machine = record s { kernel = k; memory = memory } in
      let thread =
        register_child clone_flags p (child_context p function argument) empty_mm zero_regs s₁ in
      let copy = copy_virtual_memory (current k).mm empty_mm memory >>= λ (_, mm, memory').
      register_child clone_flags p (child_context p 0 0) mm
        (child_regs (s.pt_regs k.current_process)) (record s₁ { memory = memory' }) in
      if p == null || leb max_processes k.n_processes
      then ok (negsuc 0, s₁)
      else if test_bit clone_flags pf_kthread_bit
      then thread
      else copy

-- The pages of the code from the `i`-th on, `rounds` of them: each one mapped and, while bytes are
-- left, filled. The memory is given by words, so a page is filled by `fill`, which stands for the
-- byte copy of at most one page from the buffer's given offset to a kernel address.
module _ (fill : (to offset bytes : ℕ) → Memory → Memory) where
  pub copy_code_from :
      (rounds i : ℕ) → MmStruct → (size copied : ℕ) → Memory → Run (MmStruct × Memory)
  copy_code_from zero i s size copied m = ok (s, m)
  copy_code_from (suc rounds) i s size copied m =
      let bytes = if ltb page_size (size - copied) then page_size else size - copied in
      allocate_user_page s (i * page_size) m >>= λ (address, s', m').
      copy_code_from rounds (i + 1) s' size (if ltb copied size then copied + bytes else copied)
        (if ltb copied size then fill address copied bytes m' else m')

  -- `copy_code`: sixteen pages.
  abbrev pub copy_code : MmStruct → (size : ℕ) → Memory → Run (MmStruct × Memory)
  copy_code s size m = copy_code_from 16 0 s size 0 m

  -- `move_to_user_mode`
  unfoldable pub move_to_user_mode : (size pc : ℕ) → Machine → Run (ℤ × Machine)
  move_to_user_mode size pc s =
      let k = s.kernel in
      let p = k.current_process in
      let regs : PtRegs = record zero_regs { pc = pc; sp = 16 * page_size } in
      copy_code (current k).mm size s.memory >>= λ (mm, memory).
      let k' = modify_pcb k p (λ c. record c { mm = mm }) in
      ok (
        pos 0,
        record s {
          kernel = set_pgd k' mm.pgd;
          memory = memory;
          pt_regs = λ a. if a == p then regs else s.pt_regs a;
        },
      )
