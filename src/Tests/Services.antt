-- ===== src/Tests/Services.antt =====
-- Memory, processes, input and text at concrete inputs.
use demos_os.Base.{ltb, ◌||◌, ℕ, ◌+◌, ◌≢◌, ◌≡◌, inl, inr, refl, arith, ◌==◌, if◌then◌else◌, ◌∷◌, []}
use demos_os.Base.Int.{pos, negsuc, ◌+ℤ◌}
use demos_os.Base.Run.{fault, ok, Returns}
use demos_os.Pcb.{max_processes, null}
use demos_os.Sched.{round_robin, current, modify_pcb}
use demos_os.Sched.Tick.{handle_timer_tick}
use demos_os.Sched.Preemption.{ticked}
use demos_os.Memory.{
  first_free, Memory, va_start, get_free_page, allocate_kernel_page, free_page, page_address,
}
use demos_os.Memory.Pages.{Allocated, get_free_page-Allocated, free_page-allocate_kernel_page}
use demos_os.Fork.{Machine, zero_regs, copy_process}
use demos_os.Fork.Birth.{Born, copy_process-Born}
use demos_os.Fork.Failure.{copy_process-failure}
use demos_os.Text.{Chars}
use demos_os.Syscalls.{search_process}
use demos_os.Syscalls.Wait.{SearchResult, search_process-SearchResult}
use demos_os.Syscalls.Files.{Files, syscall_close_file}
use demos_os.Syscalls.Files.Descriptors.{syscall_close_file-keeps_slot}
use demos_os.Shell.{normalize_path}
use demos_os.Shell.Escape.{Bounded, normalize_path-fault, normalize_path-Bounded}
use demos_os.Tests.Kernels.{sample_kernel, sample_memory, resting_kernel, resting_kernel-Inv}

get_free_page-Allocated_example : Allocated sample_memory (get_free_page sample_memory)
get_free_page-Allocated_example = get_free_page-Allocated sample_memory

-- A page is free, so one is found.
Allocated-ne :
    (t : ℕ × Memory)
    → Allocated sample_memory t
    → (if◌then◌else◌ {A = ℕ × Memory} (t.0 == 0) (0, t.1) (t.0 + va_start, t.1)).0 ≢ 0
Allocated-ne (page, m') (inl (e, full, same)) = absurd (full 1 (omega arith) refl)
Allocated-ne (page, m') (inr (i, h, e, u, marks, zeroes, rest)) = ground arith

free_page-allocate_kernel_page_example :
    Returns
      (λ (status, m').
        (status ≡ pos 0) × ((j : ℕ) → m'.memory_pages j ≡ sample_memory.memory_pages j))
      (free_page (allocate_kernel_page sample_memory).0 (allocate_kernel_page sample_memory).1)
unfolding allocate_kernel_page
free_page-allocate_kernel_page_example =
    free_page-allocate_kernel_page sample_memory
      (Allocated-ne (get_free_page sample_memory) (get_free_page-Allocated sample_memory))

-- The process table is full.
abbrev full_machine : Machine
full_machine = record {
  kernel = record (sample_kernel round_robin) { n_processes = 64 };
  memory = sample_memory;
  pt_regs = λ _. zero_regs;
}

copy_process-failure_example :
    Returns
      (λ (status, s').
        (status ≡ negsuc 0)
        × (s'.kernel.processes ≡ full_machine.kernel.processes)
        × (s'.kernel.n_processes ≡ 64)
        × (s'.memory ≡ (allocate_kernel_page sample_memory).1)
        × ((current s'.kernel).preempt_disabled ≡ pos 0 +ℤ pos 1)
        × (handle_timer_tick s'.kernel ≡ ok (ticked s'.kernel)))
      (copy_process 8192 0 0 0 full_machine)
copy_process-failure_example =
    copy_process-failure 8192 0 0 0 full_machine (inr (omega arith)) refl (ground arith)

-- "hi"
abbrev sample_text : Chars
sample_text i = if i == 0 then b'h' else if i == 1 then b'i' else 0

abbrev junk : Chars
junk _ = 7

search_process-SearchResult_example :
    SearchResult 0 max_processes
      (sample_kernel round_robin)
      (pos 3)
      (search_process (sample_kernel round_robin) (pos 3))
search_process-SearchResult_example =
    search_process-SearchResult (sample_kernel round_robin) (pos 3)

-- "/../.."
abbrev climbing : Chars
climbing i = if i == 0 || i == 3 then b'/' else if ltb i 6 then b'.' else 0

normalize_path-fault_example : normalize_path 10 climbing ≡ fault
normalize_path-fault_example =
    normalize_path-fault 10 climbing 6 refl (omega arith)
      (inr (refl, refl, refl, refl, omega arith))

-- "a/b"
abbrev plain : Chars
plain i = if i == 0 then b'a' else if i == 1 then b'/' else if i == 2 then b'b' else 0

normalize_path-Bounded_example : Bounded 3 plain (normalize_path 10 plain)
normalize_path-Bounded_example = normalize_path-Bounded 10 plain 3 refl (omega arith)

-- Descriptor 3 is open on an object in page 0.
abbrev open_files : Files Unit
open_files = record {
  kernel =
      modify_pcb (sample_kernel round_robin) 2
        (λ c. record c { files = λ j. if j == 3 then 500 else null });
  memory = sample_memory;
  resources = λ a. record { resource_type = 0; pointer = page_address 0 + va_start };
  fat = tt;
}

syscall_close_file-keeps_slot_example :
    Returns
      (λ (status, s').
        (status ≡ pos 0)
        × ((current s'.kernel).files 3 ≢ null)
        × ((j : ℕ) → j ≢ 3 → (current s'.kernel).files j ≡ (current open_files.kernel).files j))
      (syscall_close_file (λ object fat. (pos 0, fat)) (pos 3) open_files)
syscall_close_file-keeps_slot_example =
    syscall_close_file-keeps_slot (λ object fat. (pos 0, fat)) 3 0 open_files (omega arith)
      (omega arith) (omega arith) refl refl

-- Page 1 becomes the kernel thread.
abbrev resting_machine : Machine
resting_machine = record {
  kernel = resting_kernel;
  memory = sample_memory;
  pt_regs = λ _. zero_regs;
}

copy_process-Born_example :
    Returns
      (Born resting_kernel (allocate_kernel_page sample_memory).0 (3 ∷ 4 ∷ []))
      (copy_process 8192 2 0 0 resting_machine)
unfolding allocate_kernel_page get_free_page first_free
copy_process-Born_example =
    copy_process-Born 8192 2 0 0 resting_machine (3 ∷ 4 ∷ []) resting_kernel-Inv refl (omega arith)
      (omega arith) (λ (i, few, e, ne). ground arith) (omega arith)
