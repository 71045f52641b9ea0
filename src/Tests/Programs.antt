-- ===== src/Tests/Programs.antt =====
-- The shell, the calls on entries and programs, and the line input at concrete inputs.
use demos_os.Base.{
  ℕ, ◌-◌, inr, ◌≢◌, ◌+◌, ◌*◌, ◌<◌, ◌≤◌, ◌≡◌, ◌⊎◌, refl, List, [], ◌∷◌, ◌++◌, arith, ◌==◌,
  if◌then◌else◌,
}
use demos_os.Base.Int.{ℤ, pos, negsuc}
use demos_os.Base.Run.{Run, ok, fault, out_of_fuel, ◌>>=◌, Returns, Whenever}
use demos_os.Pcb.{Ptr, null}
use demos_os.Sched.{round_robin, modify_pcb, update}
use demos_os.Memory.{Memory, page_size}
use demos_os.Uart.{Uart, LineBuffer, input_round}
use demos_os.Uart.Prompt.{Rounded, input_round-Rounded}
use demos_os.Text.{Chars}
use demos_os.Text.Number.{num_to_str, str_to_num}
use demos_os.Text.Number.Roundtrip.{str_to_num-num_to_str}
use demos_os.Syscalls.Files.Entries.{FatEntryInfo, DirInfo, syscall_get_next_entry}
use demos_os.Shell.Commands.{Calls, replaced, Output, literal}
use demos_os.Shell.Commands.Tree.{print_tree}
use demos_os.Shell.Commands.Listing.{cleared, OverKernel, OpenOn, Walk, print_tree-nothing}
use demos_os.Shell.Commands.Line.{split_write}
use demos_os.Shell.Commands.Words.{Split, split_write-Split}
use demos_os.Syscalls.Files.{Files}
use demos_os.Syscalls.Files.Exec.{place_arguments}
use demos_os.Syscalls.Files.Exec.Arguments.{StackBytes, place_arguments-stack}
use demos_os.Tests.Kernels.{sample_kernel, sample_memory, resting_kernel, resting_kernel-Inv}

str_to_num-num_to_str_example :
    (num_to_str 25 18446744073709551615 (λ _. 7) (λ _. 9) >>= λ text. str_to_num 25 text)
    ≡ ok 18446744073709551615
str_to_num-num_to_str_example =
    str_to_num-num_to_str 18446744073709551615 (λ _. 7) (λ _. 9) (omega arith)

-- "lsblk"
abbrev lsblk : Chars
lsblk = literal (b'l' ∷ b's' ∷ b'b' ∷ b'l' ∷ b'k' ∷ [])

lsblk-short : (i : ℕ) → i < 5 → lsblk i ≢ 0
lsblk-short i less = ground arith

-- "write f hi"
abbrev write_line : Chars
write_line = literal (b'w' ∷ b'r' ∷ b'i' ∷ b't' ∷ b'e' ∷ b' ' ∷ b'f' ∷ b' ' ∷ b'h' ∷ b'i' ∷ [])

split_write-Split_example : Returns (Split 5 1 2 write_line) (split_write write_line)
split_write-Split_example =
    split_write-Split 5 1 2 write_line (omega arith) (refl, (refl, (refl, (refl, (refl, refl)))))
      (refl, refl) (refl, (refl, refl))

abbrev folder_entry : DirInfo
folder_entry = record { name = lsblk; name_len = 5; attr = 16 }

-- Descriptor 3 is open on a directory at 700, whose library state is how many entries are left.
abbrev open_folder : Files ℕ
open_folder = record {
  kernel =
      modify_pcb (sample_kernel round_robin) 2
        (λ c. record c { files = λ j. if j == 3 then 500 else null });
  memory = sample_memory;
  resources = λ a. record { resource_type = 1; pointer = 700 };
  fat = 3;
}

abbrev folder_read : Ptr → ℕ → ℤ × DirInfo × ℕ
folder_read dir left = (if left == 0 then negsuc 4 else pos 0, folder_entry, left)

-- The library cannot move on behind the last entry.
abbrev folder_next : Ptr → ℕ → ℤ × ℕ
folder_next dir left = (if left == 1 then negsuc 4 else pos 0, left - 1)

-- A system that is its output and the files of the kernel.
abbrev ListedSystem : Type 0
ListedSystem = List Output × Files ℕ

-- The registers and the files behind a call of the kernel.
abbrev answered :
    (os : List Output) (f : Files ℕ)
    → Run (ℤ × FatEntryInfo × Files ℕ)
    → ℤ × FatEntryInfo × ListedSystem
answered os f (ok (status, info, f')) = (status, info, (os, f'))
answered os f fault = (negsuc 0, cleared, (os, f))
answered os f out_of_fuel = (negsuc 0, cleared, (os, f))

abbrev listing_calls : Calls ListedSystem
listing_calls = record {
  call_syscall_write = λ o (os, f). (os ++ o ∷ [], f);
  call_syscall_input = λ len s. ((λ _. 0), s);
  call_syscall_create_dir = λ path s. (negsuc 0, s);
  call_syscall_open_dir = λ path s. (pos 3, s);
  call_syscall_open_file = λ path flags s. (negsuc 0, s);
  call_syscall_close_file = λ fd s. s;
  call_syscall_write_file = λ fd content len s. (negsuc 0, s);
  call_syscall_read_file = λ fd len s. (negsuc 0, (λ _. 0), s);
  call_syscall_get_next_entry =
      λ fd (os, f). answered os f (syscall_get_next_entry folder_read folder_next fd cleared f);
  call_syscall_fork = λ s. (negsuc 0, s);
  call_syscall_exec = λ path n arguments s. replaced s;
  call_syscall_wait = λ pid s. (negsuc 0, s);
}

answered-output :
    (os : List Output) (f : Files ℕ) (r : Run (ℤ × FatEntryInfo × Files ℕ))
    → (answered os f r).2.0 ≡ os
answered-output os f (ok x) = refl
answered-output os f fault = refl
answered-output os f out_of_fuel = refl

answered-Whenever :
    (os : List Output) (f : Files ℕ) (r : Run (ℤ × FatEntryInfo × Files ℕ))
    → Whenever
        (λ (status, info, f').
          ((answered os f r).0 ≡ status)
          × ((answered os f r).1 ≡ info)
          × ((answered os f r).2.1 ≡ f'))
        r
answered-Whenever os f (ok x) = (refl, refl, refl)
answered-Whenever os f fault = tt
answered-Whenever os f out_of_fuel = tt

abbrev listing_calls-OverKernel : OverKernel folder_read folder_next 3 listing_calls
listing_calls-OverKernel = record {
  output = λ s. s.0;
  files = λ s. s.1;
  output-write = λ o s. refl;
  files-write = λ o s. refl;
  output-next = λ s.
      answered-output s.0 s.1 (syscall_get_next_entry folder_read folder_next (pos 3) cleared s.1);
  next = λ s.
      answered-Whenever s.0 s.1
        (syscall_get_next_entry folder_read folder_next (pos 3) cleared s.1);
}

abbrev two_entries : List DirInfo
two_entries = folder_entry ∷ folder_entry ∷ []

open_folder-OpenOn : OpenOn folder_read folder_next 3 700 open_folder
open_folder-OpenOn = (omega arith, omega arith, refl, omega arith)

open_folder-Walk : Walk folder_read folder_next 3 700 two_entries 3
open_folder-Walk = (
  3,
  2,
  refl,
  omega arith,
  refl,
  (2, 1, refl, omega arith, refl, inr (refl, omega arith, ground arith)),
)

print_tree-nothing_example :
    Returns (λ s'. s'.0 ≡ []) (print_tree listing_calls 9 (literal (b'/' ∷ [])) 0 ([], open_folder))
print_tree-nothing_example =
    print_tree-nothing folder_read folder_next 3 listing_calls listing_calls-OverKernel 700 7
      (literal (b'/' ∷ [])) 0 ([], open_folder) two_entries refl open_folder-OpenOn open_folder-Walk

abbrev store_word : (address byte : ℕ) → Memory → Memory
store_word address byte m = record m { words = update m.words address byte }

abbrev store_word-StackBytes : StackBytes store_word
store_word-StackBytes = record {
  load_byte = λ m address. m.words address;
  load-store = λ a c x m _ _. refl;
}

place_arguments-stack_example :
    Returns
      (λ (sp, frame, m').
        (sp + 64 * 2 ≡ 16 * page_size)
        × ((j : ℕ) → j < 2 → frame (j + 1) + 64 * (j + 1) ≡ 16 * page_size)
        × ((j x : ℕ) → j < 2 → x ≤ 5 → m'.words (frame (j + 1) + x) ≡ lsblk x)
        × ((j : ℕ) → (j ≡ 0) ⊎ (30 < j) → frame j ≡ 5))
      (place_arguments store_word 2 0 (λ _. lsblk) (16 * page_size) (λ _. 5) sample_memory)
place_arguments-stack_example =
    place_arguments-stack store_word store_word-StackBytes 2 (λ _. lsblk) (λ _. 5) (λ _. 5)
      sample_memory (omega arith) (λ j less. (omega arith, refl, lsblk-short))

-- "ab" and a line feed wait.
abbrev typed_uart : Uart
typed_uart = record {
  buffer = λ i. if i == 63 then b'a' else if i == 0 then b'b' else 10;
  head = 2;
  tail = 63;
  owner = 2;
}

abbrev blank_line : LineBuffer
blank_line = record { chars = λ _. 9; current_len = 0 }

input_round-Rounded_example :
    Returns
      (Rounded 16 blank_line typed_uart resting_kernel (3 ∷ 4 ∷ []))
      (input_round 16 blank_line typed_uart resting_kernel)
input_round-Rounded_example =
    input_round-Rounded 16 blank_line typed_uart resting_kernel (3 ∷ 4 ∷ []) (omega arith)
      (omega arith, omega arith) (omega arith) resting_kernel-Inv
