-- ===== src/Shell/Commands.antt =====
-- The commands of app/shell.c over the system calls, which are an interface here: `Calls` gives the
-- wrappers of common/user_syscalls.h over a state `S` of the rest of the system.
pub mod Paths
pub mod Tree
pub mod Launch
pub mod Line
pub mod Words
pub mod Listing
pub mod Choice
use demos_os.Base.{
  ℕ, zero, suc, ◌+◌, Bool, true, false, not, ◌&&◌, List, [], ◌∷◌, ltb, ◌==◌, if◌then◌else◌,
}
use demos_os.Base.Int.{ℤ, pos, negsuc, ◌==ℤ◌}
use demos_os.Base.Run.{Run, ok, fault, out_of_fuel, ◌>>=◌}
use demos_os.Syscalls.Files.Entries.{FatEntryInfo}
use demos_os.Text.{Chars, write, strlen, strcat}

-- `MAX_COMMAND_DIMENSION`
abbrev pub max_command_dimension : ℕ
max_command_dimension = 64

-- The fuel of the walks over texts that end in arrays of 64 bytes.
abbrev pub text_fuel : ℕ
text_fuel = 65

-- `MAX_FILE_DIMENSION`
abbrev pub max_file_dimension : ℕ
max_file_dimension = 256

-- The fixed texts that the commands print.
pub data Notice : Type 0 where
  banner : Notice
  prompt_name : Notice
  prompt_end : Notice
  new_line : Notice
  folder_color : Notice
  normal_color : Notice
  folder_end : Notice
  indent : Notice
  clear_screen : Notice
  help_text : Notice
  cannot_open_folder : Notice
  no_directory_name : Notice
  working_directory_too_big : Notice
  cannot_create : Notice
  cannot_change_directory : Notice
  cannot_open : Notice
  cannot_read : Notice
  cannot_open_directory : Notice
  path_too_big : Notice
  cannot_open_file : Notice
  cannot_write : Notice
  no_program : Notice
  path_too_long : Notice
  i_am_the_son : Notice
  cannot_run : Notice
  no_process : Notice
  no_binary : Notice

-- What a call of `call_syscall_write` or `call_syscall_write_hex` prints.
pub data Output : Type 0 where
  notice : Notice → Output
  text : Chars → Output
  number : ℤ → Output

-- What a call of `call_syscall_exec` leads to: an error, or the process is another program now.
pub data Exec (S : Type 0) : Type 0 where
  failed : S → Exec S
  replaced : S → Exec S

pub record Calls (S : Type 0) : Type 0 where
  pub call_syscall_write : Output → S → S
  pub call_syscall_input : (len : ℕ) → S → Chars × S
  pub call_syscall_create_dir : Chars → S → ℤ × S
  pub call_syscall_open_dir : Chars → S → ℤ × S
  pub call_syscall_open_file : Chars → (flags : ℕ) → S → ℤ × S
  pub call_syscall_close_file : ℤ → S → S
  pub call_syscall_write_file : ℤ → Chars → (len : ℕ) → S → ℤ × S
  pub call_syscall_read_file : ℤ → (len : ℕ) → S → ℤ × Chars × S
  pub call_syscall_get_next_entry : ℤ → S → ℤ × FatEntryInfo × S
  pub call_syscall_fork : S → ℤ × S
  pub call_syscall_exec : Chars → (n_arguments : ℕ) → (ℕ → Chars) → S → Exec S
  pub call_syscall_wait : ℤ → S → ℤ × S

-- What a command leaves: the shell goes on, or this process is another program or has ended.
pub data Left (S : Type 0) : Type 0 where
  goes_on : S → Left S
  is_program : S → Left S
  has_ended : S → Left S

-- An array that `memzero` has cleared.
abbrev pub zeroed : Chars
zeroed = λ _. 0

-- A string literal.
abbrev pub literal : List ℕ → Chars
literal [] i = 0
literal (c ∷ cs) zero = c
literal (c ∷ cs) (suc i) = literal cs i

-- `memcpy` of `count` bytes.
abbrev pub memcpy : (dest src : Chars) (count : ℕ) → Chars
memcpy dest src count i = if ltb i count then src i else dest i

-- `memcmp(buffer, name, n) == 0` for a name of `n` bytes.
abbrev pub starts_with : List ℕ → (buffer : Chars) (i : ℕ) → Bool
starts_with [] buffer i = true
starts_with (c ∷ cs) buffer i = buffer i == c && starts_with cs buffer (i + 1)

-- `strcat` to an array of 64 bytes: a text that does not fit with its terminator is a fault.
unfoldable pub append_text : (dest src : Chars) → Run Chars
append_text dest src = strlen text_fuel dest >>= λ n. strlen text_fuel src >>= λ m.
    if ltb (n + m) max_command_dimension then strcat text_fuel dest src else fault

-- A read of the last byte of a text of `len` bytes: one before the array of an empty text is a fault.
abbrev pub last_byte : Chars → (len : ℕ) → Run ℕ
last_byte path zero = fault
last_byte path (suc n) = ok (path n)

-- What `handle_ls` prints for an entry: a folder in colour, and the end of the line.
abbrev pub listed : FatEntryInfo → List Output
listed info =
    if info.is_dir
    then notice folder_color ∷ text info.name ∷ notice normal_color ∷ notice new_line ∷ []
    else text info.name ∷ notice new_line ∷ []

module _ {S : Type 0} (calls : Calls S) where
  -- Several calls of `call_syscall_write`.
  abbrev pub print : List Output → S → S
  print [] s = s
  print (o ∷ os) s = print os (calls.call_syscall_write o s)

  -- An error message with a path in it.
  abbrev pub report : Notice → Chars → S → S
  report n path s = print (notice n ∷ text path ∷ notice new_line ∷ []) s

  -- The loop of `handle_ls`.
  unfoldable pub list_entries : ℕ → (fd : ℤ) → S → Run S
  list_entries zero fd s = out_of_fuel
  list_entries (suc fuel) fd s =
      let (result, info, s') = calls.call_syscall_get_next_entry fd s in
      let rest = list_entries fuel fd (print (listed info) s') in
      if not (result ==ℤ pos 0) then ok s' else rest

  unfoldable pub handle_ls : ℕ → (working_directory : Chars) → S → Run S
  handle_ls fuel working_directory s =
      let (fd, s₁) = calls.call_syscall_open_dir working_directory s in
      if fd ==ℤ negsuc 0
      then ok (report cannot_open_folder working_directory s₁)
      else (list_entries fuel fd s₁ >>= λ s₂. ok (print (notice new_line ∷ []) s₂))

  abbrev pub handle_pwd : (working_directory : Chars) → S → S
  handle_pwd working_directory s = print (text working_directory ∷ notice new_line ∷ []) s
