-- ===== src/Shell/Commands/Paths.antt =====
-- The commands of app/shell.c that take a path: mkdir, cd, show and write.
use demos_os.Base.{ℕ, ◌+◌, ◌-◌, not, ◌&&◌, [], ◌∷◌, ltb, ◌==◌, if◌then◌else◌}
use demos_os.Base.Int.{ℤ, pos, negsuc, ◌==ℤ◌, ltb_ℤ}
use demos_os.Base.Run.{Run, ok, ◌>>=◌}
use demos_os.Text.{Chars, write, strlen, strsplit}
use demos_os.Shell.{normalize_path}
use demos_os.Shell.Commands.{
  Calls, notice, text, new_line, no_directory_name, working_directory_too_big, cannot_create,
  cannot_change_directory, cannot_open, cannot_read, max_command_dimension, max_file_dimension,
  text_fuel, zeroed, literal, memcpy, append_text, last_byte, print, report,
}

abbrev pub slash : Chars
slash = literal (b'/' ∷ [])

-- `FAT_READ`, `FAT_WRITE` and `FAT_CREATE`
abbrev pub fat_read : ℕ
fat_read = 2

abbrev pub fat_write : ℕ
fat_write = 1

abbrev pub fat_create : ℕ
fat_create = 16

-- `temp[len] = '/'; temp[len + 1] = '\0'` behind a text that needs it.
abbrev pub end_with_slash : (path : Chars) (len : ℕ) → Chars
end_with_slash path len =
    if ltb 2 len && not (path (len - 1) == b'/')
    then write (write path len b'/') (len + 1) 0
    else path

-- An absolute path as it is; a relative one behind the working directory.
unfoldable pub resolve : (destination working_directory : Chars) → Run Chars
resolve destination working_directory =
    let temp = memcpy zeroed working_directory max_command_dimension in
    let relative =
      strlen text_fuel temp >>= λ len. append_text (end_with_slash temp len) destination in
    if destination 0 == b'/' then ok (memcpy zeroed destination max_command_dimension) else relative

-- The second word of a command, and all behind it.
abbrev pub argument_of : (buffer : Chars) → Run Chars
argument_of buffer = strsplit text_fuel buffer b' ' zeroed zeroed >>= λ (_, argument). ok argument

-- `if (destination[destination_len - 1] != '/') strcat(destination, "/")`
unfoldable pub close_path : (destination : Chars) → Run Chars
close_path destination = strlen text_fuel destination >>= λ len. last_byte destination len >>= λ c.
    if c == b'/' then ok destination else append_text destination slash

module _ {S : Type 0} (calls : Calls S) where
  unfoldable pub handle_mkdir : (buffer working_directory : Chars) → S → Run S
  handle_mkdir buffer working_directory s = argument_of buffer >>= λ dir_name.
      let create = append_text zeroed working_directory >>= λ temp.
      (if dir_name 0 == b'/' then ok temp else append_text temp slash) >>= λ temp₁.
      append_text temp₁ dir_name >>= λ temp₂.
      let (fd, s₁) = calls.call_syscall_create_dir temp₂ s in
      ok (if fd ==ℤ negsuc 0 then report calls cannot_create temp₂ s₁ else s₁) in
      if dir_name 0 == 0
      then ok (print calls (notice no_directory_name ∷ []) s)
      else (strlen text_fuel working_directory >>= λ len.
          if ltb len max_command_dimension
          then create
          else ok (print calls (notice working_directory_too_big ∷ []) s))

  -- `open_dir` on the path: the working directory changes only if it succeeds.
  unfoldable pub enter : (working_directory path : Chars) → S → Chars × S
  enter working_directory path s =
      let (fd, s₁) = calls.call_syscall_open_dir path s in
      if fd ==ℤ negsuc 0
      then (working_directory, report calls cannot_change_directory path s₁)
      else (memcpy working_directory path max_command_dimension, s₁)

  -- The working directory and the state behind the command.
  unfoldable pub handle_cd : (buffer working_directory : Chars) → S → Run (Chars × S)
  handle_cd buffer working_directory s = argument_of buffer >>= λ argument.
      close_path argument >>= λ destination. resolve destination working_directory >>= λ temp.
      normalize_path text_fuel temp >>= λ path. ok (enter working_directory path s)

  -- The part of `handle_show` behind a successful opening.
  abbrev pub show_file : (fd : ℤ) (path : Chars) → S → S
  show_file fd path s =
      let (error, content, s₁) = calls.call_syscall_read_file fd max_file_dimension s in
      let s₂ =
        if error ==ℤ pos 0
        then print calls (text content ∷ notice new_line ∷ []) s₁
        else report calls cannot_read path s₁ in
      calls.call_syscall_close_file fd s₂

  unfoldable pub handle_show : (buffer working_directory : Chars) → S → Run S
  handle_show buffer working_directory s = argument_of buffer >>= λ destination.
      resolve destination working_directory >>= λ temp. normalize_path text_fuel temp >>= λ path.
      let (fd, s₁) = calls.call_syscall_open_file path fat_read s in
      let s₂ = if fd ==ℤ negsuc 0 then report calls cannot_open path s₁ else s₁ in
      ok (if ltb_ℤ (negsuc 0) fd then show_file fd path s₂ else s₂)
