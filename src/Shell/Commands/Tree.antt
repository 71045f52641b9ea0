-- ===== src/Shell/Commands/Tree.antt =====
-- `handle_tree` and `print_tree` of app/shell.c.
use demos_os.Base.{
  ℕ, zero, suc, ◌+◌, ◌-◌, Bool, not, ◌&&◌, ◌||◌, List, [], ◌∷◌, ltb, ◌==◌, if◌then◌else◌,
}
use demos_os.Base.Int.{ℤ, pos, negsuc, ◌==ℤ◌}
use demos_os.Base.Run.{Run, ok, out_of_fuel, ◌>>=◌}
use demos_os.Text.{Chars, strlen}
use demos_os.Shell.{normalize_path}
use demos_os.Syscalls.Files.Entries.{FatEntryInfo}
use demos_os.Shell.Commands.{
  Calls, Output, notice, text, new_line, indent, folder_color, folder_end, cannot_open_directory,
  max_command_dimension, text_fuel, zeroed, memcpy, starts_with, append_text, last_byte, print,
  report,
}
use demos_os.Shell.Commands.Paths.{argument_of, slash}

-- "." and "..", with their terminators.
abbrev pub is_dot : Chars → Bool
is_dot name = starts_with (b'.' ∷ 0 ∷ []) name 0 || starts_with (b'.' ∷ b'.' ∷ 0 ∷ []) name 0

-- The path of an entry of the directory.
unfoldable pub child_path : (path name : Chars) → Run Chars
child_path path name = append_text zeroed path >>= λ child. strlen text_fuel child >>= λ len.
    last_byte child len >>= λ c.
    (if c == b'/' then ok child else append_text child slash) >>= λ child₁.
    append_text child₁ name >>= λ child₂. normalize_path text_fuel child₂

abbrev pub repeat : ℕ → Output → List Output
repeat zero o = []
repeat (suc n) o = o ∷ repeat n o

abbrev pub entry_line : FatEntryInfo → List Output
entry_line info =
    if info.is_dir
    then notice folder_color ∷ text info.name ∷ notice folder_end ∷ []
    else text info.name ∷ notice new_line ∷ []

module _ {S : Type 0} (calls : Calls S) where
  -- `print_tree`, with the loop over the entries as a second function; both use the fuel.
  unfoldable mutual
    pub print_tree : ℕ → (path : Chars) (depth : ℕ) → S → Run S
    print_tree zero path depth s = out_of_fuel
    print_tree (suc fuel) path depth s =
        let (fd, s₁) = calls.call_syscall_open_dir path s in
        let entries = print_entries fuel fd path depth s₁ in
        if fd ==ℤ negsuc 0 then ok s₁ else entries

    -- The loop goes on only after a result of 1.
    pub print_entries : ℕ → (fd : ℤ) (path : Chars) (depth : ℕ) → S → Run S
    print_entries zero fd path depth s = out_of_fuel
    print_entries (suc fuel) fd path depth s =
        let (result, info, s₁) = calls.call_syscall_get_next_entry fd s in
        let next = print_entries fuel fd path depth s₁ in
        let s₂ = print calls (entry_line info) (print calls (repeat depth (notice indent)) s₁) in
        let below = child_path path info.name >>= λ child. print_tree fuel child (depth + 1) s₂ in
        let inside =
          (if info.is_dir then below else ok s₂) >>= λ s₃. print_entries fuel fd path depth s₃ in
        if not (result ==ℤ pos 1) then ok s₁ else if is_dot info.name then next else inside

  -- The directory that the command names.
  unfoldable pub tree_path : (target working_directory : Chars) → Run Chars
  tree_path target working_directory =
      let here = memcpy zeroed working_directory max_command_dimension in
      let relative = strlen text_fuel here >>= λ len.
      (if ltb 1 len && not (here (len - 1) == b'/') then append_text here slash else ok here)
      >>= λ here₁. append_text here₁ target in
      if target 0 == 0
      then ok here
      else if target 0 == b'/'
      then ok (memcpy zeroed target max_command_dimension)
      else relative

  unfoldable pub handle_tree : ℕ → (buffer working_directory : Chars) → S → Run S
  handle_tree fuel buffer working_directory s = argument_of buffer >>= λ target.
      tree_path target working_directory >>= λ path. normalize_path text_fuel path >>= λ fullpath.
      let (fd, s₁) = calls.call_syscall_open_dir fullpath s in
      let s₂ = print calls (text fullpath ∷ notice new_line ∷ []) s₁ in
      let printed = print_tree fuel fullpath 0 s₂ in
      if fd ==ℤ negsuc 0 then ok (report calls cannot_open_directory fullpath s₁) else printed
