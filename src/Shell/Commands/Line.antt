-- ===== src/Shell/Commands/Line.antt =====
-- `handle_write` of app/shell.c, which splits its line itself.
use demos_os.Base.{ℕ, zero, suc, ◌+◌, Bool, not, ◌&&◌, ◌||◌, [], ◌∷◌, ltb, ◌==◌, if◌then◌else◌}
use demos_os.Base.Int.{pos, negsuc, ◌==ℤ◌}
use demos_os.Base.Run.{Run, ok, fault, out_of_fuel, ◌>>=◌}
use demos_os.Text.{Chars, write, strlen}
use demos_os.Shell.Commands.{
  Calls, notice, path_too_big, cannot_open_file, cannot_write, max_command_dimension,
  max_file_dimension, text_fuel, zeroed, append_text, print, report,
}
use demos_os.Shell.Commands.Paths.{fat_write, fat_create}

abbrev pub ends_text : ℕ → Bool
ends_text c = c == 0

abbrev pub ends_word : ℕ → Bool
ends_word c = c == 0 || c == b' '

-- `while (...) p++`. A read behind the buffer of 64 bytes is a fault.
unfoldable pub skip_until : ℕ → (ends : ℕ → Bool) (buffer : Chars) (p : ℕ) → Run ℕ
skip_until zero ends buffer p = out_of_fuel
skip_until (suc fuel) ends buffer p =
    let rest = skip_until fuel ends buffer (p + 1) in
    if not (ltb p max_command_dimension) then fault else if ends (buffer p) then ok p else rest

-- The same, with a copy of each byte to `dest[i]`, and then the terminator: the copy, its length, and
-- where the pointer stands.
unfoldable pub copy_until :
    ℕ → (ends : ℕ → Bool) (buffer : Chars) (p : ℕ) → (dest : Chars) (i : ℕ) → Run (Chars × ℕ × ℕ)
copy_until zero ends buffer p dest i = out_of_fuel
copy_until (suc fuel) ends buffer p dest i =
    let rest = copy_until fuel ends buffer (p + 1) (write dest i (buffer p)) (i + 1) in
    if not (ltb p max_command_dimension)
    then fault
    else if ends (buffer p)
    then (if ltb i max_command_dimension then ok (write dest i 0, i, p) else fault)
    else if ltb i max_command_dimension
    then rest
    else fault

-- What the line holds behind the command: the name of the file, its content, and the length of that.
unfoldable pub split_write : (buffer : Chars) → Run (Chars × Chars × ℕ)
split_write buffer = skip_until text_fuel ends_word buffer 0 >>= λ p.
    copy_until text_fuel ends_word buffer (p + 1) zeroed 0 >>= λ (file_name, _, q).
    copy_until text_fuel ends_text buffer (q + 1) zeroed 0 >>= λ (file_content, i, _).
    ok (file_name, file_content, i)

module _ {S : Type 0} (calls : Calls S) where
  -- Behind the construction of the path.
  abbrev pub write_to : (path content : Chars) (i : ℕ) → S → S
  write_to path content i s =
      let (fd, s₁) = calls.call_syscall_open_file path (fat_create + fat_write) s in
      let opened = not (fd ==ℤ negsuc 0) in
      let s₂ = if opened then s₁ else report calls cannot_open_file path s₁ in
      let (error, s₃) = calls.call_syscall_write_file fd content max_file_dimension s₂ in
      let s₄ = if error ==ℤ pos 0 then s₃ else report calls cannot_write path s₃ in
      calls.call_syscall_close_file fd (if opened && ltb 0 i then s₄ else s₂)

  -- A path that does not fit is reported, and the empty path is opened.
  unfoldable pub handle_write : (buffer working_directory : Chars) → S → Run S
  handle_write buffer working_directory s = split_write buffer >>= λ (file_name, content, i).
      strlen text_fuel working_directory >>= λ n. strlen text_fuel file_name >>= λ m.
      let build = append_text zeroed working_directory >>= λ path.
      append_text path file_name >>= λ path₁. ok (write_to path₁ content i s) in
      if ltb (n + m) max_command_dimension
      then build
      else ok (write_to zeroed content i (print calls (notice path_too_big ∷ []) s))
