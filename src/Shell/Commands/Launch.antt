-- ===== src/Shell/Commands/Launch.antt =====
-- The commands of app/shell.c that start a program, and the choice of the command for a line.
use demos_os.Base.{
  ℕ, zero, suc, ◌+◌, Bool, List, [], ◌∷◌, ltb, ◌==◌, if◌then◌else◌, Option, none, some, length,
}
use demos_os.Base.Int.{ℤ, pos, ◌==ℤ◌}
use demos_os.Base.Run.{out_of_fuel, Run, ok, ◌>>=◌}
use demos_os.Text.{Chars, strlen, strsplit, strcpy}
use demos_os.Shell.{normalize_path}
use demos_os.Shell.Commands.{
  text, Calls, Exec, failed, replaced, Left, goes_on, is_program, has_ended, notice, number,
  new_line, banner, prompt_name, prompt_end, no_program, path_too_long, i_am_the_son, cannot_run,
  no_process, no_binary, clear_screen, help_text, max_command_dimension, text_fuel, zeroed, literal,
  starts_with, append_text, print, report, handle_ls, handle_pwd,
}
use demos_os.Shell.Commands.Paths.{argument_of, handle_mkdir, handle_cd, handle_show}
use demos_os.Shell.Commands.Line.{handle_write}
use demos_os.Shell.Commands.Tree.{handle_tree}

-- `MAX_EXEC_ARGUMENTS`
abbrev pub max_exec_arguments : ℕ
max_exec_arguments = 4

abbrev pub bin_folder : List ℕ
bin_folder = b'/' ∷ b'b' ∷ b'i' ∷ b'n' ∷ b'/' ∷ []

abbrev pub bin_suffix : List ℕ
bin_suffix = b'.' ∷ b'b' ∷ b'i' ∷ b'n' ∷ []

-- "/bin/", the name and ".bin"; `none` if they do not fit.
unfoldable pub binary_path : (file_name : Chars) → Run (Option Chars)
binary_path file_name =
    let built = append_text zeroed (literal bin_folder) >>= λ path.
    append_text path file_name >>= λ path₁. append_text path₁ (literal bin_suffix) >>= λ path₂.
    normalize_path text_fuel path₂ >>= λ path₃. ok (some path₃) in
    strlen text_fuel file_name >>= λ n.
    if ltb (length bin_folder + n + length bin_suffix) max_command_dimension then built else ok none

-- The arguments: `rounds` of them at most, each cut off at the next blank.
unfoldable pub split_arguments :
    (rounds : ℕ) → (arguments_raw : Chars) → (n_arguments : ℕ) → (ℕ → Chars) → Run (ℕ × (ℕ → Chars))
split_arguments zero arguments_raw n_arguments arguments = ok (n_arguments, arguments)
split_arguments (suc rounds) arguments_raw n_arguments arguments =
    strlen text_fuel arguments_raw >>= λ len.
    let split =
      strsplit text_fuel arguments_raw b' ' (arguments n_arguments) zeroed >>= λ (argument, temp).
      strcpy text_fuel arguments_raw temp >>= λ raw'.
      split_arguments rounds raw' (n_arguments + 1)
        (λ i. if i == n_arguments then argument else arguments i) in
    if ltb 0 len then split else ok (n_arguments, arguments)

module _ {S : Type 0} (calls : Calls S) where
  -- The parent waits for the end of the child.
  abbrev pub wait_for : (pid : ℤ) → S → S
  wait_for pid s =
      let (status, s₁) = calls.call_syscall_wait pid s in
      if status ==ℤ pos 0
      then s₁
      else print calls (notice no_process ∷ number pid ∷ notice new_line ∷ []) s₁

  -- The child: `greeting` is printed first, `complaint` after an error of the call.
  abbrev pub become : Exec S → (complaint : S → S) → Left S
  become (failed s) complaint = has_ended (complaint s)
  become (replaced s) complaint = is_program s

  -- Behind the fork: the child runs on with the pid 0.
  abbrev pub run_son : (path : Chars) → S → Left S
  run_son path s =
      become
        (calls.call_syscall_exec path 0 (λ _. zeroed) (print calls (notice i_am_the_son ∷ []) s))
        (print calls (notice cannot_run ∷ []))

  unfoldable pub handle_exec : (buffer working_directory : Chars) → S → Run (Left S)
  handle_exec buffer working_directory s = argument_of buffer >>= λ path.
      strlen text_fuel path >>= λ m. strlen text_fuel working_directory >>= λ n.
      let launch = append_text zeroed working_directory >>= λ complete.
      append_text complete path >>= λ complete₁.
      normalize_path text_fuel complete₁ >>= λ complete_path.
      let (pid, s₁) = calls.call_syscall_fork s in
      ok (if pid ==ℤ pos 0 then run_son complete_path s₁ else goes_on (wait_for pid s₁)) in
      if m == 0
      then ok (goes_on (print calls (notice no_program ∷ []) s))
      else if ltb (n + m) max_command_dimension
      then launch
      else ok (goes_on (print calls (notice path_too_long ∷ []) s))

  unfoldable pub handle_exec_from_bin : (buffer : Chars) → S → Run (Left S)
  handle_exec_from_bin buffer s =
      strsplit text_fuel buffer b' ' zeroed zeroed >>= λ (file_name, arguments_raw).
      binary_path file_name >>= λ found. elim found [
        | none ↦ ok (goes_on (print calls (notice path_too_long ∷ []) s))
        | some path ↦
            (split_arguments max_exec_arguments arguments_raw 0 (λ _. zeroed) >>= λ (n, arguments).
            let (pid, s₁) = calls.call_syscall_fork s in
            ok (
              if pid ==ℤ pos 0
              then become (calls.call_syscall_exec path n arguments s₁)
                  (report calls no_binary file_name)
              else goes_on (wait_for pid s₁)))
      ]

-- The commands, in the order of the tests.
pub data Command : Type 0 where
  help : Command
  ls : Command
  pwd : Command
  mkdir : Command
  cd : Command
  tree : Command
  clear : Command
  write_file : Command
  show : Command
  exec : Command
  from_bin : Command

abbrev pub command_name : Command → List ℕ
command_name help = b'h' ∷ b'e' ∷ b'l' ∷ b'p' ∷ []
command_name ls = b'l' ∷ b's' ∷ []
command_name pwd = b'p' ∷ b'w' ∷ b'd' ∷ []
command_name mkdir = b'm' ∷ b'k' ∷ b'd' ∷ b'i' ∷ b'r' ∷ []
command_name cd = b'c' ∷ b'd' ∷ []
command_name tree = b't' ∷ b'r' ∷ b'e' ∷ b'e' ∷ []
command_name clear = b'c' ∷ b'l' ∷ b'e' ∷ b'a' ∷ b'r' ∷ []
command_name write_file = b'w' ∷ b'r' ∷ b'i' ∷ b't' ∷ b'e' ∷ []
command_name show = b's' ∷ b'h' ∷ b'o' ∷ b'w' ∷ []
command_name exec = b'e' ∷ b'x' ∷ b'e' ∷ b'c' ∷ []
command_name from_bin = []

abbrev pub names : Command → Chars → Bool
names c buffer = starts_with (command_name c) buffer 0

-- The chain of tests in `shell`.
unfoldable pub command_of : Chars → Command
command_of buffer =
    if names help buffer
    then help
    else if names ls buffer
    then ls
    else if names pwd buffer
    then pwd
    else if names mkdir buffer
    then mkdir
    else if names cd buffer
    then cd
    else if names tree buffer
    then tree
    else if names clear buffer
    then clear
    else if names write_file buffer
    then write_file
    else if names show buffer
    then show
    else if names exec buffer
    then exec
    else from_bin

module _ {S : Type 0} (calls : Calls S) where
  -- The working directory, and what the command leaves.
  abbrev pub run_command :
      ℕ → Command → (buffer working_directory : Chars) → S → Run (Chars × Left S)
  run_command fuel help buffer wd s = ok (wd, goes_on (print calls (notice help_text ∷ []) s))
  run_command fuel ls buffer wd s = handle_ls calls fuel wd s >>= λ s'. ok (wd, goes_on s')
  run_command fuel pwd buffer wd s = ok (wd, goes_on (handle_pwd calls wd s))
  run_command fuel mkdir buffer wd s = handle_mkdir calls buffer wd s >>= λ s'. ok (wd, goes_on s')
  run_command fuel cd buffer wd s =
      handle_cd calls buffer wd s >>= λ (wd', s'). ok (wd', goes_on s')
  run_command fuel tree buffer wd s =
      handle_tree calls fuel buffer wd s >>= λ s'. ok (wd, goes_on s')
  run_command fuel clear buffer wd s = ok (wd, goes_on (print calls (notice clear_screen ∷ []) s))
  run_command fuel write_file buffer wd s =
      handle_write calls buffer wd s >>= λ s'. ok (wd, goes_on s')
  run_command fuel show buffer wd s = handle_show calls buffer wd s >>= λ s'. ok (wd, goes_on s')
  run_command fuel exec buffer wd s = handle_exec calls buffer wd s >>= λ r. ok (wd, r)
  run_command fuel from_bin buffer wd s = handle_exec_from_bin calls buffer s >>= λ r. ok (wd, r)

  -- One round of the loop of `shell`, behind the input of the line.
  unfoldable pub shell_round : ℕ → (buffer working_directory : Chars) → S → Run (Chars × Left S)
  shell_round fuel buffer wd s = strlen text_fuel buffer >>= λ len.
      if len == 0 then ok (wd, goes_on s) else run_command fuel (command_of buffer) buffer wd s

  -- The loop of `shell`: the prompt, the input of the line, and its command. The shell ends when its
  -- process does or becomes another program.
  pub shell_loop : (rounds : ℕ) → ℕ → (working_directory : Chars) → S → Run (Left S)
  shell_loop zero fuel wd s = out_of_fuel
  shell_loop (suc rounds) fuel wd s =
      let prompted = print calls (notice prompt_name ∷ text wd ∷ notice prompt_end ∷ []) s in
      let (buffer, s₁) = calls.call_syscall_input max_command_dimension prompted in
      shell_round fuel buffer wd (print calls (notice new_line ∷ []) s₁) >>= λ (wd', left).
      elim left [
        | goes_on s₂ ↦ shell_loop rounds fuel wd' s₂
        | is_program s₂ ↦ ok (is_program s₂)
        | has_ended s₂ ↦ ok (has_ended s₂)
      ]

  -- `shell`, from the root.
  unfoldable pub shell : (rounds : ℕ) → ℕ → S → Run (Left S)
  shell rounds fuel s =
      shell_loop rounds fuel (literal (b'/' ∷ [])) (print calls (notice banner ∷ []) s)
