-- ===== src/Dispatch.antt =====
-- `syscall_dispatcher` of libs/syscalls.c: the call that a number chooses, its arguments from the saved
-- registers, and its result in the first of them. `Dispatch.State` holds the state, `Dispatch.Frame`
-- shows what a call leaves alone.
pub mod Numbers
pub mod State
pub mod Frame
pub mod Keep
use demos_os.Base.{
  ℕ, zero, suc, ◌+◌, ◌-◌, ◌*◌, ◌%◌, ◌^◌, Bool, true, false, not, Option, none, some, List, [], ◌∷◌,
  ◌++◌, ltb, ◌==◌, if◌then◌else◌, length,
}
use demos_os.Base.Int.{ℤ, pos, negsuc, pos_part, ltb_ℤ}
use demos_os.Base.Run.{Run, ok, fault, ◌>>=◌}
use demos_os.Pcb.{Ptr, null}
use demos_os.Sched.{Kernel, current, update}
use demos_os.Ipc.{Attempt, done, blocked}
use demos_os.Memory.{Memory}
use demos_os.Fork.{Machine, PtRegs}
use demos_os.Uart.{Uart, LineBuffer, Typed, typed, max_line, claim_uart, input_round}
use demos_os.Syscalls.{
  syscall_wait, syscall_yield, syscall_exit, syscall_set_sched_param, syscall_send_signal,
  syscall_send_message, syscall_receive_message, syscall_get_pid, syscall_fork, syscall_malloc,
}
use demos_os.Syscalls.Files.{
  Files, Opener, syscall_open, syscall_close_file, syscall_write_file, syscall_read_file,
  resource_type_file, resource_type_folder,
}
use demos_os.Syscalls.Files.Entries.{DirInfo, FatEntryInfo, syscall_get_next_entry}
use demos_os.Syscalls.Files.Exec.{ExecEnv, syscall_exec, syscall_exec_argument_dimension}
use demos_os.Drivers.{Bus, mmio_read}
use demos_os.Drivers.Serial.{uart_puts, uart_hex}
use demos_os.Drivers.Timer.{timer_clo}
use demos_os.Dispatch.Numbers.{SystemCall, call_of, syscalls_number}
use demos_os.Dispatch.State.{
  System, Registers, UserAccess, as_int, as_register, text_at, bytes_at, user_byte, put_bytes,
  put_int,
}

-- What is not code of the kernel: the hardware, the FAT library, the access to the caller's memory and
-- the layout of `FatEntryInfo` in it, the label of the assembly, and the fuel of the loops.
pub record Outside (D Fat : Type 0) : Type 0 where
  pub bus : Bus D
  pub polls : ℕ
  pub text_fuel : ℕ
  pub user : UserAccess
  pub exec_env : ExecEnv Fat
  pub fat_file_open : (flags : ℕ) → Opener Fat
  pub fat_dir_open : Opener Fat
  pub fat_dir_create : Opener Fat
  pub fat_file_write : Ptr → List ℕ → Fat → ℤ × ℕ × Fat
  pub fat_dir_read : Ptr → Fat → ℤ × DirInfo × Fat
  pub fat_dir_next : Ptr → Fat → ℤ × Fat
  pub load_entry : (byte : ℕ → ℕ) → (address : ℕ) → FatEntryInfo
  pub entry_bytes : FatEntryInfo → List ℕ
  pub ret_from_fork : ℕ

-- What a call leaves: the saved registers are those with which its process goes on, at once or when
-- it has the CPU again; or the process waits, and goes on inside the call.
pub data Served (D Fat : Type 0) : Type 0 where
  returned : Registers → System D Fat → Served D Fat
  waiting : System D Fat → Served D Fat

module _ {D Fat : Type 0} (out : Outside D Fat) where
  abbrev pub with_kernel : System D Fat → Kernel → System D Fat
  with_kernel s k = record s { files = record s.files { kernel = k } }

  -- `registers[0] = ...`
  abbrev pub answer : Registers → ℕ → System D Fat → Run (Served D Fat)
  answer regs value s = ok (returned (update regs 0 value) s)

  -- The text at an address of the caller.
  abbrev pub user_text : System D Fat → (address : ℕ) → Run (List ℕ)
  user_text s address = text_at out.text_fuel (user_byte out.user s) address

  -- `syscall_write`, `syscall_write_hex` and `syscall_get_time`
  unfoldable pub syscall_write : (buffer : ℕ) → System D Fat → Run (System D Fat)
  syscall_write buffer s = user_text s buffer >>= λ str.
      uart_puts out.bus out.polls str s.device >>= λ d. ok (record s { device = d })

  -- The `int` becomes an `unsigned long`.
  unfoldable pub syscall_write_hex : (number : ℤ) → System D Fat → Run (System D Fat)
  syscall_write_hex number s =
      uart_hex out.bus out.polls (as_register number) s.device >>= λ d. ok (record s { device = d })

  abbrev pub syscall_get_time : System D Fat → ℕ × System D Fat
  syscall_get_time s =
      let (time, d) = mmio_read out.bus timer_clo s.device in (time, record s { device = d })

  -- A call that only works on the files.
  abbrev pub answer_files : Registers → System D Fat → Run (ℤ × Files Fat) → Run (Served D Fat)
  answer_files regs s r =
      r >>= λ (status, f). answer regs (as_register status) (record s { files = f })

  unfoldable pub serve_create_dir : Registers → System D Fat → Run (Served D Fat)
  serve_create_dir regs s = user_text s (regs 0) >>= λ path.
      answer_files regs s
        (syscall_open (λ e. e) out.fat_dir_create resource_type_folder path s.files)

  unfoldable pub serve_open_dir : Registers → System D Fat → Run (Served D Fat)
  serve_open_dir regs s = user_text s (regs 0) >>= λ path.
      answer_files regs s
        (syscall_open (λ _. negsuc 0) out.fat_dir_open resource_type_folder path s.files)

  unfoldable pub serve_open_file : Registers → System D Fat → Run (Served D Fat)
  serve_open_file regs s = user_text s (regs 0) >>= λ path. answer_files regs s (
      syscall_open (λ _. negsuc 0) (out.fat_file_open (regs 1 % 256)) resource_type_file path
        s.files)

  -- The count is written unless the slot is empty. A negative length writes nothing.
  unfoldable pub serve_write_file : Registers → System D Fat → Run (Served D Fat)
  serve_write_file regs s =
      let fd = as_int (regs 0) in
      let buffer = bytes_at (pos_part (as_int (regs 2))) (user_byte out.user s) (regs 1) in
      let empty = (current s.files.kernel).files (pos_part fd) == null in
      syscall_write_file out.fat_file_write fd buffer s.files >>= λ (error, n, f).
      let s' : System D Fat = record s { files = f } in
      (if empty then ok s' else put_int out.user (regs 3) n s') >>= λ s''.
      answer regs (as_register error) s''

  unfoldable pub serve_read_file : Registers → System D Fat → Run (Served D Fat)
  serve_read_file regs s =
      let env = out.exec_env in
      syscall_read_file env.fat_file_seek env.fat_file_read (as_int (regs 0))
        (pos_part (as_int (regs 2))) s.files
      >>= λ (error, read_bytes, f).
          put_bytes out.user (regs 1) read_bytes (record s { files = f }) >>= λ filled.
          put_int out.user (regs 3) (length read_bytes) filled >>= λ counted.
          answer regs (as_register error) counted

  unfoldable pub serve_get_next_entry : Registers → System D Fat → Run (Served D Fat)
  serve_get_next_entry regs s =
      let entry = out.load_entry (user_byte out.user s) (regs 1) in
      syscall_get_next_entry out.fat_dir_read out.fat_dir_next (as_int (regs 0)) entry s.files
      >>= λ (status, entry', f).
          put_bytes out.user (regs 1) (out.entry_bytes entry') (record s { files = f }) >>= λ s'.
          answer regs (as_register status) s'

  unfoldable pub serve_fork : Registers → System D Fat → Run (Served D Fat)
  serve_fork regs s =
      let m : Machine = record {
        kernel = s.files.kernel;
        memory = s.files.memory;
        pt_regs = s.pt_regs;
      } in
      syscall_fork out.ret_from_fork m >>= λ (pid, m').
      let f : Files Fat = record s.files { kernel = m'.kernel; memory = m'.memory } in
      answer regs (as_register pid) (record s { files = f; pt_regs = m'.pt_regs })

  -- What a send, a receive and a line input leave.
  abbrev pub after_send : Registers → System D Fat → Attempt ℤ → Run (Served D Fat)
  after_send regs s (done status k) = answer regs (as_register status) (with_kernel s k)
  after_send regs s (blocked k) = ok (waiting (with_kernel s k))

  -- The body and its terminator; the call has no result.
  abbrev pub after_receive : Registers → System D Fat → Attempt (List ℕ) → Run (Served D Fat)
  after_receive regs s (done body k) =
      put_bytes out.user (regs 0) (body ++ 0 ∷ []) (with_kernel s k) >>= λ s'. ok (returned regs s')
  after_receive regs s (blocked k) = ok (waiting (with_kernel s k))

  -- The caller's bytes are written when the line is complete.
  abbrev pub after_input : Registers → (len : ℕ) → System D Fat → Typed → Run (Served D Fat)
  after_input regs len s (typed n b u k) =
      put_bytes out.user (regs 0) (bytes_at (max_line len + 1) b.chars 0)
        (record (with_kernel s k) { uart = u })
      >>= λ s'. answer regs n s'
  after_input regs len s (Typed.blocked b u k) =
      ok (waiting (record (with_kernel s k) { uart = u }))

  -- One attempt: the UART is claimed, and then a line is read.
  unfoldable pub serve_input : Registers → System D Fat → Run (Served D Fat)
  serve_input regs s =
      let line : LineBuffer = record {
        chars = λ i. user_byte out.user s (regs 0 + i);
        current_len = 0;
      } in
      let len = pos_part (as_int (regs 1)) in
      claim_uart s.uart s.files.kernel >>= λ (mine, u, k).
      let s' : System D Fat = record (with_kernel s k) { uart = u } in
      let round = input_round len line u k >>= after_input regs len s in
      if mine then round else ok (waiting s')

  unfoldable pub serve_send_message : Registers → System D Fat → Run (Served D Fat)
  serve_send_message regs s = user_text s (regs 1) >>= λ body.
      syscall_send_message s.files.kernel (as_int (regs 0)) body >>= after_send regs s

  unfoldable pub serve_receive_message : Registers → System D Fat → Run (Served D Fat)
  serve_receive_message regs s = syscall_receive_message s.files.kernel >>= after_receive regs s

  -- A shift by a negative number is undefined.
  unfoldable pub serve_send_signal : Registers → System D Fat → Run (Served D Fat)
  serve_send_signal regs s =
      let flag = as_int (regs 1) in
      let (status, k) = syscall_send_signal s.files.kernel (as_int (regs 0)) (pos_part flag) in
      if ltb_ℤ flag (pos 0) then fault else answer regs (as_register status) (with_kernel s k)

  -- The status of the call is thrown away: the new registers are those that the call wrote.
  unfoldable pub serve_exec : Registers → System D Fat → Run (Served D Fat)
  serve_exec regs s =
      let arguments =
        λ (i j : ℕ). user_byte out.user s (regs 2 + i * syscall_exec_argument_dimension + j) in
      user_text s (regs 0) >>= λ path.
      syscall_exec out.exec_env path regs (pos_part (as_int (regs 1))) arguments s.files
      >>= λ (_, regs', f). ok (returned regs' (record s { files = f }))

  -- The cases of the `switch`. A call without a result leaves the registers.
  unfoldable pub run_system_call : SystemCall → Registers → System D Fat → Run (Served D Fat)
  run_system_call SystemCall.write regs s = syscall_write (regs 0) s >>= λ s'. ok (returned regs s')
  run_system_call SystemCall.write_hex regs s =
      syscall_write_hex (as_int (regs 0)) s >>= λ s'. ok (returned regs s')
  run_system_call SystemCall.malloc regs s =
      let (address, memory) = syscall_malloc s.files.memory in
      answer regs address (record s { files = record s.files { memory = memory } })
  run_system_call SystemCall.exit regs s =
      syscall_exit s.files.kernel >>= λ k. ok (returned regs (with_kernel s k))
  run_system_call SystemCall.create_dir regs s = serve_create_dir regs s
  run_system_call SystemCall.open_dir regs s = serve_open_dir regs s
  run_system_call SystemCall.open_file regs s = serve_open_file regs s
  run_system_call SystemCall.close_file regs s =
      answer_files regs s (syscall_close_file out.exec_env.fat_file_close (as_int (regs 0)) s.files)
  run_system_call SystemCall.write_file regs s = serve_write_file regs s
  run_system_call SystemCall.read_file regs s = serve_read_file regs s
  run_system_call SystemCall.yield_cpu regs s =
      syscall_yield s.files.kernel >>= λ k. ok (returned regs (with_kernel s k))
  run_system_call SystemCall.input regs s = serve_input regs s
  run_system_call SystemCall.get_next_entry regs s = serve_get_next_entry regs s
  run_system_call SystemCall.fork regs s = serve_fork regs s
  run_system_call SystemCall.send_message regs s = serve_send_message regs s
  run_system_call SystemCall.receive_message regs s = serve_receive_message regs s
  run_system_call SystemCall.send_signal regs s = serve_send_signal regs s
  run_system_call SystemCall.exec regs s = serve_exec regs s
  run_system_call SystemCall.wait regs s =
      syscall_wait s.files.kernel (as_int (regs 0)) >>= λ (status, k).
      answer regs (as_register status) (with_kernel s k)
  run_system_call SystemCall.get_time regs s =
      let (time, s') = syscall_get_time s in answer regs time s'
  run_system_call SystemCall.set_sched_param regs s =
      let (status, k) =
        syscall_set_sched_param s.files.kernel (as_int (regs 0)) (as_int (regs 1))
          (as_int (regs 2)) in
      answer regs (as_register status) (with_kernel s k)
  run_system_call SystemCall.get_pid regs s = answer regs (syscall_get_pid s.files.kernel) s

  -- The `switch`.
  unfoldable pub serve : Option SystemCall → Registers → System D Fat → Run (Served D Fat)
  serve none regs s = ok (returned regs s)
  serve (some c) regs s = run_system_call c regs s

  unfoldable pub syscall_dispatcher : Registers → System D Fat → Run (Served D Fat)
  syscall_dispatcher regs s =
      if ltb syscalls_number (regs 8) then ok (returned regs s) else serve (call_of (regs 8)) regs s
