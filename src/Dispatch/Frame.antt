-- ===== src/Dispatch/Frame.antt =====
-- The saved registers behind a system call of libs/syscalls.c.
use demos_os.Base.{
  ℕ, ◌+◌, ◌≡◌, ◌≢◌, true, false, refl, ◌∙◌, arith, Option, none, some, Bool-cases, inl, inr, ltb,
  if◌then◌else◌, List, sym, ◌==◌, length, ◌++◌, [], ◌∷◌,
}
use demos_os.Base.Int.{ℤ, pos, ltb_ℤ, pos_part}
use demos_os.Base.Run.{Whenever, Whenever-bind, Run, ok, ◌>>=◌}
use demos_os.Dispatch.{
  Outside, Served, returned, waiting, answer, answer_files, with_kernel, user_text, syscall_write,
  syscall_write_hex, run_system_call, serve, syscall_dispatcher, serve_create_dir, serve_open_dir,
  serve_open_file, serve_write_file, serve_read_file, serve_get_next_entry, serve_input, serve_fork,
  serve_send_message, serve_receive_message, serve_send_signal, after_send, after_receive,
  after_input,
}
use demos_os.Dispatch.Numbers.{
  SystemCall, number_of, call_of, syscalls_number, call_of-Chosen, Chosen,
}
use demos_os.Dispatch.State.{
  System, Registers, as_register, as_int, bytes_at, user_byte, put_bytes, put_int,
}
use demos_os.Ipc.{Attempt, done, blocked}
use demos_os.Uart.{Typed, typed, LineBuffer, max_line, claim_uart, input_round}
use demos_os.Syscalls.{
  syscall_wait, syscall_yield, syscall_exit, syscall_send_message, syscall_receive_message,
  syscall_fork,
}
use demos_os.Syscalls.Files.{Files, syscall_write_file, syscall_read_file}
use demos_os.Syscalls.Files.Entries.{syscall_get_next_entry}
use demos_os.Fork.{Machine}
use demos_os.Pcb.{null}
use demos_os.Sched.{current}

-- The registers but the first are as they were, when the call is over.
abbrev pub OnlyFirst : {D Fat : Type 0} → Registers → Served D Fat → Type 0
OnlyFirst regs (returned regs' s) = (j : ℕ) → j ≢ 0 → regs' j ≡ regs j
OnlyFirst regs (waiting s) = Unit

module _ {D Fat : Type 0} (out : Outside D Fat) where
  -- The registers are kept, in every result.
  abbrev Kept : Registers → Run (Served D Fat) → Type 0
  Kept regs r = Whenever (OnlyFirst {D = D} {Fat = Fat} regs) r

  Kept-bind :
      {A : Type 0} (regs : Registers) (r : Run A) (f : A → Run (Served D Fat))
      → ((a : A) → Kept regs (f a))
      → Kept regs (r >>= f)
  Kept-bind regs r f h = Whenever-bind (OnlyFirst {D = D} {Fat = Fat} regs) r f h

  answer-Kept :
      (regs : Registers) (value : ℕ) (s : System D Fat) → Kept regs (answer out regs value s)
  answer-Kept regs value s = λ j ne. ground arith

  answer_files-Kept :
      (regs : Registers) (s : System D Fat) (r : Run (ℤ × Files Fat))
      → Kept regs (answer_files out regs s r)
  answer_files-Kept regs s r =
      Kept-bind regs r
        (λ (status, f). answer out regs (as_register status) (record s { files = f }))
        (λ (status, f). answer-Kept regs (as_register status) (record s { files = f }))

  -- A call without a result.
  silent-Kept :
      {A : Type 0} (regs : Registers) (r : Run A) (f : A → System D Fat)
      → Kept regs (r >>= λ a. ok (returned regs (f a)))
  silent-Kept regs r f = Kept-bind regs r (λ a. ok (returned regs (f a))) (λ a j ne. refl)

  -- An answer behind the writes to the caller's memory.
  written-Kept :
      (regs : Registers) (r : Run (System D Fat)) (value : ℕ)
      → Kept regs (r >>= λ s'. answer out regs value s')
  written-Kept regs r value =
      Kept-bind regs r (λ s'. answer out regs value s') (λ s'. answer-Kept regs value s')

  serve_write_file-Kept :
      (regs : Registers) (s : System D Fat) → Kept regs (serve_write_file out regs s)
  unfolding serve_write_file
  serve_write_file-Kept regs s =
      let buffer = bytes_at (pos_part (as_int (regs 2))) (user_byte out.user s) (regs 1) in
      Kept-bind regs (syscall_write_file out.fat_file_write (as_int (regs 0)) buffer s.files) _
        (λ (error, n, f).
          let s' : System D Fat = record s { files = f } in
          let empty = (current s.files.kernel).files (pos_part (as_int (regs 0))) == null in
          written-Kept regs (if empty then ok s' else put_int out.user (regs 3) n s')
            (as_register error))

  serve_read_file-Kept :
      (regs : Registers) (s : System D Fat) → Kept regs (serve_read_file out regs s)
  unfolding serve_read_file
  serve_read_file-Kept regs s =
      let env = out.exec_env in
      let len = pos_part (as_int (regs 2)) in
      Kept-bind regs
        (syscall_read_file env.fat_file_seek env.fat_file_read (as_int (regs 0)) len s.files) _
        (λ (error, read_bytes, f).
          Kept-bind regs (put_bytes out.user (regs 1) read_bytes (record s { files = f }))
            (λ s₁. put_int out.user (regs 3) (length read_bytes) s₁ >>= λ s₂.
              answer out regs (as_register error) s₂)
            (λ s₁.
              written-Kept regs (put_int out.user (regs 3) (length read_bytes) s₁)
                (as_register error)))

  serve_get_next_entry-Kept :
      (regs : Registers) (s : System D Fat) → Kept regs (serve_get_next_entry out regs s)
  unfolding serve_get_next_entry
  serve_get_next_entry-Kept regs s =
      let entry = out.load_entry (user_byte out.user s) (regs 1) in
      Kept-bind regs
        (syscall_get_next_entry out.fat_dir_read out.fat_dir_next (as_int (regs 0)) entry s.files) _
        (λ (status, entry', f).
          written-Kept regs
            (put_bytes out.user (regs 1) (out.entry_bytes entry') (record s { files = f }))
            (as_register status))

  serve_fork-Kept : (regs : Registers) (s : System D Fat) → Kept regs (serve_fork out regs s)
  unfolding serve_fork
  serve_fork-Kept regs s =
      let m : Machine = record {
        kernel = s.files.kernel;
        memory = s.files.memory;
        pt_regs = s.pt_regs;
      } in
      Kept-bind regs (syscall_fork out.ret_from_fork m) _ (λ (pid, m') j ne. ground arith)

  after_send-Kept :
      (regs : Registers) (s : System D Fat) (a : Attempt ℤ) → Kept regs (after_send out regs s a)
  after_send-Kept regs s (done status k) = λ j ne. ground arith
  after_send-Kept regs s (blocked k) = tt

  after_receive-Kept :
      (regs : Registers) (s : System D Fat) (a : Attempt (List ℕ))
      → Kept regs (after_receive out regs s a)
  after_receive-Kept regs s (done body k) =
      silent-Kept regs (put_bytes out.user (regs 0) (body ++ 0 ∷ []) (with_kernel out s k))
        (λ s'. s')
  after_receive-Kept regs s (blocked k) = tt

  after_input-Kept :
      (regs : Registers) (len : ℕ) (s : System D Fat) (a : Typed)
      → Kept regs (after_input out regs len s a)
  after_input-Kept regs len s (typed n b u k) =
      written-Kept regs
        (put_bytes out.user (regs 0) (bytes_at (max_line len + 1) b.chars 0)
          (record (with_kernel out s k) { uart = u }))
        n
  after_input-Kept regs len s (Typed.blocked b u k) = tt

  serve_send_message-Kept :
      (regs : Registers) (s : System D Fat) → Kept regs (serve_send_message out regs s)
  unfolding serve_send_message
  serve_send_message-Kept regs s = Kept-bind regs (user_text out s (regs 1)) _ (λ body.
      Kept-bind regs (syscall_send_message s.files.kernel (as_int (regs 0)) body)
        (after_send out regs s) (after_send-Kept regs s))

  serve_receive_message-Kept :
      (regs : Registers) (s : System D Fat) → Kept regs (serve_receive_message out regs s)
  unfolding serve_receive_message
  serve_receive_message-Kept regs s =
      Kept-bind regs (syscall_receive_message s.files.kernel) (after_receive out regs s)
        (after_receive-Kept regs s)

  serve_send_signal-Kept :
      (regs : Registers) (s : System D Fat) → Kept regs (serve_send_signal out regs s)
  unfolding serve_send_signal
  serve_send_signal-Kept regs s = elim (Bool-cases (ltb_ℤ (as_int (regs 1)) (pos 0))) [
    | inl negative ↦ rw negative tt
    | inr flag ↦ rw flag (λ j ne. ground arith)
  ]

  serve_input-Kept : (regs : Registers) (s : System D Fat) → Kept regs (serve_input out regs s)
  unfolding serve_input
  serve_input-Kept regs s =
      let len = pos_part (as_int (regs 1)) in
      let line : LineBuffer = record {
        chars = λ i. user_byte out.user s (regs 0 + i);
        current_len = 0;
      } in
      Kept-bind regs (claim_uart s.uart s.files.kernel) _ (λ (mine, u, k).
        elim mine
          as (λ b. Kept regs (
            if b
            then input_round len line u k >>= after_input out regs len s
            else ok (waiting (record (with_kernel out s k) { uart = u })))) [
              | true ↦
                  Kept-bind regs (input_round len line u k) (after_input out regs len s)
                    (after_input-Kept regs len s)
              | false ↦ tt
            ])

  run_system_call-Kept :
      (c : SystemCall) (regs : Registers) (s : System D Fat)
      → number_of c ≢ 16
      → Kept regs (run_system_call out c regs s)
  unfolding run_system_call serve_create_dir serve_open_dir serve_open_file
  run_system_call-Kept SystemCall.write regs s ne =
      silent-Kept regs (syscall_write out (regs 0) s) (λ s'. s')
  run_system_call-Kept SystemCall.write_hex regs s ne =
      silent-Kept regs (syscall_write_hex out (as_int (regs 0)) s) (λ s'. s')
  run_system_call-Kept SystemCall.malloc regs s ne = λ j n. ground arith
  run_system_call-Kept SystemCall.exit regs s ne =
      silent-Kept regs (syscall_exit s.files.kernel) (λ k. with_kernel out s k)
  run_system_call-Kept SystemCall.create_dir regs s ne =
      Kept-bind regs (user_text out s (regs 0)) _ (λ path. answer_files-Kept regs s _)
  run_system_call-Kept SystemCall.open_dir regs s ne =
      Kept-bind regs (user_text out s (regs 0)) _ (λ path. answer_files-Kept regs s _)
  run_system_call-Kept SystemCall.open_file regs s ne =
      Kept-bind regs (user_text out s (regs 0)) _ (λ path. answer_files-Kept regs s _)
  run_system_call-Kept SystemCall.close_file regs s ne = answer_files-Kept regs s _
  run_system_call-Kept SystemCall.write_file regs s ne = serve_write_file-Kept regs s
  run_system_call-Kept SystemCall.read_file regs s ne = serve_read_file-Kept regs s
  run_system_call-Kept SystemCall.yield_cpu regs s ne =
      silent-Kept regs (syscall_yield s.files.kernel) (λ k. with_kernel out s k)
  run_system_call-Kept SystemCall.input regs s ne = serve_input-Kept regs s
  run_system_call-Kept SystemCall.get_next_entry regs s ne = serve_get_next_entry-Kept regs s
  run_system_call-Kept SystemCall.fork regs s ne = serve_fork-Kept regs s
  run_system_call-Kept SystemCall.send_message regs s ne = serve_send_message-Kept regs s
  run_system_call-Kept SystemCall.receive_message regs s ne = serve_receive_message-Kept regs s
  run_system_call-Kept SystemCall.send_signal regs s ne = serve_send_signal-Kept regs s
  run_system_call-Kept SystemCall.exec regs s ne = absurd (ne refl)
  run_system_call-Kept SystemCall.wait regs s ne =
      Kept-bind regs (syscall_wait s.files.kernel (as_int (regs 0))) _
        (λ (status, k) j n. ground arith)
  run_system_call-Kept SystemCall.get_time regs s ne = λ j n. ground arith
  run_system_call-Kept SystemCall.set_sched_param regs s ne = λ j n. ground arith
  run_system_call-Kept SystemCall.get_pid regs s ne = λ j n. ground arith

  serve-Kept :
      (c : Option SystemCall) (regs : Registers) (s : System D Fat)
      → Chosen (regs 8) c
      → regs 8 ≢ 16
      → Kept regs (serve out c regs s)
  unfolding serve
  serve-Kept none regs s e other = λ j ne. refl
  serve-Kept (some c) regs s e other = run_system_call-Kept c regs s (λ e'. other (sym e ∙ e'))

  -- A system call but exec, an unknown number included, that returns without a fault, where a write
  -- through a pointer of the caller into the memory of the kernel counts as a fault, gives its process no
  -- registers to go on with but its own, the first one apart.
  pub syscall_dispatcher-OnlyFirst :
      (regs : Registers) (s : System D Fat)
      → regs 8 ≢ 16
      → Whenever (OnlyFirst regs) (syscall_dispatcher out regs s)
  unfolding syscall_dispatcher
  syscall_dispatcher-OnlyFirst regs s other = elim (Bool-cases (ltb syscalls_number (regs 8))) [
    | inl beyond ↦ rw beyond (λ j ne. refl)
    | inr known ↦ rw known (serve-Kept (call_of (regs 8)) regs s (call_of-Chosen (regs 8)) other)
  ]
