-- ===== src/Dispatch/Keep.antt =====
-- The system calls but those on files, receiving, input, fork and exec, from the registers on, against
-- the invariant of the scheduler.
use mathlib.Core.Path.{subst}
use demos_os.Base.{
  ℕ, zero, suc, ◌+◌, ◌-◌, ◌<◌, ◌≤◌, ◌++◌, length, ◌≡◌, ◌≢◌, refl, sym, ◌∙◌, ap, arith, Option, none,
  some, false, Bool-cases, inl, inr, ltb, ◌==◌, List, [], ◌∷◌,
}
use demos_os.Base.Int.{ℤ, pos, ltb_ℤ, pos_part}
use demos_os.Base.Run.{Run, ok, fault, out_of_fuel, ◌>>=◌, Returns, Returns-bind}
use demos_os.Sched.{Kernel}
use demos_os.Sched.Invariant.Param.{sched_set_param-Same}
use demos_os.Syscalls.{
  search_process, syscall_wait, syscall_yield, syscall_exit, syscall_set_sched_param,
  syscall_send_message, syscall_send_signal,
}
use demos_os.Syscalls.Calls.{Safe, yield_cpu, wait, exit, signal}
use demos_os.Syscalls.Calls.Turns.{run_call-Safe}
use demos_os.Drivers.Serial.{uart_puts, uart_hex}
use demos_os.Drivers.Serial.Output.{Transmitter}
use demos_os.Drivers.Serial.Receive.Fifo.{Receiver, Kept, uart_puts-Kept, uart_hex-Kept}
use demos_os.Ipc.{Attempt, done, blocked, send_message}
use demos_os.Ipc.Keep.{Sent, send_message-Sent}
use demos_os.Pcb.{Ptr, null, max_messages_per_process}
use demos_os.Sched.Invariant.{InTable}
use demos_os.Sched.Pick.First.{after_eligible}
use demos_os.Syscalls.Wait.{search_process-SearchResult}
use demos_os.Dispatch.{
  Outside, Served, returned, waiting, answer, syscall_write, syscall_write_hex, serve_send_signal,
  serve_send_message, after_send, run_system_call, serve, syscall_dispatcher, user_text,
  with_kernel,
}
use demos_os.Dispatch.Numbers.{SystemCall, call_of, syscalls_number}
use demos_os.Dispatch.State.{System, Registers, as_int, as_register, text_at, user_byte}

-- The kernel is safe whether the call is over or not.
abbrev pub SafeServed : {D Fat : Type 0} → Served D Fat → Type 0
SafeServed (returned regs s) = Safe s.files.kernel
SafeServed (waiting s) = Safe s.files.kernel

-- A terminator stands among the bytes `0` to `n` from an address on.
abbrev pub Terminated : (n : ℕ) (byte : ℕ → ℕ) (address : ℕ) → Type 0
Terminated n byte address = (m : ℕ) × (m ≤ n) × (byte (address + m) ≡ 0)

Terminated-next :
    (n : ℕ) (byte : ℕ → ℕ) (address : ℕ)
    → byte address ≢ 0
    → Terminated n byte address
    → (l : ℕ) × (n ≡ suc l) × Terminated l byte (address + 1)
Terminated-next n byte address ne (zero, few, e) =
    let same : address + 0 ≡ address = omega arith in absurd (ne (ap byte (sym same) ∙ e))
Terminated-next zero byte address ne (suc m, few, e) = absurd (omega arith)
Terminated-next (suc n) byte address ne (suc m, few, e) =
    let same : address + 1 + m ≡ address + suc m = omega arith in
    (n, refl, (m, omega arith, ap byte same ∙ e))

text_at-short :
    (fuel n : ℕ) (byte : ℕ → ℕ) (address : ℕ)
    → n < fuel
    → Terminated n byte address
    → Returns (λ cs. length cs ≤ n) (text_at fuel byte address)
unfolding text_at
text_at-short zero n byte address few h = absurd (omega arith)
text_at-short (suc fuel) n byte address few h = elim (Bool-cases (byte address == 0)) [
  | inl end ↦ rw (end, text_at) (omega arith)
  | inr more ↦
      let (l, e, h') = Terminated-next n byte address (ground arith) h in
      rw (more, text_at)
        (Returns-bind (λ cs. length cs ≤ l) (λ cs. length cs ≤ n) (text_at fuel byte (address + 1))
          (λ cs. ok (byte address ∷ cs)) (text_at-short fuel l byte (address + 1) (omega arith) h')
          (λ cs c. omega arith))
]

-- What holds behind the projection of a result holds of the result.
Returns-second :
    {A B : Type 0} (P : B → Type 0) (r : Run (A × B))
    → Returns P (r >>= λ (_, b). ok b)
    → Returns (λ (_, b). P b) r
Returns-second P (ok (a, b)) h = h
Returns-second P fault h = h
Returns-second P out_of_fuel h = h

-- What the search finds stands in the table.
search_process-InTable :
    (k : Kernel) (pid : ℤ)
    → search_process k pid ≢ null
    → InTable k.processes (search_process k pid)
search_process-InTable k pid ne = elim (search_process-SearchResult k pid) [
  | inl (absent, _) ↦ absurd (ne absent)
  | inr (i, _, few, at, present, _, _) ↦ (i, few, at, present)
]

module _ {D Fat : Type 0} (out : Outside D Fat) (t : Transmitter out.bus out.polls)
    (r : Receiver out.bus) where
  -- What a call needs: a text has a terminator, a flag is not negative, and a message fits and finds its
  -- place inside the array of the receiver. Calls on files, receiving, input, fork and exec are left
  -- out.
  abbrev pub Sound : SystemCall → Registers → System D Fat → Type 0
  Sound SystemCall.write regs s =
      (0 < out.text_fuel) × Terminated (out.text_fuel - 1) (user_byte out.user s) (regs 0)
  Sound SystemCall.write_hex regs s = Unit
  Sound SystemCall.malloc regs s = Unit
  Sound SystemCall.exit regs s = Unit
  Sound SystemCall.yield_cpu regs s = Unit
  Sound SystemCall.wait regs s = Unit
  Sound SystemCall.send_signal regs s = ltb_ℤ (as_int (regs 1)) (pos 0) ≡ false
  Sound SystemCall.get_time regs s = Unit
  Sound SystemCall.set_sched_param regs s = Unit
  Sound SystemCall.get_pid regs s = Unit
  Sound SystemCall.send_message regs s =
      (256 ≤ out.text_fuel)
      × Terminated 255 (user_byte out.user s) (regs 1)
      × (let k = s.files.kernel in
          (k.mem (search_process k (as_int (regs 0)))).messages_buffer.head
          < max_messages_per_process)
  Sound _ regs s = ⊥

  abbrev Good : Run (Served D Fat) → Type 0
  Good x = Returns (SafeServed {D = D} {Fat = Fat}) x

  -- The output does not touch the kernel.
  abbrev KernelKept : System D Fat → System D Fat → Type 0
  KernelKept s s' = s'.files.kernel ≡ s.files.kernel

  syscall_write-kept :
      (buffer : ℕ) (s : System D Fat)
      → 0 < out.text_fuel
      → Terminated (out.text_fuel - 1) (user_byte out.user s) buffer
      → Returns (KernelKept s) (syscall_write out buffer s)
  unfolding syscall_write
  syscall_write-kept buffer s some_fuel h =
      let n = out.text_fuel - 1 in
      Returns-bind (λ cs. length cs ≤ n) (KernelKept s) (user_text out s buffer)
        (λ str. uart_puts out.bus out.polls str s.device >>= λ d. ok (record s { device = d }))
        (text_at-short out.text_fuel n (user_byte out.user s) buffer (omega arith) h)
        (λ str _.
          Returns-bind (Kept out.bus out.polls t r s.device) (KernelKept s)
            (uart_puts out.bus out.polls str s.device) (λ d. ok (record s { device = d }))
            (uart_puts-Kept out.bus out.polls t r str s.device) (λ d _. refl))

  syscall_write_hex-kept :
      (number : ℤ) (s : System D Fat) → Returns (KernelKept s) (syscall_write_hex out number s)
  unfolding syscall_write_hex
  syscall_write_hex-kept number s =
      Returns-bind (Kept out.bus out.polls t r s.device) (KernelKept s)
        (uart_hex out.bus out.polls (as_register number) s.device)
        (λ d. ok (record s { device = d }))
        (uart_hex-Kept out.bus out.polls t r (as_register number) s.device) (λ d _. refl)

  -- A call that hands its kernel on.
  handed_on :
      (regs : Registers) (s : System D Fat) (run : Run Kernel)
      → Returns Safe run
      → Good (run >>= λ k. ok (returned regs (with_kernel out s k)))
  handed_on regs s run h =
      Returns-bind Safe (SafeServed {D = D} {Fat = Fat}) run
        (λ k. ok (returned regs (with_kernel out s k))) h (λ k safe. safe)

  silent :
      (regs : Registers) (s : System D Fat) (run : Run (System D Fat))
      → Safe s.files.kernel
      → Returns (KernelKept s) run
      → Good (run >>= λ s'. ok (returned regs s'))
  silent regs s run safe h =
      Returns-bind (KernelKept s) (SafeServed {D = D} {Fat = Fat}) run (λ s'. ok (returned regs s'))
        h (λ s' e. subst Safe (sym e) safe)

  syscall_set_sched_param-Safe :
      (k : Kernel) (pid param value : ℤ)
      → Safe k
      → Safe (syscall_set_sched_param k pid param value).1
  unfolding syscall_set_sched_param
  syscall_set_sched_param-Safe k pid param value ((xs, v), runs) =
      let p = search_process k pid in
      let (w, state) = sched_set_param-Same k xs p param value v in
      elim (Bool-cases (p == 0)) [
        | inl absent ↦ rw absent ((xs, v), runs)
        | inr present ↦ rw present ((xs, w), state ∙ runs)
      ]

  after_send-Safe :
      (regs : Registers) (s : System D Fat) (k : Kernel) (xs : List Ptr) (p : Ptr) (body : List ℕ)
      (a : Attempt ℤ)
      → Sent k xs p body a
      → Good (after_send out regs s a)
  after_send-Safe regs s k xs p body (done status k') (e, room, m, o, c, runs, inl v) =
      ((xs, v), runs)
  after_send-Safe regs s k xs p body (done status k') (e, room, m, o, c, runs, inr v) =
      ((xs ++ p ∷ [], v), runs)
  after_send-Safe regs s k xs p body (blocked k') (full, t) =
      ((after_eligible k.mem (xs ++ t.behind), t.inv), t.runs)

  serve_send_message-Safe :
      (regs : Registers) (s : System D Fat)
      → let k = s.files.kernel in
        256 ≤ out.text_fuel
        → Terminated 255 (user_byte out.user s) (regs 1)
        → (k.mem (search_process k (as_int (regs 0)))).messages_buffer.head
          < max_messages_per_process
        → Safe k
        → Good (serve_send_message out regs s)
  unfolding serve_send_message syscall_send_message
  serve_send_message-Safe regs s fuel text inside ((xs, v), runs) =
      let k = s.files.kernel in
      let p = search_process k (as_int (regs 0)) in
      Returns-bind (λ cs. length cs ≤ 255) (SafeServed {D = D} {Fat = Fat})
        (user_text out s (regs 1))
        (λ body. syscall_send_message k (as_int (regs 0)) body >>= after_send out regs s)
        (text_at-short out.text_fuel 255 (user_byte out.user s) (regs 1) (omega arith) text)
        (λ body short. elim (Bool-cases (p == null)) [
          | inl absent ↦ rw absent ((xs, v), runs)
          | inr present ↦ rw present (
              Returns-bind (Sent k xs p body) (SafeServed {D = D} {Fat = Fat})
                (send_message k k.current_process p body) (after_send out regs s)
                (send_message-Sent k xs p body v runs
                  (search_process-InTable k (as_int (regs 0)) (ground arith)) (omega arith) inside)
                (λ a sent. after_send-Safe regs s k xs p body a sent))
        ])

  run_system_call-Safe :
      (c : SystemCall) (regs : Registers) (s : System D Fat)
      → Sound c regs s
      → Safe s.files.kernel
      → Good (run_system_call out c regs s)
  unfolding run_system_call serve_send_signal
  run_system_call-Safe SystemCall.write regs s (fuel, h) safe =
      silent regs s (syscall_write out (regs 0) s) safe (syscall_write-kept (regs 0) s fuel h)
  run_system_call-Safe SystemCall.write_hex regs s h safe =
      silent regs s (syscall_write_hex out (as_int (regs 0)) s) safe
        (syscall_write_hex-kept (as_int (regs 0)) s)
  run_system_call-Safe SystemCall.malloc regs s h safe = safe
  run_system_call-Safe SystemCall.exit regs s h safe =
      handed_on regs s (syscall_exit s.files.kernel) (run_call-Safe exit s.files.kernel safe)
  run_system_call-Safe SystemCall.yield_cpu regs s h safe =
      handed_on regs s (syscall_yield s.files.kernel) (run_call-Safe yield_cpu s.files.kernel safe)
  run_system_call-Safe SystemCall.wait regs s h safe =
      let pid = as_int (regs 0) in
      Returns-bind (λ (_, k). Safe k) (SafeServed {D = D} {Fat = Fat})
        (syscall_wait s.files.kernel pid)
        (λ (status, k). answer out regs (as_register status) (with_kernel out s k))
        (Returns-second Safe (syscall_wait s.files.kernel pid)
          (run_call-Safe (wait pid) s.files.kernel safe))
        (λ (status, k) safe'. safe')
  run_system_call-Safe SystemCall.send_signal regs s h safe =
      let pid = as_int (regs 0) in
      let flag = pos_part (as_int (regs 1)) in
      let safe' : Safe (syscall_send_signal s.files.kernel pid flag).1 =
        run_call-Safe (signal pid flag) s.files.kernel safe in
      rw h safe'
  run_system_call-Safe SystemCall.send_message regs s (fuel, text, inside) safe =
      serve_send_message-Safe regs s fuel text inside safe
  run_system_call-Safe SystemCall.get_time regs s h safe = safe
  run_system_call-Safe SystemCall.set_sched_param regs s h safe =
      syscall_set_sched_param-Safe s.files.kernel (as_int (regs 0)) (as_int (regs 1))
        (as_int (regs 2)) safe
  run_system_call-Safe SystemCall.get_pid regs s h safe = safe
  run_system_call-Safe SystemCall.create_dir regs s h safe = absurd h
  run_system_call-Safe SystemCall.open_dir regs s h safe = absurd h
  run_system_call-Safe SystemCall.open_file regs s h safe = absurd h
  run_system_call-Safe SystemCall.close_file regs s h safe = absurd h
  run_system_call-Safe SystemCall.write_file regs s h safe = absurd h
  run_system_call-Safe SystemCall.read_file regs s h safe = absurd h
  run_system_call-Safe SystemCall.input regs s h safe = absurd h
  run_system_call-Safe SystemCall.get_next_entry regs s h safe = absurd h
  run_system_call-Safe SystemCall.fork regs s h safe = absurd h
  run_system_call-Safe SystemCall.receive_message regs s h safe = absurd h
  run_system_call-Safe SystemCall.exec regs s h safe = absurd h

  -- What a number needs: that the call which it chooses is sound, and nothing if it chooses none.
  abbrev pub SoundNumber : Option SystemCall → Registers → System D Fat → Type 0
  SoundNumber none regs s = Unit
  SoundNumber (some c) regs s = Sound c regs s

  serve-Safe :
      (c : Option SystemCall) (regs : Registers) (s : System D Fat)
      → SoundNumber c regs s
      → Safe s.files.kernel
      → Good (serve out c regs s)
  unfolding serve
  serve-Safe none regs s h safe = safe
  serve-Safe (some c) regs s h safe = run_system_call-Safe c regs s h safe

  pub syscall_dispatcher-Safe :
      (regs : Registers) (s : System D Fat)
      → SoundNumber (call_of (regs 8)) regs s
      → Safe s.files.kernel
      → Returns SafeServed (syscall_dispatcher out regs s)
  unfolding syscall_dispatcher
  syscall_dispatcher-Safe regs s h safe = elim (Bool-cases (ltb syscalls_number (regs 8))) [
    | inl beyond ↦ rw beyond safe
    | inr known ↦ rw known (serve-Safe (call_of (regs 8)) regs s h safe)
  ]
