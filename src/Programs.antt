-- ===== src/Programs.antt =====
-- User programs over the system calls: the start of a process in common/process_api.c, the first
-- program in user/user.c, app/run_all.c, and the busy wait of common/testlib.c. `Programs.Spawn` shows
-- what a start leaves in the kernel.
pub mod Spawn
pub mod Burn
use demos_os.Base.{ℕ, zero, suc, ◌+◌, ◌-◌, ◌*◌, ◌%◌, ◌^◌, List, [], ◌∷◌, ltb, ◌==◌, if◌then◌else◌}
use demos_os.Base.Int.{ℤ, pos, negsuc, ltb_ℤ, ◌==ℤ◌}
use demos_os.Base.Run.{Run, ok, out_of_fuel, ◌>>=◌}
use demos_os.Drivers.Serial.{text}
use demos_os.Sched.Params.{sched_param_priority, sched_param_tickets, sched_param_queue_priority}
use demos_os.Shell.Commands.{Exec, failed, replaced, Left, goes_on, is_program, has_ended}

-- The calls of common/user_syscalls.h that the programs here use; a program is started without
-- arguments.
pub record ProcessCalls (S : Type 0) : Type 0 where
  pub call_syscall_write : List ℕ → S → S
  pub call_syscall_fork : S → ℤ × S
  pub call_syscall_exec : (path : List ℕ) → S → Exec S
  pub call_syscall_wait : (pid : ℤ) → S → ℤ × S
  pub call_syscall_set_sched_param : (pid param value : ℤ) → S → ℤ × S

-- What `spawn_process` leads to: the parent goes on with the pid, or this process is the child and has
-- become the program, or has ended.
pub data Spawned (S : Type 0) : Type 0 where
  in_parent : (pid : ℤ) → S → Spawned S
  is_child : Left S → Spawned S

module _ {S : Type 0} (calls : ProcessCalls S) where
  -- A negative value leaves what the child has behind the fork.
  unfoldable pub configure : (pid param value : ℤ) → S → S
  configure pid param value s =
      if ltb_ℤ value (pos 0) then s else (calls.call_syscall_set_sched_param pid param value s).1

  -- The child: an error of the call ends it.
  abbrev pub become_program : Exec S → Left S
  become_program (failed s) = has_ended s
  become_program (replaced s) = is_program s

  unfoldable pub spawn_process :
      (path : List ℕ) (priority tickets queue_priority : ℤ) → S → Spawned S
  spawn_process path priority tickets queue_priority s =
      let (pid, s₁) = calls.call_syscall_fork s in
      let s₂ = configure pid sched_param_priority priority s₁ in
      let s₃ = configure pid sched_param_tickets tickets s₂ in
      if ltb_ℤ pid (pos 0)
      then in_parent (negsuc 0) s₁
      else if pid ==ℤ pos 0
      then is_child (become_program (calls.call_syscall_exec path s₁))
      else in_parent pid (configure pid sched_param_queue_priority queue_priority s₃)

  abbrev pub shell_path : List ℕ
  shell_path = text "/bin/shell.bin"

  -- A failed start is reported before the process ends.
  abbrev pub become_shell : Exec S → Left S
  become_shell (failed s) =
      has_ended (calls.call_syscall_write (text "[INIT] Cannot start shell binary\n") s)
  become_shell (replaced s) = is_program s

  -- The first program: its child is the shell, and it ends when the shell does.
  unfoldable pub init_process_main : S → Left S
  init_process_main s =
      let (pid, s₁) = calls.call_syscall_fork s in
      let s₂ = calls.call_syscall_write (text "[INIT] Init process started \n") s₁ in
      if pid ==ℤ pos 0
      then become_shell (calls.call_syscall_exec shell_path s₁)
      else has_ended (calls.call_syscall_wait pid s₂).1

  -- `NUM_PROCESSES` of app/run_all.c
  abbrev pub num_processes : ℕ
  num_processes = 4

  -- The parent behind the loop that starts the programs, with their pids, or a child.
  pub data Started : Type 0 where
    parent : (pids : ℕ → ℤ) → S → Started
    child : Left S → Started

  -- Rounds `i` on. A failed start leaves its entry of `pids` as it was.
  unfoldable pub start_all : (rounds i : ℕ) → (pids : ℕ → ℤ) → S → Started
  start_all zero i pids s = parent pids s
  start_all (suc rounds) i pids s =
      let spawned =
        spawn_process (text "/bin/benchmark.bin") (pos (i + 1)) (pos ((i + 1) * 10)) (pos i) s in
      elim spawned [
        | in_parent pid s' ↦
            let complaint = text "[RUN_ALL] Error: unable to start the binary!\n" in
            let failed_start =
              start_all rounds (i + 1) pids (calls.call_syscall_write complaint s') in
            let started = start_all rounds (i + 1) (λ j. if j == i then pid else pids j) s' in
            if ltb_ℤ pid (pos 0) then failed_start else started
        | is_child left ↦ child left
      ]

  unfoldable pub wait_all : (rounds i : ℕ) → (pids : ℕ → ℤ) → S → S
  wait_all zero i pids s = s
  wait_all (suc rounds) i pids s =
      wait_all rounds (i + 1) pids (calls.call_syscall_wait (pids i) s).1

  -- `main` of app/run_all.c; `pids` is what stands in the array before it is written.
  unfoldable pub run_all : (pids : ℕ → ℤ) → S → Left S
  run_all pids s =
      let s₁ = calls.call_syscall_write (text "[RUN_ALL] Starting multiple load test...\n") s in
      let waiting = text "[RUN_ALL] All processes started. Waiting for completion...\n" in
      let finished = text "[RUN_ALL] Test completed! All processes have terminated.\n" in
      elim (start_all num_processes 0 pids s₁) [
        | parent pids' s₂ ↦ has_ended (
            calls.call_syscall_write finished
              (wait_all num_processes 0 pids' (calls.call_syscall_write waiting s₂)))
        | child left ↦ left
      ]

-- The loop of `burn_cpu_ms`, for a clock that `call_syscall_get_time` reads: the difference is one of
-- 64 bits.
module _ {S : Type 0} (call_syscall_get_time : S → ℕ × S) where
  unfoldable pub burn_from : (fuel start duration : ℕ) → S → Run S
  burn_from zero start duration s = out_of_fuel
  burn_from (suc fuel) start duration s =
      let (now, s') = call_syscall_get_time s in
      let rest = burn_from fuel start duration s' in
      if ltb ((now + 2 ^ 64 - start) % 2 ^ 64) duration then rest else ok s'

  unfoldable pub burn_cpu_ms : (fuel milliseconds : ℕ) → S → Run S
  burn_cpu_ms fuel milliseconds s =
      let (start, s') = call_syscall_get_time s in
      burn_from fuel start (milliseconds * 1000 % 2 ^ 64) s'
