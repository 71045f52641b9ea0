-- ===== src/Tests/Systems.antt =====
-- Messages, the boot and user programs at concrete inputs.
use demos_os.Base.{ℕ, ◌+◌, ◌%◌, ◌/◌, ◌^◌, ◌≤◌, ◌<◌, ◌≡◌, ◌⊎◌, refl, arith, [], ◌∷◌, true}
use demos_os.Base.Int.{pos, negsuc}
use demos_os.Base.Run.{fault, Returns}
use demos_os.Pcb.{Pcb, initial_pcb, Store}
use demos_os.Sched.{Kernel, modify_pcb}
use demos_os.Sched.Tick.{set_irq}
use demos_os.Sched.Invariant.{Inv}
use demos_os.Sched.Invariant.Boot.{initial_kernel}
use demos_os.Sched.Invariant.Keep.{modify-Inv}
use demos_os.Ipc.{send_message, receive_message, set_buffer}
use demos_os.Ipc.Keep.{Sent, send_message-Sent, receive_message-fault}
use demos_os.Memory.{allocate_kernel_page, get_free_page, first_free}
use demos_os.Fork.{zero_regs}
use demos_os.Fork.Birth.{Born}
use demos_os.Boot.{Environment, kernel_main}
use demos_os.Boot.Start.{Postbox, kernel_main-Born}
use demos_os.Drivers.Mailbox.{mail, mbox_ch_prop}
use demos_os.Shell.Commands.{failed}
use demos_os.Syscalls.{search_process, search_from}
use demos_os.Programs.{ProcessCalls, in_parent, spawn_process, burn_cpu_ms}
use demos_os.Programs.Spawn.{
  kernel_calls, parameters, positive_or, level_or, spawn_process-parameters,
}
use demos_os.Programs.Burn.{Clock, burn_cpu_ms-Burned}
use demos_os.Tests.Kernels.{sample_memory, resting_kernel, resting_kernel-Inv}
use demos_os.Tests.Devices.{Board, board_bus, board_transmitter, busy_board, board_mailbox}

-- A message waits for the current process.
abbrev addressed : Pcb → Pcb
addressed = set_buffer (record {
  head = 1;
  tail = 0;
  buffer = λ _. record { source_process = 3; destination_process = 2; body = [] };
})

abbrev addressed_kernel : Kernel
addressed_kernel = modify_pcb resting_kernel 2 addressed

addressed_kernel-Inv : Inv 0 addressed_kernel (3 ∷ 4 ∷ [])
addressed_kernel-Inv =
    modify-Inv 0 resting_kernel (3 ∷ 4 ∷ []) 2 addressed (λ c. (refl, refl)) (λ _. refl)
      resting_kernel-Inv

receive_message-fault_example : receive_message addressed_kernel 2 ≡ fault
receive_message-fault_example =
    receive_message-fault addressed_kernel (3 ∷ 4 ∷ []) addressed_kernel-Inv refl (omega arith)
      (omega arith) (omega arith)

send_message-Sent_example :
    Returns
      (Sent resting_kernel (3 ∷ 4 ∷ []) 3 (b'h' ∷ b'i' ∷ []))
      (send_message resting_kernel 2 3 (b'h' ∷ b'i' ∷ []))
send_message-Sent_example =
    send_message-Sent resting_kernel (3 ∷ 4 ∷ []) 3 (b'h' ∷ b'i' ∷ []) resting_kernel-Inv refl
      (2, omega arith, refl, omega arith) (omega arith) (omega arith)

-- A card that is not there.
abbrev board_environment : Environment Board
board_environment = record {
  bus = board_bus;
  polls = 2;
  mbox = board_mailbox;
  delay = λ cycles d. d;
  irq_vector_init = λ d. d;
  sd = record {
    sd_init = λ d. (negsuc 0, d);
    sd_readblock = λ lba n d. (0, [], d);
    sd_writeblock = λ bytes lba n d. (0, d);
  };
  fat_probe = λ ops partition d. (negsuc 0, d);
  fat_mount = λ ops partition path d. (negsuc 0, d);
  fill = λ to offset bytes m. m;
  ret_from_fork = 0x8_0000;
  kernel_process_address = 0x8_1000;
  init_process_main = 0x9_0010;
  user_begin = 0x9_0000;
  user_end = 0x9_2000;
}

board-Postbox : Postbox board_bus 2 (mail board_bus board_mailbox 2 mbox_ch_prop)
board-Postbox = record {
  full = λ d. 0;
  full_ends = λ d. omega arith;
  shows_full = λ d. refl;
  full_counts = λ d. refl;
  due = λ d. 0;
  due_ends = λ d. omega arith;
  shows_empty = λ d. refl;
  due_counts = λ d. refl;
  answers = λ d e. refl;
}

abbrev no_others : Store
no_others a = initial_pcb

kernel_main-Born_example :
    Returns
      (λ (s', d').
        Born
          (set_irq true (initial_kernel no_others (λ n. n)))
          (allocate_kernel_page sample_memory).0
          []
          (pos 1, s'))
      (kernel_main board_environment
        (record {
          kernel = initial_kernel no_others (λ n. n);
          memory = sample_memory;
          pt_regs = λ _. zero_regs;
        })
        busy_board)
unfolding allocate_kernel_page get_free_page first_free
kernel_main-Born_example =
    kernel_main-Born board_environment board_transmitter board-Postbox no_others (λ n. n)
      sample_memory (λ _. zero_regs) busy_board (omega arith) (omega arith)

-- The fork hands out the pid 2, of the process at 3.
abbrev fork_calls : ProcessCalls Kernel
fork_calls = record {
  call_syscall_write = λ str k. k;
  call_syscall_fork = λ k. (pos 2, k);
  call_syscall_exec = λ path k. failed k;
  call_syscall_wait = λ pid k. (pos 0, k);
  call_syscall_set_sched_param = λ pid param value k. (negsuc 0, k);
}

spawn_process-parameters_example :
    (k' : Kernel) × (spawn_process
        (kernel_calls fork_calls)
        (b'/' ∷ [])
        (pos 7)
        (negsuc 0)
        (pos 2)
        resting_kernel
      ≡ in_parent (pos 2) k')
    × (parameters k' (search_process resting_kernel (pos 2)) ≡ (
      positive_or (resting_kernel.mem (search_process resting_kernel (pos 2))).priority (pos 7),
      positive_or (resting_kernel.mem (search_process resting_kernel (pos 2))).tickets (negsuc 0),
      level_or resting_kernel.active_algorithm
          (resting_kernel.mem (search_process resting_kernel (pos 2))).queue_priority
          (pos 2),
    ))
unfolding search_process search_from
spawn_process-parameters_example =
    spawn_process-parameters fork_calls (b'/' ∷ []) (pos 7) (negsuc 0) (pos 2) 1 resting_kernel
      resting_kernel refl refl

-- A clock that goes on by 7 microseconds with each call.
abbrev read_clock : ℕ → ℕ × ℕ
read_clock t = (t % 2 ^ 32, t + 7)

steady_clock : Clock read_clock 10
steady_clock = record {
  time = λ t. t;
  reads = λ t. refl;
  advances = λ t. omega arith;
  steady = λ t. omega arith;
}

burn_cpu_ms-Burned_example :
    Returns
      (λ t. (1005 + 2000 ≤ t) ⊎ (1005 / 2 ^ 32 < t / 2 ^ 32))
      (burn_cpu_ms read_clock 2001 2 1005)
unfolding steady_clock
burn_cpu_ms-Burned_example =
    burn_cpu_ms-Burned read_clock 10 steady_clock 2001 2 1005 (omega arith) (omega arith)
