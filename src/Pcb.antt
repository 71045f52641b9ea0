-- ===== src/Pcb.antt =====
-- The process control block: libs/scheduler.h and common/ipc_types.h.
-- A pointer to a PCB is a number, and `Store` gives the PCB at each address.
use demos_os.Base.{ℕ, List, [], ◌==◌, if◌then◌else◌}
use demos_os.Base.Int.{ℤ, pos, negsuc}

abbrev pub Ptr : Type 0
Ptr = ℕ

abbrev pub null : Ptr
null = 0

-- The address of the static PCB of the idle task.
abbrev pub init_process : Ptr
init_process = 1

-- The limits of the tables.
abbrev pub max_processes : ℕ
max_processes = 64

abbrev pub max_files_per_process : ℕ
max_files_per_process = 16

abbrev pub max_process_pages : ℕ
max_process_pages = 16

abbrev pub max_messages_per_process : ℕ
max_messages_per_process = 4

-- The values of `state`. The idle task starts with 0, which is none of them.
abbrev pub process_running : ℕ
process_running = 1

abbrev pub process_zombie : ℕ
process_zombie = 2

abbrev pub process_waiting_uart_input : ℕ
process_waiting_uart_input = 3

abbrev pub process_waiting_to_receive_message : ℕ
process_waiting_to_receive_message = 4

abbrev pub process_waiting_to_send_message : ℕ
process_waiting_to_send_message = 5

abbrev pub process_waiting_another_process : ℕ
process_waiting_another_process = 6

abbrev pub process_stopped : ℕ
process_stopped = 7

abbrev pub process_ready : ℕ
process_ready = 8

-- The bit numbers of the signals.
abbrev pub signal_kill : ℕ
signal_kill = 1

abbrev pub signal_stop : ℕ
signal_stop = 2

abbrev pub signal_resume : ℕ
signal_resume = 3

pub record CpuContext : Type 0 where
  pub x19 : ℕ
  pub x20 : ℕ
  pub x21 : ℕ
  pub x22 : ℕ
  pub x23 : ℕ
  pub x24 : ℕ
  pub x25 : ℕ
  pub x26 : ℕ
  pub x27 : ℕ
  pub x28 : ℕ
  pub fp : ℕ
  pub sp : ℕ
  pub pc : ℕ

pub record UserPage : Type 0 where
  pub physical_address : ℕ
  pub virtual_address : ℕ

-- An array field is a function of the index; its bound is checked where the code indexes it.
pub record MmStruct : Type 0 where
  pub pgd : ℕ
  pub n_user_pages : ℕ
  pub user_pages : ℕ → UserPage
  pub n_kernel_pages : ℕ
  pub kernel_pages : ℕ → ℕ

-- `body` is the text before the terminating 0.
pub record Message : Type 0 where
  pub source_process : Ptr
  pub destination_process : Ptr
  pub body : List ℕ

pub record MessagesCircularBuffer : Type 0 where
  pub head : ℕ
  pub tail : ℕ
  pub buffer : ℕ → Message

pub record Pcb : Type 0 where
  pub cpu_context : CpuContext
  pub state : ℕ
  pub counter : ℤ
  pub priority : ℤ
  pub est_burst : ℕ
  pub burst_ticks : ℕ
  pub queue_priority : ℤ
  pub tickets : ℤ
  pub preempt_disabled : ℤ
  pub pid : ℕ
  pub flags : ℕ
  pub files : ℕ → Ptr
  pub mm : MmStruct
  pub messages_buffer : MessagesCircularBuffer
  pub pending_signals : ℕ
  pub pid_to_wait : ℤ
  pub next_ready : Ptr

abbrev pub Store : Type 0
Store = Ptr → Pcb

-- `*p = f(*p)`
abbrev pub modify : Store → Ptr → (Pcb → Pcb) → Store
modify m p f a = if a == p then f (m a) else m a

abbrev pub zero_context : CpuContext
zero_context = record {
  x19 = 0;
  x20 = 0;
  x21 = 0;
  x22 = 0;
  x23 = 0;
  x24 = 0;
  x25 = 0;
  x26 = 0;
  x27 = 0;
  x28 = 0;
  fp = 0;
  sp = 0;
  pc = 0;
}

abbrev pub empty_message : Message
empty_message = record { source_process = null; destination_process = null; body = [] }

-- `INIT_PROCESS`
abbrev pub initial_pcb : Pcb
initial_pcb = record {
  cpu_context = zero_context;
  state = 0;
  counter = pos 1;
  priority = pos 1;
  est_burst = 0;
  burst_ticks = 0;
  queue_priority = pos 0;
  tickets = pos 10;
  preempt_disabled = pos 0;
  pid = 0;
  flags = 0;
  files = λ _. null;
  mm = record {
    pgd = 0;
    n_user_pages = 0;
    user_pages = λ _. record { physical_address = 0; virtual_address = 0 };
    n_kernel_pages = 0;
    kernel_pages = λ _. 0;
  };
  messages_buffer = record { head = 0; tail = 0; buffer = λ _. empty_message };
  pending_signals = 0;
  pid_to_wait = negsuc 0;
  next_ready = null;
}
