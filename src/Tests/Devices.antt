-- ===== src/Tests/Devices.antt =====
-- A board for the tests of the drivers, and the witnesses of their theorems.
use demos_os.Base.{
  ℕ, ◌+◌, ◌-◌, ◌%◌, ◌^◌, ◌≡◌, refl, ap, arith, Bool, true, false, List, [], ◌∷◌, ◌++◌, ◌==◌,
  if◌then◌else◌, length,
}
use demos_os.Base.Int.{negsuc}
use demos_os.Base.Run.{Whenever, ◌>>=◌, Returns}
use demos_os.Syscalls.Calls.{Safe}
use demos_os.Uart.{Uart, receive_all}
use demos_os.Drivers.{Bus, mmio_base}
use demos_os.Drivers.Serial.{uart0_dr, uart0_fr, uart_hex}
use demos_os.Drivers.Serial.Output.{Transmitter}
use demos_os.Drivers.Serial.Hex.{Printed, uart_hex-Printed}
use demos_os.Drivers.Serial.Receive.{receive_fifo, uart0_mis}
use demos_os.Drivers.Serial.Receive.Fifo.{
  Receiver, is_empty, without_device, receive_fifo-receive_all,
}
use demos_os.Drivers.Timer.{
  SystemTimer, FirstMatch, timer_clo, timer_c1, handle_timer_irq, handle_timer_irq-armed,
}
use demos_os.Drivers.Framebuffer.{Framebuffer, Font, draw_glyph}
use demos_os.Drivers.Framebuffer.Glyph.{Drawn, draw_glyph-Drawn}
use demos_os.Dispatch.{Outside, syscall_dispatcher}
use demos_os.Dispatch.State.{System, Registers}
use demos_os.Dispatch.Frame.{OnlyFirst, syscall_dispatcher-OnlyFirst}
use demos_os.Dispatch.Numbers.{find_case}
use demos_os.Events.{
  Event, interrupt, call, run_events, SoundEvents, SoundEvents-cons, run_events-Safe,
}
use demos_os.Fork.{zero_regs}
use demos_os.Drivers.Mailbox.{Mailbox, mbox_read}
use demos_os.Memory.{va_start}
use demos_os.Drivers.Interrupts.{irq_pending_1, irq_pending_2}
use demos_os.Tests.Kernels.{sample_memory, resting_kernel, resting_kernel-Inv}

-- A UART that is full for one read of FR behind each byte, a timer, and the pending interrupts.
pub record Board : Type 0 where
  pub sent : List ℕ
  pub full : Bool
  pub fifo : List ℕ
  pub clock : ℕ
  pub compare : ℕ
  pub pending_1 : ℕ
  pub pending_2 : ℕ

-- A register holds 32 bits.
abbrev pub clipped : List ℕ → List ℕ
clipped [] = []
clipped (w ∷ ws) = w % 2 ^ 32 ∷ clipped ws

abbrev pub flags : Board → ℕ
flags d = (if d.full then 32 else 0) + (if is_empty (clipped d.fifo) then 16 else 0)

abbrev pub first_word : List ℕ → ℕ
first_word [] = 0
first_word (w ∷ ws) = w

abbrev pub other_words : List ℕ → List ℕ
other_words [] = []
other_words (w ∷ ws) = ws

abbrev pub board_bus : Bus Board
board_bus = record {
  read = λ address d.
      if address == mmio_base + uart0_fr
      then (flags d, record d { full = false })
      else if address == mmio_base + uart0_dr
      then (first_word d.fifo, record d { fifo = other_words d.fifo })
      else if address == mmio_base + timer_clo
      then (d.clock, d)
      else if address == mmio_base + irq_pending_1
      then (d.pending_1, d)
      else if address == mmio_base + irq_pending_2
      then (d.pending_2, d)
      else if address == mmio_base + uart0_mis
      then (16 + 32 + 64, d)
      else if address == mmio_base + mbox_read
      then (0x9_0008, d)
      else (0, d);
  write = λ address value d.
      if address == mmio_base + uart0_dr
      then record d { sent = d.sent ++ value ∷ []; full = true }
      else if address == mmio_base + timer_c1
      then record d { compare = value }
      else d;
}

-- The message buffer of the mailbox; its answer is the mail itself.
abbrev pub board_mailbox : Mailbox Board
board_mailbox = record { get = λ i d. 0; set = λ i value d. d; address = va_start + 0x9_0000 }

pub board_transmitter : Transmitter board_bus 2
board_transmitter = record {
  sent = λ d. d.sent;
  busy = λ d. if d.full then 1 else 0;
  patient = λ d. ground arith;
  shows_full = λ d. ground arith;
  counts_down = λ d. ground arith;
  read_sends_nothing = λ d. refl;
  takes = λ d c idle. refl;
}

board_gives :
    (fifo : List ℕ) (w : ℕ) (ws : List ℕ)
    → clipped fifo ≡ w ∷ ws
    → (first_word fifo % 2 ^ 32 ≡ w) × (clipped (other_words fifo) ≡ ws)
board_gives [] w ws e = absurd (let n = ap length e in omega (arith, n))
board_gives (v ∷ vs) w ws e = (ap first_word e, ap other_words e)

board_receiver : Receiver board_bus
board_receiver = record {
  found = λ d. clipped d.fifo;
  shows_empty = λ d. ground arith;
  read_keeps = λ reg d ne. ground arith;
  write_keeps = λ reg value d n₁ n₂. ground arith;
  gives = λ d w ws e. board_gives d.fifo w ws e;
}

board_timer : SystemTimer board_bus
board_timer = record {
  clock = λ d. d.clock;
  compare = λ d. d.compare;
  reads_clock = λ d. refl;
  takes = λ value d. refl;
}

-- Three words wait, one of them with a framing error.
abbrev pub busy_board : Board
busy_board = record {
  sent = b'>' ∷ [];
  full = true;
  fifo = 65 ∷ 0x141 ∷ 66 ∷ [];
  clock = 2 ^ 32 - 5;
  compare = 0;
  pending_1 = 0;
  pending_2 = 2 ^ 25;
}

abbrev empty_uart : Uart
empty_uart = record { buffer = λ _. 0; head = 0; tail = 0; owner = 0 }

resting_kernel-Safe : Safe resting_kernel
resting_kernel-Safe = ((3 ∷ 4 ∷ [], resting_kernel-Inv), refl)

uart_hex-Printed_example :
    Returns (λ d'. Printed 0xdead (b'>' ∷ []) d'.sent) (uart_hex board_bus 2 0xdead busy_board)
unfolding board_transmitter
uart_hex-Printed_example = uart_hex-Printed board_bus 2 board_transmitter 0xdead busy_board

receive_fifo-receive_all_example :
    (receive_fifo board_bus 2 4 busy_board empty_uart resting_kernel
      >>= without_device board_bus 2 board_transmitter board_receiver)
    ≡ receive_all (65 ∷ 0x141 ∷ 66 ∷ []) empty_uart resting_kernel
unfolding board_receiver
receive_fifo-receive_all_example =
    receive_fifo-receive_all board_bus 2 board_transmitter board_receiver 4 busy_board empty_uart
      resting_kernel (omega arith)

-- The counter is about to wrap around.
handle_timer_irq-armed_example :
    Returns
      (λ (_, d', k'). FirstMatch (2 ^ 32 - 5) d'.compare × Safe k')
      (handle_timer_irq board_bus busy_board resting_kernel)
unfolding board_timer
handle_timer_irq-armed_example =
    handle_timer_irq-armed board_bus board_timer busy_board resting_kernel resting_kernel-Safe

abbrev small_font : Font
small_font = record {
  headersize = 32;
  numglyph = 256;
  bytesperglyph = 16;
  height = 16;
  width = 8;
  bytes = λ i. i % 256;
}

abbrev screen : Framebuffer
screen = record { address = 0x3c10_0000; width = 1024; height = 768; pitch = 4096; isrgb = 1 }

draw_glyph-Drawn_example :
    Drawn small_font screen 16 1072 0 (λ a. a) (draw_glyph small_font screen 16 1072 0 (λ a. a))
draw_glyph-Drawn_example = draw_glyph-Drawn small_font screen 16 1072 0 (λ a. a) (omega arith)

-- No card, and memory that is its own address space.
abbrev no_card : Outside Board ℕ
no_card = record {
  bus = board_bus;
  polls = 2;
  text_fuel = 100;
  user = record {
    load = λ pgd m a. m.words a;
    store = λ pgd a byte m. record m { words = λ b. if b == a then byte else m.words b };
  };
  exec_env = record {
    fat_file_open = λ path p fat. (negsuc 0, fat);
    fat_file_close = λ p fat. (negsuc 0, fat);
    fat_file_seek = λ p fat. fat;
    fat_file_read = λ p n fat. (negsuc 0, [], fat);
    fill = λ buffer to offset bytes m. m;
    store_byte = λ a byte m. m;
  };
  fat_file_open = λ flags path p fat. (negsuc 0, fat);
  fat_dir_open = λ path p fat. (negsuc 0, fat);
  fat_dir_create = λ path p fat. (negsuc 0, fat);
  fat_file_write = λ p bytes fat. (negsuc 0, 0, fat);
  fat_dir_read = λ p fat. (negsuc 0, record { name = λ _. 0; name_len = 0; attr = 0 }, fat);
  fat_dir_next = λ p fat. (negsuc 0, fat);
  load_entry = λ byte a. record { name = λ i. byte (a + i); is_dir = false };
  entry_bytes = λ e. [];
  ret_from_fork = 0x8_0000;
}

abbrev resting_system : System Board ℕ
resting_system = record {
  files = record {
    kernel = resting_kernel;
    memory = sample_memory;
    resources = λ _. record { resource_type = 0; pointer = 0 };
    fat = 0;
  };
  pt_regs = λ _. zero_regs;
  uart = empty_uart;
  device = busy_board;
}

-- The call `set_sched_param` for the process with the pid 2.
abbrev saved_registers : Registers
saved_registers i = if i == 8 then 20 else if i == 0 then 2 else if i == 2 then 3 else 0

syscall_dispatcher-OnlyFirst_example :
    Whenever (OnlyFirst saved_registers) (syscall_dispatcher no_card saved_registers resting_system)
syscall_dispatcher-OnlyFirst_example =
    syscall_dispatcher-OnlyFirst no_card saved_registers resting_system (omega arith)

-- The timer, and the words that wait.
abbrev timer_board : Board
timer_board = record busy_board { pending_1 = 2 }

-- The call `wait` for the process with the pid 3, and a number that is no call.
abbrev wait_registers : Registers
wait_registers i = if i == 8 then 17 else if i == 0 then 3 else 0

abbrev no_call_registers : Registers
no_call_registers i = 100

abbrev last_events : List (Event Board)
last_events = call wait_registers timer_board ∷ call no_call_registers busy_board ∷ []

abbrev some_events : List (Event Board)
some_events =
    interrupt busy_board ∷ call saved_registers busy_board ∷ interrupt timer_board ∷ last_events

last_events-SoundEvents :
    (s : System Board ℕ) → SoundEvents no_card 4 board_transmitter board_receiver last_events s
unfolding find_case
last_events-SoundEvents =
    let cons = SoundEvents-cons no_card 4 board_transmitter board_receiver in
    let unknown = call no_call_registers busy_board in
    cons (call wait_registers timer_board) (unknown ∷ []) (λ s. tt)
      (cons unknown [] (λ s. tt) (λ s. tt))

-- Each of the events is sound in every state.
some_events-SoundEvents :
    SoundEvents no_card 4 board_transmitter board_receiver some_events resting_system
unfolding board_receiver find_case
some_events-SoundEvents =
    let cons = SoundEvents-cons no_card 4 board_transmitter board_receiver in
    let later = interrupt timer_board ∷ last_events in
    cons (interrupt busy_board) (call saved_registers busy_board ∷ later) (λ s. omega arith)
      (cons (call saved_registers busy_board) later (λ s. tt)
        (cons (interrupt timer_board) last_events (λ s. omega arith) last_events-SoundEvents))
      resting_system

run_events-Safe_example :
    Returns
      (λ (s : System Board ℕ). Safe s.files.kernel)
      (run_events no_card 4 some_events resting_system)
run_events-Safe_example =
    run_events-Safe no_card 4 board_transmitter board_receiver some_events resting_system
      some_events-SoundEvents resting_kernel-Safe
