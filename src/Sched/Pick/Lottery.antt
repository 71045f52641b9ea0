-- ===== src/Sched/Pick/Lottery.antt =====
-- `_schedule_lottery`.
pub mod Share
use Prim.Native.Nat.{bit_xor}
use demos_os.Base.{ℕ, zero, suc, ◌+◌, ◌*◌, ◌/◌, ◌%◌, ◌^◌, ltb, ◌==◌, if◌then◌else◌}
use demos_os.Base.Int.{ℤ, pos, pos_part, ltb_ℤ}
use demos_os.Base.Run.{Run, ok, out_of_fuel, ◌>>=◌}
use demos_os.Pcb.{Ptr, null, process_ready, Pcb, Store}
use demos_os.Queue.{queue_fuel}
use demos_os.Sched.{
  Kernel, ready, remove_from, enqueue_fifo, preempt_disable, handle_process_signals,
}
use demos_os.Sched.Pick.{take_ready, requeue_current, recharge, dispatch}

abbrev pub rng_seed : ℕ
rng_seed = 88172645463325252

-- One step of xorshift64: three shift-xor rounds on 64 bits.
pub xorshift : ℕ → ℕ
xorshift x =
    let a = bit_xor x ((x * 2 ^ 13) % 2 ^ 64) in
    let b = bit_xor a (a / 2 ^ 7) in bit_xor b ((b * 2 ^ 17) % 2 ^ 64)

-- A draw reads the timer once.
unfoldable pub lottery_random : Kernel → ℕ × Kernel
unfolding xorshift
lottery_random k =
    let mixed = bit_xor k.lottery_rng_state (k.timer 0) in
    let state = xorshift (if mixed == 0 then rng_seed else mixed) in
    (state, record k { lottery_rng_state = state; timer = λ n. k.timer (n + 1) })

-- A ticket count that is not positive counts as one.
abbrev pub tickets_of : Pcb → ℕ
tickets_of c = if ltb_ℤ (pos 0) c.tickets then pos_part c.tickets else 1

pub total_tickets : ℕ → Store → (node : Ptr) → ℕ → Run ℕ
total_tickets zero m node total = out_of_fuel
total_tickets (suc fuel) m node total =
    let rest = total_tickets fuel m (m node).next_ready (total + tickets_of (m node)) in
    if node == null then ok total else rest

-- The walk to the holder of the winning ticket: the process before it, and the holder.
pub find_winner : ℕ → Store → (winner : ℕ) → (previous candidate : Ptr) → ℕ → Run (Ptr × Ptr)
find_winner zero m winner previous candidate counted = out_of_fuel
find_winner (suc fuel) m winner previous candidate counted =
    let sum = counted + tickets_of (m candidate) in
    let rest = find_winner fuel m winner candidate (m candidate).next_ready sum in
    if candidate == null
    then ok (previous, candidate)
    else if ltb winner sum
    then ok (previous, candidate)
    else rest

-- The draws, until a winner is still READY or the queue is empty.
pub draw : ℕ → Kernel → Run (Ptr × Kernel)
draw zero k = out_of_fuel
draw (suc fuel) k =
    let head = k.ready_queue.head in
    total_tickets queue_fuel k.mem head 0 >>= λ total.
    let (random, k₁) = lottery_random k in
    let found =
      find_winner queue_fuel k₁.mem (random % total) null head 0 >>= λ (previous, candidate).
      handle_process_signals (remove_from k₁ ready previous candidate) candidate >>= λ k₂.
      let again = draw fuel k₂ in
      if (k₂.mem candidate).state == process_ready then ok (candidate, k₂) else again in
    if total == 0 then ok (null, k) else found

unfoldable pub schedule_lottery : Kernel → Run Kernel
schedule_lottery k = requeue_current enqueue_fifo (preempt_disable k) >>= λ k₁.
    draw queue_fuel k₁ >>= λ (p, k₂). ok (dispatch p (recharge 10 p k₂))
