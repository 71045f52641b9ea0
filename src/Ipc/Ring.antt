-- ===== src/Ipc/Ring.antt =====
-- The circular buffer of messages against a first-in first-out queue. The indices run over five
-- places, the array has four.
use demos_os.Base.{
  ℕ, zero, suc, ◌+◌, ◌-◌, ◌%◌, ◌<◌, ◌≤◌, ◌≡◌, ◌≢◌, refl, ap, ◌∙◌, true, false, List, [], ◌∷◌, ◌++◌,
  arith, ltb, leb, ◌==◌, if◌then◌else◌,
}
use demos_os.Base.Run.{fault, Returns}
use demos_os.Pcb.{Ptr, Message, MessagesCircularBuffer, max_messages_per_process}
use demos_os.Sched.{Kernel}
use demos_os.Ipc.{next_index, is_full, push_buffer, pop_buffer, push_message}

-- Both indices are among the five places.
pub record InPlaces (b : MessagesCircularBuffer) : Type 0 where
  pub head_in : b.head ≤ 4
  pub tail_in : b.tail ≤ 4

-- How many messages the buffer holds.
abbrev pub size : MessagesCircularBuffer → ℕ
size b = if leb b.tail b.head then b.head - b.tail else b.head + 5 - b.tail

-- The `n` messages from place `t` on.
abbrev pub window : (ℕ → Message) → ℕ → ℕ → List Message
window buffer t zero = []
window buffer t (suc n) = buffer t ∷ window buffer (next_index t) n

abbrev pub contents : MessagesCircularBuffer → List Message
contents b = window b.buffer b.tail (size b)

-- A buffer that is not full holds at most three messages.
size-not_full : (b : MessagesCircularBuffer) → InPlaces b → is_full b ≡ false → size b ≤ 3
size-not_full b v h = ground arith

-- A write behind the window extends it.
window-write :
    (buffer : ℕ → Message) (t h n : ℕ) (m : Message)
    → t ≤ 4
    → n ≤ 3
    → h ≡ (t + n) % 5
    → window (λ i. if i == h then m else buffer i) t (suc n) ≡ window buffer t n ++ m ∷ []
window-write buffer t h zero m ht hn e = ground arith
window-write buffer t h (suc zero) m ht hn e = ground arith
window-write buffer t h (suc (suc zero)) m ht hn e = ground arith
window-write buffer t h (suc (suc (suc zero))) m ht hn e = ground arith
window-write buffer t h (suc (suc (suc (suc n)))) m ht hn e = absurd (omega arith)

-- A push into a buffer that is not full, at an index inside the array, succeeds, appends the message
-- and keeps the indices among the five places.
pub push_buffer-contents :
    (b : MessagesCircularBuffer) (m : Message)
    → InPlaces b
    → is_full b ≡ false
    → b.head < max_messages_per_process
    → Returns (λ b'. InPlaces b' × (contents b' ≡ contents b ++ m ∷ [])) (push_buffer b m)
unfolding push_buffer
push_buffer-contents b m v free inside =
    let in_array : ltb b.head max_messages_per_process ≡ true = ground arith in
    let few = size-not_full b v free in
    let grown : size b' ≡ suc (size b) = ground arith in
    rw in_array (
      ground arith,
      ap (window b'.buffer b.tail) grown
          ∙ window-write b.buffer b.tail b.head (size b) m v.tail_in few (ground arith),
    )
  where
    b' : MessagesCircularBuffer
    b' = record b { buffer = λ i. if i == b.head then m else b.buffer i; head = next_index b.head }

-- A pop from a buffer that is not empty, at an index inside the array, hands out the oldest message
-- and leaves the others in their order.
pub pop_buffer-contents :
    (b : MessagesCircularBuffer)
    → InPlaces b
    → b.head ≢ b.tail
    → b.tail < max_messages_per_process
    → Returns (λ (m, b'). InPlaces b' × (contents b ≡ m ∷ contents b')) (pop_buffer b)
unfolding pop_buffer
pop_buffer-contents b v ne inside =
    let in_array : ltb b.tail max_messages_per_process ≡ true = ground arith in
    let shrunk : size b ≡ suc (size b') = ground arith in
    rw in_array (ground arith, ap (window b.buffer b.tail) shrunk)
  where
    b' : MessagesCircularBuffer
    b' = record b { tail = next_index b.tail }

-- The buffer is full with four messages, and empty with none.
pub is_full-size : (b : MessagesCircularBuffer) → InPlaces b → is_full b ≡ (size b == 4)
is_full-size b v = ground arith

-- With the head at the fifth place, behind the array, and the tail at another place than 0, a push
-- does not find the buffer full and writes past the array.
pub push_message-fault :
    (k : Kernel) (owner : Ptr) (m : Message)
    → (k.mem owner).messages_buffer.head ≡ 4
    → (k.mem owner).messages_buffer.tail ≢ 0
    → (k.mem owner).messages_buffer.tail ≤ 4
    → push_message k owner m ≡ fault
unfolding push_message push_buffer
push_message-fault k owner m at ne small =
    let b = (k.mem owner).messages_buffer in
    let room : is_full b ≡ false = ground arith in
    let outside : ltb b.head max_messages_per_process ≡ false = ground arith in rw (room, outside)

-- With the head at place 3 and the tail at place 1, 2 or 3, so with room, a push succeeds and leaves a
-- buffer that is not full, with at most three messages in five places, and the next push writes past
-- the array.
pub push_buffer-past_end :
    (b : MessagesCircularBuffer) (m m' : Message)
    → b.head ≡ 3
    → b.tail ≢ 0
    → b.tail ≤ 3
    → Returns
        (λ b'.
          (is_full b' ≡ false)
          × (size b' ≡ suc (size b))
          × (size b' ≤ 3)
          × (push_buffer b' m' ≡ fault))
        (push_buffer b m)
unfolding push_buffer
push_buffer-past_end b m m' at ne small =
    let in_array : ltb b.head max_messages_per_process ≡ true = ground arith in
    let outside : ltb (next_index b.head) max_messages_per_process ≡ false = ground arith in
    rw (in_array, outside) (ground arith, ground arith, ground arith, refl)
