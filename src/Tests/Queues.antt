-- ===== src/Tests/Queues.antt =====
-- The queues, the lottery and the message buffer at concrete inputs.
use demos_os.Base.{◌≤◌, ℕ, ◌≡◌, ◌<◌, refl, false, [], ◌∷◌, arith}
use demos_os.Base.Run.{ok, fault, Returns}
use demos_os.Pcb.{null, Message, MessagesCircularBuffer, empty_message, modify}
use demos_os.Queue.{
  enqueue_process_to, dequeue_process_from, remove_process_from, enqueue_sorted_to,
}
use demos_os.Queue.Chain.{IsQueue}
use demos_os.Queue.Fifo.{enqueue_process_to-append, dequeue_process_from-cons}
use demos_os.Queue.Unlink.{remove_process_from-append}
use demos_os.Queue.Sorted.{insert, est_burst_of, IsSorted, enqueue_sorted_to-IsSorted}
use demos_os.Sched.Pick.Lottery.{total_tickets}
use demos_os.Sched.Pick.Lottery.Share.{draws_won, find_winner-share}
use demos_os.Ipc.{is_full, push_buffer, pop_buffer}
use demos_os.Ipc.Ring.{
  InPlaces, contents, push_buffer-contents, pop_buffer-contents, push_buffer-past_end, size,
}
use demos_os.Tests.Kernels.{sample_store, sample_queue, sample_queue-IsQueue}

enqueue_process_to-append_example :
    let (m', q') = enqueue_process_to sample_store sample_queue 2 in IsQueue m' q' (3 ∷ 4 ∷ 2 ∷ [])
enqueue_process_to-append_example =
    enqueue_process_to-append sample_store sample_queue 2 (3 ∷ 4 ∷ []) sample_queue-IsQueue
      (omega arith) (omega arith) refl

dequeue_process_from-cons_example :
    let (p, m', q') = dequeue_process_from sample_store sample_queue in
    (p ≡ 3)
    × IsQueue m' q' (4 ∷ [])
    × (m' ≡ modify sample_store 3 (λ c. record c { next_ready = null }))
dequeue_process_from-cons_example =
    dequeue_process_from-cons sample_store sample_queue 3 (4 ∷ []) sample_queue-IsQueue

remove_process_from-append_example :
    let (m', q') = remove_process_from sample_store sample_queue 3 4 in IsQueue m' q' (3 ∷ [])
remove_process_from-append_example =
    remove_process_from-append sample_store sample_queue 4 (3 ∷ []) [] sample_queue-IsQueue

enqueue_sorted_to-IsSorted_example :
    Returns
      (λ (m', q').
        IsQueue m' q' (insert (est_burst_of sample_store) 2 (3 ∷ 4 ∷ []))
        × IsSorted (est_burst_of sample_store) (insert (est_burst_of sample_store) 2 (3 ∷ 4 ∷ [])))
      (enqueue_sorted_to sample_store sample_queue 2)
enqueue_sorted_to-IsSorted_example =
    enqueue_sorted_to-IsSorted sample_store sample_queue 2 (3 ∷ 4 ∷ []) sample_queue-IsQueue
      (omega arith, tt) (omega arith) (omega arith) refl (omega arith)

-- The process at 4 has 5 of the 9 tickets.
find_winner-share_example :
    (total : ℕ) × (total_tickets 10 sample_store 3 0 ≡ ok total)
    × (draws_won 10 sample_store 3 4 total ≡ 5)
    × (0 < 5)
find_winner-share_example =
    find_winner-share 10 sample_store 3 4 (3 ∷ []) [] sample_queue-IsQueue.chain (omega arith)

abbrev sample_message : Message
sample_message = record { source_process = 2; destination_process = 3; body = b'h' ∷ b'i' ∷ [] }

-- One message, at place 3.
abbrev sample_buffer : MessagesCircularBuffer
sample_buffer = record { head = 4; tail = 3; buffer = λ _. sample_message }

abbrev wrapped_buffer : MessagesCircularBuffer
wrapped_buffer = record { head = 3; tail = 2; buffer = λ _. sample_message }

push_buffer-contents_example :
    Returns
      (λ b'. InPlaces b' × (contents b' ≡ sample_message ∷ empty_message ∷ []))
      (push_buffer wrapped_buffer empty_message)
push_buffer-contents_example =
    push_buffer-contents wrapped_buffer empty_message
      (record { head_in = omega arith; tail_in = omega arith }) refl (omega arith)

pop_buffer-contents_example :
    Returns
      (λ (m, b'). InPlaces b' × (sample_message ∷ [] ≡ m ∷ contents b'))
      (pop_buffer sample_buffer)
pop_buffer-contents_example =
    pop_buffer-contents sample_buffer (record { head_in = omega arith; tail_in = omega arith })
      (omega arith) (omega arith)

push_buffer-past_end_example :
    Returns
      (λ b'.
        (is_full b' ≡ false)
        × (size b' ≡ 2)
        × (size b' ≤ 3)
        × (push_buffer b' sample_message ≡ fault))
      (push_buffer wrapped_buffer empty_message)
push_buffer-past_end_example =
    push_buffer-past_end wrapped_buffer empty_message sample_message refl (omega arith)
      (omega arith)
