-- ===== src/Queue.antt =====
-- The queues of libs/scheduler.c: singly linked through the `next_ready` field of the PCBs.
-- A function that writes `*queue` and the PCBs returns both.
pub mod Chain
pub mod Fifo
pub mod Unlink
pub mod Sorted
use demos_os.Base.Run.{Run, ok, out_of_fuel, ◌>>=◌}
use demos_os.Base.{ℕ, zero, suc, Bool, true, false, ◌||◌, ltb, ◌==◌, if◌then◌else◌}
use demos_os.Pcb.{Ptr, null, init_process, process_ready, Pcb, Store, modify}

pub record ProcessQueue : Type 0 where
  pub head : Ptr
  pub tail : Ptr

-- `QUEUE_INIT`
abbrev pub empty_queue : ProcessQueue
empty_queue = record { head = null; tail = null }

-- `p->next_ready = r`
abbrev pub set_next : Store → Ptr → Ptr → Store
set_next m p r = modify m p (λ c. record c { next_ready = r })

-- What the insertions write into the process first.
abbrev pub mark_ready : Store → Ptr → Store
mark_ready m p = modify m p (λ c. record c { next_ready = null; state = process_ready })

-- `!process || process == &init_process`
abbrev pub not_queueable : Ptr → Bool
not_queueable p = (p == null) || (p == init_process)

unfoldable pub enqueue_process_to : Store → ProcessQueue → Ptr → Store × ProcessQueue
enqueue_process_to m queue process =
    if not_queueable process
    then (m, queue)
    else if queue.tail == null
    then (mark_ready m process, record { head = process; tail = process })
    else (set_next (mark_ready m process) queue.tail process, record queue { tail = process })

-- The process, or `null` from an empty queue.
unfoldable pub dequeue_process_from : Store → ProcessQueue → Ptr × Store × ProcessQueue
dequeue_process_from m queue =
    let head = queue.head in
    let next = (m head).next_ready in
    if head == null then (null, m, queue) else (
      head,
      set_next m head null,
      record { head = next; tail = if next == null then null else queue.tail },
    )

unfoldable pub remove_process_from :
    Store → ProcessQueue → (previous process : Ptr) → Store × ProcessQueue
remove_process_from m queue previous process =
    let next = (m process).next_ready in
    let first = if previous == null then next else queue.head in
    let m' = if previous == null then m else set_next m previous next in
    (
      set_next m' process null,
      record { head = first; tail = if queue.tail == process then previous else queue.tail },
    )

-- The longest walk along a queue that the models make: one more than there are processes.
abbrev pub queue_fuel : ℕ
queue_fuel = 65

-- The walk of `enqueue_sorted_to`: from `current` on, the last node that the new process goes
-- behind.
pub insertion_point : ℕ → Store → (process current : Ptr) → Run Ptr
insertion_point zero m process current = out_of_fuel
insertion_point (suc fuel) m process current =
    let next = (m current).next_ready in
    let rest = insertion_point fuel m process next in
    if next == null
    then ok current
    else if ltb (m process).est_burst (m next).est_burst
    then ok current
    else rest

-- The end of `enqueue_sorted_to`: links the process behind `current`.
pub insert_after : Store → ProcessQueue → (process current : Ptr) → Store × ProcessQueue
insert_after m queue process current =
    let next = (m current).next_ready in
    (
      set_next (set_next m process next) current process,
      if next == null then record queue { tail = process } else queue,
    )

unfoldable pub enqueue_sorted_to : Store → ProcessQueue → Ptr → Run (Store × ProcessQueue)
enqueue_sorted_to m queue process =
    let m' = mark_ready m process in
    let first : Store × ProcessQueue =
      (set_next m' process queue.head, record queue { head = process }) in
    if not_queueable process
    then ok (m, queue)
    else if queue.head == null
    then ok (m', record { head = process; tail = process })
    else if ltb (m' process).est_burst (m' queue.head).est_burst
    then ok first
    else (insertion_point queue_fuel m' process queue.head >>= λ current.
        ok (insert_after m' queue process current))
