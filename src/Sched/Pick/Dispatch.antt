-- ===== src/Sched/Pick/Dispatch.antt =====
-- The end of each selection function: the switch and the `preempt_enable` that follows it.
use demos_os.Base.{◌≡◌, ◌≢◌, List, arith}
use demos_os.Base.Int.{pos, ◌-ℤ◌}
use demos_os.Pcb.{Ptr, process_running, process_ready}
use demos_os.Queue.Chain.{IsQueue, Chain-frame}
use demos_os.Sched.{Kernel, current, switch_to_process}
use demos_os.Sched.Switch.{
  next_ready-switch_to_process, ready_queue-switch_to_process, current_process-switch_to_process,
  state-switch_to_process, counter-switch_to_process, preempt_disabled-switch_to_process,
  switch_to_process-away,
}
use demos_os.Sched.Pick.{or_init, dispatch}
use demos_os.Sched.Pick.Ready.{Same, Frame}

module _ (p : Ptr) (k : Kernel) where
  pub current_process-dispatch : (dispatch p k).current_process ≡ or_init p
  current_process-dispatch = current_process-switch_to_process k (or_init p)

  pub state-dispatch : (current (dispatch p k)).state ≡ process_running
  state-dispatch = ground (
    arith,
    state-switch_to_process k (or_init p),
    current_process-switch_to_process k (or_init p),
  )

  pub counter-dispatch : (current (dispatch p k)).counter ≡ (k.mem (or_init p)).counter
  counter-dispatch = ground (
    arith,
    counter-switch_to_process k (or_init p) (or_init p),
    current_process-switch_to_process k (or_init p),
  )

  -- The process that runs gives back its hold on the preemption.
  pub preempt_disabled-dispatch :
      (current (dispatch p k)).preempt_disabled ≡ (k.mem (or_init p)).preempt_disabled -ℤ pos 1
  preempt_disabled-dispatch = ground (
    arith,
    preempt_disabled-switch_to_process k (or_init p) (or_init p),
    current_process-switch_to_process k (or_init p),
  )

  pub next_ready-dispatch : (a : Ptr) → ((dispatch p k).mem a).next_ready ≡ (k.mem a).next_ready
  next_ready-dispatch a = ground (arith, next_ready-switch_to_process k (or_init p) a)

  pub ready_queue-dispatch : (dispatch p k).ready_queue ≡ k.ready_queue
  ready_queue-dispatch = ready_queue-switch_to_process k (or_init p)

  pub dispatch-IsQueue :
      (xs : List Ptr)
      → IsQueue k.mem k.ready_queue xs
      → IsQueue (dispatch p k).mem (dispatch p k).ready_queue xs
  dispatch-IsQueue xs v =
      let v' : IsQueue (dispatch p k).mem k.ready_queue xs = record {
        chain =
            Chain-frame k.mem (dispatch p k).mem k.ready_queue.head xs
              (λ a i. next_ready-dispatch a) v.chain;
        last = v.last;
      } in
      rw ready_queue-dispatch v'

  pub dispatch-away :
      (a : Ptr) → a ≢ or_init p → a ≢ k.current_process → (dispatch p k).mem a ≡ k.mem a
  dispatch-away a ne nc = ground (
    arith,
    switch_to_process-away k (or_init p) a,
    current_process-switch_to_process k (or_init p),
  )

  -- A READY process that is not selected stays READY, and keeps the rest.
  pub dispatch-unselected :
      (a : Ptr)
      → a ≢ or_init p
      → (k.mem a).state ≡ process_ready
      → (((dispatch p k).mem a).state ≡ process_ready) × Same (k.mem a) ((dispatch p k).mem a)
  unfolding switch_to_process
  dispatch-unselected a ne r =
      (ground arith, (ground arith, ground arith, ground arith, ground arith))

  pub pid-dispatch : (a : Ptr) → ((dispatch p k).mem a).pid ≡ (k.mem a).pid
  unfolding switch_to_process
  pid-dispatch a = ground arith

  pub Frame-dispatch : Frame k (dispatch p k)
  unfolding switch_to_process
  Frame-dispatch = (ground arith, ground arith, ground arith)

  pub held-dispatch :
      (a : Ptr)
      → a ≢ or_init p
      → ((dispatch p k).mem a).preempt_disabled ≡ (k.mem a).preempt_disabled
  unfolding switch_to_process
  held-dispatch a ne = ground arith
