-- ===== src/Sched/Pick/Multilevel.antt =====
-- `_schedule_multilevel`.
use demos_os.Base.{ℕ, zero, suc, ◌+◌, none, some, ◌==◌, if◌then◌else◌, get_or}
use demos_os.Base.Run.{Run, ok, fault, ◌>>=◌}
use demos_os.Pcb.{Ptr, null}
use demos_os.Queue.{queue_fuel}
use demos_os.Sched.{Kernel, level, ml_policy, enqueue_multilevel, preempt_disable}
use demos_os.Sched.Pick.{take_ready, requeue_current, recharge, dispatch}

-- The levels from `q` on, `rounds` of them: the process that was found (or NULL), and its level.
pub scan_levels : (rounds q : ℕ) → Kernel → Run (Ptr × ℕ × Kernel)
scan_levels zero q k = ok (null, q, k)
scan_levels (suc rounds) q k = take_ready queue_fuel (level q) k >>= λ (p, k').
    let rest = scan_levels rounds (q + 1) k' in if p == null then rest else ok (p, q, k')

-- Without a policy the code would read through NULL.
unfoldable pub schedule_multilevel : Kernel → Run Kernel
schedule_multilevel k = elim (ml_policy k.active_algorithm) [
  | none ↦ fault
  | some policy ↦ requeue_current enqueue_multilevel (preempt_disable k) >>= λ k₁.
      scan_levels policy.n_levels 0 k₁ >>= λ (p, q, k₂).
      ok (dispatch p (recharge (get_or policy.quantum q 0) p k₂))
]
