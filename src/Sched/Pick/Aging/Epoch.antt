-- ===== src/Sched/Pick/Aging/Epoch.antt =====
-- The end of an epoch of the priority aging: what it does to a counter, and to which processes.
use demos_os.Base.{
  ℕ, zero, suc, ◌+◌, ◌≡◌, ◌≢◌, ◌∙◌, refl, ap, Bool-cases, inl, inr, arith, ◌==◌, if◌then◌else◌,
}
use demos_os.Base.Int.{pos, ◌≤ℤ◌, ◌+ℤ◌}
use demos_os.Pcb.{Ptr, null, Pcb}
use demos_os.Sched.{Kernel, modify_pcb}
use demos_os.Sched.Pick.Aging.{age, age_all}

-- A counter from 0 to twice the priority is, after the recharge at the end of an epoch, at least the
-- priority and again at most twice the priority, and the priority stays; a counter of 0 becomes just
-- the priority.
pub age_bounds :
    (c : Pcb)
    → pos 0 ≤ℤ c.counter
    → c.counter ≤ℤ c.priority +ℤ c.priority
    → (c.priority ≤ℤ (age c).counter)
      × ((age c).counter ≤ℤ c.priority +ℤ c.priority)
      × ((age c).priority ≡ c.priority)
      × (c.counter ≡ pos 0 → (age c).counter ≡ c.priority)
age_bounds c lo hi = ground arith

-- How many of the slots `i` on, `rounds` of them, hold the process.
unfoldable pub slots : (rounds i : ℕ) → (ℕ → Ptr) → Ptr → ℕ
slots zero i processes p = 0
slots (suc rounds) i processes p =
    (if processes i == p then 1 else 0) + slots rounds (i + 1) processes p

-- What one slot of the table does.
abbrev age_slot : Kernel → Ptr → Kernel
age_slot k q = if q == null then k else modify_pcb k q age

processes-age_slot : (k : Kernel) (q : Ptr) → (age_slot k q).processes ≡ k.processes
processes-age_slot k q = ground arith

age_slot_ne : (k : Kernel) (q p : Ptr) → q ≢ p → (age_slot k q).mem p ≡ k.mem p
age_slot_ne k q p ne = ground arith

age_slot_self : (k : Kernel) (q p : Ptr) → p ≢ null → q ≡ p → (age_slot k q).mem p ≡ age (k.mem p)
age_slot_self k q p n e = ground arith

-- A process in none of the slots keeps its PCB.
pub age_all-away :
    (rounds i : ℕ) (k : Kernel) (p : Ptr)
    → slots rounds i k.processes p ≡ 0
    → (age_all rounds i k).mem p ≡ k.mem p
unfolding age_all slots
age_all-away zero i k p h = refl
age_all-away (suc rounds) i k p h =
    let k₁ = age_slot k (k.processes i) in
    age_all-away rounds (i + 1) k₁ p (rw (processes-age_slot k (k.processes i)) (ground arith))
    ∙ age_slot_ne k (k.processes i) p (ground arith)

-- A process that stands in exactly one of the slots is recharged exactly once by the loop over them,
-- whatever its state is.
pub age_all-once :
    (rounds i : ℕ) (k : Kernel) (p : Ptr)
    → p ≢ null
    → slots rounds i k.processes p ≡ 1
    → (age_all rounds i k).mem p ≡ age (k.mem p)
unfolding age_all slots
age_all-once zero i k p ne h = absurd (omega arith)
age_all-once (suc rounds) i k p ne h =
    let k₁ = age_slot k (k.processes i) in
    let same = processes-age_slot k (k.processes i) in
    elim (Bool-cases (k.processes i == p)) [
      | inl e ↦
          age_all-away rounds (i + 1) k₁ p (rw same (ground arith))
          ∙ age_slot_self k (k.processes i) p ne (ground arith)
      | inr e ↦
          age_all-once rounds (i + 1) k₁ p ne (rw same (ground arith))
          ∙ ap age (age_slot_ne k (k.processes i) p (ground arith))
    ]
