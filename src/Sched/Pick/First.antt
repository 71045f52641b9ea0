-- ===== src/Sched/Pick/First.antt =====
-- Which process `first_ready` finds, read off the PCBs as they were before the search.
use demos_os.Base.{
  ◌≡◌, ◌≢◌, refl, ap, ◌∙◌, inl, inr, Bool-cases, true, false, not, ◌&&◌, Bool, List, [], ◌∷◌, arith,
  has, sym, ◌-◌, ◌≤◌, length, ◌==◌, if◌then◌else◌, ne_of_has,
}
use demos_os.Base.Pigeonhole.{Distinct}
use demos_os.Base.Bits.{test_bit}
use demos_os.Pcb.{Ptr, null, process_ready, signal_kill, signal_stop, Pcb, Store}
use demos_os.Queue.Chain.{Chain}
use demos_os.Sched.Signals.{settle}
use demos_os.Sched.Pick.Take.{settle_one, first_ready, AllReady, AllReady-frame}

-- Neither a kill nor a stop is pending.
abbrev pub eligible : Pcb → Bool
eligible c =
    not (test_bit c.pending_signals signal_kill) && not (test_bit c.pending_signals signal_stop)

unfoldable pub first_eligible : Store → List Ptr → Ptr
first_eligible m [] = null
first_eligible m (x ∷ xs) = if eligible (m x) then x else first_eligible m xs

unfoldable pub after_eligible : Store → List Ptr → List Ptr
after_eligible m [] = []
after_eligible m (x ∷ xs) = if eligible (m x) then xs else after_eligible m xs

pub Chain-Distinct : (m : Store) (h : Ptr) (xs : List Ptr) → Chain m h xs → Distinct xs
Chain-Distinct m h [] c = tt
Chain-Distinct m h (x ∷ xs) (e, n, o, c) = (o, Chain-Distinct m (m x).next_ready xs c)

-- A READY process stays READY exactly when it is eligible.
settle-eligible :
    (c : Pcb) → c.state ≡ process_ready → ((settle c).state == process_ready) ≡ eligible c
settle-eligible c e = ground arith

pub settle_one-away : (m : Store) (x a : Ptr) → a ≢ x → settle_one m x a ≡ m a
settle_one-away m x a ne = ground arith

settle_one-eligible :
    (m : Store) (x : Ptr)
    → (m x).state ≡ process_ready
    → ((settle_one m x x).state == process_ready) ≡ eligible (m x)
settle_one-eligible m x e =
    let here : (x == x) ≡ true = ground arith in
    rw here (settle-eligible (record (m x) { next_ready = null }) e)

-- The choice reads only the pending signals of the processes of the list.
pub first_eligible-frame :
    (m m' : Store) (xs : List Ptr)
    → ((a : Ptr) → has a xs ≡ true → (m' a).pending_signals ≡ (m a).pending_signals)
    → (first_eligible m' xs ≡ first_eligible m xs) × (after_eligible m' xs ≡ after_eligible m xs)
unfolding first_eligible after_eligible
first_eligible-frame m m' [] same = (refl, refl)
first_eligible-frame m m' (x ∷ xs) same =
    let (e, f) = first_eligible-frame m m' xs (λ a i. same a (ground arith)) in
    let p : (m' x).pending_signals ≡ (m x).pending_signals = same x (ground arith) in
    rw (p, e, f) (refl, refl)

-- `first_ready` finds the first eligible process and leaves those behind it.
pub first_ready-first_eligible :
    (m : Store) (xs : List Ptr)
    → Distinct xs
    → AllReady m xs
    → ((first_ready m xs).0 ≡ first_eligible m xs) × ((first_ready m xs).1 ≡ after_eligible m xs)
unfolding first_ready first_eligible after_eligible
first_ready-first_eligible m [] d r = (refl, refl)
first_ready-first_eligible m (x ∷ xs) (o, d) (e, r) =
    let m' = settle_one m x in
    let t : ((m' x).state == process_ready) ≡ eligible (m x) = settle_one-eligible m x e in
    let away = λ (a : Ptr) (i : has a xs ≡ true). settle_one-away m x a (ne_of_has a x xs i o) in
    elim (Bool-cases (eligible (m x))) [
      | inl good ↦ rw (t, good) (refl, refl)
      | inr bad ↦
          let r' = AllReady-frame m m' xs (λ a i. ap (λ c. c.state) (away a i)) r in
          let (e₁, e₂) = first_ready-first_eligible m' xs d r' in
          let (f₁, f₂) =
            first_eligible-frame m m' xs (λ a i. ap (λ c. c.pending_signals) (away a i)) in
          rw (t, bad) (e₁ ∙ f₁, e₂ ∙ f₂)
    ]

-- A process outside the list keeps its PCB.
pub first_ready-away :
    (m : Store) (a : Ptr) (xs : List Ptr) → has a xs ≡ false → (first_ready m xs).2 a ≡ m a
unfolding first_ready
first_ready-away m a [] o = refl
first_ready-away m a (x ∷ xs) o =
    let m' = settle_one m x in
    let e : m' a ≡ m a = settle_one-away m x a (ground arith) in
    elim (Bool-cases ((m' x).state == process_ready)) [
      | inl good ↦ rw good e
      | inr bad ↦ rw bad (first_ready-away m' a xs (ground arith) ∙ e)
    ]

-- What is found stands in the list.
pub has-first_eligible :
    (m : Store) (xs : List Ptr) → first_eligible m xs ≢ null → has (first_eligible m xs) xs ≡ true
unfolding first_eligible
has-first_eligible m [] ne = absurd (ne refl)
has-first_eligible m (x ∷ xs) ne = ground (arith, has-first_eligible m xs)

-- What is left behind the first eligible process stands in the list.
pub has-after_eligible :
    (m : Store) (xs : List Ptr) (a : Ptr) → has a (after_eligible m xs) ≡ true → has a xs ≡ true
unfolding after_eligible
has-after_eligible m [] a h = h
has-after_eligible m (x ∷ xs) a h = ground (arith, has-after_eligible m xs a)

-- The first eligible process is not among those behind it.
pub first_eligible-out :
    (m : Store) (xs : List Ptr)
    → Distinct xs
    → first_eligible m xs ≢ null
    → has (first_eligible m xs) (after_eligible m xs) ≡ false
unfolding first_eligible after_eligible
first_eligible-out m [] d ne = refl
first_eligible-out m (x ∷ xs) (o, d) ne = ground (arith, first_eligible-out m xs d)

-- If there is no eligible process, nothing is left.
pub after_eligible-nil :
    (m : Store) (xs : List Ptr)
    → ((a : Ptr) → has a xs ≡ true → a ≢ null)
    → first_eligible m xs ≡ null
    → after_eligible m xs ≡ []
unfolding first_eligible after_eligible
after_eligible-nil m [] ne e = refl
after_eligible-nil m (x ∷ xs) ne e = elim (Bool-cases (eligible (m x))) [
  | inl good ↦ absurd (ne x (ground arith) (sym (rw good) ∙ e))
  | inr bad ↦ rw bad (after_eligible-nil m xs (λ a i. ne a (ground arith)) (sym (rw bad) ∙ e))
]

pub length-after_eligible :
    (m : Store) (xs : List Ptr) → length (after_eligible m xs) ≤ length xs - 1
unfolding after_eligible
length-after_eligible m [] = omega arith
length-after_eligible m (x ∷ xs) = ground (arith, length-after_eligible m xs)

-- The search writes no PCB behind the process that it finds.
pub first_ready-rest :
    (m : Store) (xs : List Ptr) (a : Ptr)
    → Distinct xs
    → AllReady m xs
    → has a (after_eligible m xs) ≡ true
    → (first_ready m xs).2 a ≡ m a
unfolding first_ready after_eligible
first_ready-rest m [] a d r h = refl
first_ready-rest m (x ∷ xs) a (o, d) (e, r) h =
    let m' = settle_one m x in
    let t : ((m' x).state == process_ready) ≡ eligible (m x) = settle_one-eligible m x e in
    let away = λ (b : Ptr) (i : has b xs ≡ true). settle_one-away m x b (ne_of_has b x xs i o) in
    elim (Bool-cases (eligible (m x))) [
      | inl good ↦ rw (t, good) (away a (rw good at h))
      | inr bad ↦
          let h' : has a (after_eligible m xs) ≡ true = rw bad at h in
          let r' = AllReady-frame m m' xs (λ b i. ap (λ c. c.state) (away b i)) r in
          let f =
            (first_eligible-frame m m' xs (λ b i. ap (λ c. c.pending_signals) (away b i))).1 in
          rw (t, bad)
            (first_ready-rest m' xs a d r' (rw f h') ∙ away a (has-after_eligible m xs a h'))
    ]

-- The search keeps the hold on the preemption, the pid and the counter of every process.
pub first_ready-holds :
    (m : Store) (xs : List Ptr) (a : Ptr)
    → (((first_ready m xs).2 a).preempt_disabled ≡ (m a).preempt_disabled)
      × (((first_ready m xs).2 a).pid ≡ (m a).pid)
      × (((first_ready m xs).2 a).counter ≡ (m a).counter)
unfolding first_ready
first_ready-holds m [] a = (refl, refl, refl)
first_ready-holds m (x ∷ xs) a =
    let m' = settle_one m x in
    let e : (m' a).preempt_disabled ≡ (m a).preempt_disabled = ground arith in
    let f : (m' a).pid ≡ (m a).pid = ground arith in
    let c : (m' a).counter ≡ (m a).counter = ground arith in
    let (g, h, i) = first_ready-holds m' xs a in
    elim (Bool-cases ((m' x).state == process_ready)) [
      | inl good ↦ rw good (e, f, c)
      | inr bad ↦ rw bad (g ∙ e, h ∙ f, i ∙ c)
    ]
