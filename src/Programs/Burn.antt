-- ===== src/Programs/Burn.antt =====
-- The end of the busy wait of common/testlib.c.
use demos_os.Base.{
  ℕ, zero, suc, ◌+◌, ◌-◌, ◌*◌, ◌/◌, ◌%◌, ◌^◌, ◌<◌, ◌≤◌, ◌≡◌, ◌⊎◌, arith, Bool-cases, inl, inr, ltb,
}
use demos_os.Base.Run.{Returns}
use demos_os.Programs.{burn_from, burn_cpu_ms}

-- The system timer: `time` counts microseconds, and a call reads its low 32 bits. From one call to the
-- next time passes, at most `gap`.
pub record Clock {S : Type 0} (call_syscall_get_time : S → ℕ × S) (gap : ℕ) : Type 0 where
  pub time : S → ℕ
  pub reads : (s : S) → (call_syscall_get_time s).0 ≡ time s % 2 ^ 32
  pub advances : (s : S) → time s < time (call_syscall_get_time s).1
  pub steady : (s : S) → time (call_syscall_get_time s).1 ≤ time s + gap

-- The difference of two readings that lie less than a round of the counter apart.
difference :
    (t₀ t : ℕ)
    → t₀ ≤ t
    → t < t₀ + 2 ^ 32
    → ((t % 2 ^ 32 + 2 ^ 64 - t₀ % 2 ^ 32) % 2 ^ 64 ≡ t - t₀) × (t₀ / 2 ^ 32 ≡ t / 2 ^ 32)
      ⊎ (2 ^ 63 ≤ (t % 2 ^ 32 + 2 ^ 64 - t₀ % 2 ^ 32) % 2 ^ 64) × (t₀ / 2 ^ 32 < t / 2 ^ 32)
difference t₀ t low near = elim (Bool-cases (ltb (t₀ / 2 ^ 32) (t / 2 ^ 32))) [
  | inl wrapped ↦ let less : t₀ / 2 ^ 32 < t / 2 ^ 32 = ground arith in inr (omega arith, less)
  | inr same ↦ let e : t₀ / 2 ^ 32 ≡ t / 2 ^ 32 = ground arith in inl (omega arith, e)
]

module _ {S : Type 0} (call_syscall_get_time : S → ℕ × S) (gap : ℕ)
    (c : Clock call_syscall_get_time gap) where
  -- The time is over, or the counter of 32 bits has wrapped around.
  abbrev pub Burned : (t₀ duration : ℕ) → S → Type 0
  Burned t₀ duration s = (t₀ + duration ≤ c.time s) ⊎ (t₀ / 2 ^ 32 < c.time s / 2 ^ 32)

  burn_from-Burned :
      (fuel t₀ duration : ℕ) (s : S)
      → t₀ ≤ c.time s
      → c.time s ≤ t₀ + duration + gap
      → t₀ + duration - c.time s < fuel
      → duration + gap < 2 ^ 32
      → Returns (Burned t₀ duration) (burn_from call_syscall_get_time fuel (t₀ % 2 ^ 32) duration s)
  unfolding burn_from
  burn_from-Burned zero t₀ duration s low near enough small = absurd (omega arith)
  burn_from-Burned (suc fuel) t₀ duration s low near enough small =
      let now = c.time s % 2 ^ 32 in
      let s' = (call_syscall_get_time s).1 in
      let later = c.advances s in
      let bounded = c.steady s in
      elim (Bool-cases (ltb ((now + 2 ^ 64 - t₀ % 2 ^ 32) % 2 ^ 64) duration)) [
        | inl early ↦ elim (difference t₀ (c.time s) low (omega arith)) [
          | inl (e, same) ↦
              let before : c.time s < t₀ + duration = ground arith in
              rw (c.reads s, early, burn_from)
                (burn_from-Burned fuel t₀ duration s' (omega arith) (omega arith) (omega arith)
                  small)
          | inr (huge, wrapped) ↦ absurd (ground arith)
        ]
        | inr over ↦
            rw (c.reads s, over, burn_from)
              (elim (difference t₀ (c.time s) low (omega arith)) [
                | inl (e, same) ↦
                    let after : t₀ + duration ≤ c.time s = ground arith in inl (omega arith)
                | inr (huge, wrapped) ↦ inr (omega arith)
              ])
      ]

  -- For a clock that lets time pass between two calls, `gap` microseconds at most, and a duration that
  -- with such a gap is less than a round of the counter: within a call for each microsecond and two
  -- more, the busy wait returns, and then its time is over or the counter has wrapped around.
  pub burn_cpu_ms-Burned :
      (fuel milliseconds : ℕ) (s : S)
      → milliseconds * 1000 + gap < 2 ^ 32
      → milliseconds * 1000 < fuel
      → Returns
          (Burned (c.time s) (milliseconds * 1000))
          (burn_cpu_ms call_syscall_get_time fuel milliseconds s)
  unfolding burn_cpu_ms
  burn_cpu_ms-Burned fuel milliseconds s small enough =
      let s' = (call_syscall_get_time s).1 in
      let later = c.advances s in
      let bounded = c.steady s in
      let whole : milliseconds * 1000 % 2 ^ 64 ≡ milliseconds * 1000 = omega arith in
      rw (c.reads s, whole)
        (burn_from-Burned fuel (c.time s) (milliseconds * 1000) s' (omega arith) (omega arith)
          (omega arith) small)
