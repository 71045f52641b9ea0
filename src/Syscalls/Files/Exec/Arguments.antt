-- ===== src/Syscalls/Files/Exec/Arguments.antt =====
-- Where `syscall_exec` of libs/syscalls.c puts the arguments of the new program.
use demos_os.Base.{
  ℕ, zero, suc, ◌+◌, ◌-◌, ◌*◌, ◌<◌, ◌≤◌, ◌≡◌, ◌≢◌, ◌⊎◌, ◌∙◌, ◌&&◌, ltb, ◌==◌, if◌then◌else◌, arith,
  inl, inr, Bool-cases, refl, true, ap,
}
use demos_os.Base.Run.{Returns, Returns-bind, Returns-mono}
use demos_os.Sched.{update}
use demos_os.Memory.{Memory, page_size}
use demos_os.Text.{Chars}
use demos_os.Syscalls.Files.Exec.{copy_argument, place_arguments}

-- The page of the stack, the last one below address `16 * page_size`.
abbrev pub InStack : ℕ → Type 0
InStack a = (15 * page_size ≤ a) × (a < 16 * page_size)

-- The bytes of the page of the stack: a store sets its byte and leaves the others.
pub record StackBytes (store_byte : (address byte : ℕ) → Memory → Memory) : Type 0 where
  pub load_byte : Memory → (address : ℕ) → ℕ
  pub load-store :
      (a c x : ℕ) (m : Memory)
      → InStack a
      → InStack x
      → load_byte (store_byte a c m) x ≡ (if x == a then c else load_byte m x)

-- The text ends at place `n`, inside the 64 bytes.
abbrev pub EndsAt : Chars → ℕ → Type 0
EndsAt t n = (n < 64) × (t n ≡ 0) × ((i : ℕ) → i < n → t i ≢ 0)

module _ (store_byte : (address byte : ℕ) → Memory → Memory) (b : StackBytes store_byte) where
  -- From `m` to `m'`, the bytes `i` to `n` of the text are at `a + i` on, and the stack outside the 64
  -- bytes behind `a`, and before the `i`-th of them, is as it was.
  abbrev Copied : (a : ℕ) → Chars → (i n : ℕ) → (m m' : Memory) → Type 0
  Copied a t i n m m' =
      ((x : ℕ) → i ≤ x → x ≤ n → b.load_byte m' (a + x) ≡ t x)
      × ((x : ℕ) → InStack x → x < a + i ⊎ a + 64 ≤ x → b.load_byte m' x ≡ b.load_byte m x)

  store-Copied :
      (a : ℕ) (t : Chars) (i n : ℕ) (m m' : Memory)
      → 15 * page_size ≤ a
      → a + 64 ≤ 16 * page_size
      → i < n
      → n < 64
      → Copied a t (i + 1) n (store_byte (a + i) (t i) m) m'
      → Copied a t i n m m'
  store-Copied a t i n m m' low high more short (text, kept) = (
    λ x from to. elim (Bool-cases (x == i)) [
      | inl here ↦
          let same : x ≡ i = ground arith in
          let k = kept (a + i) (omega arith, omega arith) (inl (omega arith)) in
          let l =
            b.load-store (a + i) (t i) (a + i) m (omega arith, omega arith)
              (omega arith, omega arith) in
          rw same (k ∙ l ∙ ground arith)
      | inr other ↦ text x (ground arith) to
    ],
    λ x page out.
        let l = b.load-store (a + i) (t i) x m (omega arith, omega arith) page in
        elim out [
          | inl before ↦ kept x page (inl (omega arith)) ∙ l ∙ ground arith
          | inr behind ↦ kept x page (inr behind) ∙ l ∙ ground arith
        ],
  )

  copy_argument-Copied :
      (rounds : ℕ) (a : ℕ) (t : Chars) (i n : ℕ) (m : Memory)
      → 15 * page_size ≤ a
      → a + 64 ≤ 16 * page_size
      → i ≤ n
      → n < i + rounds
      → EndsAt t n
      → Returns (Copied a t i n m) (copy_argument store_byte rounds a t i m)
  unfolding copy_argument
  copy_argument-Copied zero a t i n m low high le lt (short, end, text) = absurd (omega arith)
  copy_argument-Copied (suc rounds) a t i n m low high le lt (short, end, text) =
      elim (Bool-cases (t i == 0)) [
        | inl over ↦
            let last : (i < n) ⊎ (i ≡ n) = ground arith in
            let here : i ≡ n = elim last [
              | inl more ↦ absurd (text i more (ground arith))
              | inr e ↦ e
            ] in
            rw (over, copy_argument)
              (
                λ x from to.
                    let same : x ≡ i = omega arith in
                    let l =
                      b.load-store (a + i) (t i) (a + i) m (omega arith, omega arith)
                        (omega arith, omega arith) in
                    rw same (l ∙ ground arith),
                λ x page out.
                    b.load-store (a + i) (t i) x m (omega arith, omega arith) page ∙ ground arith,
              )
        | inr goes ↦
            let more : i < n = ground arith in
            let m₁ = store_byte (a + i) (t i) m in
            rw (goes, copy_argument)
              (Returns-mono (Copied a t (i + 1) n m₁) (Copied a t i n m)
                (copy_argument store_byte rounds a t (i + 1) m₁)
                (copy_argument-Copied rounds a t (i + 1) n m₁ low high (omega arith) (omega arith)
                  (short, end, text))
                (λ m' c. store-Copied a t i n m m' low high more short c))
      ]

  -- What the arguments from the `i`-th on, `rounds` of them, leave below `sp`.
  record Placed (rounds i : ℕ) (arguments : ℕ → Chars) (ends : ℕ → ℕ) (sp : ℕ) (frame : ℕ → ℕ)
      (m : Memory) (r : ℕ × (ℕ → ℕ) × Memory) : Type 0 where
    pointer : r.0 + 64 * rounds ≡ sp
    registers :
        (j : ℕ) → r.1 j ≡ (if ltb i j && ltb j (i + 1 + rounds) then sp - 64 * (j - i) else frame j)
    texts :
        (j x : ℕ)
        → j < rounds
        → x ≤ ends (i + j)
        → b.load_byte r.2 (sp - 64 * (j + 1) + x) ≡ arguments (i + j) x
    above : (x : ℕ) → InStack x → sp ≤ x → b.load_byte r.2 x ≡ b.load_byte m x

  Placed-none :
      (i : ℕ) (arguments : ℕ → Chars) (ends : ℕ → ℕ) (sp : ℕ) (frame : ℕ → ℕ) (m : Memory)
      → Placed 0 i arguments ends sp frame m (sp, frame, m)
  Placed-none i arguments ends sp frame m = record {
    pointer = omega arith;
    registers = λ j. ground arith;
    texts = λ j x few to. absurd (omega arith);
    above = λ x page over. refl;
  }

  Placed-next :
      (rounds i : ℕ) (arguments : ℕ → Chars) (ends : ℕ → ℕ) (sp : ℕ) (frame : ℕ → ℕ) (m m₁ : Memory)
      (r : ℕ × (ℕ → ℕ) × Memory)
      → 15 * page_size + 64 * suc rounds ≤ sp
      → sp ≤ 16 * page_size
      → ends i < 64
      → Copied (sp - 64) (arguments i) 0 (ends i) m m₁
      → Placed rounds (i + 1) arguments ends (sp - 64) (update frame (i + 1) (sp - 64)) m₁ r
      → Placed (suc rounds) i arguments ends sp frame m r
  Placed-next rounds i arguments ends sp frame m m₁ r low high short (text, kept) p =
      let e = p.pointer in
      record {
        pointer = omega (arith, e);
        registers = λ j. p.registers j ∙ ground arith;
        texts = λ j x few to. next_text j x few to;
        above = λ x page over. p.above x page (omega arith) ∙ kept x page (inr (omega arith));
      }
    where
      next_text :
          (j x : ℕ)
          → j < suc rounds
          → x ≤ ends (i + j)
          → b.load_byte r.2 (sp - 64 * (j + 1) + x) ≡ arguments (i + j) x
      next_text zero x few to =
          let first : i + 0 ≡ i = omega arith in
          let to' : x ≤ ends i = rw first at to in
          let place : sp - 64 * (0 + 1) + x ≡ sp - 64 + x = omega arith in
          rw (first, place)
            (p.above (sp - 64 + x) (omega arith, omega arith) (omega arith)
              ∙ text x (omega arith) to')
      next_text (suc j) x few to =
          let after : i + suc j ≡ i + 1 + j = omega arith in
          let to' : x ≤ ends (i + 1 + j) = rw after at to in
          let place : sp - 64 * (suc j + 1) + x ≡ sp - 64 - 64 * (j + 1) + x = omega arith in
          rw (after, place) (p.texts j x (omega arith) to')

  place_arguments-Placed :
      (rounds i : ℕ) (arguments : ℕ → Chars) (ends : ℕ → ℕ) (sp : ℕ) (frame : ℕ → ℕ) (m : Memory)
      → 15 * page_size + 64 * rounds ≤ sp
      → sp ≤ 16 * page_size
      → i + rounds ≤ 33
      → ((j : ℕ) → j < i + rounds → EndsAt (arguments j) (ends j))
      → Returns
          (Placed rounds i arguments ends sp frame m)
          (place_arguments store_byte rounds i arguments sp frame m)
  unfolding place_arguments
  place_arguments-Placed zero i arguments ends sp frame m low high few texts =
      Placed-none i arguments ends sp frame m
  place_arguments-Placed (suc rounds) i arguments ends sp frame m low high few texts =
      let saved : ltb (i + 1) 34 ≡ true = ground arith in
      let text = texts i (omega arith) in
      let frame₁ = update frame (i + 1) (sp - 64) in
      rw saved (
        Returns-bind (Copied (sp - 64) (arguments i) 0 (ends i) m)
          (Placed (suc rounds) i arguments ends sp frame m)
          (copy_argument store_byte 64 (sp - 64) (arguments i) 0 m) _
          (copy_argument-Copied 64 (sp - 64) (arguments i) 0 (ends i) m (omega arith) (omega arith)
            (omega arith) (omega (arith, text.0)) text)
          (λ m₁ c.
            Returns-mono (Placed rounds (i + 1) arguments ends (sp - 64) frame₁ m₁)
              (Placed (suc rounds) i arguments ends sp frame m)
              (place_arguments store_byte rounds (i + 1) arguments (sp - 64) frame₁ m₁)
              (place_arguments-Placed rounds (i + 1) arguments ends (sp - 64) frame₁ m₁
                (omega arith) (omega arith) (omega arith) (λ j less. texts j (omega arith)))
              (λ r p. Placed-next rounds i arguments ends sp frame m m₁ r low high text.0 c p)))

  -- For at most 30 arguments, the `j`-th of which ends at byte `ends j` of its 64, over a memory whose
  -- page of the stack keeps what is stored: the arguments are placed. They lie in blocks of 64 bytes
  -- below the end of the page, the stack pointer stands at the last block, register `j + 1` holds the
  -- address of argument `j`, the bytes from that address on are those of the argument with its
  -- terminator, and the saved words 0, 31, 32 and 33 are not written.
  pub place_arguments-stack :
      (n : ℕ) (arguments : ℕ → Chars) (ends : ℕ → ℕ) (trap_frame : ℕ → ℕ) (m : Memory)
      → n ≤ 30
      → ((j : ℕ) → j < n → EndsAt (arguments j) (ends j))
      → Returns
          (λ (sp, frame, m').
            (sp + 64 * n ≡ 16 * page_size)
            × ((j : ℕ) → j < n → frame (j + 1) + 64 * (j + 1) ≡ 16 * page_size)
            × ((j x : ℕ) → j < n → x ≤ ends j → b.load_byte m' (frame (j + 1) + x) ≡ arguments j x)
            × ((j : ℕ) → (j ≡ 0) ⊎ (30 < j) → frame j ≡ trap_frame j))
          (place_arguments store_byte n 0 arguments (16 * page_size) trap_frame m)
  place_arguments-stack n arguments ends trap_frame m few texts =
      Returns-mono (Placed n 0 arguments ends (16 * page_size) trap_frame m) _
        (place_arguments store_byte n 0 arguments (16 * page_size) trap_frame m)
        (place_arguments-Placed n 0 arguments ends (16 * page_size) trap_frame m (omega arith)
          (omega arith) (omega arith) (λ j less. texts j (omega arith)))
        (λ (sp, frame, m') p. (
          p.pointer,
          λ j less. (let e = p.registers (j + 1) in ground arith),
          λ j x less to.
              (let e = p.registers (j + 1) in
                let at : frame (j + 1) + x ≡ 16 * page_size - 64 * (j + 1) + x = ground arith in
                let none : 0 + j ≡ j = omega arith in
                let to' : x ≤ ends (0 + j) = rw none to in
                rw at (p.texts j x less to' ∙ ap (λ i. arguments i x) none)),
          λ j out.
              p.registers j ∙ (elim out [ inl start ↦ ground arith | inr behind ↦ ground arith ]),
        ))
