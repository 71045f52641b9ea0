-- ===== src/Shell/Escape.antt =====
-- `normalize_path` of app/shell.c: its end, the places that it writes, and the paths that begin with
-- "..".
use demos_os.Base.{
  ℕ, zero, suc, ◌+◌, ◌<◌, ◌≤◌, ◌≡◌, refl, true, false, Bool-cases, ◌⊎◌, inl, inr, arith, ◌==◌, ◌∙◌,
}
use demos_os.Base.Int.{ℤ, pos, negsuc, ◌+ℤ◌, ◌-ℤ◌}
use demos_os.Base.Run.{Run, ok, fault, out_of_fuel, ◌>>=◌}
use demos_os.Text.{Chars, write}
use demos_os.Shell.{put, back_up, is_here, is_parent, skip, finish, normalize_from, normalize_path}

-- Before the end of the text there is a next byte.
before_end : (path : Chars) (i e : ℕ) → path e ≡ 0 → (path i == 0) ≡ false → i ≤ e → i + 1 ≤ e
before_end path i e z ne le = elim (Bool-cases (i == e)) [
  | inl same ↦ let at : i ≡ e = ground arith in let ends : path i ≡ 0 = rw at z in ground arith
  | inr other ↦ ground arith
]

skip-≤ : (path : Chars) (read n e : ℕ) → path e ≡ 0 → read + n ≤ e → skip path read n ≤ e
skip-≤ path read n e z le = elim (Bool-cases (path (read + n) == b'/')) [
  | inl slash ↦ rw slash (before_end path (read + n) e z (ground arith) le)
  | inr none ↦ rw none le
]

-- The reading stays inside the text behind a "." and a "..".
here-≤ :
    (path : Chars) (read e : ℕ)
    → path e ≡ 0
    → (path read == 0) ≡ false
    → read ≤ e
    → skip path read 1 ≤ e
here-≤ path read e z on le = skip-≤ path read 1 e z (before_end path read e z on le)

parent-≤ :
    (path : Chars) (read e : ℕ)
    → path e ≡ 0
    → (path read == 0) ≡ false
    → is_parent path read ≡ true
    → read ≤ e
    → skip path read 2 ≤ e
parent-≤ path read e z on parent le =
    let first = before_end path read e z on le in
    let second = before_end path (read + 1) e z (ground arith) first in
    skip-≤ path read 2 e z (omega (arith, second))

lt_skip :
    (path : Chars) (read n e fuel : ℕ) → 0 < n → e < read + suc fuel → e < skip path read n + fuel
lt_skip path read n e fuel some lt = ground arith

back_up-negative : (path : Chars) (n : ℕ) → back_up path (negsuc n -ℤ pos 1) ≡ negsuc (n + 1)
back_up-negative path n = let low : negsuc n -ℤ pos 1 ≡ negsuc (n + 1) = ground arith in rw low refl

-- Once the place to write is before the buffer, the end is a fault.
normalize_from-negative :
    (fuel : ℕ) (path : Chars) (read n e : ℕ)
    → path e ≡ 0
    → read ≤ e
    → e < read + fuel
    → normalize_from fuel path read (negsuc n) ≡ fault
unfolding normalize_from
normalize_from-negative zero path read n e z le lt = absurd (omega arith)
normalize_from-negative (suc fuel) path read n e z le lt = elim (Bool-cases (path read == 0)) [
  | inl ends ↦ rw (ends, normalize_from) refl
  | inr on ↦ elim (Bool-cases (is_here path read)) [
    | inl here ↦
        rw (on, here, normalize_from)
          (normalize_from-negative fuel path (skip path read 1) n e z (here-≤ path read e z on le)
            (lt_skip path read 1 e fuel (omega arith) lt))
    | inr not_here ↦ elim (Bool-cases (is_parent path read)) [
      | inl parent ↦
          rw (on, not_here, parent, back_up-negative path n, normalize_from)
            (normalize_from-negative fuel path (skip path read 2) (n + 1) e z
              (parent-≤ path read e z on parent le) (lt_skip path read 2 e fuel (omega arith) lt))
      | inr kept ↦ rw (on, not_here, kept, normalize_from) refl
    ]
  ]
]

-- A ".." with nothing written so far ends in a fault.
normalize_from-parent :
    (fuel : ℕ) (path : Chars) (read e : ℕ)
    → path e ≡ 0
    → is_parent path read ≡ true
    → read ≤ e
    → e < read + fuel
    → normalize_from fuel path read (pos 0) ≡ fault
unfolding normalize_from
normalize_from-parent zero path read e z parent le lt = absurd (omega arith)
normalize_from-parent (suc fuel) path read e z parent le lt =
    let on : (path read == 0) ≡ false = ground arith in
    let not_here : is_here path read ≡ false = ground arith in
    rw (on, not_here, parent, normalize_from)
      (normalize_from-negative fuel path (skip path read 2) 0 e z
        (parent-≤ path read e z on parent le) (lt_skip path read 2 e fuel (omega arith) lt))

-- With fuel for each byte of a path that ends at `e`: if it begins with ".." as a part, or with
-- "/../.." with both as parts, the normalisation writes before the buffer.
pub normalize_path-fault :
    (fuel : ℕ) (path : Chars) (e : ℕ)
    → path e ≡ 0
    → e < fuel
    → is_parent path 0 ≡ true
      ⊎ ((path 0 ≡ b'/')
          × (is_parent path 1 ≡ true)
          × (path 3 ≡ b'/')
          × (is_parent path 4 ≡ true)
          × (4 ≤ e))
    → normalize_path fuel path ≡ fault
unfolding normalize_path normalize_from
normalize_path-fault fuel path e z lt (inl parent) =
    normalize_from-parent fuel path 0 e z parent (omega arith) (omega arith)
normalize_path-fault zero path e z lt (inr h) = absurd (omega arith)
normalize_path-fault (suc zero) path e z lt (inr h) = absurd (omega arith)
normalize_path-fault (suc (suc fuel)) path e z lt (inr (root, parent, slash, next, le)) =
    let path' = write path 0 (path 0) in
    let on₀ : (path 0 == 0) ≡ false = ground arith in
    let here₀ : is_here path 0 ≡ false = ground arith in
    let parent₀ : is_parent path 0 ≡ false = ground arith in
    let on₁ : (path 1 == 0) ≡ false = ground arith in
    let here₁ : is_here path' 1 ≡ false = ground arith in
    let parent₁ : is_parent path' 1 ≡ true = parent in
    let slash₁ : (path' 3 == b'/') ≡ true = ground arith in
    let z' : path' e ≡ 0 = ground arith in
    rw (on₀, here₀, parent₀, on₁, here₁, parent₁, slash₁)
      (normalize_from-parent fuel path' 4 e z' next le (omega arith))

-- What the normalisation of a text that ends at `e` may do: fault, or write up to the place behind
-- the end of the text or of the root.
abbrev pub Bounded : (e : ℕ) → Chars → Run Chars → Type 0
Bounded e path (ok d) = (m : ℕ) → e < m → 1 < m → d m ≡ path m
Bounded e path fault = Unit
Bounded e path out_of_fuel = ⊥

-- The place to write is not behind the place to read.
abbrev Behind : ℤ → ℕ → Type 0
Behind (pos i) read = i ≤ read
Behind (negsuc n) read = Unit

Behind-back_up : (path : Chars) (n read : ℕ) → n ≤ read → Behind (back_up path (pos n)) read
Behind-back_up path zero read h = omega arith
Behind-back_up path (suc n) read h = elim (Bool-cases (path n == b'/')) [
  | inl slash ↦ rw slash h
  | inr other ↦ rw other (Behind-back_up path n read (omega arith))
]

Behind-parent :
    (path : Chars) (at : ℤ) (read : ℕ)
    → Behind at read
    → Behind (back_up path (at -ℤ pos 1)) (skip path read 2)
Behind-parent path (pos zero) read h = tt
Behind-parent path (pos (suc n)) read h =
    let less : pos (suc n) -ℤ pos 1 ≡ pos n = ground arith in
    rw less (Behind-back_up path n (skip path read 2) (ground arith))
Behind-parent path (negsuc n) read h = rw (back_up-negative path n) tt

Behind-here : (path : Chars) (at : ℤ) (read : ℕ) → Behind at read → Behind at (skip path read 1)
Behind-here path (pos n) read h = ground arith
Behind-here path (negsuc n) read h = tt

Bounded-finish :
    (path : Chars) (at : ℤ) (read e : ℕ)
    → read ≤ e
    → Behind at read
    → Bounded e path (finish path at)
Bounded-finish path (pos zero) read e le h = λ m hi big. ground arith
Bounded-finish path (pos (suc n)) read e le h = λ m hi big. ground arith
Bounded-finish path (negsuc n) read e le h = tt

Bounded-write :
    (path : Chars) (i c e : ℕ) (r : Run Chars)
    → i ≤ e
    → Bounded e (write path i c) r
    → Bounded e path r
Bounded-write path i c e (ok d) h b = λ m hi big. b m hi big ∙ ground arith
Bounded-write path i c e fault h b = tt
Bounded-write path i c e out_of_fuel h b = b

-- A byte that is kept, with what follows it.
normalize_kept :
    (fuel : ℕ) (path : Chars) (read : ℕ) (at : ℤ) (e : ℕ)
    → path e ≡ 0
    → read + 1 ≤ e
    → Behind at read
    → ((path' : Chars) (at' : ℤ)
        → path' e ≡ 0
        → Behind at' (read + 1)
        → Bounded e path' (normalize_from fuel path' (read + 1) at'))
    → Bounded e path
        (put path at (path read) >>= λ path'. normalize_from fuel path' (read + 1) (at +ℤ pos 1))
normalize_kept fuel path read (negsuc n) e z le h rest = tt
normalize_kept fuel path read (pos i) e z le h rest =
    let path' = write path i (path read) in
    let z' : path' e ≡ 0 = ground arith in
    let next : pos i +ℤ pos 1 ≡ pos (i + 1) = ground arith in
    Bounded-write path i (path read) e (normalize_from fuel path' (read + 1) (pos i +ℤ pos 1))
      (omega arith) (rest path' (pos i +ℤ pos 1) z' (rw next (omega arith)))

normalize_from-Bounded :
    (fuel : ℕ) (path : Chars) (read : ℕ) (at : ℤ) (e : ℕ)
    → path e ≡ 0
    → read ≤ e
    → e < read + fuel
    → Behind at read
    → Bounded e path (normalize_from fuel path read at)
unfolding normalize_from
normalize_from-Bounded zero path read at e z le lt h = absurd (omega arith)
normalize_from-Bounded (suc fuel) path read at e z le lt h = elim (Bool-cases (path read == 0)) [
  | inl ends ↦ rw (ends, normalize_from) (Bounded-finish path at read e le h)
  | inr on ↦ elim (Bool-cases (is_here path read)) [
    | inl here ↦
        rw (on, here, normalize_from)
          (normalize_from-Bounded fuel path (skip path read 1) at e z (here-≤ path read e z on le)
            (lt_skip path read 1 e fuel (omega arith) lt) (Behind-here path at read h))
    | inr not_here ↦ elim (Bool-cases (is_parent path read)) [
      | inl parent ↦
          rw (on, not_here, parent, normalize_from)
            (normalize_from-Bounded fuel path (skip path read 2) (back_up path (at -ℤ pos 1)) e z
              (parent-≤ path read e z on parent le) (lt_skip path read 2 e fuel (omega arith) lt)
              (Behind-parent path at read h))
      | inr kept ↦
          rw (on, not_here, kept, normalize_from)
            (let le' = before_end path read e z on le in
              normalize_kept fuel path read at e z le' h (λ path' at' z' h'.
                normalize_from-Bounded fuel path' (read + 1) at' e z' le' (omega arith) h'))
    ]
  ]
]

-- With fuel for each byte of the path, which ends at `e`, the normalisation ends, and unless it
-- writes before the buffer it writes nothing behind the end of the path, but for the terminator behind
-- the root.
pub normalize_path-Bounded :
    (fuel : ℕ) (path : Chars) (e : ℕ)
    → path e ≡ 0
    → e < fuel
    → Bounded e path (normalize_path fuel path)
unfolding normalize_path
normalize_path-Bounded fuel path e z lt =
    normalize_from-Bounded fuel path 0 (pos 0) e z (omega arith) (omega arith) (omega arith)
