-- ===== src/Base/Pigeonhole.antt =====
-- A list of distinct numbers that all stand in a table of `n` places is no longer than `n`.
use demos_os.Base.Tests.{◌==◌, if◌then◌else◌, Bool-cases}
use demos_os.Base.Lists.{has, length}
use Prim.Native.Nat.{ℕ, zero, suc, ◌+◌, ◌≤◌, ◌<◌}
use mathlib.Core.Path.{◌≡◌, refl, sym}
use mathlib.Core.Logic.{inl, inr}
use mathlib.Core.Bool.{true, false}
use mathlib.Core.List.{List, [], ◌∷◌}
use native.Mathlib.Omega.{arith}

-- No number stands twice in the list.
abbrev pub Distinct : List ℕ → Type 0
Distinct [] = Unit
Distinct (x ∷ xs) = (has x xs ≡ false) × Distinct xs

-- The list without the first `p`.
without : ℕ → List ℕ → List ℕ
without p [] = []
without p (x ∷ xs) = if x == p then xs else x ∷ without p xs

has-without : (p a : ℕ) (xs : List ℕ) → has a (without p xs) ≡ true → has a xs ≡ true
unfolding without
has-without p a [] h = h
has-without p a (x ∷ xs) h = ground (arith, has-without p a xs)

has-without-false : (p a : ℕ) (xs : List ℕ) → has a xs ≡ false → has a (without p xs) ≡ false
unfolding without
has-without-false p a [] h = refl
has-without-false p a (x ∷ xs) h = ground (arith, has-without-false p a xs)

without-Distinct : (p : ℕ) (xs : List ℕ) → Distinct xs → Distinct (without p xs)
unfolding without
without-Distinct p [] d = tt
without-Distinct p (x ∷ xs) (o, d) = elim (Bool-cases (x == p)) [
  | inl e ↦ rw e d
  | inr e ↦ rw e (has-without-false p x xs o, without-Distinct p xs d)
]

without-out : (p : ℕ) (xs : List ℕ) → Distinct xs → has p (without p xs) ≡ false
unfolding without
without-out p [] d = refl
without-out p (x ∷ xs) (o, d) = ground (arith, without-out p xs d)

length-without : (p : ℕ) (xs : List ℕ) → length xs ≤ length (without p xs) + 1
unfolding without
length-without p [] = omega arith
length-without p (x ∷ xs) = ground (arith, length-without p xs)

pub length-le_table :
    (n : ℕ) (t : ℕ → ℕ) (xs : List ℕ)
    → Distinct xs
    → ((a : ℕ) → has a xs ≡ true → (i : ℕ) × (i < n) × (t i ≡ a))
    → length xs ≤ n
length-le_table zero t [] d h = omega arith
length-le_table zero t (x ∷ xs) d h = let (i, lt, e) = h x (ground arith) in absurd (omega arith)
length-le_table (suc n) t xs d h =
    let ys = without (t n) xs in
    let out = without-out (t n) xs d in
    let few = length-le_table n t ys (without-Distinct (t n) xs d) (λ a i.
      let (j, lt, e) = h a (has-without (t n) a xs i) in
      elim (Bool-cases (j == n)) [
        | inl last ↦
            let same : j ≡ n = ground arith in
            let here : t n ≡ a = rw (sym same) e in absurd (ground (arith, rw here at out))
        | inr before ↦ (j, ground arith, e)
      ]) in
    omega (arith, few, length-without (t n) xs)
