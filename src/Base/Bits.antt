-- ===== src/Base/Bits.antt =====
-- Single bits of a mask, by arithmetic: `x & (1 << k)`, `x & ~(1 << k)` and `x | (1 << k)`.
use demos_os.Base.{ℕ, ◌+◌, ◌-◌, ◌/◌, ◌%◌, ◌^◌, Bool, ◌==◌, if◌then◌else◌}

abbrev pub test_bit : ℕ → ℕ → Bool
test_bit x k = ((x / 2 ^ k) % 2) == 1

abbrev pub clear_bit : ℕ → ℕ → ℕ
clear_bit x k = if test_bit x k then x - 2 ^ k else x

abbrev pub set_bit : ℕ → ℕ → ℕ
set_bit x k = if test_bit x k then x else x + 2 ^ k
