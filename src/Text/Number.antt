-- ===== src/Text/Number.antt =====
-- common/testlib.c: numbers as decimal text. A write behind an array of 24 bytes is a fault.
pub mod Roundtrip
use demos_os.Base.{
  ℕ, zero, suc, ◌+◌, ◌-◌, ◌*◌, ◌/◌, ◌%◌, ◌^◌, Bool, ◌&&◌, ltb, leb, ◌==◌, if◌then◌else◌,
}
use demos_os.Base.Run.{Run, ok, fault, out_of_fuel, ◌>>=◌}
use demos_os.Text.{Chars, write}

-- `reversed[24]`, and the buffers of the callers.
abbrev pub buffer_size : ℕ
buffer_size = 24

-- `'0'`
abbrev pub digit_zero : ℕ
digit_zero = 48

-- The first loop: the digits from the least significant one, and how many there are.
unfoldable pub extract_digits : ℕ → (number : ℕ) → Chars → (i : ℕ) → Run (Chars × ℕ)
extract_digits zero number reversed i = out_of_fuel
extract_digits (suc fuel) number reversed i =
    let digit = digit_zero + number % 10 in
    let rest = extract_digits fuel (number / 10) (write reversed i digit) (i + 1) in
    if number == 0 then ok (reversed, i) else if ltb i buffer_size then rest else fault

-- The second loop, and the terminator.
unfoldable pub reverse_into : (i : ℕ) → (reversed buffer : Chars) → (j : ℕ) → Run Chars
reverse_into zero reversed buffer j = if ltb j buffer_size then ok (write buffer j 0) else fault
reverse_into (suc i) reversed buffer j =
    let rest = reverse_into i reversed (write buffer j (reversed i)) (j + 1) in
    if ltb j buffer_size then rest else fault

-- `reversed` is not initialised: it comes from the caller.
unfoldable pub num_to_str : ℕ → (number : ℕ) → (reversed buffer : Chars) → Run Chars
num_to_str fuel number reversed buffer =
    if number == 0
    then ok (write (write buffer 0 digit_zero) 1 0)
    else (extract_digits fuel number reversed 0 >>= λ (reversed', i).
        reverse_into i reversed' buffer 0)

module _ {X : Type 0} (call_syscall_write : Chars → X → Run X) where
  -- The two arrays are not initialised: they come from the caller, as the state of the kernel.
  abbrev pub print_num : ℕ → (number : ℕ) → (reversed buffer : Chars) → X → Run X
  print_num fuel number reversed buffer x =
      num_to_str fuel number reversed buffer >>= λ text. call_syscall_write text x

abbrev pub is_digit : ℕ → Bool
is_digit c = leb digit_zero c && leb c 57

-- The value wraps as an `unsigned long`.
unfoldable pub str_to_num_from : ℕ → (buffer : Chars) → (i number : ℕ) → Run ℕ
str_to_num_from zero buffer i number = out_of_fuel
str_to_num_from (suc fuel) buffer i number =
    let number' = (number * 10 + (buffer i - digit_zero)) % 2 ^ 64 in
    let rest = str_to_num_from fuel buffer (i + 1) number' in
    if is_digit (buffer i) then rest else ok number

unfoldable pub str_to_num : ℕ → Chars → Run ℕ
str_to_num fuel buffer = str_to_num_from fuel buffer 0 0
