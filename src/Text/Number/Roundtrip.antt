-- ===== src/Text/Number/Roundtrip.antt =====
-- The decimal text of a number, parsed again.
use demos_os.Base.{
  ℕ, zero, suc, ◌+◌, ◌-◌, ◌*◌, ◌/◌, ◌%◌, ◌^◌, ◌<◌, ◌≤◌, ◌≡◌, true, arith, ltb, ap, ◌∙◌, refl, ◌==◌,
  Bool-cases, inl, inr, List, [], ◌∷◌, length,
}
use demos_os.Base.Run.{ok, ◌>>=◌, Returns, Returns-value, Returns-mono}
use demos_os.Text.{Chars, write}
use demos_os.Text.Number.{
  buffer_size, digit_zero, extract_digits, reverse_into, num_to_str, is_digit, str_to_num_from,
  str_to_num,
}

-- The first `i` bytes, from the last one to the first.
abbrev stack : ℕ → Chars → List ℕ
stack zero s = []
stack (suc i) s = s i ∷ stack i s

-- What a parser that has read `number` makes of the bytes.
abbrev value : ℕ → List ℕ → ℕ
value number [] = number
value number (c ∷ cs) = value ((number * 10 + (c - digit_zero)) % 2 ^ 64) cs

abbrev AllDigits : List ℕ → Type 0
AllDigits [] = Unit
AllDigits (c ∷ cs) = (is_digit c ≡ true) × AllDigits cs

-- The bytes, and behind them a terminator, stand in the buffer from `j` on.
abbrev Stands : List ℕ → Chars → ℕ → Type 0
Stands [] buffer j = buffer j ≡ 0
Stands (c ∷ cs) buffer j = (buffer j ≡ c) × Stands cs buffer (j + 1)

stack-write : (n i c : ℕ) (s : Chars) → n ≤ i → stack n (write s i c) ≡ stack n s
stack-write zero i c s h = refl
stack-write (suc n) i c s h =
    let e = stack-write n i c s (omega arith) in
    let here : write s i c n ≡ s n = ground arith in rw (here, e) refl

abbrev ten_power : ℕ → ℕ
ten_power zero = 1
ten_power (suc n) = 10 * ten_power n

-- The outcome of the first loop.
record Extracted (number i : ℕ) (reversed : Chars) (r : Chars × ℕ) : Type 0 where
  count : r.1 < buffer_size
  digits : AllDigits (stack r.1 r.0)
  same_value : value 0 (stack r.1 r.0) ≡ value number (stack i reversed)

extract_digits-Extracted :
    (fuel bound number : ℕ) (reversed : Chars) (i : ℕ)
    → number < ten_power bound
    → bound < fuel
    → i + bound < buffer_size
    → number < 2 ^ 64
    → AllDigits (stack i reversed)
    → Returns (Extracted number i reversed) (extract_digits fuel number reversed i)
unfolding extract_digits
extract_digits-Extracted zero bound number reversed i lt b room word d = absurd (omega arith)
extract_digits-Extracted (suc fuel) zero number reversed i lt b room word d =
    let none_left : number ≡ 0 = omega (arith, lt) in
    rw (none_left, extract_digits) (record { count = omega arith; digits = d; same_value = refl })
extract_digits-Extracted (suc fuel) (suc bound) number reversed i lt b room word d =
    elim (Bool-cases (number == 0)) [
      | inl e ↦
          let none_left : number ≡ 0 = ground arith in
          rw (none_left, extract_digits)
            (record { count = omega arith; digits = d; same_value = refl })
      | inr e ↦
          let digit = digit_zero + number % 10 in
          let reversed' = write reversed i digit in
          let fits : ltb i buffer_size ≡ true = ground arith in
          let top : reversed' i ≡ digit = ground arith in
          let below = stack-write i i digit reversed (omega arith) in
          let d' : AllDigits (stack (suc i) reversed') = rw (top, below) (ground arith, d) in
          let less : number / 10 < ten_power bound = omega (arith, lt) in
          let step : (number / 10 * 10 + (digit - digit_zero)) % 2 ^ 64 ≡ number =
            omega (arith, word) in
          let more : i + 1 ≡ suc i = omega arith in
          let d'' : AllDigits (stack (i + 1) reversed') = rw more d' in
          let pushed : value (number / 10) (stack (i + 1) reversed')
              ≡ value number (stack i reversed) =
            rw (more, top, below, step) refl in
          rw (e, fits, extract_digits)
            (Returns-mono (Extracted (number / 10) (i + 1) reversed') (Extracted number i reversed)
              (extract_digits fuel (number / 10) reversed' (i + 1))
              (extract_digits-Extracted fuel bound (number / 10) reversed' (i + 1) less
                (omega (arith, b)) (omega (arith, room)) (omega (arith, word)) d'')
              (λ r x. record {
                count = x.count;
                digits = x.digits;
                same_value = x.same_value ∙ pushed;
              }))
    ]

write-Stands :
    (cs : List ℕ) (buffer : Chars) (j i c : ℕ)
    → i < j
    → Stands cs buffer j
    → Stands cs (write buffer i c) j
write-Stands [] buffer j i c h s = ground arith
write-Stands (x ∷ xs) buffer j i c h (e, s) =
    (ground arith, write-Stands xs buffer (j + 1) i c (omega arith) s)

-- The second loop writes the bytes the other way round, and nothing before them.
reverse_into-Stands :
    (i : ℕ) (reversed buffer : Chars) (j : ℕ)
    → i + j < buffer_size
    → Returns
        (λ b. Stands (stack i reversed) b j × ((m : ℕ) → m < j → b m ≡ buffer m))
        (reverse_into i reversed buffer j)
unfolding reverse_into
reverse_into-Stands zero reversed buffer j room =
    let fits : ltb j buffer_size ≡ true = ground arith in
    rw (fits, reverse_into) (ground arith, λ m h. ground arith)
reverse_into-Stands (suc i) reversed buffer j room =
    let fits : ltb j buffer_size ≡ true = ground arith in
    let buffer' = write buffer j (reversed i) in
    rw (fits, reverse_into)
      (Returns-mono
        (λ b. Stands (stack i reversed) b (j + 1) × ((m : ℕ) → m < j + 1 → b m ≡ buffer' m)) _
        (reverse_into i reversed buffer' (j + 1))
        (reverse_into-Stands i reversed buffer' (j + 1) (omega (arith, room)))
        (λ b (s, same).
          let here : b j ≡ reversed i = same j (omega arith) ∙ ground arith in
          ((here, s), λ m h. same m (omega arith) ∙ ground arith)))

-- The parser reads the digits up to the terminator.
str_to_num_from-value :
    (fuel : ℕ) (cs : List ℕ) (buffer : Chars) (i number : ℕ)
    → length cs < fuel
    → AllDigits cs
    → Stands cs buffer i
    → str_to_num_from fuel buffer i number ≡ ok (value number cs)
unfolding str_to_num_from
str_to_num_from-value zero cs buffer i number h d s = absurd (omega arith)
str_to_num_from-value (suc fuel) [] buffer i number h d s = rw (s, str_to_num_from) refl
str_to_num_from-value (suc fuel) (c ∷ cs) buffer i number h (d, ds) (e, s) =
    rw (e, d, str_to_num_from)
      (str_to_num_from-value fuel cs buffer (i + 1) ((number * 10 + (c - digit_zero)) % 2 ^ 64)
        (omega (arith, h)) ds s)

length-stack : (i : ℕ) (s : Chars) → length (stack i s) ≡ i
length-stack zero s = refl
length-stack (suc i) s = ap suc (length-stack i s)

-- For every 64-bit number the decimal text fits the buffers of 24 bytes, with its terminator, and the
-- parser makes the number of it again; the loops need 25 rounds at most.
pub str_to_num-num_to_str :
    (number : ℕ) (reversed buffer : Chars)
    → number < 2 ^ 64
    → (num_to_str 25 number reversed buffer >>= λ text. str_to_num 25 text) ≡ ok number
unfolding num_to_str str_to_num
str_to_num-num_to_str number reversed buffer word = elim (Bool-cases (number == 0)) [
  | inl e ↦
      let text = write (write buffer 0 digit_zero) 1 0 in
      rw e (
        str_to_num_from-value 25 (digit_zero ∷ []) text 0 0 (omega arith) (refl, tt) (refl, refl)
        ∙ ap ok (ground arith))
  | inr e ↦
      let ((reversed', i), f, x) =
        Returns-value (Extracted number 0 reversed) (extract_digits 25 number reversed 0) (
          extract_digits-Extracted 25 20 number reversed 0 (omega (arith, word)) (omega arith)
            (omega arith) word tt) in
      let (text, g, s) =
        Returns-value (λ b. Stands (stack i reversed') b 0 × ((m : ℕ) → m < 0 → b m ≡ buffer m))
          (reverse_into i reversed' buffer 0)
          (reverse_into-Stands i reversed' buffer 0 (omega (arith, x.count))) in
      let short = x.count in
      rw (e, f, g)
        (str_to_num_from-value 25 (stack i reversed') text 0 0
            (omega (arith, short, length-stack i reversed')) x.digits s.0
          ∙ ap ok x.same_value)
]
