-- ===== src/Drivers/Serial/Hex.antt =====
-- The digits that `uart_hex` prints, read back.
use native.Mathlib.Nat.{pow-suc, div-div-eq-div-mul, div-add-mod, one-le-pow}
use demos_os.Base.{
  ◌++◌, ℕ, zero, suc, ◌+◌, ◌-◌, ◌*◌, ◌/◌, ◌%◌, ◌^◌, ◌<◌, ◌≡◌, refl, ◌∙◌, ap, List, [], ◌∷◌, arith,
  leb, if◌then◌else◌, length,
}
use demos_os.Base.Run.{Returns, Returns-bind, Returns-mono}
use demos_os.Drivers.{Bus}
use demos_os.Drivers.Serial.{hex_digit, hex_digits, text, uart_hex, uart_puts}
use demos_os.Drivers.Serial.Output.{Transmitter, as_bytes, uart_puts-sent}

-- What a reader that has read `number` makes of digits.
abbrev pub digit_value : ℕ → ℕ
digit_value c = if leb b'A' c then c + 10 - b'A' else c - b'0'

abbrev pub hex_value : (number : ℕ) → List ℕ → ℕ
hex_value number [] = number
hex_value number (c ∷ cs) = hex_value (number * 16 + digit_value c) cs

digit_value-hex_digit : (n : ℕ) → n < 16 → digit_value (hex_digit n) ≡ n
digit_value-hex_digit n h = ground arith

pow_four_more : (r : ℕ) → 2 ^ (4 * suc r) ≡ 2 ^ (4 * r) * 16
pow_four_more r =
    let n : ℕ = 4 * r in
    let more : 4 * suc r ≡ suc (suc (suc (suc n))) = omega arith in
    ap (λ (t : ℕ). 2 ^ t) more
    ∙ omega (
      arith,
      pow-suc 2 n,
      pow-suc 2 (suc n),
      pow-suc 2 (suc (suc n)),
      pow-suc 2 (suc (suc (suc n))),
    )

-- The digit of place `B`, and what is below it.
split_digit : (n B : ℕ) → 0 < B → n % (B * 16) ≡ (n / B % 16) * B + n % B
split_digit n B h =
    let q = n / B in
    let e : n / B / 16 ≡ n / (B * 16) = div-div-eq-div-mul n B 16 in
    let whole : B * 16 * (n / (B * 16)) + n % (B * 16) ≡ n = div-add-mod n (B * 16) in
    let low : B * (n / B) + n % B ≡ n = div-add-mod n B in
    let q_split : B * (16 * (n / B / 16) + n / B % 16) ≡ B * (n / B) =
      ap (λ (t : ℕ). B * t) (div-add-mod (n / B) 16) in
    let same : B * (n / B / 16) ≡ B * (n / (B * 16)) = ap (λ (t : ℕ). B * t) e in
    omega (arith, whole, low, q_split, same)

hex_value-hex_digits :
    (r number num : ℕ)
    → hex_value number (hex_digits r num) ≡ number * 2 ^ (4 * r) + num % 2 ^ (4 * r)
unfolding hex_digits
hex_value-hex_digits zero number num = omega arith
hex_value-hex_digits (suc r) number num =
    let d = num / 2 ^ (4 * r) % 16 in
    let back : digit_value (hex_digit d) ≡ d = digit_value-hex_digit d (omega arith) in
    let rest = hex_value-hex_digits r (number * 16 + d) num in
    let split = split_digit num (2 ^ (4 * r)) (one-le-pow (4 * r) 2 (omega arith)) in
    let P = 2 ^ (4 * r) in
    let sum : (number * 16 + d) * P + num % P ≡ number * 2 ^ (4 * suc r) + num % 2 ^ (4 * suc r) =
      grind (arith, split, ap (λ (t : ℕ). number * t) (pow_four_more r), pow_four_more r) in
    ap (λ (t : ℕ). hex_value (number * 16 + t) (hex_digits r num)) back ∙ rest ∙ sum

length-hex_digits : (r num : ℕ) → length (hex_digits r num) ≡ r
unfolding hex_digits
length-hex_digits zero num = refl
length-hex_digits (suc r) num = ap suc (length-hex_digits r num)

hex_digit-byte : (n : ℕ) → n < 16 → hex_digit n % 256 ≡ hex_digit n
hex_digit-byte n h = ground arith

as_bytes-hex_digits : (r num : ℕ) → as_bytes (hex_digits r num) ≡ hex_digits r num
unfolding hex_digits
as_bytes-hex_digits zero num = refl
as_bytes-hex_digits (suc r) num =
    let d = num / 2 ^ (4 * r) % 16 in cc (hex_digit-byte d (omega arith), as_bytes-hex_digits r num)

-- Behind what was sent before stand the prefix and sixteen digits, which read back as the number.
abbrev pub Printed : (num : ℕ) (before after : List ℕ) → Type 0
Printed num before after =
    (digits : List ℕ) × (after ≡ before ++ text "0x" ++ digits)
    × (length digits ≡ 16)
    × (hex_value 0 digits ≡ num % 2 ^ 64)

-- Over a transmitter that is full for fewer than `polls` reads of FR at a time, `uart_hex` returns,
-- and it has sent "0x" and sixteen digits that read back as the number, as an `unsigned long`.
pub uart_hex-Printed :
    {D : Type 0} (bus : Bus D) (polls : ℕ) (t : Transmitter bus polls) (num : ℕ) (d : D)
    → Returns (λ d'. Printed num (t.sent d) (t.sent d')) (uart_hex bus polls num d)
unfolding uart_hex
uart_hex-Printed bus polls t num d =
    Returns-bind (λ d₁. t.sent d₁ ≡ t.sent d ++ text "0x")
      (λ d'. Printed num (t.sent d) (t.sent d')) (uart_puts bus polls (text "0x") d)
      (λ d₁. uart_puts bus polls (hex_digits 16 num) d₁) (uart_puts-sent bus polls t (text "0x") d)
      (λ d₁ e.
        Returns-mono (λ d'. t.sent d' ≡ t.sent d₁ ++ as_bytes (hex_digits 16 num))
          (λ d'. Printed num (t.sent d) (t.sent d')) (uart_puts bus polls (hex_digits 16 num) d₁)
          (uart_puts-sent bus polls t (hex_digits 16 num) d₁)
          (λ d' s.
            let digits = hex_digits 16 num in
            let same : as_bytes digits ≡ digits = as_bytes-hex_digits 16 num in
            let value = hex_value-hex_digits 16 0 num in
            (digits, cc (s, e, same), length-hex_digits 16 num, value ∙ omega arith)))
