-- ===== src/Shell/Commands/Words.antt =====
-- How `handle_write` splits its line.
use demos_os.Base.{
  ℕ, zero, suc, ◌+◌, ◌-◌, ◌<◌, ◌≡◌, refl, ap, ◌∙◌, true, false, ◌&&◌, Bool, arith, ltb, leb, ◌==◌,
  if◌then◌else◌,
}
use demos_os.Base.Run.{ok, fault, Returns, Returns-bind, Returns-mono}
use demos_os.Text.{Chars, write}
use demos_os.Shell.Commands.{max_command_dimension, text_fuel, zeroed}
use demos_os.Shell.Commands.Line.{ends_text, ends_word, skip_until, copy_until, split_write}

-- From `p` on `n` bytes go before the first one that ends the word.
abbrev pub IsWord : (n : ℕ) → (ℕ → Bool) → Chars → (p : ℕ) → Type 0
IsWord zero ends buffer p = ends (buffer p) ≡ true
IsWord (suc n) ends buffer p = (ends (buffer p) ≡ false) × IsWord n ends buffer (p + 1)

skip_until-IsWord :
    (fuel n : ℕ) (ends : ℕ → Bool) (buffer : Chars) (p : ℕ)
    → n < fuel
    → p + n < max_command_dimension
    → IsWord n ends buffer p
    → skip_until fuel ends buffer p ≡ ok (p + n)
unfolding skip_until
skip_until-IsWord zero n ends buffer p h room w = absurd (omega arith)
skip_until-IsWord (suc fuel) zero ends buffer p h room w =
    let inside : ltb p max_command_dimension ≡ true = ground arith in
    rw (skip_until, inside, w) (ap ok (omega arith))
skip_until-IsWord (suc fuel) (suc n) ends buffer p h room (e, w) =
    let inside : ltb p max_command_dimension ≡ true = ground arith in
    rw (skip_until, inside, e)
      (skip_until-IsWord fuel n ends buffer (p + 1) (omega (arith, h)) (omega (arith, room)) w
        ∙ ap ok (omega arith))

-- `dest` with the `n` bytes at `buffer + p` and a terminator from `i` on.
abbrev pub copied : (n : ℕ) → (buffer dest : Chars) → (p i : ℕ) → Chars
copied n buffer dest p i m =
    if m == i + n then 0 else if leb i m && ltb m (i + n) then buffer (p + (m - i)) else dest m

abbrev Copied : (n : ℕ) → (buffer dest : Chars) → (p i : ℕ) → Chars × ℕ × ℕ → Type 0
Copied n buffer dest p i (d, len, q) =
    ((m : ℕ) → d m ≡ copied n buffer dest p i m) × (len ≡ i + n) × (q ≡ p + n)

copy_until-Copied :
    (fuel n : ℕ) (ends : ℕ → Bool) (buffer : Chars) (p : ℕ) (dest : Chars) (i : ℕ)
    → n < fuel
    → p + n < max_command_dimension
    → i + n < max_command_dimension
    → IsWord n ends buffer p
    → Returns (Copied n buffer dest p i) (copy_until fuel ends buffer p dest i)
unfolding copy_until
copy_until-Copied zero n ends buffer p dest i h room fits w = absurd (omega arith)
copy_until-Copied (suc fuel) zero ends buffer p dest i h room fits w =
    let inside : ltb p max_command_dimension ≡ true = ground arith in
    let inside_dest : ltb i max_command_dimension ≡ true = ground arith in
    rw (copy_until, inside, inside_dest, w) (λ m. ground arith, omega arith, omega arith)
copy_until-Copied (suc fuel) (suc n) ends buffer p dest i h room fits (e, w) =
    let inside : ltb p max_command_dimension ≡ true = ground arith in
    let inside_dest : ltb i max_command_dimension ≡ true = ground arith in
    let dest' = write dest i (buffer p) in
    rw (copy_until, inside, inside_dest, e)
      (Returns-mono (Copied n buffer dest' (p + 1) (i + 1)) (Copied (suc n) buffer dest p i)
        (copy_until fuel ends buffer (p + 1) dest' (i + 1))
        (copy_until-Copied fuel n ends buffer (p + 1) dest' (i + 1) (omega (arith, h))
          (omega (arith, room)) (omega (arith, fits)) w)
        (λ (d, len, q) (f, g, k). (λ m. ground (arith, f m), omega (arith, g), omega (arith, k))))

-- The outcome of the split: three words and two blanks.
abbrev pub Split : (a b c : ℕ) → Chars → Chars × Chars × ℕ → Type 0
Split a b c buffer (file_name, content, i) =
    ((m : ℕ) → file_name m ≡ copied b buffer zeroed (a + 1) 0 m)
    × ((m : ℕ) → content m ≡ copied c buffer zeroed (a + b + 2) 0 m)
    × (i ≡ c)

-- A line of a command of `a` bytes, a name of `b` bytes and a content of `c` bytes, each behind one
-- blank, that fits the buffer of 64 bytes with its terminator, is split without a fault: the name and
-- the content are those bytes, each with its terminator, and `i` is the length of the content.
pub split_write-Split :
    (a b c : ℕ) (buffer : Chars)
    → a + b + c + 2 < max_command_dimension
    → IsWord a ends_word buffer 0
    → IsWord b ends_word buffer (a + 1)
    → IsWord c ends_text buffer (a + b + 2)
    → Returns (Split a b c buffer) (split_write buffer)
unfolding split_write
split_write-Split a b c buffer fits u v w =
    let p : skip_until text_fuel ends_word buffer 0 ≡ ok a =
      skip_until-IsWord text_fuel a ends_word buffer 0 (omega (arith, fits)) (omega (arith, fits)) u
      ∙ ap ok (omega arith) in
    rw p (
      Returns-bind (Copied b buffer zeroed (a + 1) 0) (Split a b c buffer)
        (copy_until text_fuel ends_word buffer (a + 1) zeroed 0) _
        (copy_until-Copied text_fuel b ends_word buffer (a + 1) zeroed 0 (omega (arith, fits))
          (omega (arith, fits)) (omega (arith, fits)) v)
        (λ (name, n, q) (f, g, k).
          let next : q + 1 ≡ a + b + 2 = omega (arith, k) in
          rw next (
            Returns-bind (Copied c buffer zeroed (a + b + 2) 0) (Split a b c buffer)
              (copy_until text_fuel ends_text buffer (a + b + 2) zeroed 0) _
              (copy_until-Copied text_fuel c ends_text buffer (a + b + 2) zeroed 0
                (omega (arith, fits)) (omega (arith, fits)) (omega (arith, fits)) w)
              (λ (content, i, r) (f', g', k'). (f, f', g' ∙ omega arith)))))

-- A line of 63 bytes without a blank: the code steps over the terminator, which is the last byte of
-- the buffer, and reads behind the buffer.
pub split_write-fault : (buffer : Chars) → IsWord 63 ends_word buffer 0 → split_write buffer ≡ fault
unfolding split_write copy_until
split_write-fault buffer u =
    rw (skip_until-IsWord text_fuel 63 ends_word buffer 0 (omega arith) (omega arith) u) refl
