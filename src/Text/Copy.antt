-- ===== src/Text/Copy.antt =====
-- What the copies of common/string.c write.
use demos_os.Base.{
  ℕ, zero, suc, ◌+◌, ◌-◌, ◌<◌, ◌≡◌, ◌≢◌, true, false, ◌&&◌, arith, leb, ap, ◌∙◌, ◌==◌,
  if◌then◌else◌,
}
use demos_os.Base.Run.{ok, Returns, Returns-mono}
use demos_os.Text.{Chars, write, strlen_from, copy_from, strcpy, strcat}

-- The text at `str + i` has `n` bytes, and its terminator follows.
abbrev pub IsText : (n : ℕ) → Chars → (i : ℕ) → Type 0
IsText zero str i = str i ≡ 0
IsText (suc n) str i = (str i ≢ 0) × IsText n str (i + 1)

-- `dest`, with the text of `n` bytes at `src + i` and its terminator from `j` on.
abbrev pub pasted : (n : ℕ) → (dest src : Chars) → (j i : ℕ) → Chars
pasted n dest src j i m = if leb j m && leb m (j + n) then src (i + (m - j)) else dest m

copy_from-pasted :
    (fuel n : ℕ) (dest src : Chars) (j i : ℕ)
    → n < fuel
    → IsText n src i
    → Returns (λ d. (m : ℕ) → d m ≡ pasted n dest src j i m) (copy_from fuel dest src j i)
unfolding copy_from
copy_from-pasted zero n dest src j i h t = absurd (omega arith)
copy_from-pasted (suc fuel) zero dest src j i h t =
    let ends : (src i == 0) ≡ true = ground arith in rw (copy_from, ends) (λ m. ground arith)
copy_from-pasted (suc fuel) (suc n) dest src j i h t =
    let on : (src i == 0) ≡ false = ground (arith, t.0) in
    rw (copy_from, on)
      (Returns-mono (λ d. (m : ℕ) → d m ≡ pasted n (write dest j (src i)) src (j + 1) (i + 1) m) _
        (copy_from fuel (write dest j (src i)) src (j + 1) (i + 1))
        (copy_from-pasted fuel n (write dest j (src i)) src (j + 1) (i + 1) (omega arith) t.1)
        (λ d f m. ground (arith, f m)))

strlen_from-eq :
    (fuel n : ℕ) (str : Chars) (i : ℕ)
    → n < fuel
    → IsText n str i
    → strlen_from fuel str i ≡ ok (i + n)
unfolding strlen_from
strlen_from-eq zero n str i h t = absurd (omega arith)
strlen_from-eq (suc fuel) zero str i h t =
    let ends : (str i == 0) ≡ true = ground arith in rw (strlen_from, ends) (ground arith)
strlen_from-eq (suc fuel) (suc n) str i h t =
    let on : (str i == 0) ≡ false = ground (arith, t.0) in
    rw (strlen_from, on, strlen_from-eq fuel n str (i + 1) (omega arith) t.1) (ground arith)

-- With fuel for each byte of the text and its terminator, `strcpy` ends, and copies the text with its terminator to the start of `dest`, and writes no other
-- byte.
pub strcpy-pasted :
    (fuel n : ℕ) (dest src : Chars)
    → n < fuel
    → IsText n src 0
    → Returns (λ d. (m : ℕ) → d m ≡ pasted n dest src 0 0 m) (strcpy fuel dest src)
unfolding strcpy
strcpy-pasted fuel n dest src h t = copy_from-pasted fuel n dest src 0 0 h t

-- With fuel for each byte of the two texts and their terminators, `strcat` ends, and copies the text with its terminator behind the text that `dest` holds, over its
-- terminator, and writes no other byte.
pub strcat-pasted :
    (fuel l n : ℕ) (dest src : Chars)
    → l < fuel
    → n < fuel
    → IsText l dest 0
    → IsText n src 0
    → Returns (λ d. (m : ℕ) → d m ≡ pasted n dest src l 0 m) (strcat fuel dest src)
unfolding strcat
strcat-pasted fuel l n dest src h g u t =
    let end : strlen_from fuel dest 0 ≡ ok l =
      strlen_from-eq fuel l dest 0 h u ∙ ap ok (omega arith) in
    rw end (copy_from-pasted fuel n dest src l 0 g t)
