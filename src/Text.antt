-- ===== src/Text.antt =====
-- common/string.c. A `char*` is a function from the offset to the byte; each loop runs on fuel.
pub mod Copy
pub mod Number
use demos_os.Base.{ℕ, zero, suc, ◌+◌, Bool, true, false, not, ◌&&◌, ◌||◌, ◌==◌, if◌then◌else◌}
use demos_os.Base.Run.{Run, ok, out_of_fuel, ◌>>=◌}

-- `char[]`
abbrev pub Chars : Type 0
Chars = ℕ → ℕ

abbrev pub write : Chars → ℕ → ℕ → Chars
write s i c j = if j == i then c else s j

pub strlen_from : ℕ → Chars → (len : ℕ) → Run ℕ
strlen_from zero str len = out_of_fuel
strlen_from (suc fuel) str len =
    let rest = strlen_from fuel str (len + 1) in if str len == 0 then ok len else rest

unfoldable pub strlen : ℕ → Chars → Run ℕ
strlen fuel str = strlen_from fuel str 0

-- The copy of `src` from `i` on to `dest` from `j` on, with the terminator.
pub copy_from : ℕ → (dest src : Chars) → (j i : ℕ) → Run Chars
copy_from zero dest src j i = out_of_fuel
copy_from (suc fuel) dest src j i =
    let rest = copy_from fuel (write dest j (src i)) src (j + 1) (i + 1) in
    if src i == 0 then ok (write dest j 0) else rest

unfoldable pub strcpy : ℕ → (dest src : Chars) → Run Chars
strcpy fuel dest src = copy_from fuel dest src 0 0

-- The walk to the end of `dest` is that of `strlen`; the two strings do not overlap.
unfoldable pub strcat : ℕ → (dest src : Chars) → Run Chars
strcat fuel dest src = strlen_from fuel dest 0 >>= λ end. copy_from fuel dest src end 0

-- 0 if the first `size` bytes agree, else 1.
strcmp_from : (rounds i : ℕ) → (src1 src2 : Chars) → ℕ
strcmp_from zero i src1 src2 = 0
strcmp_from (suc rounds) i src1 src2 =
    let rest = strcmp_from rounds (i + 1) src1 src2 in if src1 i == src2 i then rest else 1

pub strcmp : (src1 src2 : Chars) → (size : ℕ) → ℕ
strcmp src1 src2 size = strcmp_from size 0 src1 src2

-- The end of the text, a carriage return or a line feed.
abbrev pub ends_line : ℕ → Bool
ends_line c = c == 0 || c == 13 || c == 10

-- The inner loop of `strsplit`: the rest of the line goes to `dest2`, with no terminator.
split_rest : ℕ → (src dest2 : Chars) → (i j : ℕ) → Run (ℕ × Chars)
split_rest zero src dest2 i j = out_of_fuel
split_rest (suc fuel) src dest2 i j =
    let rest = split_rest fuel src (write dest2 j (src i)) (i + 1) (j + 1) in
    if ends_line (src i) then ok (i, dest2) else rest

-- The outer loop. Behind the inner one the pointer stands at the end of the line, so it stops.
split_line : ℕ → (delimiter : ℕ) → (src dest1 dest2 : Chars) → (i j : ℕ) → Run (Chars × Chars)
split_line zero delimiter src dest1 dest2 i j = out_of_fuel
split_line (suc fuel) delimiter src dest1 dest2 i j =
    let rest = split_line fuel delimiter src (write dest1 j (src i)) dest2 (i + 1) (j + 1) in
    let second = split_rest fuel src dest2 (i + 1) 0 >>= λ (i', dest2').
    split_line fuel delimiter src (write dest1 j 0) dest2' i' j in
    if ends_line (src i) then ok (dest1, dest2) else if src i == delimiter then second else rest

pub strsplit : ℕ → (src : Chars) → (delimiter : ℕ) → (dest1 dest2 : Chars) → Run (Chars × Chars)
strsplit fuel src delimiter dest1 dest2 = split_line fuel delimiter src dest1 dest2 0 0
