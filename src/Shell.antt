-- ===== src/Shell.antt =====
-- app/shell.c: the normalisation of a path. A `char*` is a function from the offset to the byte.
-- `Shell.Escape` proves where it writes, and what it does with a path that begins with "..".
pub mod Escape
pub mod Commands
use demos_os.Base.{ℕ, zero, suc, ◌+◌, ◌-◌, Bool, true, false, not, ◌&&◌, ◌||◌, ◌==◌, if◌then◌else◌}
use demos_os.Base.Int.{ℤ, pos, negsuc, ◌+ℤ◌, ◌-ℤ◌}
use demos_os.Base.Run.{Run, ok, fault, out_of_fuel, ◌>>=◌}
use demos_os.Text.{Chars, write}

-- `path[i] = c`; a write before the buffer is a fault.
abbrev pub put : Chars → ℤ → ℕ → Run Chars
put path (pos i) c = ok (write path i c)
put path (negsuc n) c = fault

-- `while (write > 0 && path[write - 1] != '/') write--`
abbrev pub back_up : Chars → ℤ → ℤ
back_up path (pos zero) = pos zero
back_up path (pos (suc n)) =
    let rest = back_up path (pos n) in if path n == b'/' then pos (suc n) else rest
back_up path (negsuc n) = negsuc n

-- The end of a part: a slash or the terminator.
abbrev pub ends_part : ℕ → Bool
ends_part c = c == b'/' || c == 0

-- "." and ".." as a part at `read`.
abbrev pub is_here : Chars → ℕ → Bool
is_here path read = path read == b'.' && ends_part (path (read + 1))

abbrev pub is_parent : Chars → ℕ → Bool
is_parent path read = path read == b'.' && path (read + 1) == b'.' && ends_part (path (read + 2))

-- Behind a part of `n` bytes, and the slash if there is one.
abbrev pub skip : Chars → ℕ → ℕ → ℕ
skip path read n = if path (read + n) == b'/' then read + n + 1 else read + n

-- Behind the loop: the terminator, and the root for an empty path.
abbrev pub finish : Chars → ℤ → Run Chars
finish path (pos zero) = ok (write (write path 0 b'/') 1 0)
finish path at = put path at 0

unfoldable pub normalize_from : ℕ → Chars → ℕ → ℤ → Run Chars
normalize_from zero path read at = out_of_fuel
normalize_from (suc fuel) path read at =
    let here = normalize_from fuel path (skip path read 1) at in
    let parent = normalize_from fuel path (skip path read 2) (back_up path (at -ℤ pos 1)) in
    let kept =
      put path at (path read) >>= λ path'. normalize_from fuel path' (read + 1) (at +ℤ pos 1) in
    if path read == 0
    then finish path at
    else if is_here path read
    then here
    else if is_parent path read
    then parent
    else kept

unfoldable pub normalize_path : ℕ → Chars → Run Chars
normalize_path fuel path = normalize_from fuel path 0 (pos 0)
