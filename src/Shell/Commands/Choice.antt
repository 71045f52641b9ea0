-- ===== src/Shell/Commands/Choice.antt =====
-- Which command of the shell a line chooses.
use demos_os.Base.{◌≡◌, ◌≢◌, refl, true, false, arith}
use demos_os.Text.{Chars}
use demos_os.Shell.Commands.Launch.{
  Command, help, ls, pwd, mkdir, cd, tree, clear, write_file, show, exec, from_bin, names,
  command_of,
}

-- The names exclude one another.
by_name :
    (buffer : Chars) (c : Command) → c ≢ from_bin → names c buffer ≡ true → command_of buffer ≡ c
unfolding command_of
by_name buffer help ne h = ground arith
by_name buffer ls ne h = ground arith
by_name buffer pwd ne h = ground arith
by_name buffer mkdir ne h = ground arith
by_name buffer cd ne h = ground arith
by_name buffer tree ne h = ground arith
by_name buffer clear ne h = ground arith
by_name buffer write_file ne h = ground arith
by_name buffer show ne h = ground arith
by_name buffer exec ne h = ground arith
by_name buffer from_bin ne h = absurd (ne refl)

-- A line that begins with the name of a command chooses that command, whatever follows the name: no
-- name hides another one. A line that begins with no name is left to the programs in /bin.
pub command_of-names :
    (buffer : Chars)
    → ((c : Command) → c ≢ from_bin → names c buffer ≡ true → command_of buffer ≡ c)
      × (((c : Command) → c ≢ from_bin → names c buffer ≡ false) → command_of buffer ≡ from_bin)
unfolding command_of
command_of-names buffer = (
  by_name buffer,
  λ none_named.
      rw
        (
          none_named help (λ e. cc),
          none_named ls (λ e. cc),
          none_named pwd (λ e. cc),
          none_named mkdir (λ e. cc),
          none_named cd (λ e. cc),
          none_named tree (λ e. cc),
          none_named clear (λ e. cc),
          none_named write_file (λ e. cc),
          none_named show (λ e. cc),
          none_named exec (λ e. cc),
        )
        refl,
)
