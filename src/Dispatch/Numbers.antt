-- ===== src/Dispatch/Numbers.antt =====
-- The numbers of the system calls in common/syscalls_types.h.
use demos_os.Base.{
  ℕ, ◌≡◌, refl, Option, none, some, List, [], ◌∷◌, arith, ◌==◌, if◌then◌else◌, Bool-cases, inl, inr,
}

pub data SystemCall : Type 0 where
  write malloc exit create_dir open_dir open_file close_file write_file read_file yield_cpu input :
      SystemCall
  get_next_entry fork send_message receive_message send_signal exec wait write_hex get_time :
      SystemCall
  set_sched_param get_pid : SystemCall

abbrev pub number_of : SystemCall → ℕ
number_of write = 0
number_of malloc = 1
number_of exit = 2
number_of create_dir = 3
number_of open_dir = 4
number_of open_file = 5
number_of close_file = 6
number_of write_file = 7
number_of read_file = 8
number_of yield_cpu = 9
number_of input = 10
number_of get_next_entry = 11
number_of fork = 12
number_of send_message = 13
number_of receive_message = 14
number_of send_signal = 15
number_of exec = 16
number_of wait = 17
number_of write_hex = 18
number_of get_time = 19
number_of set_sched_param = 20
number_of get_pid = 21

-- The cases of the `switch`, in its order.
abbrev pub switch_cases : List SystemCall
switch_cases =
    write ∷ write_hex ∷ malloc ∷ exit ∷ create_dir ∷ open_dir ∷ open_file ∷ close_file ∷ write_file
    ∷ read_file ∷ yield_cpu ∷ input ∷ get_next_entry ∷ fork ∷ send_message ∷ receive_message
    ∷ send_signal ∷ exec ∷ wait ∷ get_time ∷ set_sched_param ∷ get_pid ∷ []

unfoldable pub find_case : List SystemCall → ℕ → Option SystemCall
find_case [] n = none
find_case (c ∷ cs) n = let rest = find_case cs n in if n == number_of c then some c else rest

-- The case that the `switch` chooses; none for a number that it does not name.
abbrev pub call_of : ℕ → Option SystemCall
call_of n = find_case switch_cases n

-- `SYSCALLS_NUMBER`, which is the highest number, not how many there are.
abbrev pub syscalls_number : ℕ
syscalls_number = 21

-- What the `switch` chooses for a number.
abbrev pub Chosen : ℕ → Option SystemCall → Type 0
Chosen n none = Unit
Chosen n (some c) = number_of c ≡ n

find_case-Chosen : (cs : List SystemCall) (n : ℕ) → Chosen n (find_case cs n)
unfolding find_case
find_case-Chosen [] n = tt
find_case-Chosen (c ∷ cs) n = elim (Bool-cases (n == number_of c)) [
  | inl here ↦ rw (here, find_case) (ground arith)
  | inr later ↦ rw (later, find_case) (find_case-Chosen cs n)
]

pub call_of-Chosen : (n : ℕ) → Chosen n (call_of n)
call_of-Chosen n = find_case-Chosen switch_cases n

-- Each of the calls is chosen by its own number.
pub call_of-number_of : (c : SystemCall) → call_of (number_of c) ≡ some c
unfolding find_case
call_of-number_of c = elim c as (λ z. call_of (number_of z) ≡ some z) [
  | write ↦ refl
  | malloc ↦ refl
  | exit ↦ refl
  | create_dir ↦ refl
  | open_dir ↦ refl
  | open_file ↦ refl
  | close_file ↦ refl
  | write_file ↦ refl
  | read_file ↦ refl
  | yield_cpu ↦ refl
  | input ↦ refl
  | get_next_entry ↦ refl
  | fork ↦ refl
  | send_message ↦ refl
  | receive_message ↦ refl
  | send_signal ↦ refl
  | exec ↦ refl
  | wait ↦ refl
  | write_hex ↦ refl
  | get_time ↦ refl
  | set_sched_param ↦ refl
  | get_pid ↦ refl
]
