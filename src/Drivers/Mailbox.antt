-- ===== src/Drivers/Mailbox.antt =====
-- drivers/mbox/mbox.c: a call of the graphics processor through the mailbox. The message buffer is an
-- array of words that both sides write, so it is part of the hardware's state.
use demos_os.Base.{ℕ, zero, suc, ◌+◌, ◌-◌, ◌%◌, Bool, ◌==◌, if◌then◌else◌, List, [], ◌∷◌}
use demos_os.Base.Bits.{test_bit}
use demos_os.Base.Run.{Run, ok, out_of_fuel, ◌>>=◌}
use demos_os.Memory.{va_start}
use demos_os.Drivers.{Bus, mmio_read, mmio_write}

abbrev pub mbox_read : ℕ
mbox_read = 0xb880

abbrev pub mbox_status : ℕ
mbox_status = 0xb898

abbrev pub mbox_write : ℕ
mbox_write = 0xb8a0

-- `MBOX_FULL` is bit 31, `MBOX_EMPTY` bit 30.
abbrev pub mbox_full_bit : ℕ
mbox_full_bit = 31

abbrev pub mbox_empty_bit : ℕ
mbox_empty_bit = 30

abbrev pub mbox_response : ℕ
mbox_response = 0x8000_0000

abbrev pub mbox_ch_prop : ℕ
mbox_ch_prop = 8

-- The access to the array `mbox`, and its virtual address.
pub record Mailbox (D : Type 0) : Type 0 where
  pub get : (i : ℕ) → D → ℕ
  pub set : (i value : ℕ) → D → D
  pub address : ℕ

module _ {D : Type 0} (bus : Bus D) (mbox : Mailbox D) (polls : ℕ) where
  -- The words from the `i`-th on.
  abbrev pub set_words : (i : ℕ) → List ℕ → D → D
  set_words i [] d = d
  set_words i (w ∷ ws) d = set_words (i + 1) ws (mbox.set i w d)

  -- `r`: the physical address of the buffer, aligned to 16, with the channel in the low bits.
  abbrev pub mail : (channel : ℕ) → ℕ
  mail channel =
      let physical_mbox = mbox.address - va_start in
      physical_mbox - physical_mbox % 16 + channel % 16

  unfoldable pub wait_not_full : (rounds : ℕ) → D → Run D
  wait_not_full zero d = out_of_fuel
  wait_not_full (suc rounds) d =
      let (status, d') = mmio_read bus mbox_status d in
      let rest = wait_not_full rounds d' in if test_bit status mbox_full_bit then rest else ok d'

  -- A word is read only if the mailbox is not empty, and one that is not the answer is thrown away.
  unfoldable pub wait_answer : (rounds r : ℕ) → D → Run D
  wait_answer zero r d = out_of_fuel
  wait_answer (suc rounds) r d =
      let (status, d') = mmio_read bus mbox_status d in
      let (word, d'') = mmio_read bus mbox_read d' in
      let empty = wait_answer rounds r d' in
      let other = wait_answer rounds r d'' in
      if test_bit status mbox_empty_bit then empty else if word == r then ok d'' else other

  unfoldable pub mbox_call : (channel : ℕ) → D → Run (Bool × D)
  mbox_call channel d =
      let r = mail channel in
      wait_not_full polls d >>= λ d₁. wait_answer polls r (mmio_write bus mbox_write r d₁) >>= λ d₂.
      ok (mbox.get 1 d₂ == mbox_response, d₂)
