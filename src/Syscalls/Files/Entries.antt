-- ===== src/Syscalls/Files/Entries.antt =====
-- `syscall_get_next_entry` of libs/syscalls.c.
use demos_os.Base.{
  ℕ, ◌<◌, ◌≤◌, ◌≡◌, ◌≢◌, refl, Bool, true, false, not, ◌||◌, ltb, ◌==◌, if◌then◌else◌, arith,
}
use demos_os.Base.Int.{ℤ, pos, negsuc, ◌==ℤ◌, pos_part}
use demos_os.Base.Run.{Run, ok, fault, Returns}
use demos_os.Base.Bits.{test_bit}
use demos_os.Pcb.{Ptr, null, max_files_per_process}
use demos_os.Sched.{current}
use demos_os.Syscalls.Files.{Files, in_slots}

-- What the call reads of the library's `DirInfo`.
pub record DirInfo : Type 0 where
  pub name : ℕ → ℕ
  pub name_len : ℕ
  pub attr : ℕ

-- `FatEntryInfo`, without the size, which the call leaves alone.
pub record FatEntryInfo : Type 0 where
  pub name : ℕ → ℕ
  pub is_dir : Bool

-- `FAT_MAX_NAME_SIZE`
abbrev pub fat_max_name_size : ℕ
fat_max_name_size = 64

-- `FAT_ATTR_DIR` is bit 4.
abbrev pub fat_attr_dir_bit : ℕ
fat_attr_dir_bit = 4

abbrev pub copied_size : DirInfo → ℕ
copied_size d = if ltb d.name_len 255 then d.name_len else 255

-- The entry behind the copy; the code writes no terminator.
abbrev pub fill_entry : DirInfo → FatEntryInfo → FatEntryInfo
fill_entry d info = record {
  name = λ i. if ltb i (copied_size d) then d.name i else info.name i;
  is_dir = test_bit d.attr fat_attr_dir_bit;
}

module _ {Fat : Type 0} (fat_dir_read : Ptr → Fat → ℤ × DirInfo × Fat)
    (fat_dir_next : Ptr → Fat → ℤ × Fat) where
  -- A slot that is empty is a read through NULL, and a name that is longer than the entry's array a
  -- write behind it.
  unfoldable pub syscall_get_next_entry :
      (file_descriptor : ℤ) → FatEntryInfo → Files Fat → Run (ℤ × FatEntryInfo × Files Fat)
  syscall_get_next_entry file_descriptor info s =
      let r = (current s.kernel).files (pos_part file_descriptor) in
      let dir = (s.resources r).pointer in
      let (error, d, fat) = fat_dir_read dir s.fat in
      let (error', fat') = fat_dir_next dir fat in
      let status = if error' ==ℤ pos 0 then pos 0 else negsuc 0 in
      if not (in_slots file_descriptor) || r == null
      then fault
      else if dir == null
      then ok (negsuc 0, info, s)
      else if not (error ==ℤ pos 0)
      then ok (negsuc 0, info, record s { fat = fat })
      else if ltb fat_max_name_size (copied_size d)
      then fault
      else ok (status, fill_entry d info, record s { fat = fat' })

  -- On an open directory of which the library reads an entry with a name of at most 64 bytes, the call
  -- returns, hands out the name byte by byte, keeps what the array held behind it, and moves the
  -- directory on; its status is 0 if the library moved, and -1 if not.
  pub syscall_get_next_entry-fill_entry :
      (fd : ℕ) (info : FatEntryInfo) (s : Files Fat) (d : DirInfo) (fat : Fat)
      → let dir = (s.resources ((current s.kernel).files fd)).pointer in
        fd < max_files_per_process
        → (current s.kernel).files fd ≢ null
        → dir ≢ null
        → fat_dir_read dir s.fat ≡ (pos 0, d, fat)
        → d.name_len ≤ 64
        → Returns
            (λ (status, info', s').
              ((i : ℕ) → info'.name i ≡ (if ltb i d.name_len then d.name i else info.name i))
              × (s'.kernel ≡ s.kernel)
              × (s'.fat ≡ (fat_dir_next dir fat).1)
              × (status ≡ (if (fat_dir_next dir fat).0 ==ℤ pos 0 then pos 0 else negsuc 0)))
            (syscall_get_next_entry (pos fd) info s)
  unfolding syscall_get_next_entry
  syscall_get_next_entry-fill_entry fd info s d fat small used opened reads short =
      let r = (current s.kernel).files fd in
      let dir = (s.resources r).pointer in
      let in_use : (not (in_slots (pos fd)) || r == null) ≡ false = ground arith in
      let is_open : (dir == null) ≡ false = ground arith in
      let fits : ltb fat_max_name_size (copied_size d) ≡ false = ground arith in
      rw (in_use, is_open, reads, fits) (λ i. ground arith, refl, refl, refl)

  -- A longer name is written behind the array.
  pub syscall_get_next_entry-fault :
      (fd : ℕ) (info : FatEntryInfo) (s : Files Fat) (d : DirInfo) (fat : Fat)
      → let dir = (s.resources ((current s.kernel).files fd)).pointer in
        fd < max_files_per_process
        → (current s.kernel).files fd ≢ null
        → dir ≢ null
        → fat_dir_read dir s.fat ≡ (pos 0, d, fat)
        → 64 < d.name_len
        → syscall_get_next_entry (pos fd) info s ≡ fault
  unfolding syscall_get_next_entry
  syscall_get_next_entry-fault fd info s d fat small used opened reads long =
      let r = (current s.kernel).files fd in
      let dir = (s.resources r).pointer in
      let in_use : (not (in_slots (pos fd)) || r == null) ≡ false = ground arith in
      let is_open : (dir == null) ≡ false = ground arith in
      let too_long : ltb fat_max_name_size (copied_size d) ≡ true = ground arith in
      rw (in_use, is_open, reads, too_long) refl
