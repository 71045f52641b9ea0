-- ===== src/Syscalls/Files/Descriptors.antt =====
-- What becomes of the slots of a process's files.
use demos_os.Base.{
  List, ℕ, ◌+◌, ◌<◌, ◌≡◌, ◌≢◌, refl, true, false, not, ◌||◌, inl, inr, arith, ◌==◌, if◌then◌else◌,
}
use demos_os.Base.Int.{ℤ, pos, negsuc, ltb_ℤ}
use demos_os.Base.Run.{ok, fault, Returns, Returns-bind}
use demos_os.Pcb.{Ptr, null, max_files_per_process}
use demos_os.Sched.{current}
use demos_os.Memory.{
  Memory, va_start, n_pages, page_address, get_free_page, allocate_kernel_page, free_page,
}
use demos_os.Memory.Pages.{Allocated, get_free_page-Allocated, free_page-page_address}
use demos_os.Syscalls.Files.{
  Files, in_slots, syscall_close_file, syscall_write_file, syscall_read_file,
}

-- An allocation with a free page finds one, whose kernel address is not 0.
Allocated-some :
    (m : Memory) (t : ℕ × Memory) (i : ℕ)
    → i < n_pages
    → m.memory_pages i ≡ 0
    → Allocated m t
    → (if◌then◌else◌ {A = ℕ × Memory} (t.0 == 0) (0, t.1) (t.0 + va_start, t.1)).0 ≢ 0
Allocated-some m (page, m') i h free (inl (e, full, same)) = absurd (full i h free)
Allocated-some m (page, m') i h free (inr (j, lt, e, u, marks, zeroes, rest)) = ground arith

-- With a free page the kernel gets one.
allocate_kernel_page-ne :
    (m : Memory) (i : ℕ) → i < n_pages → m.memory_pages i ≡ 0 → (allocate_kernel_page m).0 ≢ 0
unfolding allocate_kernel_page
allocate_kernel_page-ne m i h free =
    Allocated-some m (get_free_page m) i h free (get_free_page-Allocated m)

-- A close that succeeds, of an open descriptor whose object stands in page `i`, does not free the
-- descriptor: its slot is not NULL afterwards, and the other slots stay as they are.
pub syscall_close_file-keeps_slot :
    {Fat : Type 0} (fat_file_close : Ptr → Fat → ℤ × Fat) (fd i : ℕ) (s : Files Fat)
    → fd < max_files_per_process
    → (current s.kernel).files fd ≢ null
    → i < n_pages
    → (s.resources ((current s.kernel).files fd)).pointer ≡ page_address i + va_start
    → (fat_file_close (page_address i + va_start) s.fat).0 ≡ pos 0
    → Returns
        (λ (status, s').
          (status ≡ pos 0)
          × ((current s'.kernel).files fd ≢ null)
          × ((j : ℕ) → j ≢ fd → (current s'.kernel).files j ≡ (current s.kernel).files j))
        (syscall_close_file fat_file_close (pos fd) s)
unfolding syscall_close_file
syscall_close_file-keeps_slot {Fat} fat_file_close fd i s small used h object closes =
    let in_range : (ltb_ℤ (pos fd) (pos 0) || not (ltb_ℤ (pos fd) (pos max_files_per_process)))
        ≡ false =
      ground arith in
    let in_use : ((current s.kernel).files fd == null) ≡ false = ground arith in
    let k = s.kernel in
    let p_ok : (k.current_process == k.current_process) ≡ true = ground arith in
    let fd_ok : (fd == fd) ≡ true = ground arith in
    rw (in_range, in_use, object, closes)
      (Returns-bind
        (λ (status, m).
          (status ≡ pos 0)
          × ((j : ℕ) → m.memory_pages j ≡ (if j == i then 0 else s.memory.memory_pages j)))
        _ (free_page (page_address i + va_start) s.memory) _ (free_page-page_address s.memory i h)
        (λ (status, m) (e, marks).
          let free : m.memory_pages i ≡ 0 = ground (arith, marks i) in
          rw (p_ok, fd_ok) (refl, allocate_kernel_page-ne m i h free, λ j ne. ground arith)))

-- On an empty slot of the array a write is refused and changes nothing, while a read and a close go through the
-- NULL pointer.
pub syscall_read_file-null :
    {Fat : Type 0} (write : Ptr → List ℕ → Fat → ℤ × ℕ × Fat) (seek : Ptr → Fat → Fat)
    (read : Ptr → ℕ → Fat → ℤ × List ℕ × Fat) (close : Ptr → Fat → ℤ × Fat) (fd len : ℕ)
    (bytes : List ℕ) (s : Files Fat)
    → fd < max_files_per_process
    → (current s.kernel).files fd ≡ null
    → (syscall_write_file write (pos fd) bytes s ≡ ok (negsuc 0, 0, s))
      × (syscall_read_file seek read (pos fd) len s ≡ fault)
      × (syscall_close_file close (pos fd) s ≡ fault)
unfolding syscall_write_file syscall_read_file syscall_close_file
syscall_read_file-null {Fat} write seek read close fd len bytes s small empty =
    let in_range : in_slots (pos fd) ≡ true = ground arith in
    let none_open : ((current s.kernel).files fd == null) ≡ true = ground arith in
    let close_range : (ltb_ℤ (pos fd) (pos 0) || not (ltb_ℤ (pos fd) (pos max_files_per_process)))
        ≡ false =
      ground arith in
    rw (in_range, close_range, none_open) (refl, refl, refl)
